-- ===== src/Fs/Dir/Lookup.antt =====
-- dirlookup finds the first entry of a name.
use boss_os.Base.{
  List, Option, arith, get_or, none, refl, some, true, ℕ, ◌%◌, ◌*◌, ◌+◌, ◌<◌, ◌==◌, ◌≡◌,
}
use boss_os.Fs.Disk.{Disk, Super}
use boss_os.Fs.Inode.{Inode}
use boss_os.Fs.Rdwr.{Devsw}
use boss_os.Fs.Dir.{Scanned, dirent_size, dirlookup, found, is_named, scan_dir, t_dir}
use boss_os.Fs.Dir.Name.{HasName, InUse, is_named-false, is_named-true}
use boss_os.Fs.Dir.Scan.{IsDir, ScanEnd, entry_at, past, scan_dir-ScanEnd, stopped}

-- No entry in use before `end` has the name.
abbrev pub Unnamed : Inode → Disk → List ℕ → ℕ → Type 0
Unnamed dp d name end =
    (o : ℕ)
    → o < end
    → o % dirent_size ≡ 0
    → ¬ (InUse (entry_at dp d o) × HasName name (entry_at dp d o))

pub data LookupEnd (dp : Inode) (d : Disk) (name : List ℕ)
    : Option (Option (ℕ × ℕ) × Inode × Disk) → Type 0 where
  absent : Unnamed dp d name dp.size → LookupEnd dp d name (some (none, dp, d))
  first :
      {off : ℕ}
      → off < dp.size
      → off % dirent_size ≡ 0
      → InUse (entry_at dp d off)
      → HasName name (entry_at dp d off)
      → Unnamed dp d name off
      → LookupEnd dp d name (
          some (
            some (get_or (entry_at dp d off) 0 0 + 256 * get_or (entry_at dp d off) 1 0, off),
            dp,
            d,
          ))

found-LookupEnd :
    (dp : Inode) (d : Disk) (name : List ℕ) (r : Option Scanned)
    → ScanEnd dp d (is_named name) 0 r
    → LookupEnd dp d name (found r)
found-LookupEnd dp d name _ (past h) =
    absent (λ o lt al. is_named-false name (entry_at dp d o) (h o (omega arith) lt al))
found-LookupEnd dp d name _ (stopped {off} lo hi al here h) =
    let (used, has) = is_named-true name (entry_at dp d off) here in
    first hi al used has (λ o lt a. is_named-false name (entry_at dp d o) (h o (omega arith) lt a))

-- dirlookup in a directory of whole entries that is not too large and has its blocks: the number in the
-- first entry in use that has the name, and the offset of the entry, or nothing when no entry has it.
-- Nothing changes, and there is no panic.
pub dirlookup-LookupEnd :
    {A : Type 0} (devsw : Devsw A) (sb : Super) (dp : Inode) (name : List ℕ) (d : Disk)
    → IsDir dp d
    → LookupEnd dp d name (dirlookup devsw sb dp name d)
unfolding dirlookup
dirlookup-LookupEnd devsw sb dp name d w =
    let is_dir : (dp.type == t_dir) ≡ true = ground (arith, w.type) in
    rw is_dir (
      found-LookupEnd dp d name (scan_dir dp.size devsw sb (is_named name) 0 dp d) (
        scan_dir-ScanEnd devsw sb dp d w dp.size (is_named name) 0 (omega arith) (omega arith)
          refl))
