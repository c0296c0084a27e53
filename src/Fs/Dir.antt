-- ===== src/Fs/Dir.antt =====
-- fs.c: directories, which are files of entries of 16 bytes: the number of an inode and a name of up
-- to 14 bytes. The iget of the inode found, and the iput of it in dirlink, are left to the caller.
pub mod Scan
pub mod Name
pub mod Lookup
pub mod Link
mod Tests
use boss_os.Base.{
  Bool, List, Option, [], drop, false, get_or, if◌then◌else◌, length, ltb, none, not, some, suc,
  true, zero, ℕ, ◌%◌, ◌&&◌, ◌*◌, ◌+◌, ◌-◌, ◌/◌, ◌==◌, ◌∷◌,
}
use boss_os.Str.{Diff, Memory, strncmp, strncpy}
use boss_os.Fs.Path.{dir_size}
use boss_os.Fs.Disk.{Disk, Super}
use boss_os.Fs.Inode.{Inode, slice}
use boss_os.Fs.Rdwr.{Devsw, ReadiResult, WriteiResult, readi, writei}

abbrev pub t_dir : ℕ
t_dir = 1

-- sizeof(struct dirent)
abbrev pub dirent_size : ℕ
dirent_size = 16

-- `de.inum`, of the bytes of an entry.
abbrev pub entry_inum : List ℕ → ℕ
entry_inum bs = get_or bs 0 0 + 256 * get_or bs 1 0

-- `de.name`
abbrev pub entry_name : List ℕ → List ℕ
entry_name bs = drop 2 bs

-- Two names in a memory, at 0 and at 16; zeros follow each.
abbrev pub side_by_side : List ℕ → List ℕ → Memory
side_by_side s t i = if ltb i 16 then get_or s i 0 else get_or t (i - 16) 0

unfoldable pub namecmp : List ℕ → List ℕ → Diff
namecmp s t = strncmp 0 16 dir_size (side_by_side s t)

abbrev pub is_zero : Diff → Bool
is_zero (Diff.plus n) = n == 0
is_zero (Diff.minus n) = n == 0

-- `readi(dp, (char*)&de, off, sizeof(de)) != sizeof(de)` is a panic.
unfoldable pub whole_entry : {A : Type 0} → Option (ReadiResult A) → Option (List ℕ × Inode × Disk)
whole_entry none = none
whole_entry (some ReadiResult.failed) = none
whole_entry (some (ReadiResult.device a)) = none
whole_entry (some (ReadiResult.got bs ip d)) =
    if length bs == dirent_size then some (bs, ip, d) else none

-- The end of a loop over the entries: the entry that stopped it, if any, and the offset.
abbrev pub Scanned : Type 0
Scanned = Option (List ℕ) × ℕ × Inode × Disk

unfoldable pub scan_round :
    (ℕ → Inode → Disk → Option Scanned)
    → (List ℕ → Bool)
    → ℕ
    → Option (List ℕ × Inode × Disk)
    → Option Scanned
scan_round go stops off none = none
scan_round go stops off (some (bs, ip, d)) =
    let more = go (off + dirent_size) ip d in if stops bs then some (some bs, off, ip, d) else more

-- The loops of dirlookup and dirlink over the entries, from `off` on until one `stops`; with fuel.
unfoldable pub scan_dir :
    {A : Type 0} (fuel : ℕ)
    → Devsw A
    → Super
    → (stops : List ℕ → Bool) → (off : ℕ) → Inode
    → Disk
    → Option Scanned
scan_dir zero devsw sb stops off ip d = some (none, off, ip, d)
scan_dir (suc k) devsw sb stops off ip d =
    let more =
      scan_round (scan_dir k devsw sb stops) stops off
        (whole_entry (readi devsw sb ip off dirent_size d)) in
    if ltb off ip.size then more else some (none, off, ip, d)

-- `de.inum != 0 && namecmp(name, de.name) == 0`
abbrev pub is_named : List ℕ → List ℕ → Bool
is_named name bs = not (entry_inum bs == 0) && is_zero (namecmp name (entry_name bs))

abbrev pub is_unused : List ℕ → Bool
is_unused bs = entry_inum bs == 0

-- The number and the offset of the entry found.
abbrev pub found : Option Scanned → Option (Option (ℕ × ℕ) × Inode × Disk)
found none = none
found (some (none, off, ip, d)) = some (none, ip, d)
found (some (some bs, off, ip, d)) = some (some (entry_inum bs, off), ip, d)

-- `none` is a panic.
unfoldable pub dirlookup :
    {A : Type 0}
    → Devsw A
    → Super
    → (dp : Inode) → (name : List ℕ) → Disk
    → Option (Option (ℕ × ℕ) × Inode × Disk)
dirlookup devsw sb dp name d =
    if dp.type == t_dir then found (scan_dir dp.size devsw sb (is_named name) 0 dp d) else none

-- `strncpy(de.name, name, DIRSIZ); de.inum = inum;` on an entry read before. strncpy writes all 14
-- bytes of the name, so nothing of the old entry shows.
unfoldable pub new_entry : (name : List ℕ) → (inum : ℕ) → (old : List ℕ) → List ℕ
new_entry name inum old =
    inum % 256
    ∷ inum / 256 % 256
    ∷ slice (strncpy 16 0 dir_size (side_by_side name (entry_name old))) 16 dir_size

-- `writei(...) != sizeof(de)` is a panic.
unfoldable pub linked : {A : Type 0} → Option (WriteiResult A) → Option (Bool × Inode × Disk)
linked none = none
linked (some WriteiResult.refused) = none
linked (some (WriteiResult.device a)) = none
linked (some (WriteiResult.put n ip d)) = if n == dirent_size then some (true, ip, d) else none

abbrev pub or_blank : Option (List ℕ) → List ℕ
or_blank none = []
or_blank (some bs) = bs

unfoldable pub link_at :
    {A : Type 0} → Devsw A → Super → List ℕ → ℕ → Option Scanned → Option (Bool × Inode × Disk)
link_at devsw sb name inum none = none
link_at devsw sb name inum (some (old, off, dp, d)) =
    linked (writei devsw sb dp (new_entry name inum (or_blank old)) off d)

unfoldable pub link_new :
    {A : Type 0}
    → Devsw A
    → Super
    → List ℕ
    → ℕ
    → Option (Option (ℕ × ℕ) × Inode × Disk)
    → Option (Bool × Inode × Disk)
link_new devsw sb name inum none = none
link_new devsw sb name inum (some (some e, dp, d)) = some (false, dp, d)
link_new devsw sb name inum (some (none, dp, d)) =
    link_at devsw sb name inum (scan_dir dp.size devsw sb is_unused 0 dp d)

-- `false` for -1, `none` for a panic.
unfoldable pub dirlink :
    {A : Type 0}
    → Devsw A
    → Super
    → (dp : Inode) → (name : List ℕ) → (inum : ℕ) → Disk
    → Option (Bool × Inode × Disk)
dirlink devsw sb dp name inum d = link_new devsw sb name inum (dirlookup devsw sb dp name d)
