-- ===== src/Fs/Dir/Link.antt =====
-- dirlink writes an entry in the first place that is free.
use boss_os.Base.{
  Bool, Bool-cases, List, Option, [], ap, arith, false, get_or, get_or-drop, inl, inr, length, none,
  refl, some, subst, suc, sym, true, update, zero, ℕ, ◌%◌, ◌*◌, ◌+◌, ◌-◌, ◌<◌, ◌==◌, ◌∙◌, ◌≡◌, ◌≤◌,
  ◌⊎◌,
}
use boss_os.Str.{Memory, strncpy, zero_fill}
use boss_os.Fs.Disk.{Block, Disk, Super, bsize}
use boss_os.Fs.Path.{dir_size}
use boss_os.Fs.Bitmap.Bits.{IsBytes}
use boss_os.Fs.Inode.{Inode, maxfile, slice}
use boss_os.Fs.Inode.Slots.{Owns}
use boss_os.Fs.Inode.Entry.{AtMostOneFree}
use boss_os.Fs.Inode.Write.{Wrote}
use boss_os.Fs.Dinode.{iblock}
use boss_os.Fs.Rdwr.{Devsw, WriteiResult, writei}
use boss_os.Fs.Rdwr.Written.{Written}
use boss_os.Fs.Rdwr.Writing.{WriteiEnd, refused_end, stopped_end, writei-WriteiEnd, written_end}
use boss_os.Fs.Dir.{
  Scanned, dirent_size, dirlink, dirlookup, entry_name, is_unused, link_at, link_new, linked,
  new_entry, scan_dir, side_by_side,
}
use boss_os.Fs.Dir.Name.{HasName, InUse, dirent, new_entry-dirent}
use boss_os.Fs.Dir.Scan.{IsDir, ScanEnd, entry_at, past, scan_dir-ScanEnd, stopped}
use boss_os.Fs.Dir.Lookup.{LookupEnd, Unnamed, absent, dirlookup-LookupEnd, first}

abbrev pub SmallBytes : List ℕ → Type 0
SmallBytes bs = (i : ℕ) → get_or bs i 0 < 256

update-IsBytes : (m : Memory) (s v : ℕ) → v < 256 → IsBytes m → IsBytes (update m s v)
update-IsBytes m s v lt h i = ground (arith, h i)

zero_fill-IsBytes : (s n : ℕ) (m : Memory) → IsBytes m → IsBytes (zero_fill s n m)
unfolding zero_fill
zero_fill-IsBytes s zero m h = h
zero_fill-IsBytes s (suc n) m h =
    zero_fill-IsBytes (s + 1) n (update m s 0) (update-IsBytes m s 0 (omega arith) h)

strncpy-IsBytes : (s t n : ℕ) (m : Memory) → IsBytes m → IsBytes (strncpy s t n m)
unfolding strncpy
strncpy-IsBytes s t zero m h = h
strncpy-IsBytes s t (suc n) m h = elim (Bool-cases (m t == 0)) [
  | inl z ↦ rw z (zero_fill-IsBytes (s + 1) n (update m s (m t)) (update-IsBytes m s (m t) (h t) h))
  | inr nz ↦
      rw nz
        (strncpy-IsBytes (s + 1) (t + 1) n (update m s (m t)) (update-IsBytes m s (m t) (h t) h))
]

slice-SmallBytes : (f : Block) (o m : ℕ) → IsBytes f → SmallBytes (slice f o m)
unfolding slice
slice-SmallBytes f o zero h i = omega arith
slice-SmallBytes f o (suc m) h zero = h o
slice-SmallBytes f o (suc m) h (suc i) = slice-SmallBytes f (o + 1) m h i

length-slice : (f : Block) (o m : ℕ) → length (slice f o m) ≡ m
unfolding slice
length-slice f o zero = refl
length-slice f o (suc m) = omega (arith, length-slice f (o + 1) m)

new_entry-SmallBytes :
    (name : List ℕ) (inum : ℕ) (old : List ℕ)
    → SmallBytes name
    → SmallBytes old
    → SmallBytes (new_entry name inum old)
unfolding new_entry
new_entry-SmallBytes name inum old hn ho zero = omega arith
new_entry-SmallBytes name inum old hn ho (suc zero) = omega arith
new_entry-SmallBytes name inum old hn ho (suc (suc i)) =
    slice-SmallBytes (strncpy 16 0 dir_size (side_by_side name (entry_name old))) 16 dir_size
      (strncpy-IsBytes 16 0 dir_size (side_by_side name (entry_name old))
        (λ j. ground (arith, hn j, ho (2 + (j - 16)), get_or-drop 2 (j - 16) old 0)))
      i

length-new_entry :
    (name : List ℕ) (inum : ℕ) (old : List ℕ) → length (new_entry name inum old) ≡ dirent_size
unfolding new_entry
length-new_entry name inum old =
    omega
      (arith, length-slice (strncpy 16 0 dir_size (side_by_side name (entry_name old))) 16 dir_size)

is_unused-true : (bs : List ℕ) → is_unused bs ≡ true → ¬ InUse bs
is_unused-true bs h used = ground arith

is_unused-false : (bs : List ℕ) → is_unused bs ≡ false → InUse bs
is_unused-false bs h = ground arith

length-dirent : (name : List ℕ) (inum : ℕ) → length (dirent name inum) ≡ dirent_size
length-dirent name inum =
    ap length (sym (new_entry-dirent name inum [])) ∙ length-new_entry name inum []

dirent-SmallBytes : (name : List ℕ) (inum : ℕ) → SmallBytes name → SmallBytes (dirent name inum)
dirent-SmallBytes name inum h =
    subst SmallBytes (new_entry-dirent name inum [])
      (new_entry-SmallBytes name inum [] h (λ i. omega arith))

-- All entries before `end` are in use.
abbrev pub AllUsed : Inode → Disk → ℕ → Type 0
AllUsed dp d end = (o : ℕ) → o < end → o % dirent_size ≡ 0 → InUse (entry_at dp d o)

-- How dirlink ends.
pub data LinkEnd (sb : Super) (dp : Inode) (name : List ℕ) (inum : ℕ) (d : Disk)
    : Option (Bool × Inode × Disk) → Type 0 where
  taken_name :
      {off : ℕ}
      → off < dp.size
      → off % dirent_size ≡ 0
      → InUse (entry_at dp d off)
      → HasName name (entry_at dp d off)
      → LinkEnd sb dp name inum d (some (false, dp, d))
  too_large :
      Unnamed dp d name dp.size
      → AllUsed dp d dp.size
      → maxfile * bsize < dp.size + dirent_size
      → LinkEnd sb dp name inum d none
  no_blocks :
      {n : ℕ} (off : ℕ) {ip1 : Inode} {d1 : Disk}
      → n < dirent_size
      → Wrote sb dp d off n (dirent name inum) ip1 d1
      → AtMostOneFree sb d1
      → LinkEnd sb dp name inum d none
  linked_at :
      (off : ℕ) {dp' : Inode} {d' : Disk}
      → Unnamed dp d name dp.size
      → AllUsed dp d off
      → (off ≡ dp.size) ⊎ ((off < dp.size) × (off % dirent_size ≡ 0) × ¬ InUse (entry_at dp d off))
      → Written sb dp d off (dirent name inum) dp' d'
      → LinkEnd sb dp name inum d (some (true, dp', d'))

module _ {A : Type 0} (devsw : Devsw A) (sb : Super) (dp : Inode) (name : List ℕ) (inum : ℕ)
    (d : Disk) (w : IsDir dp d) (small : SmallBytes name) (owns : Owns sb dp d)
    (low : iblock sb dp.inum < sb.bmapstart) where
  write-LinkEnd :
      (off : ℕ)
      → off ≤ dp.size
      → Unnamed dp d name dp.size
      → AllUsed dp d off
      → (off ≡ dp.size) ⊎ ((off < dp.size) × (off % dirent_size ≡ 0) × ¬ InUse (entry_at dp d off))
      → LinkEnd sb dp name inum d (linked (writei devsw sb dp (dirent name inum) off d))
  unfolding linked
  write-LinkEnd off le un used place = from (writei devsw sb dp (dirent name inum) off d) (
      writei-WriteiEnd devsw sb dp (dirent name inum) off d (λ q. absurd (omega (arith, w.type)))
        (omega (arith, w.small)) (omega (arith, size)) (omega (arith, w.small))
        (dirent-SmallBytes name inum small) low owns)
    where
      size : length (dirent name inum) ≡ dirent_size
      size = length-dirent name inum

      at_end :
          (off ≡ dp.size)
            ⊎ ((off < dp.size) × (off % dirent_size ≡ 0) × ¬ InUse (entry_at dp d off))
          → ¬ (off + dirent_size ≤ maxfile * bsize)
          → off ≡ dp.size
      at_end (inl q) h = q
      at_end (inr (lt, al, un)) h = absurd (h (omega (arith, w.entries, w.small)))

      from :
          (r : Option (WriteiResult A))
          → WriteiEnd A sb dp d off (dirent name inum) r
          → LinkEnd sb dp name inum d (linked r)
      from _ (refused_end h) =
          let q = at_end place (λ room. h le (omega (arith, size))) in
          too_large un (subst (AllUsed dp d) q used) (ground (arith, size, q))
      from _ (stopped_end lt v few) = no_blocks off (omega (arith, size)) v few
      from _ (written_end le' room v) =
          let whole : (length (dirent name inum) == dirent_size) ≡ true = ground (arith, size) in
          rw whole (linked_at off un used place v)

  link_at-LinkEnd :
      (r : Option Scanned)
      → Unnamed dp d name dp.size
      → ScanEnd dp d is_unused 0 r
      → LinkEnd sb dp name inum d (link_at devsw sb name inum r)
  unfolding link_at
  link_at-LinkEnd _ un (past h) = rw (new_entry-dirent name inum []) (
      write-LinkEnd dp.size (omega arith) un
        (λ o lt al. is_unused-false (entry_at dp d o) (h o (omega arith) lt al)) (inl refl))
  link_at-LinkEnd _ un (stopped {off} lo hi al here h) =
      rw (new_entry-dirent name inum (entry_at dp d off)) (
        write-LinkEnd off (omega arith) un
          (λ o lt a. is_unused-false (entry_at dp d o) (h o (omega arith) lt a))
          (inr (hi, al, is_unused-true (entry_at dp d off) here)))

  -- For a directory of whole entries, that is not too large, owns its blocks and has them up to its
  -- size, with its dinode in front of the bitmap, and a name of bytes. dirlink returns -1 and changes
  -- nothing when an entry in use has the name. Else it writes the number, lowest byte first,
  -- and the first 14 bytes of the name, with zeros from its first 0 on, to the first entry that is
  -- not in use, or to the end when all are; the other entries stay. It panics only when
  -- all entries are in use and the directory is as large as a file can be, or when bmap does.
  pub dirlink-LinkEnd : LinkEnd sb dp name inum d (dirlink devsw sb dp name inum d)
  unfolding dirlink link_new
  dirlink-LinkEnd = from (dirlookup devsw sb dp name d) (dirlookup-LookupEnd devsw sb dp name d w)
    where
      from :
          (r : Option (Option (ℕ × ℕ) × Inode × Disk))
          → LookupEnd dp d name r
          → LinkEnd sb dp name inum d (link_new devsw sb name inum r)
      from _ (absent un) =
          link_at-LinkEnd (scan_dir dp.size devsw sb is_unused 0 dp d) un
            (scan_dir-ScanEnd devsw sb dp d w dp.size is_unused 0 (omega arith) (omega arith) refl)
      from _ (first lt al used has h) = taken_name lt al used has
