-- ===== src/Fs/Dir/Tests.antt =====
-- A small directory.
use boss_os.Base.{[], ap, arith, none, refl, some, suc, zero, ℕ, ◌*◌, ◌+◌, ◌/◌, ◌<◌, ◌∷◌, ◌≡◌}
use boss_os.Str.{strncmp}
use boss_os.Fs.Disk.{bsize}
use boss_os.Fs.Bitmap.Tests.{small_disk, small_super}
use boss_os.Fs.Inode.{Inode, bmap, load_addr, read_from, read_round, slice}
use boss_os.Fs.Inode.Slots.{Owns, addr_of}
use boss_os.Fs.Inode.Tests.{small_inode, small_inode-Owns}
use boss_os.Fs.Rdwr.{Devsw, readi}
use boss_os.Fs.Dir.{dirlink, dirlookup, namecmp, scan_dir, scan_round, whole_entry}
use boss_os.Fs.Dir.Scan.{IsDir}
use boss_os.Fs.Dir.Lookup.{LookupEnd, dirlookup-LookupEnd}
use boss_os.Fs.Dir.Link.{LinkEnd, SmallBytes, dirlink-LinkEnd}

abbrev no_devices : Devsw ℕ
no_devices major = none

-- One entry, with the name "C".
abbrev small_dir : Inode
small_dir = record small_inode { type = 1; size = 16 }

small_dir-Owns : Owns small_super small_dir small_disk
small_dir-Owns = record {
  is_map = small_inode-Owns.is_map;
  thirteen = refl;
  used = small_inode-Owns.used;
  in_range = small_inode-Owns.in_range;
  beyond = small_inode-Owns.beyond;
  single = small_inode-Owns.single;
}

small_dir-IsDir : IsDir small_dir small_disk
small_dir-IsDir = record {
  type = refl;
  entries = refl;
  small = omega arith;
  present = λ k lo hi q. in_first k hi q;
}
  where
    in_first : (k : ℕ) → k < 16 → addr_of small_dir small_disk (k / bsize) ≡ 0 → ⊥
    in_first k hi q =
        let block : k / bsize ≡ 0 = omega arith in
        absurd (omega (arith, ap (addr_of small_dir small_disk) block, q))

one_letter : (n : ℕ) → n < 256 → SmallBytes (n ∷ [])
one_letter n lt zero = lt
one_letter n lt (suc i) = omega arith

-- "C" is found.
found_c :
    dirlookup no_devices small_super small_dir (67 ∷ []) small_disk
    ≡ some (some (65 + 256 * 66, 0), small_dir, small_disk)
unfolding dirlookup scan_dir scan_round whole_entry readi read_from read_round bmap load_addr slice
    namecmp strncmp
found_c = refl

dirlookup-LookupEnd_example :
    LookupEnd small_dir small_disk
      (67 ∷ [])
      (dirlookup no_devices small_super small_dir (67 ∷ []) small_disk)
dirlookup-LookupEnd_example =
    dirlookup-LookupEnd no_devices small_super small_dir (67 ∷ []) small_disk small_dir-IsDir

-- "x" is linked.
dirlink-LinkEnd_example :
    LinkEnd small_super small_dir
      (120 ∷ [])
      5
      small_disk
      (dirlink no_devices small_super small_dir (120 ∷ []) 5 small_disk)
dirlink-LinkEnd_example =
    dirlink-LinkEnd no_devices small_super small_dir (120 ∷ []) 5 small_disk small_dir-IsDir
      (one_letter 120 (omega arith)) small_dir-Owns (omega arith)
