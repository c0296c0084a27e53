-- ===== src/Fs/Icache/Tests.antt =====
-- The inode cache on a small disk.
use boss_os.Base.{Bool, [], arith, false, get_or, refl, suc, true, u32_mod, zero, ℕ, ◌<◌, ◌∷◌, ◌≡◌}
use boss_os.Fs.Bitmap.Tests.{small_disk, small_super}
use boss_os.Fs.Inode.{Inode}
use boss_os.Fs.Inode.Tests.{small_inode, small_inode-Owns, zeros}
use boss_os.Fs.Dinode.Fields.{Fits}
use boss_os.Fs.Inode.Slots.{Owns}
use boss_os.Fs.Icache.{Icache, iget, iput_locked, no_inode}
use boss_os.Fs.Icache.Iget.{IgetEnd, Single, iget-IgetEnd}
use boss_os.Fs.Icache.Iput.{IputEnd, iput_locked-IputEnd}

-- The small inode without links.
abbrev unlinked : Inode
unlinked = record small_inode { nlink = 0 }

unlinked-Owns : Owns small_super unlinked small_disk
unlinked-Owns = record {
  is_map = small_inode-Owns.is_map;
  thirteen = refl;
  used = small_inode-Owns.used;
  in_range = small_inode-Owns.in_range;
  beyond = small_inode-Owns.beyond;
  single = small_inode-Owns.single;
}

unlinked_words : (i : ℕ) → get_or unlinked.addrs i 0 < u32_mod
unlinked_words zero = omega arith
unlinked_words (suc i) = omega (arith, zeros 12 i)

unlinked-Fits : Fits unlinked
unlinked-Fits = record {
  type = omega arith;
  major = omega arith;
  minor = omega arith;
  nlink = omega arith;
  size = omega arith;
  addrs = unlinked_words;
  thirteen = refl;
}

iput_locked-IputEnd_example :
    IputEnd small_super unlinked small_disk (iput_locked small_super unlinked small_disk)
iput_locked-IputEnd_example =
    iput_locked-IputEnd small_super unlinked small_disk (omega arith) unlinked-Fits unlinked-Owns

-- One slot in use, and one empty.
abbrev two_slots : Icache
two_slots = small_inode ∷ no_inode ∷ []

false-true : {b : Bool} → b ≡ false → b ≡ true → ⊥
false-true a b = cc

two_slots-Single : Single two_slots
two_slots-Single d n zero zero li lj hi hj = refl
two_slots-Single d n zero (suc zero) li lj hi hj = absurd (false-true refl hj)
two_slots-Single d n (suc zero) zero li lj hi hj = absurd (false-true refl hi)
two_slots-Single d n (suc zero) (suc zero) li lj hi hj = refl
two_slots-Single d n (suc (suc i)) j li lj hi hj = absurd (omega arith)
two_slots-Single d n zero (suc (suc j)) li lj hi hj = absurd (omega arith)
two_slots-Single d n (suc zero) (suc (suc j)) li lj hi hj = absurd (omega arith)

iget-IgetEnd_example : IgetEnd 1 7 two_slots (iget 1 7 two_slots)
iget-IgetEnd_example = iget-IgetEnd 1 7 two_slots two_slots-Single
