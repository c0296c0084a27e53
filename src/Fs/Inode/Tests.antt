-- ===== src/Fs/Inode/Tests.antt =====
-- An inode with one block of content.
use boss_os.Base.{
  List, arith, false, get_or, if◌then◌else◌, refl, replicate, subst, suc, sym, true, zero, ℕ,
  ℕ_discrete, ◌<◌, ◌==◌, ◌∙◌, ◌∷◌, ◌≡◌, ◌≢◌,
}
use boss_os.Sleeplock.{initsleeplock}
use boss_os.Fs.Bitmap.{is_clear}
use boss_os.Fs.Bitmap.Alloc.{is_free}
use boss_os.Fs.Bitmap.Tests.{small_disk, small_disk-IsMap, small_super}
use boss_os.Fs.Inode.{Inode, bmap}
use boss_os.Fs.Inode.Slots.{Owns, block_of}
use boss_os.Fs.Inode.Bmap.{BmapEnd, bmap-BmapEnd}

abbrev pub small_inode : Inode
small_inode = record {
  dev = 1;
  inum = 3;
  ref = 1;
  lock = initsleeplock;
  valid = true;
  type = 2;
  major = 0;
  minor = 0;
  nlink = 1;
  size = 3;
  addrs = 10 ∷ replicate 12 0;
}

abbrev zero_words : ℕ → List ℕ
zero_words n = replicate n 0

pub zeros : (n i : ℕ) → get_or (zero_words n) i 0 ≡ 0
zeros zero i = refl
zeros (suc n) zero = refl
zeros (suc n) (suc i) = zeros n i

one_slot : (s : ℕ) → block_of small_inode small_disk s ≡ (if s == 0 then 10 else 0)
one_slot zero = refl
one_slot (suc s) = ground (arith, zeros 12 s)

pub small_inode-Owns : Owns small_super small_inode small_disk
unfolding is_clear
small_inode-Owns = record {
  is_map = small_disk-IsMap;
  thirteen = refl;
  used = λ s le ne. at_ten (λ b. is_free small_super small_disk b ≡ false) s refl ne;
  in_range = λ s le ne. at_ten (λ b. b < 24) s (omega arith) ne;
  beyond = λ s le ne. at_ten (λ b. 4 < b) s (omega arith) ne;
  single = λ s t ls lt ne q. at_zero s ne ∙ sym (at_zero t (λ z. ne (q ∙ z)));
}
  where
    at_zero : (s : ℕ) → block_of small_inode small_disk s ≢ 0 → s ≡ 0
    at_zero s ne = elim (ℕ_discrete s 0) [
      | yes z ↦ z
      | no nz ↦
          let other : (s == 0) ≡ false = ground arith in absurd (ne (one_slot s ∙ rw other refl))
    ]

    at_ten :
        (P : ℕ → Type 0) (s : ℕ)
        → P 10
        → block_of small_inode small_disk s ≢ 0
        → P (block_of small_inode small_disk s)
    at_ten P s p ne = subst (λ t. P (block_of small_inode small_disk t)) (sym (at_zero s ne)) p

bmap-BmapEnd_example :
    BmapEnd small_super small_inode small_disk 11 (bmap small_super small_inode 11 small_disk)
bmap-BmapEnd_example =
    bmap-BmapEnd small_super small_inode 11 small_disk (omega arith) small_inode-Owns
