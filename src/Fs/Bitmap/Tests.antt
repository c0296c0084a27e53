-- ===== src/Fs/Bitmap/Tests.antt =====
-- A small disk: the bitmap in block 4 says that blocks 0 to 10 are in use.
use boss_os.Base.{
  Bool, [], arith, dec_lt, false, if◌then◌else◌, ltb, refl, suc, true, zero, ℕ, ◌&&◌, ◌+◌, ◌==◌,
  ◌≡◌, ◌≤◌,
}
use boss_os.Fs.Disk.{Disk, Super}
use boss_os.Fs.Bitmap.{balloc, is_clear}
use boss_os.Fs.Bitmap.Bits.{IsBytes}
use boss_os.Fs.Bitmap.Alloc.{is_free}
use boss_os.Fs.Bitmap.Balloc.{BallocEnd, IsMap, balloc-BallocEnd}

abbrev pub small_super : Super
small_super = record {
  size = 24;
  nblocks = 19;
  ninodes = 16;
  nlog = 0;
  logstart = 1;
  inodestart = 2;
  bmapstart = 4;
}

-- Block 10 holds bytes of a file.
abbrev pub small_disk : Disk
small_disk = record {
  blocks = λ b i.
      if b == 4
      then (if i == 0 then 255 else (if i == 1 then 7 else 0))
      else (if b == 10 && ltb i 3 then 65 + i else 0);
  logged = [];
}

small_disk-IsBytes : (b : ℕ) → IsBytes (small_disk.blocks b)
small_disk-IsBytes b i = ground arith

low_used : (x : ℕ) → x ≤ 4 → is_free small_super small_disk x ≡ false
unfolding is_clear
low_used zero le = refl
low_used (suc zero) le = refl
low_used (suc (suc zero)) le = refl
low_used (suc (suc (suc zero))) le = refl
low_used (suc (suc (suc (suc zero)))) le = refl
low_used (suc (suc (suc (suc (suc n))))) le = absurd (omega arith)

pub small_disk-IsMap : IsMap small_super small_disk
small_disk-IsMap = record {
  bytes = small_disk-IsBytes;
  fits = omega arith;
  meta = λ x lt free. elim (dec_lt 4 x) [
    | yes far ↦ far
    | no near ↦ absurd (false-true (low_used x (omega arith)) free)
  ];
}
  where
    false-true : {b : Bool} → b ≡ false → b ≡ true → ⊥
    false-true a b = cc

balloc-BallocEnd_example : BallocEnd small_super small_disk (balloc small_super small_disk)
balloc-BallocEnd_example = balloc-BallocEnd small_super small_disk small_disk-IsMap
