-- ===== src/Fs/Trunc/Freeing.antt =====
-- The slots that itrunc has given back so far.
use boss_os.Base.{
  Bool, ap, arith, false, if◌then◌else◌, refl, true, ℕ, ℕ_discrete, ◌+◌, ◌<◌, ◌==◌, ◌∙◌, ◌≡◌, ◌≢◌,
  ◌≤◌,
}
use boss_os.Fs.Disk.{Disk, Super}
use boss_os.Fs.Bitmap.Bits.{IsBytes}
use boss_os.Fs.Bitmap.Alloc.{is_free}
use boss_os.Fs.Bitmap.Balloc.{Freed}
use boss_os.Fs.Inode.{Inode, maxfile}
use boss_os.Fs.Inode.Slots.{Owns, bitmap_end, block_of}

-- The blocks of the slots below `i` are free, and nothing else changed.
pub record Freeing (sb : Super) (ip : Inode) (d : Disk) (i : ℕ) (d1 : Disk) : Type 0 where
  pub now_free : (s : ℕ) → s < i → block_of ip d s ≢ 0 → is_free sb d1 (block_of ip d s) ≡ true
  pub others :
      (y : ℕ)
      → ((s : ℕ) → s < i → block_of ip d s ≢ 0 → block_of ip d s ≢ y)
      → is_free sb d1 y ≡ is_free sb d y
  pub bytes : (b : ℕ) → IsBytes (d1.blocks b)
  pub kept : (b : ℕ) → bitmap_end sb < b → d1.blocks b ≡ d.blocks b
  pub below : (b : ℕ) → b < sb.bmapstart → d1.blocks b ≡ d.blocks b

pub Freeing-none : {sb : Super} {ip : Inode} {d : Disk} → Owns sb ip d → Freeing sb ip d 0 d
Freeing-none w = record {
  now_free = λ s lt ne. absurd (omega arith);
  others = λ y h. refl;
  bytes = w.is_map.bytes;
  kept = λ b far. refl;
  below = λ b low. refl;
}

-- An empty slot.
pub Freeing-skip :
    {sb : Super} {ip : Inode} {d : Disk} {d1 : Disk} (i : ℕ)
    → block_of ip d i ≡ 0
    → Freeing sb ip d i d1
    → Freeing sb ip d (i + 1) d1
Freeing-skip {sb} {ip} {d} {d1} i z p = record {
  now_free = λ s lt ne. elim (ℕ_discrete s i) [
    | yes e ↦ absurd (ne (ap (block_of ip d) e ∙ z))
    | no o ↦ p.now_free s (omega arith) ne
  ];
  others = λ y h. p.others y (λ s lt ne. h s (omega arith) ne);
  bytes = p.bytes;
  kept = p.kept;
  below = p.below;
}

module _ {sb : Super} {ip : Inode} {d : Disk} {d1 : Disk} (w : Owns sb ip d) (i : ℕ)
    (i_le : i ≤ maxfile) (p : Freeing sb ip d i d1) (ne : block_of ip d i ≢ 0) where
  abbrev a : ℕ
  a = block_of ip d i

  pub still_used : is_free sb d1 a ≡ false
  still_used =
      p.others a (λ s lt n q. absurd (omega (arith, w.single s i (omega arith) i_le n q)))
      ∙ w.used i i_le ne

  pub Freeing-step : {d2 : Disk} → Freed sb d1 a d2 → Freeing sb ip d (i + 1) d2
  Freeing-step {d2} f = record {
    now_free = λ s lt n. freed_now s lt n;
    others = λ y h. no_other y h;
    bytes = f.are_bytes;
    kept = λ b far. f.kept b (λ q. absurd (omega (arith, w.in_range i i_le ne))) ∙ p.kept b far;
    below = λ b low. f.kept b (λ q. absurd (omega arith)) ∙ p.below b low;
  }
    where
      freed_now : (s : ℕ) → s < i + 1 → block_of ip d s ≢ 0 → is_free sb d2 (block_of ip d s) ≡ true
      freed_now s lt n = elim (ℕ_discrete s i) [
        | yes e ↦
            let same : block_of ip d s ≡ a = ap (block_of ip d) e in
            let test : (block_of ip d s == a) ≡ true = ground arith in
            f.bits (block_of ip d s) ∙ rw test refl
        | no o ↦
            f.bits (block_of ip d s) ∙ either (block_of ip d s == a) (p.now_free s (omega arith) n)
      ]
        where
          either : (t : Bool) {v : Bool} → v ≡ true → (if t then true else v) ≡ true
          either true q = refl
          either false q = q

      no_other :
          (y : ℕ)
          → ((s : ℕ) → s < i + 1 → block_of ip d s ≢ 0 → block_of ip d s ≢ y)
          → is_free sb d2 y ≡ is_free sb d y
      no_other y h =
          let ne' : a ≢ y = h i (omega arith) ne in
          let test : (y == a) ≡ false = ground arith in
          f.bits y ∙ rw test (p.others y (λ s lt n. h s (omega arith) n))
