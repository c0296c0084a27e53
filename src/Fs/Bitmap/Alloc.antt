-- ===== src/Fs/Bitmap/Alloc.antt =====
-- The search of balloc finds the first free block.
use boss_os.Base.{
  Bool, Bool-cases, Option, ap, ap₂, arith, dec_lt, false, inl, inr, ltb, none, refl, some, suc,
  true, zero, ℕ, ℕ_discrete, ◌%◌, ◌+◌, ◌-◌, ◌<◌, ◌∙◌, ◌≡◌, ◌≤◌,
}
use boss_os.Fs.Disk.{Block, Disk, Super}
use boss_os.Fs.Bitmap.{bitmap_block, bits_per_block, is_clear, or_next, scan_bits, scan_blocks}

-- The bit of block `x` is clear.
abbrev pub is_free : Super → Disk → ℕ → Bool
is_free sb d x = is_clear (d.blocks (bitmap_block sb x)) (x % bits_per_block)

-- What the search through one bitmap block finds, from bit `bi` on.
data Bits (b size : ℕ) (f : Block) (bi n : ℕ) : Option ℕ → Type 0 where
  missing :
      ((j : ℕ) → bi ≤ j → j < bi + n → b + j < size → is_clear f j ≡ false)
      → Bits b size f bi n none
  first :
      {k : ℕ}
      → bi ≤ k
      → k < bi + n
      → b + k < size
      → is_clear f k ≡ true
      → ((j : ℕ) → bi ≤ j → j < k → is_clear f j ≡ false)
      → Bits b size f bi n (some k)

scan_bits-Bits : (n bi b size : ℕ) (f : Block) → Bits b size f bi n (scan_bits n bi b size f)
unfolding scan_bits
scan_bits-Bits zero bi b size f = missing (λ j lo hi lt. absurd (omega arith))
scan_bits-Bits (suc n) bi b size f = elim (Bool-cases (ltb (b + bi) size)) [
  | inl room ↦ elim (Bool-cases (is_clear f bi)) [
    | inl free ↦
        rw (room, free)
          (first (omega arith) (omega arith) (ground arith) free (λ j lo hi. absurd (omega arith)))
    | inr used ↦
        rw (room, used)
          (later used (scan_bits n (bi + 1) b size f) (scan_bits-Bits n (bi + 1) b size f))
  ]
  | inr over ↦ rw over (missing (λ j lo hi lt. absurd (ground arith)))
]
  where
    here_or :
        is_clear f bi ≡ false
        → (j : ℕ) → (bi + 1 ≤ j → is_clear f j ≡ false)
        → bi ≤ j
        → is_clear f j ≡ false
    here_or used j h lo = elim (ℕ_discrete j bi) [
      | yes e ↦ ap (is_clear f) e ∙ used
      | no ne ↦ h (omega arith)
    ]

    later :
        is_clear f bi ≡ false
        → (r : Option ℕ) → Bits b size f (bi + 1) n r
        → Bits b size f bi (suc n) r
    later used none (missing h) =
        missing (λ j lo hi lt. here_or used j (λ l. h j l (omega arith) lt) lo)
    later used (some k) (first lo hi lt c h) =
        first (omega arith) (omega arith) lt c (λ j l u. here_or used j (λ l'. h j l' u) l)

-- What the search through the bitmap finds, from block `b` on.
pub data Blocks (sb : Super) (d : Disk) (b : ℕ) : Option (ℕ × ℕ) → Type 0 where
  missing : ((x : ℕ) → b ≤ x → x < sb.size → is_free sb d x ≡ false) → Blocks sb d b none
  first :
      {c bi : ℕ}
      → c % bits_per_block ≡ 0
      → bi < bits_per_block
      → b ≤ c + bi
      → c + bi < sb.size
      → is_free sb d (c + bi) ≡ true
      → ((x : ℕ) → b ≤ x → x < c + bi → is_free sb d x ≡ false)
      → Blocks sb d b (some (c, bi))

-- A bit of the bitmap block that starts at block `b`, as the bit of a block.
pub is_free-at :
    (sb : Super) (d : Disk) (b bi x : ℕ)
    → b % bits_per_block ≡ 0
    → bi < bits_per_block
    → x ≡ b + bi
    → is_free sb d x ≡ is_clear (d.blocks (bitmap_block sb b)) bi
is_free-at sb d b bi x al lt e =
    let same : bitmap_block sb x ≡ bitmap_block sb b = omega arith in
    let bit : x % bits_per_block ≡ bi = omega arith in ap₂ (λ m k. is_clear (d.blocks m) k) same bit

pub scan_blocks-Blocks :
    (k b : ℕ) (sb : Super) (d : Disk)
    → b % bits_per_block ≡ 0
    → sb.size - b ≤ k
    → Blocks sb d b (scan_blocks k b sb d)
unfolding scan_blocks
scan_blocks-Blocks zero b sb d al fuel = missing (λ x lo hi. absurd (omega arith))
scan_blocks-Blocks (suc k) b sb d al fuel = elim (Bool-cases (ltb b sb.size)) [
  | inl room ↦ rw room (
      by_block (scan_blocks k (b + bits_per_block) sb d)
        (scan_blocks-Blocks k (b + bits_per_block) sb d (omega arith) (ground arith))
        (scan_bits bits_per_block 0 b sb.size (d.blocks (bitmap_block sb b)))
        (scan_bits-Bits bits_per_block 0 b sb.size (d.blocks (bitmap_block sb b))))
  | inr over ↦ rw over (missing (λ x lo hi. absurd (ground arith)))
]
  where
    bit_of :
        (x : ℕ)
        → b ≤ x
        → x < b + bits_per_block
        → is_free sb d x ≡ is_clear (d.blocks (bitmap_block sb b)) (x - b)
    bit_of x lo hi = is_free-at sb d b (x - b) x al (omega arith) (omega arith)

    by_block :
        (more : Option (ℕ × ℕ))
        → Blocks sb d (b + bits_per_block) more
        → (r : Option ℕ) → Bits b sb.size (d.blocks (bitmap_block sb b)) 0 bits_per_block r
        → Blocks sb d b (or_next b more r)
    by_block more m (some bi) (first lo hi lt c h) =
        first al hi (omega arith) lt (is_free-at sb d b bi (b + bi) al hi refl ∙ c)
          (λ x l u. bit_of x l (omega arith) ∙ h (x - b) (omega arith) (omega arith))
    by_block none (missing m) none (missing h) = missing (λ x l u.
        elim (dec_lt x (b + bits_per_block)) [
          | yes near ↦ bit_of x l near ∙ h (x - b) (omega arith) (omega arith) (omega arith)
          | no far ↦ m x (omega arith) u
        ])
    by_block (some (c, bi)) (first al' hi lo lt free m) none (missing h) =
        first al' hi (omega arith) lt free (λ x l u. elim (dec_lt x (b + bits_per_block)) [
          | yes near ↦ bit_of x l near ∙ h (x - b) (omega arith) (omega arith) (omega arith)
          | no far ↦ m x (omega arith) u
        ])
