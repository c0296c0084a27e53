-- ===== src/Fs/Bitmap/Balloc.antt =====
-- balloc takes the first free block, and bfree gives a block back.
use boss_os.Base.{
  Bool, Bool-cases, Option, ap, ap₂, arith, false, if◌then◌else◌, inl, inr, none, refl, some, subst,
  sym, true, u32_mod, update, update_ne, update_self, ℕ, ℕ_discrete, ◌%◌, ◌+◌, ◌/◌, ◌<◌, ◌==◌, ◌∙◌,
  ◌∷◌, ◌≡◌, ◌≢◌, ◌≤◌,
}
use boss_os.Fs.Disk.{Block, Disk, Super, put_block}
use boss_os.Fs.Bitmap.{
  balloc, bfree, bitmap_block, bits_per_block, bzero, clear_bit, is_clear, mark_on, scan_blocks,
  set_bit,
}
use boss_os.Fs.Bitmap.Bits.{
  IsBytes, clear_bit-IsBytes, is_clear-clear_bit, is_clear-set_bit, set_bit-IsBytes,
}
use boss_os.Fs.Bitmap.Alloc.{Blocks, is_free, scan_blocks-Blocks}

-- Blocks hold bytes, their numbers are words, and the blocks up to the end of the bitmap are in use.
pub record IsMap (sb : Super) (d : Disk) : Type 0 where
  pub bytes : (b : ℕ) → IsBytes (d.blocks b)
  pub fits : sb.size ≤ u32_mod
  pub meta :
      (x : ℕ) → x < sb.size → is_free sb d x ≡ true → sb.bmapstart + sb.size / bits_per_block < x

-- A change of the bit of block `x` to the value `v`, by `g` on its bitmap block.
is_free-put :
    (sb : Super) (d : Disk) (x y : ℕ) (g : Block) (v : Bool)
    → ((bj : ℕ)
        → is_clear g bj
          ≡ (if bj == x % bits_per_block then v else is_clear (d.blocks (bitmap_block sb x)) bj))
    → is_free sb (put_block (bitmap_block sb x) g d) y ≡ (if y == x then v else is_free sb d y)
is_free-put sb d x y g v law = elim (ℕ_discrete (bitmap_block sb y) (bitmap_block sb x)) [
  | yes e ↦
      ap (λ m. is_clear (update d.blocks (bitmap_block sb x) g m) (y % bits_per_block)) e
      ∙ ap (λ f. is_clear f (y % bits_per_block)) (update_self d.blocks (bitmap_block sb x) g)
      ∙ law (y % bits_per_block)
      ∙ ap₂ (λ t m. if t then v else is_clear (d.blocks m) (y % bits_per_block)) (tests e) (sym e)
  | no ne ↦
      let other : (y == x) ≡ false = apart ne in
      ap (λ f. is_clear f (y % bits_per_block))
        (update_ne d.blocks (bitmap_block sb x) (bitmap_block sb y) g ne)
      ∙ rw other refl
]
  where
    tests :
        bitmap_block sb y ≡ bitmap_block sb x
        → (y % bits_per_block == x % bits_per_block) ≡ (y == x)
    tests e = elim (ℕ_discrete y x) [
      | yes q ↦ ground (arith, ap (λ k. k % bits_per_block) q)
      | no ne ↦
          let rests : y % bits_per_block ≢ x % bits_per_block = λ q. ne (omega arith) in
          ground arith
    ]

    apart : bitmap_block sb y ≢ bitmap_block sb x → (y == x) ≡ false
    apart ne = let ne' : y ≢ x = λ q. ne (ap (bitmap_block sb) q) in ground arith

-- How balloc ends. Found: the first free block is taken, no other bit changes, the block is zeroed
-- and no block changes but it and its bitmap block, which are both logged.
pub record Taken (sb : Super) (d : Disk) (x : ℕ) (d' : Disk) : Type 0 where
  pub small : x < sb.size
  pub was_free : is_free sb d x ≡ true
  pub first : (y : ℕ) → y < x → is_free sb d y ≡ false
  pub bits : (y : ℕ) → y < sb.size → is_free sb d' y ≡ (if y == x then false else is_free sb d y)
  pub zeroed : (i : ℕ) → d'.blocks x i ≡ 0
  pub kept : (b : ℕ) → b ≢ x → b ≢ bitmap_block sb x → d'.blocks b ≡ d.blocks b
  pub logs : d'.logged ≡ x ∷ bitmap_block sb x ∷ d.logged
  pub keeps_map : IsMap sb d'

pub data BallocEnd (sb : Super) (d : Disk) : Option (ℕ × Disk) → Type 0 where
  full : ((x : ℕ) → x < sb.size → is_free sb d x ≡ false) → BallocEnd sb d none
  taken : {x : ℕ} {d' : Disk} → Taken sb d x d' → BallocEnd sb d (some (x, d'))

-- The block that the search found, in its own terms.
put-at :
    (sb : Super) (d : Disk) (c bi : ℕ)
    → c % bits_per_block ≡ 0
    → bi < bits_per_block
    → put_block (bitmap_block sb c) (set_bit (d.blocks (bitmap_block sb c)) bi) d
      ≡ put_block
          (bitmap_block sb (c + bi))
          (set_bit (d.blocks (bitmap_block sb (c + bi))) ((c + bi) % bits_per_block))
          d
put-at sb d c bi al lt =
    let same : bitmap_block sb c ≡ bitmap_block sb (c + bi) = omega arith in
    let bit : bi ≡ (c + bi) % bits_per_block = omega arith in
    ap₂ (λ m k. put_block m (set_bit (d.blocks m) k) d) same bit

-- The block `x` with its bit set, and zeroed.
abbrev pub mark : Super → ℕ → Disk → Disk
mark sb x d =
    put_block (bitmap_block sb x) (set_bit (d.blocks (bitmap_block sb x)) (x % bits_per_block)) d

module _ (sb : Super) (d : Disk) (x : ℕ) (w : IsMap sb d) (small : x < sb.size)
    (free : is_free sb d x ≡ true) where
  is_free-mark : (y : ℕ) → is_free sb (mark sb x d) y ≡ (if y == x then false else is_free sb d y)
  is_free-mark y =
      is_free-put sb d x y (set_bit (d.blocks (bitmap_block sb x)) (x % bits_per_block)) false (
        is_clear-set_bit (d.blocks (bitmap_block sb x)) (x % bits_per_block)
          (w.bytes (bitmap_block sb x)))

  -- The block is not one of the bitmap.
  apart : (y : ℕ) → y < sb.size → bitmap_block sb y ≢ x
  apart y ly q = omega (arith, w.meta x small free)

  is_free-bzero :
      (y : ℕ)
      → y < sb.size
      → is_free sb (bzero x (mark sb x d)) y ≡ (if y == x then false else is_free sb d y)
  unfolding bzero
  is_free-bzero y ly =
      ap (λ f. is_clear f (y % bits_per_block))
        (update_ne (mark sb x d).blocks x (bitmap_block sb y) (λ j. 0) (apart y ly))
      ∙ is_free-mark y

  bzero-IsBytes : (b : ℕ) → IsBytes ((bzero x (mark sb x d)).blocks b)
  unfolding bzero
  bzero-IsBytes b i = ground (
    arith,
    w.bytes b i,
    set_bit-IsBytes (d.blocks (bitmap_block sb x)) (x % bits_per_block)
        (w.bytes (bitmap_block sb x)) i,
  )

  mark-Taken : ((y : ℕ) → y < x → is_free sb d y ≡ false) → Taken sb d x (bzero x (mark sb x d))
  unfolding bzero
  mark-Taken first = record {
    small = small;
    was_free = free;
    first = first;
    bits = is_free-bzero;
    zeroed = λ i. ap (λ f. f i) (update_self (mark sb x d).blocks x (λ j. 0));
    kept = λ b ne nm.
        update_ne (mark sb x d).blocks x b (λ j. 0) ne
        ∙ update_ne d.blocks (bitmap_block sb x) b _ nm;
    logs = refl;
    keeps_map = record {
      bytes = bzero-IsBytes;
      fits = w.fits;
      meta = λ y ly fy. w.meta y ly (ground (arith, is_free-bzero y ly));
    };
  }

-- balloc panics only when every block is in use. Else it takes the first free block: the bit of
-- this block is set and no other changes, the block is zeroed, no block but it and its bitmap block
-- changes, and both are logged.
pub balloc-BallocEnd : (sb : Super) (d : Disk) → IsMap sb d → BallocEnd sb d (balloc sb d)
unfolding balloc
balloc-BallocEnd sb d w =
    from (scan_blocks sb.size 0 sb d) (scan_blocks-Blocks sb.size 0 sb d refl (omega arith))
  where
    from : (r : Option (ℕ × ℕ)) → Blocks sb d 0 r → BallocEnd sb d (mark_on sb d r)
    from none (Blocks.missing h) = full (λ x lt. h x (omega arith) lt)
    from (some (c, bi)) (Blocks.first al hi lo lt free h) =
        subst (λ e. BallocEnd sb d (some (c + bi, bzero (c + bi) e))) (sym (put-at sb d c bi al hi))
          (taken (mark-Taken sb d (c + bi) w lt free (λ y l. h y (omega arith) l)))

-- What bfree gives.
pub record Freed (sb : Super) (d : Disk) (x : ℕ) (d' : Disk) : Type 0 where
  pub was_used : is_free sb d x ≡ false
  pub bits : (y : ℕ) → is_free sb d' y ≡ (if y == x then true else is_free sb d y)
  pub kept : (b : ℕ) → b ≢ bitmap_block sb x → d'.blocks b ≡ d.blocks b
  pub logs : d'.logged ≡ bitmap_block sb x ∷ d.logged
  pub are_bytes : (b : ℕ) → IsBytes (d'.blocks b)

pub data BfreeEnd (sb : Super) (d : Disk) (x : ℕ) : Option Disk → Type 0 where
  panics : is_free sb d x ≡ true → BfreeEnd sb d x none
  freed : {d' : Disk} → Freed sb d x d' → BfreeEnd sb d x (some d')

-- bfree panics exactly on a free block; else it clears the bit of the block and no other, changes
-- no block but the bitmap block, and logs it.
pub bfree-BfreeEnd :
    (sb : Super) (x : ℕ) (d : Disk)
    → ((b : ℕ) → IsBytes (d.blocks b))
    → BfreeEnd sb d x (bfree sb x d)
unfolding bfree
bfree-BfreeEnd sb x d bytes = elim (Bool-cases (is_free sb d x)) [
  | inl free ↦ rw free (panics free)
  | inr used ↦ rw used (
      freed (record {
        was_used = used;
        bits = λ y.
            is_free-put sb d x y (clear_bit (d.blocks (bitmap_block sb x)) (x % bits_per_block))
              true
              (is_clear-clear_bit (d.blocks (bitmap_block sb x)) (x % bits_per_block)
                (bytes (bitmap_block sb x)));
        kept = λ b ne. update_ne d.blocks (bitmap_block sb x) b _ ne;
        logs = refl;
        are_bytes = λ b i. ground (
          arith,
          bytes b i,
          clear_bit-IsBytes (d.blocks (bitmap_block sb x)) (x % bits_per_block)
              (bytes (bitmap_block sb x)) i,
        );
      }))
]
