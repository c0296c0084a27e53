-- ===== src/Fs/Bitmap/Bits.antt =====
-- The bits of a byte, checked for every byte.
use boss_os.Base.{
  Bool, ap, ap₂, arith, bit_and, bit_or, false, if◌then◌else◌, ltb, not, refl, suc, sym, true,
  update, update_ne, update_self, zero, ℕ, ℕ_discrete, ◌%◌, ◌&&◌, ◌-◌, ◌/◌, ◌<◌, ◌==◌, ◌^◌, ◌∙◌,
  ◌≡◌, ◌≢◌,
}
use boss_os.Fs.Disk.{Block}
use boss_os.Fs.Bitmap.{clear_bit, is_clear, set_bit}

all_below : ℕ → (ℕ → Bool) → Bool
all_below zero p = true
all_below (suc n) p = p n && all_below n p

all_below-at : (n : ℕ) (p : ℕ → Bool) (x : ℕ) → all_below n p ≡ true → x < n → p x ≡ true
unfolding all_below
all_below-at zero p x h lt = absurd (omega arith)
all_below-at (suc n) p x h lt = ground (arith, all_below-at n p x)

abbrev same : Bool → Bool → Bool
same true b = b
same false b = not b

same-eq : (a b : Bool) → same a b ≡ true → a ≡ b
same-eq true b h = sym h
same-eq false true h = cc
same-eq false false h = refl

-- The test of bit `j`.
abbrev off : ℕ → ℕ → Bool
off v j = bit_and v (2 ^ j) == 0

abbrev or_ok : ℕ → ℕ → ℕ → Bool
or_ok v k j =
    same (off (bit_or v (2 ^ k)) j) (if j == k then false else off v j)
    && ltb (bit_or v (2 ^ k)) 256

abbrev and_ok : ℕ → ℕ → ℕ → Bool
and_ok v k j =
    same (off (bit_and v (255 - 2 ^ k)) j) (if j == k then true else off v j)
    && ltb (bit_and v (255 - 2 ^ k)) 256

or_table : all_below 256 (λ v. all_below 8 (λ k. all_below 8 (λ j. or_ok v k j))) ≡ true
unfolding all_below
or_table = refl

and_table : all_below 256 (λ v. all_below 8 (λ k. all_below 8 (λ j. and_ok v k j))) ≡ true
unfolding all_below
and_table = refl

and_both : (a b : Bool) → a && b ≡ true → (a ≡ true) × (b ≡ true)
and_both true b h = (refl, h)
and_both false b h = cc

module _ (v k j : ℕ) (v_lt : v < 256) (k_lt : k < 8) (j_lt : j < 8) where
  looked :
      (ok : ℕ → ℕ → ℕ → Bool)
      → all_below 256 (λ v. all_below 8 (λ k. all_below 8 (λ j. ok v k j))) ≡ true
      → ok v k j ≡ true
  looked ok table =
      all_below-at 8 (λ j. ok v k j) j
        (all_below-at 8 (λ k. all_below 8 (λ j. ok v k j)) k
          (all_below-at 256 (λ v. all_below 8 (λ k. all_below 8 (λ j. ok v k j))) v table v_lt)
          k_lt)
        j_lt

  pub or-off :
      ((bit_and (bit_or v (2 ^ k)) (2 ^ j) == 0)
        ≡ (if j == k then false else bit_and v (2 ^ j) == 0))
      × (bit_or v (2 ^ k) < 256)
  or-off = let (e, small) = and_both _ _ (looked or_ok or_table) in (same-eq _ _ e, ground arith)

  pub and-off :
      ((bit_and (bit_and v (255 - 2 ^ k)) (2 ^ j) == 0)
        ≡ (if j == k then true else bit_and v (2 ^ j) == 0))
      × (bit_and v (255 - 2 ^ k) < 256)
  and-off = let (e, small) = and_both _ _ (looked and_ok and_table) in (same-eq _ _ e, ground arith)

abbrev pub IsBytes : Block → Type 0
IsBytes f = (i : ℕ) → f i < 256

-- A change of the byte of bit `bi` that gives this bit the value `b` and keeps the other ones.
is_clear-update :
    (f : Block) (bi bj w : ℕ) (b : Bool)
    → (bit_and w (2 ^ (bj % 8)) == 0)
      ≡ (if bj % 8 == bi % 8 then b else bit_and (f (bi / 8)) (2 ^ (bj % 8)) == 0)
    → is_clear (update f (bi / 8) w) bj ≡ (if bj == bi then b else is_clear f bj)
unfolding is_clear
is_clear-update f bi bj w b law = elim (ℕ_discrete (bj / 8) (bi / 8)) [
  | yes e ↦
      ap (λ i. bit_and (update f (bi / 8) w i) (2 ^ (bj % 8)) == 0) e
      ∙ ap (λ v. bit_and v (2 ^ (bj % 8)) == 0) (update_self f (bi / 8) w)
      ∙ law
      ∙ ap₂ (λ t v. if t then b else bit_and v (2 ^ (bj % 8)) == 0) (tests e) (ap f (sym e))
  | no ne ↦
      let other : (bj == bi) ≡ false = no_test ne in
      ap (λ v. bit_and v (2 ^ (bj % 8)) == 0) (update_ne f (bi / 8) (bj / 8) w ne) ∙ rw other refl
]
  where
    tests : bj / 8 ≡ bi / 8 → (bj % 8 == bi % 8) ≡ (bj == bi)
    tests e = elim (ℕ_discrete bj bi) [
      | yes q ↦ ground (arith, ap (λ x. x % 8) q)
      | no ne ↦ let rests : bj % 8 ≢ bi % 8 = λ q. ne (omega arith) in ground arith
    ]

    no_test : bj / 8 ≢ bi / 8 → (bj == bi) ≡ false
    no_test ne = let ne' : bj ≢ bi = λ q. ne (ap (λ x. x / 8) q) in ground arith

module _ (f : Block) (bi : ℕ) (bytes : IsBytes f) where
  pub is_clear-set_bit :
      (bj : ℕ) → is_clear (set_bit f bi) bj ≡ (if bj == bi then false else is_clear f bj)
  unfolding set_bit
  is_clear-set_bit bj =
      is_clear-update f bi bj (bit_or (f (bi / 8)) (2 ^ (bi % 8))) false
        (or-off (f (bi / 8)) (bi % 8) (bj % 8) (bytes (bi / 8)) (omega arith) (omega arith)).0

  pub is_clear-clear_bit :
      (bj : ℕ) → is_clear (clear_bit f bi) bj ≡ (if bj == bi then true else is_clear f bj)
  unfolding clear_bit
  is_clear-clear_bit bj =
      is_clear-update f bi bj (bit_and (f (bi / 8)) (255 - 2 ^ (bi % 8))) true
        (and-off (f (bi / 8)) (bi % 8) (bj % 8) (bytes (bi / 8)) (omega arith) (omega arith)).0

  pub set_bit-IsBytes : IsBytes (set_bit f bi)
  unfolding set_bit
  set_bit-IsBytes i =
      let small = (or-off (f (bi / 8)) (bi % 8) 0 (bytes (bi / 8)) (omega arith) (omega arith)).1 in
      ground (arith, bytes i)

  pub clear_bit-IsBytes : IsBytes (clear_bit f bi)
  unfolding clear_bit
  clear_bit-IsBytes i =
      let small =
        (and-off (f (bi / 8)) (bi % 8) 0 (bytes (bi / 8)) (omega arith) (omega arith)).1 in
      ground (arith, bytes i)
