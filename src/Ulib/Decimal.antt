-- ===== src/Ulib/Decimal.antt =====
-- atoi reads what printint prints.
use boss_os.Base.{
  Bool, Bool-cases, List, [], ap, arith, false, inl, inr, leb, refl, suc, true, u32_mod, zero, ℕ,
  ◌%◌, ◌&&◌, ◌*◌, ◌++◌, ◌+◌, ◌-◌, ◌/◌, ◌<◌, ◌==◌, ◌^◌, ◌∙◌, ◌∷◌, ◌≡◌, ◌≢◌,
}
use boss_os.Console.{backwards, digit, fill, printint}
use boss_os.Ulib.{atoi, atoi_from, is_digit}

abbrev pub all_digits : List ℕ → Bool
all_digits [] = true
all_digits (c ∷ cs) = is_digit c && all_digits cs

-- The numbers with at most `k` decimal digits are those below.
abbrev pub limit : ℕ → ℕ
limit zero = 1
limit (suc k) = limit k * 10

all_digits-append :
    (xs : List ℕ) (c : ℕ)
    → all_digits xs ≡ true
    → is_digit c ≡ true
    → all_digits (xs ++ c ∷ []) ≡ true
all_digits-append [] c h d = ground arith
all_digits-append (x ∷ xs) c h d = ground (arith, all_digits-append xs c)

atoi_from-append :
    (n : ℕ) (xs : List ℕ) (c : ℕ)
    → all_digits xs ≡ true
    → is_digit c ≡ true
    → atoi_from n (xs ++ c ∷ []) ≡ (atoi_from n xs * 10 + c - b'0') % u32_mod
unfolding atoi_from
atoi_from-append n [] c h d = rw d refl
atoi_from-append n (x ∷ xs) c h d =
    let dx : is_digit x ≡ true = ground arith in
    rw dx (atoi_from-append ((n * 10 + x - b'0') % u32_mod) xs c (ground arith) d)

digit-decimal : (x : ℕ) → (digit (x % 10) ≡ b'0' + x % 10) × (is_digit (digit (x % 10)) ≡ true)
digit-decimal x = (ground arith, ground arith)

-- The digits printed, and their value.
pub record Prints (x : ℕ) (cs : List ℕ) : Type 0 where
  pub digits : all_digits cs ≡ true
  pub value : atoi_from 0 cs ≡ x

fill-Prints : (k x : ℕ) → x < u32_mod → 0 < k → x < limit k → Prints x (backwards (fill k x 10))
unfolding fill backwards atoi_from
fill-Prints zero x small pos fits = absurd (omega arith)
fill-Prints (suc k) x small pos fits =
    let (e, d) = digit-decimal x in
    elim (Bool-cases (x / 10 == 0)) [
      | inl last ↦ rw last (record {
        digits = all_digits-append [] (digit (x % 10)) refl d;
        value =
            atoi_from-append 0 [] (digit (x % 10)) refl d
            ∙ ap (λ c. (atoi_from 0 [] * 10 + c - b'0') % u32_mod) e
            ∙ only last;
      })
      | inr more ↦
          let ih = fill-Prints k (x / 10) (omega arith) (deep k more fits) (omega arith) in
          rw more (record {
            digits =
                all_digits-append (backwards (fill k (x / 10) 10)) (digit (x % 10)) ih.digits d;
            value =
                atoi_from-append 0 (backwards (fill k (x / 10) 10)) (digit (x % 10)) ih.digits d
                ∙ ap (λ v. (v * 10 + digit (x % 10) - b'0') % u32_mod) ih.value
                ∙ ap (λ c. (x / 10 * 10 + c - b'0') % u32_mod) e
                ∙ omega arith;
          })
    ]
  where
    only : (x / 10 == 0) ≡ true → (atoi_from 0 [] * 10 + (b'0' + x % 10) - b'0') % u32_mod ≡ x
    only last = let small_ : x / 10 ≡ 0 = ground arith in omega (arith, small_)

    deep : (k : ℕ) → (x / 10 == 0) ≡ false → x < limit (suc k) → 0 < k
    deep zero more fits = let big : x / 10 ≢ 0 = ground arith in absurd (omega (arith, big))
    deep (suc k) more fits = omega arith

-- For a word that is not negative as an int, atoi of what printint prints in decimal is the word.
pub atoi-printint : (x : ℕ) → x < 2 ^ 31 → atoi (printint x 10 true) ≡ x
unfolding atoi printint
atoi-printint x small =
    let plus : leb (2 ^ 31) x ≡ false = ground arith in
    rw plus (fill-Prints 16 x (omega arith) (omega arith) (omega arith)).value
