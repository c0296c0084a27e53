-- ===== src/Str/Copy.antt =====
-- The bounded copies and comparisons of string.c.
use boss_os.Base.{
  Bool-cases, ap, arith, inl, inr, not, refl, subst, suc, true, update, update_ne, update_self,
  zero, ℕ, ◌&&◌, ◌+◌, ◌<◌, ◌==◌, ◌↔◌, ◌∙◌, ◌≡◌, ◌≢◌, ◌≤◌, ◌⊎◌,
}
use boss_os.Str.{Diff, Memory, diff, safe_copy, safestrcpy, strncmp}

-- Every byte that safestrcpy writes lies in the buffer, and some byte of it is 0.
pub record Terminated (s n : ℕ) (m m' : Memory) : Type 0 where
  pub outside : (a : ℕ) → (a < s) ⊎ (s + n ≤ a) → m' a ≡ m a
  pub ends : (i : ℕ) × (i < n) × (m' (s + i) ≡ 0)

safe_copy_lem : (s t n : ℕ) (m : Memory) → Terminated s (n + 1) m (safe_copy s t n m)
unfolding safe_copy
safe_copy_lem s t zero m = record {
  outside = λ a h. update_ne m s a 0 (omega arith);
  ends = (0, omega arith, ground arith);
}
safe_copy_lem s t (suc n) m = elim (Bool-cases (m t == 0)) [
  | inl z ↦ rw z (record {
    outside = λ a h.
        update_ne (update m s (m t)) (s + 1) a 0 (omega arith)
        ∙ update_ne m s a (m t) (omega arith);
    ends = (1, omega arith, update_self (update m s (m t)) (s + 1) 0);
  })
  | inr nz ↦
      let ih = safe_copy_lem (s + 1) (t + 1) n (update m s (m t)) in
      let (i, lt, e) = ih.ends in
      rw nz (record {
        outside = λ a h. ih.outside a (omega arith) ∙ update_ne m s a (m t) (omega arith);
        ends = (
          i + 1,
          omega arith,
          ap (safe_copy (s + 1) (t + 1) n (update m s (m t))) (omega arith) ∙ e,
        );
      })
]

-- safestrcpy with a buffer of at least one byte writes inside the buffer only, and leaves a 0 in
-- it, however long the string is.
pub safestrcpy-Terminated : (s t n : ℕ) (m : Memory) → 0 < n → Terminated s n m (safestrcpy s t n m)
unfolding safestrcpy
safestrcpy-Terminated s t zero m h = absurd (omega arith)
safestrcpy-Terminated s t (suc n) m h =
    let e : n + 1 ≡ suc n = omega arith in
    subst (λ k. Terminated s k m (safe_copy s t n m)) e (safe_copy_lem s t n m)

-- The bytes at `p` and `q` agree up to the first 0, for at most `n` of them.
pub data Same (m : Memory) : (p q n : ℕ) → Type 0 where
  over : {p q : ℕ} → Same m p q 0
  ended : {p q n : ℕ} → m p ≡ 0 → m q ≡ 0 → Same m p q (suc n)
  step : {p q n : ℕ} → m p ≢ 0 → m p ≡ m q → Same m (p + 1) (q + 1) n → Same m p q (suc n)

diff_zero : (a b : ℕ) → diff a b ≡ Diff.plus 0 → a ≡ b
diff_zero a b h = ground arith

strncmp-Same : (p q n : ℕ) (m : Memory) → strncmp p q n m ≡ Diff.plus 0 → Same m p q n
unfolding strncmp
strncmp-Same p q zero m h = over
strncmp-Same p q (suc n) m h = elim (Bool-cases (not (m p == 0) && (m p == m q))) [
  | inl more ↦ step (ground arith) (ground arith) (strncmp-Same (p + 1) (q + 1) n m (rw more at h))
  | inr stop ↦
      let same : m p ≡ m q = diff_zero (m p) (m q) (rw stop at h) in
      ended (ground arith) (ground arith)
]

Same-strncmp : {m : Memory} (p q n : ℕ) → Same m p q n → strncmp p q n m ≡ Diff.plus 0
unfolding strncmp
Same-strncmp p q n over = refl
Same-strncmp {m} p q n (ended {n = k} a b) = rw a (rw b refl)
Same-strncmp {m} p q n (step {n = k} ne e r) =
    let ih = Same-strncmp (p + 1) (q + 1) k r in
    let test : (not (m p == 0) && (m p == m q)) ≡ true = ground arith in rw test ih

-- strncmp returns 0 exactly for bytes that agree up to the first 0, or for all of the n.
pub strncmp_iff : (p q n : ℕ) (m : Memory) → (strncmp p q n m ≡ Diff.plus 0) ↔ Same m p q n
strncmp_iff p q n m = (strncmp-Same p q n m, Same-strncmp p q n)
