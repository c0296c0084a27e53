-- ===== src/Syscall/Args.antt =====
-- Arguments that are accepted lie inside the memory of the process.
use boss_os.Base.{
  Bool-cases, Option, add32, ap, arith, dec_lt, false, inl, inr, leb, ltb, none, refl, some,
  some-injective, subst, suc, sym, zero, ℕ, ℕ_discrete, ◌*◌, ◌+◌, ◌-◌, ◌<◌, ◌==◌, ◌^◌, ◌||◌, ◌↔◌,
  ◌∙◌, ◌≡◌, ◌≢◌, ◌≤◌,
}
use boss_os.Syscall.{User, argint, argptr, check_ptr, fetchint, fetchstr, load, scan, with_ptr}

-- The string at `addr` has length `n` and ends before `sz`.
pub record StringAt (sz addr n : ℕ) (m : ℕ → ℕ) : Type 0 where
  pub inside : addr + n < sz
  pub ends : m (addr + n) ≡ 0
  pub before : (i : ℕ) → i < n → m (addr + i) ≢ 0

scan-StringAt :
    (k addr n r : ℕ) (m : ℕ → ℕ)
    → ((i : ℕ) → i < n → m (addr + i) ≢ 0)
    → scan k addr n m ≡ some r
    → StringAt (addr + n + k) addr r m
unfolding scan
scan-StringAt zero addr n r m h e = cc
scan-StringAt (suc k) addr n r m h e = elim (Bool-cases (m (addr + n) == 0)) [
  | inl z ↦
      let same : n ≡ r = some-injective n r (rw z at e) in
      subst (λ q. StringAt (addr + n + suc k) addr q m) same
        (record { inside = omega arith; ends = ground arith; before = h })
  | inr nz ↦
      let ih =
        scan-StringAt k addr (n + 1) r m
          (λ i l. elim (ℕ_discrete i n) [
            | yes last ↦ λ q. absurd (ground (arith, ap (λ x. m (addr + x)) last))
            | no ne ↦ h i (omega arith)
          ])
          (rw nz at e) in
      record { inside = omega (arith, ih.inside); ends = ih.ends; before = ih.before }
]

scan-none :
    (k addr n : ℕ) (m : ℕ → ℕ)
    → scan k addr n m ≡ none
    → (i : ℕ) → n ≤ i
    → i < n + k
    → m (addr + i) ≢ 0
unfolding scan
scan-none zero addr n m e i lo hi q = omega arith
scan-none (suc k) addr n m e i lo hi q = elim (Bool-cases (m (addr + n) == 0)) [
  | inl z ↦ absurd (none_some (rw z at e))
  | inr nz ↦ elim (ℕ_discrete i n) [
    | yes first ↦ absurd (ground (arith, ap (λ x. m (addr + x)) first))
    | no ne ↦ scan-none k addr (n + 1) m (rw nz at e) i (omega arith) (omega arith) q
  ]
]
  where
    none_some : some n ≡ none → ⊥
    none_some e = cc

StringAt-unique :
    (sz addr n r : ℕ) (m : ℕ → ℕ) → StringAt sz addr n m → StringAt sz addr r m → n ≡ r
StringAt-unique sz addr n r m a b = elim (dec_lt n r) [
  | yes lt ↦ absurd (b.before n lt a.ends)
  | no ge ↦ elim (dec_lt r n) [ yes lt ↦ absurd (a.before r lt b.ends) | no ge' ↦ omega arith ]
]

scan-finds : (sz addr n : ℕ) (m : ℕ → ℕ) → StringAt sz addr n m → scan (sz - addr) addr 0 m ≡ some n
scan-finds sz addr n m h = found (scan (sz - addr) addr 0 m) refl
  where
    found : (r : Option ℕ) → scan (sz - addr) addr 0 m ≡ r → scan (sz - addr) addr 0 m ≡ some n
    found none e =
        absurd (scan-none (sz - addr) addr 0 m e n (omega arith) (omega (arith, h.inside)) h.ends)
    found (some r) e =
        let s = scan-StringAt (sz - addr) addr 0 r m (λ i l. absurd (omega arith)) e in
        let fits : addr + 0 + (sz - addr) ≡ sz = omega (arith, h.inside) in
        e ∙ ap some (StringAt-unique sz addr r n m (subst (λ z. StringAt z addr r m) fits s) h)

with_ptr-inv : (addr n : ℕ) (r : Option ℕ) → with_ptr addr r ≡ some (addr, n) → r ≡ some n
with_ptr-inv addr n none e = cc
with_ptr-inv addr n (some k) e = ap some (ap (λ p. p.1) (some-injective _ _ e))

fetchstr-found :
    (addr n : ℕ) (u : User) → fetchstr addr u ≡ some (addr, n) → StringAt u.sz addr n u.mem
unfolding fetchstr
fetchstr-found addr n u e = elim (Bool-cases (leb u.sz addr)) [
  | inl over ↦ absurd (none_some (rw over at e))
  | inr under ↦
      let got = with_ptr-inv addr n (scan (u.sz - addr) addr 0 u.mem) (rw under at e) in
      let s = scan-StringAt (u.sz - addr) addr 0 n u.mem (λ i l. absurd (omega arith)) got in
      let fits : addr + 0 + (u.sz - addr) ≡ u.sz = ground arith in
      subst (λ z. StringAt z addr n u.mem) fits s
]
  where
    none_some : {A : Type 0} {a : A} → none ≡ some a → ⊥
    none_some e = cc

fetchstr-finds :
    (addr n : ℕ) (u : User) → StringAt u.sz addr n u.mem → fetchstr addr u ≡ some (addr, n)
unfolding fetchstr
fetchstr-finds addr n u h =
    let under : leb u.sz addr ≡ false = ground (arith, h.inside) in
    rw under (ap (with_ptr addr) (scan-finds u.sz addr n u.mem h))

-- fetchstr returns the length n exactly when the bytes at the address form a string of length n
-- whose ending 0 also lies in the memory of the process.
pub fetchstr_iff :
    (addr n : ℕ) (u : User) → (fetchstr addr u ≡ some (addr, n)) ↔ StringAt u.sz addr n u.mem
fetchstr_iff addr n u = (fetchstr-found addr n u, fetchstr-finds addr n u)

check_ptr-inv :
    (size p : ℕ) (u : User) (r : Option ℕ)
    → u.sz ≤ 2 ^ 31
    → check_ptr size u r ≡ some p
    → (r ≡ some p) × (p < u.sz) × (p + size ≤ u.sz)
unfolding check_ptr
check_ptr-inv size p u none small e = absurd cc
check_ptr-inv size p u (some i) small e =
    elim (Bool-cases (leb (2 ^ 31) size || (leb u.sz i || ltb u.sz (add32 i size)))) [
      | inl bad ↦ absurd (none_some (rw bad at e))
      | inr ok ↦
          let same : i ≡ p = some-injective i p (rw ok at e) in
          (ap some same, ground arith, ground arith)
    ]
  where
    none_some : {A : Type 0} {a : A} → none ≡ some a → ⊥
    none_some e = cc

fetchint-inv :
    (a p : ℕ) (u : User)
    → u.sz ≤ 2 ^ 31
    → fetchint a u ≡ some p
    → (a + 4 ≤ u.sz) × (p ≡ load u.mem a)
unfolding fetchint
fetchint-inv a p u small e = elim (Bool-cases (leb u.sz a || ltb u.sz (add32 a 4))) [
  | inl bad ↦ absurd (none_some (rw bad at e))
  | inr ok ↦ (ground arith, sym (some-injective _ _ (rw ok at e)))
]
  where
    none_some : {A : Type 0} {a : A} → none ≡ some a → ⊥
    none_some e = cc

-- For a process whose memory ends at or below KERNBASE: a pointer that argptr accepts is the word
-- of the argument, that word lies in the memory of the process, and so do the `size` bytes from
-- the pointer on. No sum of the tests can wrap around.
pub argptr-inside :
    (n size p : ℕ) (u : User)
    → u.sz ≤ 2 ^ 31
    → argptr n size u ≡ some p
    → (p < u.sz)
      × (p + size ≤ u.sz)
      × (add32 (add32 u.esp 4) (4 * n) + 4 ≤ u.sz)
      × (p ≡ load u.mem (add32 (add32 u.esp 4) (4 * n)))
unfolding argptr argint
argptr-inside n size p u small e =
    let (got, lo, hi) = check_ptr-inv size p u (argint n u) small e in
    let (fits, word) = fetchint-inv (add32 (add32 u.esp 4) (4 * n)) p u small got in
    (lo, hi, fits, word)
