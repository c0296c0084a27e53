-- ===== src/Bio/Copies.antt =====
-- How many buffers stand for a block.
use boss_os.Base.{
  Bool, Bool-cases, List, Option, [], ap, arith, false, if◌then◌else◌, inl, inr, ltb, none, refl,
  some, some-injective, sub32, subst, sym, true, u32_mod, ℕ, ◌&&◌, ◌+◌, ◌==◌, ◌∷◌, ◌≡◌, ◌≤◌,
}
use boss_os.Bio.{
  Buf, find_cached, is_block, is_unused, keep, or_here, recycle, renew, to_front, unlink,
}

abbrev pub one_if : Bool → ℕ
one_if b = if b then 1 else 0

abbrev pub copies : (dev blockno : ℕ) → List Buf → ℕ
copies d n [] = 0
copies d n (b ∷ bs) = one_if (is_block d n b) + copies d n bs

-- Buffer `i` stands for the block and has a reference.
abbrev pub serves : (i dev blockno : ℕ) → List Buf → Bool
serves i d n [] = false
serves i d n (b ∷ bs) =
    if (b.id == i) && (is_block d n b && ltb 0 b.refcnt) then true else serves i d n bs

-- No counter is at its maximum.
abbrev pub small : List Buf → Bool
small [] = true
small (b ∷ bs) = ltb (b.refcnt + 1) u32_mod && small bs

pub find_cached-none : (d n : ℕ) (bs : List Buf) → find_cached d n bs ≡ none → copies d n bs ≡ 0
unfolding find_cached
find_cached-none d n [] e = refl
find_cached-none d n (b ∷ bs) e = elim (Bool-cases (is_block d n b)) [
  | inl yes_ ↦ absurd (some_none (rw yes_ at e))
  | inr no_ ↦
      let ih = find_cached-none d n bs (keep-none b (find_cached d n bs) (rw no_ at e)) in
      rw no_ (omega arith)
]
  where
    some_none : {A : Type 0} {a : A} → some a ≡ none → ⊥
    some_none e = cc

    keep-none : (b : Buf) (r : Option (ℕ × List Buf)) → keep b r ≡ none → r ≡ none
    keep-none b none e = refl
    keep-none b (some r) e = cc

-- What the first loop gives.
pub record Cached (d n : ℕ) (bs : List Buf) (i : ℕ) (bs' : List Buf) : Type 0 where
  pub same : (d' n' : ℕ) → copies d' n' bs' ≡ copies d' n' bs
  pub found : serves i d n bs' ≡ true

pub keep-inv :
    (b : Buf) (r : Option (ℕ × List Buf)) (i : ℕ) (bs' : List Buf)
    → keep b r ≡ some (i, bs')
    → (bs'' : List Buf) × (r ≡ some (i, bs'')) × (bs' ≡ b ∷ bs'')
keep-inv b none i bs' e = cc
keep-inv b (some (j, cs)) i bs' e =
    let q = some-injective _ _ e in
    (cs, ap (λ k. some (k, cs)) (ap (λ p. p.0) q), sym (ap (λ p. p.1) q))

pub find_cached-some :
    (d n : ℕ) (bs : List Buf) (i : ℕ) (bs' : List Buf)
    → small bs ≡ true
    → find_cached d n bs ≡ some (i, bs')
    → Cached d n bs i bs'
unfolding find_cached
find_cached-some d n [] i bs' sm e = absurd cc
find_cached-some d n (b ∷ bs) i bs' sm e = elim (Bool-cases (is_block d n b)) [
  | inl yes_ ↦
      let q = some-injective _ _ (rw yes_ at e) in
      subst (λ c. Cached d n (b ∷ bs) i c) (ap (λ p. p.1) q)
        (record { same = λ d' n'. refl; found = ground (arith, ap (λ p. p.0) q) })
  | inr no_ ↦
      let (cs, q, e') = keep-inv b (find_cached d n bs) i bs' (rw no_ at e) in
      let ih = find_cached-some d n bs i cs (ground arith) q in
      subst (λ c. Cached d n (b ∷ bs) i c) (sym e')
        (record { same = λ d' n'. omega (arith, ih.same d' n'); found = ground (arith, ih.found) })
]

-- What the second loop gives: one more buffer for the block, and none more for another.
pub record Recycled (d n : ℕ) (bs : List Buf) (i : ℕ) (bs' : List Buf) : Type 0 where
  pub one : copies d n bs' ≤ copies d n bs + 1
  pub others : (d' n' : ℕ) → ((d == d') && (n == n')) ≡ false → copies d' n' bs' ≤ copies d' n' bs
  pub found : serves i d n bs' ≡ true

here-Recycled : (d n : ℕ) (b : Buf) (bs : List Buf) → Recycled d n (b ∷ bs) b.id (renew d n b ∷ bs)
here-Recycled d n b bs = record {
  one = ground arith;
  others = λ d' n' ne. ground arith;
  found = ground arith;
}

pub recycle-some :
    (d n : ℕ) (bs : List Buf) (i : ℕ) (bs' : List Buf)
    → recycle d n bs ≡ some (i, bs')
    → Recycled d n bs i bs'
unfolding recycle
recycle-some d n [] i bs' e = absurd cc
recycle-some d n (b ∷ bs) i bs' e =
    from (λ j cs q. recycle-some d n bs j cs q) (recycle d n bs) refl e
  where
    from :
        ((j : ℕ) (cs : List Buf) → recycle d n bs ≡ some (j, cs) → Recycled d n bs j cs)
        → (r : Option (ℕ × List Buf)) → recycle d n bs ≡ r
        → or_here d n b bs r ≡ some (i, bs')
        → Recycled d n (b ∷ bs) i bs'
    from ih none q e = elim (Bool-cases (is_unused b)) [
      | inl free ↦
          let p = some-injective _ _ (rw free at e) in
          subst (λ c. Recycled d n (b ∷ bs) c.0 c.1) p (here-Recycled d n b bs)
      | inr used ↦ absurd (none_some (rw used at e))
    ]
      where
        none_some : {A : Type 0} {a : A} → none ≡ some a → ⊥
        none_some e = cc
    from ih (some (j, cs)) q e =
        let p = some-injective _ _ e in
        let h = ih j cs q in
        subst (λ c. Recycled d n (b ∷ bs) c.0 c.1) p
          (record {
            one = omega (arith, h.one);
            others = λ d' n' ne. omega (arith, h.others d' n' ne);
            found = ground (arith, h.found);
          })

pub copies-unlink :
    (d n i : ℕ) (bs : List Buf) → copies d n (to_front (unlink i bs)) ≡ copies d n bs
unfolding unlink
copies-unlink d n i [] = refl
copies-unlink d n i (b ∷ bs) = elim (Bool-cases (b.id == i)) [
  | inl yes_ ↦ elim (Bool-cases (sub32 b.refcnt 1 == 0)) [
    | inl last ↦ rw (yes_, last) refl
    | inr more ↦ rw (yes_, more) refl
  ]
  | inr no_ ↦ rw no_ (behind (unlink i bs) (copies-unlink d n i bs))
]
  where
    behind :
        (r : Option Buf × List Buf)
        → copies d n (to_front r) ≡ copies d n bs
        → copies d n (to_front (r.0, b ∷ r.1)) ≡ copies d n (b ∷ bs)
    behind (none, cs) h = omega arith
    behind (some f, cs) h = omega arith
