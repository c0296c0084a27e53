-- ===== src/Lock/Invariant.antt =====
-- The invariant of the lock and its processors, and what a step has to give to keep it.
use boss_os.Base.{
  Bool, Option, ap, false, fun_ext, inl, inr, some, subst, sym, true, update, update_ne,
  update_self, ℕ, ℕ_discrete, ◌+◌, ◌<◌, ◌∙◌, ◌≡◌, ◌≢◌, ◌⊎◌,
}
use boss_os.Lock.{Cpu, Phase, Spinlock, World}
use boss_os.Lock.Nesting.{IsMasked}

-- Past xchg, and not past the reset of `locked`.
abbrev pub holds : Phase → Bool
holds Phase.outside = false
holds Phase.spinning = false
holds Phase.taken = true
holds Phase.inside = true
holds Phase.clearing = true
holds Phase.leaving = false

-- Between the write of `cpu` and its reset.
abbrev pub is_inside : Phase → Bool
is_inside Phase.inside = true
is_inside _ = false

abbrev pub is_outside : Phase → Bool
is_outside Phase.outside = true
is_outside _ = false

pub record Inv (w : World) : Type 0 where
  pub one : (i j : ℕ) → holds (w.at i) ≡ true → holds (w.at j) ≡ true → i ≡ j
  pub held : (i : ℕ) → holds (w.at i) ≡ true → w.lk.locked ≡ true
  pub mine : (i : ℕ) → w.lk.owner ≡ i + 1 → is_inside (w.at i) ≡ true
  pub named : (i : ℕ) → is_inside (w.at i) ≡ true → w.lk.owner ≡ i + 1
  pub masked : (i : ℕ) → IsMasked (w.cpus i)
  pub off : (i : ℕ) → is_outside (w.at i) ≡ false → 0 < (w.cpus i).ncli

-- The state after a step, and that it is no panic.
pub record Moves (w : World) (r : Option World) : Type 0 where
  pub after : World
  pub total : r ≡ some after
  pub keeps : Inv after

-- What a step of processor `i` to phase `p` has to give, of the lock and of its own state.
pub record Fits (w : World) (i : ℕ) (p : Phase) (c : Cpu) (lk : Spinlock) : Type 0 where
  pub masked : IsMasked c
  pub off : is_outside p ≡ false → 0 < c.ncli
  pub alone : holds p ≡ true → (j : ℕ) → j ≢ i → holds (w.at j) ≡ false
  pub held : holds p ≡ true → lk.locked ≡ true
  pub held_on : (j : ℕ) → j ≢ i → holds (w.at j) ≡ true → lk.locked ≡ true
  pub mine : lk.owner ≡ i + 1 → is_inside p ≡ true
  pub named : is_inside p ≡ true → lk.owner ≡ i + 1
  pub mine_on : (j : ℕ) → j ≢ i → lk.owner ≡ j + 1 → is_inside (w.at j) ≡ true
  pub named_on : (j : ℕ) → j ≢ i → is_inside (w.at j) ≡ true → lk.owner ≡ j + 1

pub false-true : {b : Bool} → b ≡ false → b ≡ true → ⊥
false-true a b = cc

update-cases :
    {A : Type 0} (f : ℕ → A) (i : ℕ) (a : A) (j : ℕ)
    → ((j ≡ i) × (update f i a j ≡ a)) ⊎ ((j ≢ i) × (update f i a j ≡ f j))
update-cases f i a j = elim (ℕ_discrete j i) [
  | yes e ↦ inl (e, ap (update f i a) e ∙ update_self f i a)
  | no ne ↦ inr (ne, update_ne f i j a ne)
]

pub Inv-step :
    (w : World) (i : ℕ) (p : Phase) (c : Cpu) (lk : Spinlock)
    → Inv w
    → Fits w i p c lk
    → Inv (record { lk = lk; cpus = update w.cpus i c; at = update w.at i p })
Inv-step w i p c lk h f = record {
  one = λ j k a b. both j k (here j) (here k) a b;
  held = λ j a. elim (here j) [
    | inl (e, u) ↦ f.held (rw u at a)
    | inr (ne, u) ↦ f.held_on j ne (rw u at a)
  ];
  mine = λ j a. elim (here j) [
    | inl (e, u) ↦ rw u (f.mine (a ∙ ap (λ x. x + 1) e))
    | inr (ne, u) ↦ rw u (f.mine_on j ne a)
  ];
  named = λ j a. elim (here j) [
    | inl (e, u) ↦ f.named (rw u at a) ∙ ap (λ x. x + 1) (sym e)
    | inr (ne, u) ↦ f.named_on j ne (rw u at a)
  ];
  masked = λ j. elim (update-cases w.cpus i c j) [
    | inl (e, u) ↦ rw u f.masked
    | inr (ne, u) ↦ rw u (h.masked j)
  ];
  off = λ j a. elim (here j) [
    | inl (e, u) ↦ rw (e, update_self w.cpus i c) (f.off (rw u at a))
    | inr (ne, u) ↦ rw (update_ne w.cpus i j c ne) (h.off j (rw u at a))
  ];
}
  where
    here : (j : ℕ) → ((j ≡ i) × (update w.at i p j ≡ p)) ⊎ ((j ≢ i) × (update w.at i p j ≡ w.at j))
    here j = update-cases w.at i p j

    both :
        (j k : ℕ)
        → ((j ≡ i) × (update w.at i p j ≡ p)) ⊎ ((j ≢ i) × (update w.at i p j ≡ w.at j))
        → ((k ≡ i) × (update w.at i p k ≡ p)) ⊎ ((k ≢ i) × (update w.at i p k ≡ w.at k))
        → holds (update w.at i p j) ≡ true
        → holds (update w.at i p k) ≡ true
        → j ≡ k
    both j k (inl (e, u)) (inl (e', u')) a b = e ∙ sym e'
    both j k (inl (e, u)) (inr (ne, u')) a b =
        absurd (false-true (f.alone (rw u at a) k ne) (rw u' at b))
    both j k (inr (ne, u)) (inl (e, u')) a b =
        absurd (false-true (f.alone (rw u' at b) j ne) (rw u at a))
    both j k (inr (ne, u)) (inr (ne', u')) a b = h.one j k (rw u at a) (rw u' at b)

update-same : {A : Type 0} (f : ℕ → A) (i : ℕ) → update f i (f i) ≡ f
update-same f i =
    fun_ext
      (λ j. elim (update-cases f i (f i) j) [ inl (e, u) ↦ u ∙ ap f (sym e) | inr (ne, u) ↦ u ])

pub Inv-still :
    (w : World) (i : ℕ) (p : Phase) (lk : Spinlock)
    → Inv w
    → Fits w i p (w.cpus i) lk
    → Inv (record { lk = lk; cpus = w.cpus; at = update w.at i p })
Inv-still w i p lk h f =
    subst (λ g. Inv (record { lk = lk; cpus = g; at = update w.at i p })) (update-same w.cpus i)
      (Inv-step w i p (w.cpus i) lk h f)
