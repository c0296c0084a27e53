-- ===== src/Proc/Alloc.antt =====
-- The outcomes of allocproc, one by one.
use boss_os.Base.{
  Bool-cases, List, Option, [], add32, ap, arith, false, get_elem?, inl, inr, none, refl, some,
  subst, suc, true, zero, ℕ, ◌+◌, ◌<◌, ◌==◌, ◌∙◌, ◌∷◌, ◌≡◌, ◌≢◌,
}
use boss_os.Proc.{
  Proc, ProcState, Ptable, allocproc, claim_on, claim_slot, claimed, find_unused, give_stack,
  stacked, then_stack, unstacked, ◌=s◌,
}
use boss_os.Proc.Table.{modify, modify-modify}

-- The table after allocproc took slot `i` and `f` was done to it.
abbrev pub taken : ℕ → (Proc → Proc) → Ptable → Ptable
taken i f t = record t {
  procs = modify i (λ p. f (claimed t.nextpid p)) t.procs;
  nextpid = add32 t.nextpid 1;
}

-- What allocproc returns: the table as it was, or one free slot taken.
pub data Alloc (stack : ℕ) (t : Ptable) (r : Option ℕ × Ptable) : Type 0 where
  full : find_unused t.procs 0 ≡ none → r ≡ (none, t) → Alloc stack t r
  no_stack :
      (i : ℕ)
      → find_unused t.procs 0 ≡ some i
      → stack ≡ 0
      → r ≡ (none, taken i unstacked t)
      → Alloc stack t r
  got :
      (i : ℕ)
      → find_unused t.procs 0 ≡ some i
      → 0 < stack
      → r ≡ (some i, taken i (stacked stack) t)
      → Alloc stack t r

module _ (stack : ℕ) (t : Ptable) where
  allocproc-found :
      {o : Option ℕ}
      → find_unused t.procs 0 ≡ o
      → allocproc stack t ≡ then_stack stack (claim_on o t)
  unfolding allocproc claim_slot
  allocproc-found e = ap (λ o. then_stack stack (claim_on o t)) e

  allocproc_full : find_unused t.procs 0 ≡ none → allocproc stack t ≡ (none, t)
  unfolding then_stack
  allocproc_full e = allocproc-found e

  allocproc_no_stack :
      (i : ℕ)
      → find_unused t.procs 0 ≡ some i
      → (stack == 0) ≡ true
      → allocproc stack t ≡ (none, taken i unstacked t)
  unfolding then_stack give_stack
  allocproc_no_stack i e z = allocproc-found e ∙ rw z (rw modify-modify)

  pub allocproc_got :
      (i : ℕ)
      → find_unused t.procs 0 ≡ some i
      → (stack == 0) ≡ false
      → allocproc stack t ≡ (some i, taken i (stacked stack) t)
  unfolding then_stack give_stack
  allocproc_got i e z = allocproc-found e ∙ rw z (rw modify-modify)

pub allocproc-Alloc : (stack : ℕ) (t : Ptable) → Alloc stack t (allocproc stack t)
allocproc-Alloc stack t = go (find_unused t.procs 0) refl
  where
    go : (o : Option ℕ) → find_unused t.procs 0 ≡ o → Alloc stack t (allocproc stack t)
    go none e = full e (allocproc_full stack t e)
    go (some i) e = elim (Bool-cases (stack == 0)) [
      | inl z ↦ no_stack i e (ground arith) (allocproc_no_stack stack t i e z)
      | inr z ↦ got i e (ground arith) (allocproc_got stack t i e z)
    ]

-- The search stops at a slot that is free.
found_of :
    (ps : List Proc) (b i : ℕ)
    → find_unused ps b ≡ some i
    → (k : ℕ) × (p : Proc) × (i ≡ b + k) × (get_elem? ps k ≡ some p) × (p.state ≡ ProcState.unused)
unfolding find_unused
found_of [] b i h = cc
found_of (p ∷ ps) b i h = elim (Bool-cases (p.state =s ProcState.unused)) [
  | inl hit ↦ (0, p, ground arith, refl, ground arith)
  | inr miss ↦
      let (k, q, e, g, u) = found_of ps (b + 1) i (rw miss at h) in (suc k, q, omega arith, g, u)
]

pub find_unused-found :
    (ps : List Proc) (i : ℕ)
    → find_unused ps 0 ≡ some i
    → (p : Proc) × (get_elem? ps i ≡ some p) × (p.state ≡ ProcState.unused)
find_unused-found ps i h =
    let (k, p, e, g, u) = found_of ps 0 i h in
    let same : k ≡ i = omega arith in (p, subst (λ x. get_elem? ps x ≡ some p) same g, u)

-- It finds nothing only if every slot is in use.
pub find_unused-none :
    (ps : List Proc) (b j : ℕ) (p : Proc)
    → find_unused ps b ≡ none
    → get_elem? ps j ≡ some p
    → p.state ≢ ProcState.unused
unfolding find_unused
find_unused-none [] b j p h g = cc
find_unused-none (q ∷ ps) b zero p h g = ground arith
find_unused-none (q ∷ ps) b (suc j) p h g = elim (Bool-cases (q.state =s ProcState.unused)) [
  | inl hit ↦ ground arith
  | inr miss ↦ find_unused-none ps (b + 1) j p (rw miss at h) g
]
