-- ===== src/Proc/Fork.antt =====
-- fork and userinit: what they do to the slot they take, and to no other.
use boss_os.Base.{
  Bool-cases, List, Option, [], ap, arith, get_elem?, inl, inr, length, none, refl, some, subst,
  suc, sym, zero, ℕ, ◌++◌, ◌<◌, ◌==◌, ◌∙◌, ◌∷◌, ◌≡◌, ◌≢◌, ◌≤◌, ◌⊎◌,
}
use boss_os.Proc.{
  Effect, Forked, Proc, ProcState, Ptable, allocproc, claimed, dup_files, dup_into, find_unused,
  fork, fork_on, forked, forkret, optional, returned, stacked, unstacked,
}
use boss_os.Proc.Table.{get_elem?-modify, modify, modify-modify}
use boss_os.Proc.Alloc.{Alloc, allocproc-Alloc, find_unused-found, taken}

-- The slot of a new child.
abbrev pub newborn : (me stack pgdir pid : ℕ) → Proc → Proc → Proc
newborn me stack pgdir pid cur p = forked me pgdir cur (stacked stack (claimed pid p))

abbrev pub given_up : (stack pid : ℕ) → Proc → Proc
given_up stack pid p = returned (stacked stack (claimed pid p))

-- How fork ends, with its result and the table it leaves.
pub data ForkEnd (me stack pgdir : ℕ) (cur : Proc) (t : Ptable) (r : Forked) : Type 0 where
  table_full :
      find_unused t.procs 0 ≡ none
      → r ≡ record { table = t; child = none; effects = [] }
      → ForkEnd me stack pgdir cur t r
  no_stack :
      (i : ℕ)
      → find_unused t.procs 0 ≡ some i
      → stack ≡ 0
      → r ≡ record { table = taken i unstacked t; child = none; effects = [] }
      → ForkEnd me stack pgdir cur t r
  no_memory :
      (i : ℕ)
      → find_unused t.procs 0 ≡ some i
      → pgdir ≡ 0
      → r ≡ record {
        table = taken i (λ p. returned (stacked stack p)) t;
        child = none;
        effects = Effect.kfree stack ∷ [];
      }
      → ForkEnd me stack pgdir cur t r
  born :
      (i : ℕ)
      → find_unused t.procs 0 ≡ some i
      → 0 < stack
      → 0 < pgdir
      → r ≡ record {
        table = taken i (λ p. forked me pgdir cur (stacked stack p)) t;
        child = some (i, t.nextpid);
        effects = dup_files cur.ofile ++ optional Effect.idup cur.cwd;
      }
      → ForkEnd me stack pgdir cur t r

module _ (me stack pgdir : ℕ) (cur : Proc) (t : Ptable) where
  fork_step :
      {a : Option ℕ × Ptable}
      → allocproc stack t ≡ a
      → fork me stack pgdir cur t ≡ fork_on me stack pgdir t.nextpid cur a
  unfolding fork
  fork_step e = ap (fork_on me stack pgdir t.nextpid cur) e

  fork-got :
      (i : ℕ)
      → find_unused t.procs 0 ≡ some i
      → 0 < stack
      → allocproc stack t ≡ (some i, taken i (stacked stack) t)
      → ForkEnd me stack pgdir cur t (fork me stack pgdir cur t)
  unfolding fork_on
  fork-got i e pos a = elim (Bool-cases (pgdir == 0)) [
    | inl z ↦ no_memory i e (ground arith) (fork_step a ∙ rw z (rw modify-modify))
    | inr z ↦ born i e pos (ground arith) (fork_step a ∙ rw z (rw modify-modify))
  ]

  pub fork-ForkEnd : ForkEnd me stack pgdir cur t (fork me stack pgdir cur t)
  unfolding fork_on
  fork-ForkEnd = elim (allocproc-Alloc stack t) [
    | Alloc.full e a ↦ table_full e (fork_step a)
    | Alloc.no_stack i e z a ↦ ForkEnd.no_stack i e z (fork_step a)
    | Alloc.got i e pos a ↦ fork-got i e pos a
  ]

-- The slot `c` of a new child, that held `p` before; `cur` is the caller.
pub record IsChildOf (me stack pgdir pid : ℕ) (cur p c : Proc) : Type 0 where
  pub fields : c ≡ record p {
    sz = cur.sz;
    pgdir = pgdir;
    kstack = stack;
    state = ProcState.runnable;
    pid = pid;
    parent = some me;
    eax = 0;
    eip = forkret;
    ofile = c.ofile;
    cwd = cur.cwd;
    name = cur.name;
  }
  pub files :
      (j f : ℕ)
      → get_elem? cur.ofile j ≡ some (some f)
      → length cur.ofile ≤ length p.ofile
      → get_elem? c.ofile j ≡ some (some f)
  pub no_files :
      (j : ℕ)
      → get_elem? cur.ofile j ≡ some none
      → length cur.ofile ≤ length p.ofile
      → get_elem? c.ofile j ≡ get_elem? p.ofile j

dup_into-open :
    (fs old : List (Option ℕ)) (j f : ℕ)
    → get_elem? fs j ≡ some (some f)
    → length fs ≤ length old
    → get_elem? (dup_into fs old) j ≡ some (some f)
unfolding dup_into
dup_into-open [] old j f h le = cc
dup_into-open (x ∷ fs) [] j f h le = absurd (omega arith)
dup_into-open (none ∷ fs) (o ∷ old) zero f h le = cc
dup_into-open (none ∷ fs) (o ∷ old) (suc j) f h le = dup_into-open fs old j f h (omega arith)
dup_into-open (some x ∷ fs) (o ∷ old) zero f h le = h
dup_into-open (some x ∷ fs) (o ∷ old) (suc j) f h le = dup_into-open fs old j f h (omega arith)

dup_into-closed :
    (fs old : List (Option ℕ)) (j : ℕ)
    → get_elem? fs j ≡ some none
    → length fs ≤ length old
    → get_elem? (dup_into fs old) j ≡ get_elem? old j
unfolding dup_into
dup_into-closed [] old j h le = cc
dup_into-closed (x ∷ fs) [] j h le = absurd (omega arith)
dup_into-closed (none ∷ fs) (o ∷ old) zero h le = refl
dup_into-closed (none ∷ fs) (o ∷ old) (suc j) h le = dup_into-closed fs old j h (omega arith)
dup_into-closed (some x ∷ fs) (o ∷ old) zero h le = cc
dup_into-closed (some x ∷ fs) (o ∷ old) (suc j) h le = dup_into-closed fs old j h (omega arith)

newborn-IsChildOf :
    (me stack pgdir pid : ℕ) (cur p : Proc)
    → IsChildOf me stack pgdir pid cur p (newborn me stack pgdir pid cur p)
newborn-IsChildOf me stack pgdir pid cur p = record {
  fields = refl;
  files = λ j f h le. dup_into-open cur.ofile p.ofile j f h le;
  no_files = λ j h le. dup_into-closed cur.ofile p.ofile j h le;
}

-- What a caller of fork may rely on.
pub record ForkSpec (me stack pgdir : ℕ) (cur : Proc) (t : Ptable) (r : Forked) : Type 0 where
  pub others :
      (j : ℕ) (p : Proc)
      → get_elem? t.procs j ≡ some p
      → p.state ≢ ProcState.unused
      → get_elem? r.table.procs j ≡ some p
  pub child :
      (i pid : ℕ)
      → r.child ≡ some (i, pid)
      → (pid ≡ t.nextpid)
        × ((p c : Proc) × (get_elem? t.procs i ≡ some p)
            × (p.state ≡ ProcState.unused)
            × (get_elem? r.table.procs i ≡ some c)
            × IsChildOf me stack pgdir pid cur p c)
  pub refused : r.child ≡ none → (find_unused t.procs 0 ≡ none) ⊎ ((stack ≡ 0) ⊎ (pgdir ≡ 0))

-- Taking a free slot leaves the used ones alone.
taken_others :
    (i j : ℕ) (f : Proc → Proc) (t : Ptable) (p : Proc)
    → find_unused t.procs 0 ≡ some i
    → get_elem? t.procs j ≡ some p
    → p.state ≢ ProcState.unused
    → get_elem? (taken i f t).procs j ≡ some p
taken_others i j f t p e g used =
    let (q, gq, u) = find_unused-found t.procs i e in
    let apart : i ≢ j = λ same. used (ground arith) in
    get_elem?-modify i j (λ x. f (claimed t.nextpid x)) t.procs p g ∙ ground arith

module _ (me stack pgdir : ℕ) (cur : Proc) (t : Ptable) where
  ForkEnd-others :
      {r : Forked} (j : ℕ) (p : Proc)
      → ForkEnd me stack pgdir cur t r
      → get_elem? t.procs j ≡ some p
      → p.state ≢ ProcState.unused
      → get_elem? r.table.procs j ≡ some p
  ForkEnd-others j p (table_full e is) g used = rw is g
  ForkEnd-others j p (ForkEnd.no_stack i e z is) g used =
      rw is (taken_others i j unstacked t p e g used)
  ForkEnd-others j p (no_memory i e z is) g used =
      rw is (taken_others i j (λ q. returned (stacked stack q)) t p e g used)
  ForkEnd-others j p (born i e a b is) g used =
      rw is (taken_others i j (λ q. forked me pgdir cur (stacked stack q)) t p e g used)

  ForkEnd-child :
      {r : Forked} (i pid : ℕ)
      → ForkEnd me stack pgdir cur t r
      → r.child ≡ some (i, pid)
      → (pid ≡ t.nextpid)
        × ((p c : Proc) × (get_elem? t.procs i ≡ some p)
            × (p.state ≡ ProcState.unused)
            × (get_elem? r.table.procs i ≡ some c)
            × IsChildOf me stack pgdir pid cur p c)
  ForkEnd-child i pid (table_full e is) h = ground arith
  ForkEnd-child i pid (ForkEnd.no_stack k e z is) h = ground arith
  ForkEnd-child i pid (no_memory k e z is) h = ground arith
  ForkEnd-child i pid (born k e a b is) h =
      let (p, g, u) = find_unused-found t.procs k e in
      let same : k ≡ i = ground arith in
      let here = get_elem?-modify k k (λ q. newborn me stack pgdir t.nextpid cur q) t.procs p g in
      let numbered : pid ≡ t.nextpid = ground arith in
      (
        numbered,
        (
          p,
          newborn me stack pgdir t.nextpid cur p,
          subst (λ x. get_elem? t.procs x ≡ some p) same g,
          u,
          rw is (
              subst
                (λ x.
                  get_elem? (modify k (λ q. newborn me stack pgdir t.nextpid cur q) t.procs) x
                  ≡ some (newborn me stack pgdir t.nextpid cur p))
                same (here ∙ ground arith)),
          subst (λ x. IsChildOf me stack pgdir x cur p (newborn me stack pgdir t.nextpid cur p))
              (sym numbered) (newborn-IsChildOf me stack pgdir t.nextpid cur p),
        ),
      )

  ForkEnd-refused :
      {r : Forked}
      → ForkEnd me stack pgdir cur t r
      → r.child ≡ none
      → (find_unused t.procs 0 ≡ none) ⊎ ((stack ≡ 0) ⊎ (pgdir ≡ 0))
  ForkEnd-refused (table_full e is) h = inl e
  ForkEnd-refused (ForkEnd.no_stack i e z is) h = inr (inl z)
  ForkEnd-refused (no_memory i e z is) h = inr (inr z)
  ForkEnd-refused (born i e a b is) h = ground arith

  -- fork, when no other operation falls between its parts, never touches a slot in use. If it
  -- returns a child, the child's pid is the next one, its slot was free, and the slot now holds a
  -- runnable copy of the caller: parent `me`, the new stack and page table, forkret to start at,
  -- the caller's size, directory and name, and 0 in eax. In a slot with no fewer descriptors than
  -- the caller's, each file that the caller has open stands at the same descriptor, and where the
  -- caller has none the descriptor is as it was. The other fields of the slot are as they were.
  -- fork returns none only if no slot is free, no stack was given or the memory was not copied.
  pub fork-ForkSpec : ForkSpec me stack pgdir cur t (fork me stack pgdir cur t)
  fork-ForkSpec =
      let e = fork-ForkEnd me stack pgdir cur t in
      record {
        others = λ j p g used. ForkEnd-others j p e g used;
        child = λ i pid h. ForkEnd-child i pid e h;
        refused = λ h. ForkEnd-refused e h;
      }
