-- ===== src/Proc/Wait.antt =====
-- wait: which child it reaps, and when it fails or sleeps instead.
use boss_os.Base.{
  Bool, Bool-cases, List, Option, [], ap, arith, false, get_elem?, inl, inr, none, refl, some,
  subst, suc, true, zero, ℕ, ◌&&◌, ◌+◌, ◌||◌, ◌∷◌, ◌≡◌, ◌≢◌,
}
use boss_os.Proc.{Effect, Proc, ProcState, Ptable, ◌=s◌}
use boss_os.Proc.Table.{modify}
use boss_os.Proc.Life.{Scan, Waited, same_slot, wait, wait_on, wait_scan}

abbrev pub IsChild : ℕ → Proc → Type 0
IsChild me p = p.parent ≡ some me

child_of : (o : Option ℕ) (me : ℕ) → same_slot o me ≡ true → o ≡ some me
child_of none me h = cc
child_of (some i) me h = ground arith

child_test : (me : ℕ) (p : Proc) → IsChild me p → same_slot p.parent me ≡ true
child_test me p h = rw h (ground arith)

-- What a scan from index `b` on has found.
record ScanSpec (me : ℕ) (ps : List Proc) (b : ℕ) (kids : Bool) (s : Scan) : Type 0 where
  found :
      (i : ℕ) (p : Proc)
      → s.zombie ≡ some (i, p)
      → (k : ℕ) × (i ≡ b + k)
        × (get_elem? ps k ≡ some p)
        × IsChild me p
        × (p.state ≡ ProcState.zombie)
  missed :
      s.zombie ≡ none
      → (k : ℕ) (p : Proc) → get_elem? ps k ≡ some p
      → IsChild me p
      → (p.state ≢ ProcState.zombie) × (s.havekids ≡ true)
  kept : kids ≡ true → s.havekids ≡ true
  had :
      s.havekids ≡ true
      → kids ≡ false
      → (k : ℕ) × (p : Proc) × (get_elem? ps k ≡ some p) × IsChild me p

scan_hit :
    (me : ℕ) (p : Proc) (ps : List Proc) (b : ℕ) (kids : Bool)
    → IsChild me p
    → p.state ≡ ProcState.zombie
    → ScanSpec me (p ∷ ps) b kids (record { havekids = true; zombie = some (b, p) })
scan_hit me p ps b kids mine z = record {
  found = λ i q h.
      let is : p ≡ q = cc in
      (
        0,
        ground arith,
        ap some is,
        subst (λ x. IsChild me x) is mine,
        subst (λ x. x.state ≡ ProcState.zombie) is z,
      );
  missed = λ h k q g. cc;
  kept = λ h. refl;
  had = λ h f. (0, p, refl, mine);
}

scan_miss :
    (me : ℕ) (p : Proc) (ps : List Proc) (b : ℕ) (kids : Bool) (s : Scan)
    → (same_slot p.parent me && (p.state =s ProcState.zombie)) ≡ false
    → ScanSpec me ps (b + 1) (same_slot p.parent me || kids) s
    → ScanSpec me (p ∷ ps) b kids s
scan_miss me p ps b kids s no_hit ih = record {
  found = λ i q h. let (k, e, g, c, z) = ih.found i q h in (suc k, omega arith, g, c, z);
  missed = λ h k q g c. missed h k q g c;
  kept = λ h. ih.kept (rw h (ground arith));
  had = λ h f. had h f;
}
  where
    missed :
        s.zombie ≡ none
        → (k : ℕ) (q : Proc) → get_elem? (p ∷ ps) k ≡ some q
        → IsChild me q
        → (q.state ≢ ProcState.zombie) × (s.havekids ≡ true)
    missed h zero q g c =
        let is : q ≡ p = cc in
        let mine : same_slot p.parent me ≡ true =
          child_test me p (subst (λ x. IsChild me x) is c) in
        (
          λ z.
              let z' : p.state ≡ ProcState.zombie = subst (λ x. x.state ≡ ProcState.zombie) is z in
              cc (rw (mine, z') at no_hit),
          ih.kept (rw mine refl),
        )
    missed h (suc k) q g c = ih.missed h k q g c

    had :
        s.havekids ≡ true
        → kids ≡ false
        → (k : ℕ) × (q : Proc) × (get_elem? (p ∷ ps) k ≡ some q) × IsChild me q
    had h f = elim (Bool-cases (same_slot p.parent me)) [
      | inl mine ↦ (0, p, refl, child_of p.parent me mine)
      | inr other ↦ let (k, q, g, c) = ih.had h (rw (other, f) refl) in (suc k, q, g, c)
    ]

wait_scan_lem :
    (me : ℕ) (ps : List Proc) (b : ℕ) (kids : Bool) → ScanSpec me ps b kids (wait_scan me ps b kids)
unfolding wait_scan
wait_scan_lem me [] b kids = record {
  found = λ i p h. cc;
  missed = λ h k p g. cc;
  kept = λ h. h;
  had = λ h f. cc;
}
wait_scan_lem me (p ∷ ps) b kids =
    let ih = wait_scan_lem me ps (b + 1) (same_slot p.parent me || kids) in
    elim (Bool-cases (same_slot p.parent me && (p.state =s ProcState.zombie))) [
      | inl hit ↦
          rw hit (scan_hit me p ps b kids (child_of p.parent me (ground arith)) (ground arith))
      | inr miss ↦ rw miss (scan_miss me p ps b kids _ miss ih)
    ]

-- What the parent may conclude from one round of wait.
pub data WaitEnd (me : ℕ) (killed : Bool) (t : Ptable) (w : Waited) : Type 0 where
  reaps :
      (i : ℕ) (p : Proc)
      → get_elem? t.procs i ≡ some p
      → IsChild me p
      → p.state ≡ ProcState.zombie
      → w
        ≡ Waited.child p.pid
            (record t {
              procs =
                  modify i
                    (λ q. record q {
                      kstack = 0;
                      pid = 0;
                      parent = none;
                      name = [];
                      killed = false;
                      state = ProcState.unused;
                    })
                    t.procs;
            })
            (Effect.kfree p.kstack ∷ Effect.freevm p.pgdir ∷ [])
      → WaitEnd me killed t w
  fails :
      ((k : ℕ) (p : Proc)
        → get_elem? t.procs k ≡ some p
        → IsChild me p
        → (killed ≡ true) × (p.state ≢ ProcState.zombie))
      → w ≡ Waited.failed
      → WaitEnd me killed t w
  waits :
      (k : ℕ) (p : Proc)
      → get_elem? t.procs k ≡ some p
      → IsChild me p
      → ((j : ℕ) (q : Proc)
          → get_elem? t.procs j ≡ some q
          → IsChild me q
          → q.state ≢ ProcState.zombie)
      → killed ≡ false
      → w ≡ Waited.asleep
      → WaitEnd me killed t w

module _ (me : ℕ) (killed : Bool) (t : Ptable) where
  wait_on-WaitEnd :
      (kids : Bool) (z : Option (ℕ × Proc))
      → ScanSpec me t.procs 0 false (record { havekids = kids; zombie = z })
      → WaitEnd me killed t (wait_on kids killed z t)
  unfolding wait_on
  wait_on-WaitEnd kids (some (i, p)) s =
      let (k, e, g, c, dead_) = s.found i p refl in
      let same : k ≡ i = omega arith in
      reaps i p (subst (λ x. get_elem? t.procs x ≡ some p) same g) c dead_ refl
  wait_on-WaitEnd false none s = fails (λ k p g c. cc (s.missed refl k p g c).1) refl
  wait_on-WaitEnd true none s = elim (Bool-cases killed) [
    | inl yes_ ↦ fails (λ k p g c. (yes_, (s.missed refl k p g c).0)) (rw yes_ refl)
    | inr no_ ↦
        let (k, p, g, c) = s.had refl refl in
        waits k p g c (λ j q gq cq. (s.missed refl j q gq cq).0) no_ (rw no_ refl)
  ]

  -- One round of wait reaps a child that is a zombie, if there is one: it returns the child's
  -- pid, frees its stack and page table, and in its slot and no other clears the stack, the pid,
  -- the parent, the name and the mark of a kill, and makes the slot free. It fails only
  -- when there is no child at all, or the caller was killed and no child is a zombie; and else
  -- it sleeps, having a child and none that is a zombie.
  pub wait-WaitEnd : WaitEnd me killed t (wait me killed t)
  unfolding wait
  wait-WaitEnd = wait_on-WaitEnd _ _ (wait_scan_lem me t.procs 0 false)
