-- ===== src/Proc/Made.antt =====
-- The slots that forks and userinits are making stay theirs, and the table well formed.
use boss_os.Base.{
  List, Option, ap, arith, get_elem?, none, refl, some, subst, sym, update, update_ne, update_self,
  ℕ, ℕ_discrete, ◌+◌, ◌<◌, ◌^◌, ◌∙◌, ◌≡◌, ◌≢◌,
}
use boss_os.Proc.{
  Proc, ProcState, Ptable, claim, claim_on, claim_slot, claimed, dressed, filled, find_unused,
  give_stack, returned, set_runnable, stacked, unstacked,
}
use boss_os.Proc.Alloc.{find_unused-found}
use boss_os.Proc.Table.{modify}
use boss_os.Proc.Embryo.{
  embryo_of, embryo_of-state, embryos, embryos-get, embryos-modify_at, embryos-modify_ne,
}
use boss_os.Proc.Invariant.{IsTable, claim-IsTable, modify-IsTable}
use boss_os.Proc.Steps.{Holds, Op-keeps}
use boss_os.Proc.Making.{Reach, Stage, Step, Sys, moved}

-- What holds of an entry of `embryos` at each stage.
abbrev Owned : Stage → Option (Option ℕ) → Type 0
Owned Stage.no_one o = Unit {0}
Owned Stage.has_slot o = (k : ℕ) × (o ≡ some (some k))
Owned _ o = (k : ℕ) × (0 < k) × (o ≡ some (some k))

pub record IsSys (s : Sys) : Type 0 where
  pub table : IsTable s.table
  pub owned : (i : ℕ) → Owned (s.making i) (get_elem? (embryos s.table.procs) i)

abbrev OwnedAll : List Proc → (ℕ → Stage) → Type 0
OwnedAll ps making = (i : ℕ) → Owned (making i) (get_elem? (embryos ps) i)

-- A change of the slot at its stage.
moved-owned :
    (i : ℕ) (f : Proc → Proc) (st : Stage) (ps : List Proc) (making : ℕ → Stage)
    → OwnedAll ps making
    → Owned st (get_elem? (embryos (modify i f ps)) i)
    → OwnedAll (modify i f ps) (update making i st)
moved-owned i f st ps making h new j = elim (ℕ_discrete i j) [
  | yes e ↦
      subst (λ x. Owned (update making i st x) (get_elem? (embryos (modify i f ps)) x)) e
        (subst (λ x. Owned x (get_elem? (embryos (modify i f ps)) i))
          (sym (update_self making i st)) new)
  | no ne ↦
      subst (λ x. Owned x (get_elem? (embryos (modify i f ps)) j))
        (sym (update_ne making i j st (λ q. ne (sym q))))
        (subst (Owned (making j)) (sym (embryos-modify_ne i j f ps ne)) (h j))
]

claim_on-inv :
    (o : Option ℕ) (i : ℕ) (t t' : Ptable)
    → claim_on o t ≡ (some i, t')
    → (o ≡ some i) × (t' ≡ claim i t)
claim_on-inv none i t t' h = cc
claim_on-inv (some k) i t t' h = let same : k ≡ i = ground arith in (ap some same, cc)

claim_slot-inv :
    (i : ℕ) (t t' : Ptable)
    → claim_slot t ≡ (some i, t')
    → (find_unused t.procs 0 ≡ some i) × (t' ≡ claim i t)
unfolding claim_slot
claim_slot-inv i t t' h = claim_on-inv (find_unused t.procs 0) i t t' h

give_stack-some :
    (stack i : ℕ) (t t' : Ptable)
    → give_stack stack i t ≡ (some i, t')
    → (0 < stack) × (t' ≡ record t { procs = modify i (stacked stack) t.procs })
unfolding give_stack
give_stack-some stack i t t' h = ground arith

give_stack-none :
    (stack i : ℕ) (t t' : Ptable)
    → give_stack stack i t ≡ (none, t')
    → t' ≡ record t { procs = modify i unstacked t.procs }
unfolding give_stack
give_stack-none stack i t t' h = ground arith

module _ {s : Sys} (v : IsSys s) where
  -- The slot of a fork that has it, with or without a stack.
  slot_of :
      (i k : ℕ) (f : Proc → Proc)
      → get_elem? (embryos s.table.procs) i ≡ some (some k)
      → (p : Proc) × Holds s.table i p
        × (p.state ≡ ProcState.embryo)
        × (p.kstack ≡ k)
        × (get_elem? (embryos (modify i f s.table.procs)) i ≡ some (embryo_of (f p)))
  slot_of i k f h =
      let (p, g, e, g') = embryos-modify_at i f s.table.procs (some k) h in
      let (em, ks) = embryo_of-state p k e in (p, g, em, ks, g')

  owned_at : (i : ℕ) {st : Stage} → s.making i ≡ st → Owned st (get_elem? (embryos s.table.procs) i)
  owned_at i q = subst (λ x. Owned x (get_elem? (embryos s.table.procs) i)) q (v.owned i)

  claims-IsSys :
      (i : ℕ)
      → s.table.nextpid + 1 < 2 ^ 31
      → find_unused s.table.procs 0 ≡ some i
      → IsSys (record { table = claim i s.table; making = update s.making i Stage.has_slot })
  claims-IsSys i low h =
      let (p, g, u) = find_unused-found s.table.procs i h in
      let f = claimed s.table.nextpid in
      let (q, gq, e, g') =
        embryos-modify_at i f s.table.procs (embryo_of p) (embryos-get s.table.procs i p g) in
      record {
        table =
            claim-IsTable i f s.table
              (λ x a. record { below = omega arith; occupied = v.table.started; on_chan = tt })
              (λ x. refl) low v.table;
        owned = moved-owned i f Stage.has_slot s.table.procs s.making v.owned (q.kstack, g');
      }

  stacks-IsSys :
      (i stack : ℕ)
      → s.making i ≡ Stage.has_slot
      → 0 < stack
      → IsSys (moved i (stacked stack) Stage.has_stack s)
  stacks-IsSys i stack q pos =
      let (k, h) = owned_at i q in
      let (p, g, em, ks, g') = slot_of i k (stacked stack) h in
      record {
        table =
            modify-IsTable i (stacked stack) s.table
              (λ x gx a.
                let same : p ≡ x = cc in
                let em' : x.state ≡ ProcState.embryo =
                  subst (λ y. y.state ≡ ProcState.embryo) same em in
                record {
                  below = a.below;
                  occupied = rw em' (rw em' at a.occupied);
                  on_chan = a.on_chan;
                })
              (λ x. refl) v.table;
        owned =
            moved-owned i (stacked stack) Stage.has_stack s.table.procs s.making v.owned
              (stack, pos, g' ∙ rw em refl);
      }

  -- The slot is free again.
  freed-IsSys :
      (i : ℕ) (f : Proc → Proc)
      → ((p : Proc) → ((f p).state ≡ ProcState.unused) × ((f p).kstack ≡ 0) × ((f p).pid ≡ p.pid))
      → IsSys (moved i f Stage.no_one s)
  freed-IsSys i f free = record {
    table =
        modify-IsTable i f s.table
          (λ x gx a.
            let (u, z, same) = free x in
            record { below = rw same a.below; occupied = rw u z; on_chan = rw u tt })
          (λ x. let (u, z, same) = free x in same) v.table;
    owned = moved-owned i f Stage.no_one s.table.procs s.making v.owned tt;
  }

  -- The slot stays an EMBRYO with its stack.
  filled-IsSys :
      (i : ℕ) (f : Proc → Proc)
      → s.making i ≡ Stage.has_stack
      → ((p : Proc)
          → ((f p).state ≡ p.state)
            × ((f p).kstack ≡ p.kstack)
            × ((f p).pid ≡ p.pid)
            × ((f p).chan ≡ p.chan))
      → IsSys (moved i f Stage.has_fields s)
  filled-IsSys i f q same =
      let (k, pos, h) = owned_at i q in
      let (p, g, em, ks, g') = slot_of i k f h in
      let (st, ks', pid, ch) = same p in
      record {
        table =
            modify-IsTable i f s.table
              (λ x gx a.
                let (st, ks', pid, ch) = same x in
                record {
                  below = rw pid a.below;
                  occupied = rw (st, ks', pid) a.occupied;
                  on_chan = rw (st, ch) a.on_chan;
                })
              (λ x. let (st, ks, pid, ch) = same x in pid) v.table;
        owned =
            moved-owned i f Stage.has_fields s.table.procs s.making v.owned
              (k, pos, g' ∙ rw (st, ks', em, ks) refl);
      }

  starts-IsSys :
      (i : ℕ) → s.making i ≡ Stage.has_fields → IsSys (moved i set_runnable Stage.no_one s)
  starts-IsSys i q =
      let (k, pos, h) = owned_at i q in
      let (p, g, em, ks, g') = slot_of i k set_runnable h in
      record {
        table =
            modify-IsTable i set_runnable s.table
              (λ x gx a.
                let same : p ≡ x = cc in
                let em' : x.state ≡ ProcState.embryo =
                  subst (λ y. y.state ≡ ProcState.embryo) same em in
                let full : 0 < x.kstack = subst (λ y. 0 < y.kstack) same (omega (arith, ks, pos)) in
                record { below = a.below; occupied = (rw em' at a.occupied, full); on_chan = tt })
              (λ x. refl) v.table;
        owned = moved-owned i set_runnable Stage.no_one s.table.procs s.making v.owned tt;
      }

Step-IsSys : {s u : Sys} → Step s u → IsSys s → IsSys u
Step-IsSys {s} (Step.op o) v =
    let (t, e) = Op-keeps o v.table in record { table = t; owned = λ i. rw e (v.owned i) }
Step-IsSys {s} (Step.claims {t'} i low e) v =
    let (h, is) = claim_slot-inv i s.table t' e in rw is (claims-IsSys v i low h)
Step-IsSys {s} (Step.stacks {t'} i stack q e) v =
    let (pos, is) = give_stack-some stack i s.table t' e in rw is (stacks-IsSys v i stack q pos)
Step-IsSys {s} (Step.fails {t'} i stack q e) v =
    rw (give_stack-none stack i s.table t' e) (freed-IsSys v i unstacked (λ p. (refl, refl, refl)))
Step-IsSys (Step.gives_back i q) v = freed-IsSys v i returned (λ p. (refl, refl, refl))
Step-IsSys (Step.fills i me pgdir cur q h) v =
    filled-IsSys v i (filled me pgdir cur) q (λ p. (refl, refl, refl, refl))
Step-IsSys (Step.dresses i pgdir cwd name q) v =
    let w = filled-IsSys v i (dressed pgdir cwd name) q (λ p. (refl, refl, refl, refl)) in
    record {
      table = record { started = w.table.started; slots = w.table.slots; unique = w.table.unique };
      owned = w.owned;
    }
Step-IsSys (Step.starts i q) v = starts-IsSys v i q

pub Reach-IsSys : {s u : Sys} → IsSys s → Reach s u → IsSys u
Reach-IsSys v Reach.here = v
Reach-IsSys v (Reach.next r st) = Step-IsSys st (Reach-IsSys v r)

-- A slot that is being made is an EMBRYO.
pub made-embryo :
    {s : Sys} (i : ℕ) (p : Proc)
    → IsSys s
    → s.making i ≢ Stage.no_one
    → Holds s.table i p
    → p.state ≡ ProcState.embryo
made-embryo {s} i p v ne g = from (s.making i) refl (v.owned i)
  where
    known :
        (k : ℕ) → get_elem? (embryos s.table.procs) i ≡ some (some k) → p.state ≡ ProcState.embryo
    known k e =
        let same : some (embryo_of p) ≡ some (some k) = sym (embryos-get s.table.procs i p g) ∙ e in
        (embryo_of-state p k cc).0

    from :
        (st : Stage)
        → s.making i ≡ st
        → Owned st (get_elem? (embryos s.table.procs) i)
        → p.state ≡ ProcState.embryo
    from Stage.no_one q o = absurd (ne q)
    from Stage.has_slot q (k, e) = known k e
    from Stage.has_stack q (k, pos, e) = known k e
    from Stage.has_fields q (k, pos, e) = known k e
