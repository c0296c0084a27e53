-- ===== src/Proc/Whole.antt =====
-- fork as a whole is one of the runs of its parts.
use boss_os.Base.{
  add32, ap, arith, false, refl, some, sym, update, update_self, ℕ, ◌+◌, ◌<◌, ◌==◌, ◌^◌, ◌∙◌, ◌≡◌,
  ◌≢◌,
}
use boss_os.Proc.{
  Proc, Ptable, claim, claim_on, claim_slot, claimed, filled, find_unused, fork, fork_on, forked,
  give_stack, set_runnable, stacked,
}
use boss_os.Proc.Alloc.{allocproc_got}
use boss_os.Proc.Table.{get_elem?-modify, modify, modify-modify}
use boss_os.Proc.Steps.{Holds}
use boss_os.Proc.Making.{Reach, Stage, Step, Sys}

claim_slot-found :
    (i : ℕ) (t : Ptable) → find_unused t.procs 0 ≡ some i → claim_slot t ≡ (some i, claim i t)
unfolding claim_slot
claim_slot-found i t e = ap (λ o. claim_on o t) e

give_stack-got :
    (stack i : ℕ) (t : Ptable)
    → 0 < stack
    → give_stack stack i t ≡ (some i, record t { procs = modify i (stacked stack) t.procs })
unfolding give_stack
give_stack-got stack i t pos = let test : (stack == 0) ≡ false = ground arith in rw test refl

module _ (me stack pgdir i : ℕ) (cur : Proc) (t : Ptable) where
  -- The table after all parts.
  abbrev parts : Ptable
  parts = record t {
    procs = modify i set_runnable (
        modify i (filled me pgdir cur)
          (modify i (stacked stack) (modify i (claimed t.nextpid) t.procs)));
    nextpid = add32 t.nextpid 1;
  }

  fork-parts :
      find_unused t.procs 0 ≡ some i
      → 0 < stack
      → 0 < pgdir
      → parts ≡ (fork me stack pgdir cur t).table
  unfolding fork fork_on
  fork-parts e pos mem =
      let some_ : (stack == 0) ≡ false = ground arith in
      let mapped : (pgdir == 0) ≡ false = ground arith in
      let slots =
        modify-modify i (filled me pgdir cur) set_runnable
          (modify i (stacked stack) (modify i (claimed t.nextpid) t.procs))
        ∙ ap (modify i (forked me pgdir cur))
            (modify-modify i (claimed t.nextpid) (stacked stack) t.procs) in
      ap (λ ps. record t { procs = ps; nextpid = add32 t.nextpid 1 }) slots
      ∙ sym (
          ap (λ a. (fork_on me stack pgdir t.nextpid cur a).table) (allocproc_got stack t i e some_)
          ∙ rw mapped refl)

-- The parts of a fork that gets a slot, a stack and a page table, with nothing in between, leave
-- the table that fork leaves.
pub fork-Reach :
    (s : Sys) (i me stack pgdir : ℕ) (cur : Proc)
    → s.table.nextpid + 1 < 2 ^ 31
    → find_unused s.table.procs 0 ≡ some i
    → 0 < stack
    → 0 < pgdir
    → i ≢ me
    → Holds s.table me cur
    → (u : Sys) × Reach s u × (u.table ≡ (fork me stack pgdir cur s.table).table)
fork-Reach s i me stack pgdir cur low e pos mem ne here =
    let t = s.table in
    let claimed_ = get_elem?-modify i me (claimed t.nextpid) t.procs cur here ∙ ground arith in
    let stacked_ =
      get_elem?-modify i me (stacked stack) (modify i (claimed t.nextpid) t.procs) cur claimed_
      ∙ ground arith in
    (
      _,
      Reach.next
          (Reach.next
            (Reach.next (Reach.next Reach.here (Step.claims i low (claim_slot-found i t e))) (
              Step.stacks i stack (update_self s.making i Stage.has_slot)
                (give_stack-got stack i (claim i t) pos)))
            (Step.fills i me pgdir cur
              (update_self (update s.making i Stage.has_slot) i Stage.has_stack) stacked_))
          (Step.starts i (
            update_self (update (update s.making i Stage.has_slot) i Stage.has_stack) i
              Stage.has_fields)),
      fork-parts me stack pgdir i cur t e pos mem,
    )
