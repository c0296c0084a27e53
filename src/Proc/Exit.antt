-- ===== src/Proc/Exit.antt =====
-- exit keeps the table well formed.
use boss_os.Base.{
  Bool-cases, List, Option, ap, arith, get_elem?, inl, inr, length, none, refl, some, suc, sym,
  true, zero, ℕ, ◌++◌, ◌+◌, ◌∙◌, ◌≡◌, ◌≢◌,
}
use boss_os.Proc.{Chan, Effect, Proc, ProcState, Ptable, optional, ◌=s◌}
use boss_os.Proc.Pids.{pids-modify_same}
use boss_os.Proc.Table.{All-modify_at, modify}
use boss_os.Proc.Life.{
  Exited, adopt, chan_of, close_files, dead, exit, pass_child, pass_children, pass_on, same_slot,
  shed, wakeup1,
}
use boss_os.Proc.Embryo.{embryo_of, embryos, embryos-get, embryos-modify_same}
use boss_os.Proc.Invariant.{
  IsTable, Mild, Mild-refl, Mild-trans, SlotOk, in_use, modify-Mild, uses, uses-get, wakeup1-Mild,
}

pass_on-Mild :
    (n me init i : ℕ) (o : Option Proc) (ps : List Proc) → Mild n ps (pass_on me init i o ps)
unfolding pass_on
pass_on-Mild n me init i none ps = Mild-refl n ps
pass_on-Mild n me init i (some p) ps =
    let given =
      modify-Mild n i (adopt init) ps
        (λ q a. record { below = a.below; occupied = a.occupied; on_chan = a.on_chan }) (λ q. refl)
        (λ q. refl) (λ q. refl) in
    elim (Bool-cases (same_slot p.parent me)) [
      | inl mine ↦ elim (Bool-cases (p.state =s ProcState.zombie)) [
        | inl z ↦
            rw (mine, z)
              (Mild-trans n given (wakeup1-Mild n (Chan.of_proc init) (modify i (adopt init) ps)))
        | inr z ↦ rw (mine, z) given
      ]
      | inr other ↦ rw other (Mild-refl n ps)
    ]

pub pass_children-Mild :
    (n me init k i : ℕ) (ps : List Proc) → Mild n ps (pass_children me init k i ps)
unfolding pass_children pass_child
pass_children-Mild n me init zero i ps = Mild-refl n ps
pass_children-Mild n me init (suc k) i ps =
    Mild-trans n (pass_on-Mild n me init i (get_elem? ps i) ps)
      (pass_children-Mild n me init k (i + 1) (pass_on me init i (get_elem? ps i) ps))

-- What exit does to the table before the last assignment.
abbrev pub passed : (me : ℕ) → Proc → Ptable → List Proc
passed me cur t =
    let ps = wakeup1 (chan_of cur.parent) (modify me shed t.procs) in
    pass_children me t.initproc (length ps) 0 ps

pub exit-effects :
    {r : Exited} (me : ℕ) (cur : Proc) (t : Ptable)
    → exit me cur t ≡ some r
    → r.effects ≡ close_files cur.ofile ++ optional Effect.iput cur.cwd
unfolding exit
exit-effects me cur t h = ground arith

pub exit-inv :
    {r : Exited} (me : ℕ) (cur : Proc) (t : Ptable)
    → exit me cur t ≡ some r
    → (me ≢ t.initproc) × (r.table ≡ record t { procs = modify me dead (passed me cur t) })
unfolding exit
exit-inv me cur t h = ground arith

passed-Mild : (n me : ℕ) (cur : Proc) (t : Ptable) → Mild n t.procs (passed me cur t)
passed-Mild n me cur t =
    let a =
      modify-Mild n me shed t.procs
        (λ q v. record { below = v.below; occupied = v.occupied; on_chan = v.on_chan }) (λ q. refl)
        (λ q. refl) (λ q. refl) in
    let b = wakeup1-Mild n (chan_of cur.parent) (modify me shed t.procs) in
    Mild-trans n (Mild-trans n a b) (pass_children-Mild n me t.initproc _ 0 _)

dead-SlotOk :
    (n : ℕ) (p : Proc) → in_use p ≡ true → embryo_of p ≡ none → SlotOk n p → SlotOk n (dead p)
dead-SlotOk n p u e v = record {
  below = v.below;
  occupied = ground (arith, v.occupied);
  on_chan = tt;
}

passed-embryo :
    (me : ℕ) (cur : Proc) (t : Ptable)
    → get_elem? t.procs me ≡ some cur
    → cur.state ≡ ProcState.running
    → (p : Proc) → get_elem? (passed me cur t) me ≡ some p
    → embryo_of p ≡ none
passed-embryo me cur t here run p g =
    let m = passed-Mild t.nextpid me cur t in
    let none_ : embryo_of cur ≡ none = rw run refl in
    let e : some (embryo_of p) ≡ some (embryo_of cur) =
      sym (embryos-get (passed me cur t) me p g)
      ∙ ap (λ l. get_elem? l me) m.embryos_same
      ∙ embryos-get t.procs me cur here in
    cc

pub exit-embryos :
    {r : Exited} (me : ℕ) (cur : Proc) (t : Ptable)
    → get_elem? t.procs me ≡ some cur
    → cur.state ≡ ProcState.running
    → exit me cur t ≡ some r
    → embryos r.table.procs ≡ embryos t.procs
exit-embryos me cur t here run h =
    ap (λ x. embryos x.procs) (exit-inv me cur t h).1
    ∙ embryos-modify_same me dead (passed me cur t)
        (λ p g. sym (passed-embryo me cur t here run p g))
    ∙ (passed-Mild t.nextpid me cur t).embryos_same

pub exit-IsTable :
    {r : Exited} (me : ℕ) (cur : Proc) (t : Ptable)
    → get_elem? t.procs me ≡ some cur
    → cur.state ≡ ProcState.running
    → exit me cur t ≡ some r
    → IsTable t
    → IsTable r.table
exit-IsTable me cur t here run h v =
    let m = passed-Mild t.nextpid me cur t in
    let used : get_elem? (uses (passed me cur t)) me ≡ some true =
      ap (λ l. get_elem? l me) m.uses_same ∙ uses-get t.procs me cur here ∙ rw run refl in
    let no_embryo = passed-embryo me cur t here run in
    rw ((exit-inv me cur t h).1) (record {
      started = v.started;
      slots =
          All-modify_at (SlotOk t.nextpid) me dead (passed me cur t)
            (λ p g a.
              let u : some (in_use p) ≡ some true =
                sym (uses-get (passed me cur t) me p g) ∙ used in
              dead-SlotOk t.nextpid p (cc) (no_embryo p g) a)
            (m.slots v.slots);
      unique = rw (pids-modify_same me dead (passed me cur t) (λ p. refl), m.pids_same) v.unique;
    })
