-- ===== src/Proc/Steps.antt =====
-- The steps on the process table, in any order, and the invariant that they keep.
use boss_os.Base.{
  Bool, Bool-cases, List, Option, arith, get_elem?, inl, inr, none, refl, some, subst, sym, true, ℕ,
  ◌∙◌, ◌≡◌, ◌≢◌,
}
use boss_os.Proc.{Chan, Effect, Proc, ProcState, Ptable, ◌=s◌}
use boss_os.Proc.Wait.{WaitEnd, wait-WaitEnd}
use boss_os.Proc.Exit.{exit-IsTable, exit-embryos}
use boss_os.Proc.Embryo.{embryo_of, embryos, embryos-modify_same, embryos-wakeup1}
use boss_os.Proc.Pids.{distinct_live-set, pids, pids-modify-set}
use boss_os.Proc.Table.{All-modify, modify}
use boss_os.Proc.Life.{
  Exited, Waited, awake, dispatch, doomed, exit, find_pid, kill, kill_on, ready, reaped,
  schedule_on, schedule_one, sleep, slumber, tidy, wait, wakeup, yield,
}
use boss_os.Proc.Invariant.{IsTable, SlotOk, modify-IsTable, wakeup-IsTable}

abbrev pub Holds : Ptable → ℕ → Proc → Type 0
Holds t i p = get_elem? t.procs i ≡ some p

-- An operation that runs with ptable.lock held throughout. A process that exits, sleeps or yields
-- is running.
pub data Op (t : Ptable) : Ptable → Type 0 where
  exits :
      {r : Exited} (me : ℕ) (cur : Proc)
      → Holds t me cur
      → cur.state ≡ ProcState.running
      → exit me cur t ≡ some r
      → Op t r.table
  waits :
      {t' : Ptable} {es : List Effect} (me pid : ℕ) (killed : Bool)
      → wait me killed t ≡ Waited.child pid t' es
      → Op t t'
  kills : (pid : ℕ) → Op t (kill pid t).1
  wakes : (c : Chan) → Op t (wakeup c t)
  sleeps :
      (me : ℕ) (cur : Proc) (c : Chan)
      → Holds t me cur
      → cur.state ≡ ProcState.running
      → c ≢ Chan.null
      → Op t (sleep me c t)
  resumes :
      (me : ℕ) (cur : Proc) → Holds t me cur → cur.state ≡ ProcState.running → Op t (awake me t)
  yields :
      (me : ℕ) (cur : Proc) → Holds t me cur → cur.state ≡ ProcState.running → Op t (yield me t)
  -- The scheduler picks slot `i` and switches to it.
  runs : (i : ℕ) → Op t (record t { procs = schedule_one (λ j ps. ps) i t.procs })

module _ {t : Ptable} (v : IsTable t) where
  -- A slot whose process is running may change its state, if it stays in use.
  running-IsTable :
      (me : ℕ) (cur : Proc) (f : Proc → Proc)
      → Holds t me cur
      → cur.state ≡ ProcState.running
      → ((p : Proc) → (f p).pid ≡ p.pid)
      → ((p : Proc) → p.state ≡ ProcState.running → SlotOk t.nextpid p → SlotOk t.nextpid (f p))
      → IsTable (record t { procs = modify me f t.procs })
  running-IsTable me cur f h run same keep =
      modify-IsTable me f t
        (λ p g a.
          let is : cur ≡ p = cc in keep p (subst (λ q. q.state ≡ ProcState.running) is run) a)
        same v

  sleep-IsTable :
      (me : ℕ) (cur : Proc) (c : Chan)
      → Holds t me cur
      → cur.state ≡ ProcState.running
      → c ≢ Chan.null
      → IsTable (sleep me c t)
  unfolding sleep
  sleep-IsTable me cur c h run ne =
      running-IsTable me cur (slumber c) h run (λ p. refl)
        (λ p r a. record { below = a.below; occupied = ground (arith, a.occupied); on_chan = ne })

  awake-IsTable :
      (me : ℕ) (cur : Proc) → Holds t me cur → cur.state ≡ ProcState.running → IsTable (awake me t)
  unfolding awake
  awake-IsTable me cur h run =
      running-IsTable me cur tidy h run (λ p. refl)
        (λ p r a. record { below = a.below; occupied = a.occupied; on_chan = rw r tt })

  yield-IsTable :
      (me : ℕ) (cur : Proc) → Holds t me cur → cur.state ≡ ProcState.running → IsTable (yield me t)
  unfolding yield
  yield-IsTable me cur h run =
      running-IsTable me cur ready h run (λ p. refl)
        (λ p r a. record { below = a.below; occupied = ground (arith, a.occupied); on_chan = tt })

  kill_on-IsTable : (o : Option ℕ) → IsTable (kill_on o t).1
  unfolding kill_on
  kill_on-IsTable none = v
  kill_on-IsTable (some i) =
      modify-IsTable i doomed t
        (λ p g a. record {
          below = a.below;
          occupied = ground (arith, a.occupied);
          on_chan = ground (arith, a.on_chan);
        })
        (λ p. refl) v

  kill-IsTable : (pid : ℕ) → IsTable (kill pid t).1
  unfolding kill
  kill-IsTable pid = kill_on-IsTable (find_pid pid t.procs 0)

  -- The scheduler's switch, to a process that it found runnable.
  schedule_on-IsTable :
      (i : ℕ) (o : Option Proc)
      → get_elem? t.procs i ≡ o
      → IsTable (record t { procs = schedule_on (λ j ps. ps) i o t.procs })
  unfolding schedule_on
  schedule_on-IsTable i none e = v
  schedule_on-IsTable i (some p) e = elim (Bool-cases (p.state =s ProcState.runnable)) [
    | inl r ↦ rw r (
        modify-IsTable i dispatch t
          (λ q g a.
            let is : p ≡ q = cc in
            record {
              below = a.below;
              occupied =
                  ground
                    (arith, a.occupied, subst (λ x. (x.state =s ProcState.runnable) ≡ true) is r);
              on_chan = tt;
            })
          (λ q. refl) v)
    | inr r ↦ rw r v
  ]

  schedule_one-IsTable :
      (i : ℕ) → IsTable (record t { procs = schedule_one (λ j ps. ps) i t.procs })
  unfolding schedule_one
  schedule_one-IsTable i = schedule_on-IsTable i (get_elem? t.procs i) refl

  waits-IsTable :
      {w : Waited} {t' : Ptable} {es : List Effect} (me pid : ℕ) (killed : Bool)
      → WaitEnd me killed t w
      → w ≡ Waited.child pid t' es
      → IsTable t'
  waits-IsTable {t' = t'} me pid killed (WaitEnd.reaps i p g c z is) h =
      let e : t' ≡ record t { procs = modify i reaped t.procs } = cc in
      rw e (record {
        started = v.started;
        slots =
            All-modify (SlotOk t.nextpid) i reaped t.procs
              (λ q a. record { below = v.started; occupied = refl; on_chan = tt }) v.slots;
        unique =
            rw (pids-modify-set i 0 reaped t.procs (λ q. refl))
              (distinct_live-set i 0 (pids t.procs) (inl refl) v.unique);
      })
  waits-IsTable me pid killed (WaitEnd.fails n is) h = cc
  waits-IsTable me pid killed (WaitEnd.waits k p g c n l is) h = cc

Op-IsTable : {t t' : Ptable} → Op t t' → IsTable t → IsTable t'
Op-IsTable {t} (exits me cur h run e) v = exit-IsTable me cur t h run e v
Op-IsTable {t} (waits me pid killed e) v =
    waits-IsTable v me pid killed (wait-WaitEnd me killed t) e
Op-IsTable (kills pid) v = kill-IsTable v pid
Op-IsTable {t} (wakes c) v = wakeup-IsTable c t v
Op-IsTable (sleeps me cur c h run ne) v = sleep-IsTable v me cur c h run ne
Op-IsTable (resumes me cur h run) v = awake-IsTable v me cur h run
Op-IsTable (yields me cur h run) v = yield-IsTable v me cur h run
Op-IsTable (runs i) v = schedule_one-IsTable v i

-- None of these operations takes or changes an EMBRYO slot.
module _ (t : Ptable) where
  running-embryos :
      (me : ℕ) (cur : Proc) (f : Proc → Proc)
      → Holds t me cur
      → cur.state ≡ ProcState.running
      → embryo_of (f cur) ≡ none
      → embryos (modify me f t.procs) ≡ embryos t.procs
  running-embryos me cur f h run e = embryos-modify_same me f t.procs (λ p g.
      let is : cur ≡ p = cc in
      let none_ : embryo_of cur ≡ none = rw run refl in
      subst (λ q. embryo_of (f q) ≡ embryo_of q) is (e ∙ sym none_))

  waits-embryos :
      {w : Waited} {t' : Ptable} {es : List Effect} (me pid : ℕ) (killed : Bool)
      → WaitEnd me killed t w
      → w ≡ Waited.child pid t' es
      → embryos t'.procs ≡ embryos t.procs
  waits-embryos {t' = t'} me pid killed (WaitEnd.reaps i p g c z is) h =
      let e : t' ≡ record t { procs = modify i reaped t.procs } = cc in
      rw e (
        embryos-modify_same i reaped t.procs (λ q gq.
          let same : p ≡ q = cc in
          let none_ : embryo_of p ≡ none = rw z refl in
          subst (λ x. none ≡ embryo_of x) same (sym none_)))
  waits-embryos me pid killed (WaitEnd.fails n is) h = cc
  waits-embryos me pid killed (WaitEnd.waits k p g c n l is) h = cc

  kill_on-embryos : (o : Option ℕ) → embryos (kill_on o t).1.procs ≡ embryos t.procs
  unfolding kill_on
  kill_on-embryos none = refl
  kill_on-embryos (some i) = embryos-modify_same i doomed t.procs (λ p g. ground arith)

  schedule_on-embryos :
      (i : ℕ) (o : Option Proc)
      → get_elem? t.procs i ≡ o
      → embryos (schedule_on (λ j ps. ps) i o t.procs) ≡ embryos t.procs
  unfolding schedule_on
  schedule_on-embryos i none e = refl
  schedule_on-embryos i (some p) e = elim (Bool-cases (p.state =s ProcState.runnable)) [
    | inl r ↦ rw r (
        embryos-modify_same i dispatch t.procs (λ q g.
          let same : p ≡ q = cc in
          let r' : (q.state =s ProcState.runnable) ≡ true =
            subst (λ x. (x.state =s ProcState.runnable) ≡ true) same r in
          ground arith))
    | inr r ↦ rw r refl
  ]

Op-embryos : {t t' : Ptable} → Op t t' → embryos t'.procs ≡ embryos t.procs
unfolding wakeup kill sleep awake yield schedule_one
Op-embryos {t} (exits me cur h run e) = exit-embryos me cur t h run e
Op-embryos {t} (waits me pid killed e) = waits-embryos t me pid killed (wait-WaitEnd me killed t) e
Op-embryos {t} (kills pid) = kill_on-embryos t (find_pid pid t.procs 0)
Op-embryos {t} (wakes c) = embryos-wakeup1 c t.procs
Op-embryos {t} (sleeps me cur c h run ne) = running-embryos t me cur (slumber c) h run refl
Op-embryos {t} (resumes me cur h run) = running-embryos t me cur tidy h run (rw run refl)
Op-embryos {t} (yields me cur h run) = running-embryos t me cur ready h run refl
Op-embryos {t} (runs i) = schedule_on-embryos t i (get_elem? t.procs i) refl

pub Op-keeps :
    {t t' : Ptable} → Op t t' → IsTable t → IsTable t' × (embryos t'.procs ≡ embryos t.procs)
Op-keeps s v = (Op-IsTable s v, Op-embryos s)
