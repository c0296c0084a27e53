-- ===== src/Proc/Boot.antt =====
-- The process table from boot on: what holds in every reachable state.
use boss_os.Base.{
  All, List, [], ap, arith, elem, false, get_elem?, none, refl, replicate, some, suc, true, zero, ℕ,
  ◌<◌, ◌∷◌, ◌≡◌, ◌≢◌,
}
use boss_os.Proc.{Chan, Proc, ProcState, Ptable}
use boss_os.Proc.Table.{All-get}
use boss_os.Proc.Pids.{distinct_live, pids}
use boss_os.Proc.Invariant.{IsTable, SlotOk}
use boss_os.Proc.Steps.{Holds}
use boss_os.Proc.Making.{Reach, Stage, Sys}
use boss_os.Proc.Made.{Reach-IsSys, made-embryo}

-- A slot as the kernel image holds it: all bytes 0.
abbrev pub blank : Proc
blank = record {
  sz = 0;
  pgdir = 0;
  kstack = 0;
  state = ProcState.unused;
  pid = 0;
  parent = none;
  eax = 0;
  eip = 0;
  chan = Chan.null;
  killed = false;
  ofile = replicate 16 none;
  cwd = none;
  name = [];
}

-- The table at boot, with `n` slots and `nextpid` 1; the index `n` stands for the null `initproc`.
abbrev pub boot_table : ℕ → Ptable
boot_table n = record { procs = replicate n blank; nextpid = 1; initproc = n }

blank-slots : (n : ℕ) → All (SlotOk 1) (replicate n blank)
blank-slots zero = tt
blank-slots (suc n) = (record { below = omega arith; occupied = refl; on_chan = tt }, blank-slots n)

blank-pids : (n : ℕ) → distinct_live (pids (replicate n blank)) ≡ true
unfolding distinct_live pids
blank-pids zero = refl
blank-pids (suc n) = blank-pids n

boot_table-IsTable : (n : ℕ) → IsTable (boot_table n)
boot_table-IsTable n = record {
  started = omega arith;
  slots = blank-slots n;
  unique = blank-pids n;
}

pids-get :
    (ps : List Proc) (i : ℕ) (p : Proc)
    → get_elem? ps i ≡ some p
    → get_elem? (pids ps) i ≡ some p.pid
unfolding pids
pids-get [] i p h = cc
pids-get (q ∷ ps) zero p h = let is : q ≡ p = cc in ap (λ x. some x.pid) is
pids-get (q ∷ ps) (suc i) p h = pids-get ps i p h

elem_of_get : (xs : List ℕ) (i x : ℕ) → get_elem? xs i ≡ some x → elem x xs ≡ true
elem_of_get [] i x h = cc
elem_of_get (y ∷ xs) zero x h = ground arith
elem_of_get (y ∷ xs) (suc i) x h = ground (arith, elem_of_get xs i x h)

distinct_live-get :
    (xs : List ℕ) (i j x : ℕ)
    → distinct_live xs ≡ true
    → get_elem? xs i ≡ some x
    → get_elem? xs j ≡ some x
    → 0 < x
    → i ≡ j
unfolding distinct_live
distinct_live-get [] i j x d g h pos = cc
distinct_live-get (y ∷ xs) zero zero x d g h pos = refl
distinct_live-get (y ∷ xs) zero (suc j) x d g h pos = ground (arith, elem_of_get xs j x h)
distinct_live-get (y ∷ xs) (suc i) zero x d g h pos = ground (arith, elem_of_get xs i x g)
distinct_live-get (y ∷ xs) (suc i) (suc j) x d g h pos =
    ap suc (distinct_live-get xs i j x (ground arith) g h pos)

-- No slot is in state EMBRYO, and no fork is under way.
abbrev pub boot_sys : ℕ → Sys
boot_sys n = record { table = boot_table n; making = λ i. Stage.no_one }

-- From the table at boot, after any sequence of exit, wait, kill, wakeup, sleep, yield and
-- scheduler switches, and of the parts of any number of forks and userinits under way at once,
-- each on the slot that it took, as long as nextpid has not passed 2 ^ 31 - 1: two slots with the
-- same pid, not 0, are one slot; every pid is below nextpid; a slot in use has a pid, and a kernel
-- stack when it is not an EMBRYO, and a free one no stack; a sleeping process sleeps on some
-- channel; and a slot that a fork is making is an EMBRYO.
pub Reach-pids :
    {s : Sys} (n : ℕ)
    → Reach (boot_sys n) s
    → ((i j : ℕ) (p q : Proc)
        → Holds s.table i p
        → Holds s.table j q
        → p.pid ≡ q.pid
        → 0 < p.pid
        → i ≡ j)
      × ((i : ℕ) (p : Proc) → Holds s.table i p → SlotOk s.table.nextpid p)
      × ((i : ℕ) (p : Proc)
          → s.making i ≢ Stage.no_one
          → Holds s.table i p
          → p.state ≡ ProcState.embryo)
Reach-pids {s} n r =
    let w = Reach-IsSys (record { table = boot_table-IsTable n; owned = λ i. tt }) r in
    let v = w.table in
    (
      (λ i j p q gi gj e pos.
          distinct_live-get (pids s.table.procs) i j p.pid v.unique (pids-get s.table.procs i p gi)
            (rw e (pids-get s.table.procs j q gj)) pos),
      (λ i p g. All-get (SlotOk s.table.nextpid) s.table.procs i p g v.slots),
      λ i p ne g. made-embryo i p w ne g,
    )
