-- ===== src/Proc/Life.antt =====
-- The second half of proc.c: exit, wait, the scheduler, sleep and wakeup, kill.
use boss_os.Base.{
  Bool, List, Option, [], false, get_elem?, if◌then◌else◌, length, none, not, some, suc, true, zero,
  ℕ, ◌&&◌, ◌++◌, ◌+◌, ◌==◌, ◌||◌, ◌∷◌,
}
use boss_os.Proc.{Chan, Effect, Proc, ProcState, Ptable, optional, ◌=c◌, ◌=s◌}
use boss_os.Proc.Table.{modify}

-- wakeup1 on one process.
abbrev pub wake : Chan → Proc → Proc
wake c p =
    if (p.state =s ProcState.sleeping) && (p.chan =c c)
    then record p { state = ProcState.runnable }
    else p

unfoldable pub wakeup1 : Chan → List Proc → List Proc
wakeup1 c [] = []
wakeup1 c (p ∷ ps) = wake c p ∷ wakeup1 c ps

unfoldable pub wakeup : Chan → Ptable → Ptable
wakeup c t = record t { procs = wakeup1 c t.procs }

abbrev pub chan_of : Option ℕ → Chan
chan_of none = Chan.null
chan_of (some i) = Chan.of_proc i

abbrev pub same_slot : Option ℕ → ℕ → Bool
same_slot none i = false
same_slot (some j) i = j == i

abbrev pub adopt : ℕ → Proc → Proc
adopt init p = record p { parent = some init }

-- One round of the loop in exit, on the process in slot `i`.
unfoldable pub pass_on : (me init i : ℕ) → Option Proc → List Proc → List Proc
pass_on me init i none ps = ps
pass_on me init i (some p) ps =
    if same_slot p.parent me
    then (if p.state =s ProcState.zombie
        then wakeup1 (Chan.of_proc init) (modify i (adopt init) ps)
        else modify i (adopt init) ps)
    else ps

unfoldable pub pass_child : (me init i : ℕ) → List Proc → List Proc
pass_child me init i ps = pass_on me init i (get_elem? ps i) ps

-- The loop in exit over the slots `i ..`, with `k` to go.
unfoldable pub pass_children : (me init k i : ℕ) → List Proc → List Proc
pass_children me init zero i ps = ps
pass_children me init (suc k) i ps = pass_children me init k (i + 1) (pass_child me init i ps)

-- The loop of exit over the open files.
unfoldable pub close_files : List (Option ℕ) → List Effect
close_files [] = []
close_files (none ∷ fs) = close_files fs
close_files (some f ∷ fs) = Effect.fileclose f ∷ close_files fs

unfoldable pub no_files : List (Option ℕ) → List (Option ℕ)
no_files [] = []
no_files (f ∷ fs) = none ∷ no_files fs

abbrev pub shed : Proc → Proc
shed p = record p { ofile = no_files p.ofile; cwd = none }

abbrev pub dead : Proc → Proc
dead p = record p { state = ProcState.zombie }

pub record Exited : Type 0 where
  pub table : Ptable
  pub effects : List Effect

-- exit by process `me`, whose slot is `cur`, up to the call of sched; `none` is the panic of init.
-- The effect iput stands for it with the begin_op and end_op around it.
unfoldable pub exit : (me : ℕ) → Proc → Ptable → Option Exited
exit me cur t =
    if me == t.initproc
    then none
    else (let ps = wakeup1 (chan_of cur.parent) (modify me shed t.procs) in
        some (record {
          table = record t {
            procs = modify me dead (pass_children me t.initproc (length ps) 0 ps);
          };
          effects = close_files cur.ofile ++ optional Effect.iput cur.cwd;
        }))

abbrev pub reaped : Proc → Proc
reaped p = record p {
  kstack = 0;
  pid = 0;
  parent = none;
  name = [];
  killed = false;
  state = ProcState.unused;
}

-- What the scan of wait finds: whether there are children, and the first zombie among them.
pub record Scan : Type 0 where
  pub havekids : Bool
  pub zombie : Option (ℕ × Proc)

unfoldable pub wait_scan : (me : ℕ) → List Proc → (i : ℕ) → (havekids : Bool) → Scan
wait_scan me [] i kids = record { havekids = kids; zombie = none }
wait_scan me (p ∷ ps) i kids =
    let rest = wait_scan me ps (i + 1) (same_slot p.parent me || kids) in
    if same_slot p.parent me && (p.state =s ProcState.zombie)
    then record { havekids = true; zombie = some (i, p) }
    else rest

-- One round of wait under the lock.
pub data Waited : Type 0 where
  child : (pid : ℕ) → Ptable → List Effect → Waited
  failed : Waited
  asleep : Waited

unfoldable pub wait_on : (havekids killed : Bool) → Option (ℕ × Proc) → Ptable → Waited
wait_on havekids killed none t = if not havekids || killed then Waited.failed else Waited.asleep
wait_on havekids killed (some (i, p)) t =
    Waited.child p.pid (record t { procs = modify i reaped t.procs })
      (Effect.kfree p.kstack ∷ Effect.freevm p.pgdir ∷ [])

unfoldable pub wait : (me : ℕ) → (killed : Bool) → Ptable → Waited
wait me killed t = let s = wait_scan me t.procs 0 false in wait_on s.havekids killed s.zombie t

-- kill's search for the first slot with the pid.
unfoldable pub find_pid : ℕ → List Proc → ℕ → Option ℕ
find_pid pid [] i = none
find_pid pid (p ∷ ps) i = if p.pid == pid then some i else find_pid pid ps (i + 1)

abbrev pub doomed : Proc → Proc
doomed p = record p {
  killed = true;
  state = (if p.state =s ProcState.sleeping then ProcState.runnable else p.state);
}

-- kill: whether it returned 0, and the table.
unfoldable pub kill_on : Option ℕ → Ptable → Bool × Ptable
kill_on none t = (false, t)
kill_on (some i) t = (true, record t { procs = modify i doomed t.procs })

unfoldable pub kill : ℕ → Ptable → Bool × Ptable
kill pid t = kill_on (find_pid pid t.procs 0) t

abbrev pub slumber : Chan → Proc → Proc
slumber c p = record p { chan = c; state = ProcState.sleeping }

-- sleep by process `me` up to the call of sched; the lock that it lets go is the caller's.
unfoldable pub sleep : (me : ℕ) → Chan → Ptable → Ptable
sleep me c t = record t { procs = modify me (slumber c) t.procs }

-- What sleep does when it runs again.
abbrev pub tidy : Proc → Proc
tidy p = record p { chan = Chan.null }

unfoldable pub awake : (me : ℕ) → Ptable → Ptable
awake me t = record t { procs = modify me tidy t.procs }

abbrev pub ready : Proc → Proc
ready p = record p { state = ProcState.runnable }

unfoldable pub yield : (me : ℕ) → Ptable → Ptable
yield me t = record t { procs = modify me ready t.procs }

-- The checks of sched: it switches only with ptable.lock alone held, the state changed, and
-- interrupts off; `false` is a panic.
unfoldable pub sched_allowed :
    (holding : Bool) → (ncli : ℕ) → ProcState → (interrupts : Bool) → Bool
sched_allowed holding ncli state on =
    holding && (ncli == 1) && not (state =s ProcState.running) && not on

abbrev pub dispatch : Proc → Proc
dispatch p = record p { state = ProcState.running }

-- The scheduler's test of the process in slot `i`, and the switch to it; `run` is what the process
-- does until it switches back.
unfoldable pub schedule_on :
    (run : ℕ → List Proc → List Proc) → ℕ → Option Proc → List Proc → List Proc
schedule_on run i none ps = ps
schedule_on run i (some p) ps =
    if p.state =s ProcState.runnable then run i (modify i dispatch ps) else ps

unfoldable pub schedule_one : (run : ℕ → List Proc → List Proc) → ℕ → List Proc → List Proc
schedule_one run i ps = schedule_on run i (get_elem? ps i) ps

-- One pass of the scheduler over the slots `i ..`, with `k` to go.
unfoldable pub schedule : (run : ℕ → List Proc → List Proc) → (k i : ℕ) → List Proc → List Proc
schedule run zero i ps = ps
schedule run (suc k) i ps = schedule run k (i + 1) (schedule_one run i ps)

abbrev pub resized : ℕ → Proc → Proc
resized sz p = record p { sz = sz }

-- growproc by process `me` of size `sz`: by 0 bytes nothing changes; else `grown` is what allocuvm
-- or deallocuvm returned. `none` is -1.
pub growproc : (me sz : ℕ) → (by_zero : Bool) → (grown : ℕ) → Ptable → Option Ptable
growproc me sz true grown t = some (record t { procs = modify me (resized sz) t.procs })
growproc me sz false grown t =
    if grown == 0 then none else some (record t { procs = modify me (resized grown) t.procs })
