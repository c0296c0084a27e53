-- ===== src/Proc/Tests.antt =====
-- A table of three slots: init runs in slot 0, its child is in slot 1.
use boss_os.Base.{
  Option, [], arith, false, get_elem?, none, refl, replicate, some, true, update, ℕ, ◌<◌, ◌∷◌, ◌≡◌,
  ◌≢◌,
}
use boss_os.Proc.{
  Effect, Proc, ProcState, Ptable, allocproc, claim_slot, claimed, dressed, find_unused, fork,
  fork_on, give_stack, set_runnable, stacked, then_stack,
}
use boss_os.Proc.Table.{modify}
use boss_os.Proc.Life.{
  Exited, Waited, exit, find_pid, kill, kill_on, reaped, wait, wait_on, wait_scan,
}
use boss_os.Proc.Fork.{ForkSpec, fork-ForkSpec}
use boss_os.Proc.Wait.{WaitEnd, wait-WaitEnd}
use boss_os.Proc.Steps.{Holds}
use boss_os.Proc.Making.{Reach, Stage, Step, Sys}
use boss_os.Proc.Boot.{Reach-pids, blank, boot_sys}
use boss_os.Proc.Kill.{kill_zero-fork}
use boss_os.Proc.Invariant.{SlotOk}

abbrev init_proc : Proc
init_proc = record blank { pid = 1; kstack = 100; pgdir = 200; state = ProcState.running }

abbrev shell : Proc
shell = record blank {
  pid = 2;
  kstack = 101;
  pgdir = 201;
  parent = some 0;
  state = ProcState.running;
  ofile = some 4 ∷ none ∷ [];
  cwd = some 1;
}

abbrev small : Ptable
small = record { procs = init_proc ∷ shell ∷ blank ∷ []; nextpid = 3; initproc = 0 }

exited : Option Exited
exited = exit 1 shell small

abbrev left : Ptable
left = record small {
  procs =
      init_proc
      ∷ record shell { state = ProcState.zombie; ofile = none ∷ none ∷ []; cwd = none }
      ∷ blank
      ∷ [];
}

wait-left :
    wait 0 false left
    ≡ Waited.child 2
        (record left { procs = modify 1 reaped left.procs })
        (Effect.kfree 101 ∷ Effect.freevm 201 ∷ [])
unfolding wait wait_on wait_scan
wait-left = refl

wait-WaitEnd_example : WaitEnd 0 false left (wait 0 false left)
wait-WaitEnd_example = wait-WaitEnd 0 false left

fork-ForkSpec_example : ForkSpec 1 102 202 shell small (fork 1 102 202 shell small)
fork-ForkSpec_example = fork-ForkSpec 1 102 202 shell small

kill_zero : find_pid 0 small.procs 0 ≡ some 2
unfolding find_pid
kill_zero = refl

kill_zero_child : (fork 1 102 202 shell (kill 0 small).1).child ≡ some (2, 3)
unfolding fork fork_on allocproc claim_slot then_stack give_stack find_unused kill kill_on find_pid
kill_zero_child = refl

kill_zero-fork_example :
    ((kill 0 small).0 ≡ true)
    × ((p : Proc) × (get_elem? (fork 1 102 202 shell (kill 0 small).1).table.procs 2 ≡ some p)
        × (p.killed ≡ true))
kill_zero-fork_example = kill_zero-fork 1 102 202 2 3 shell small kill_zero kill_zero_child

-- userinit made process 1 in slot 0.
abbrev started : Sys
started = record {
  table = record {
    procs = modify 0 set_runnable (
        modify 0 (dressed 200 1 [])
          (modify 0 (stacked 100) (modify 0 (claimed 1) (replicate 3 blank))));
    nextpid = 2;
    initproc = 0;
  };
  making =
      update
        (update (update (update (λ i. Stage.no_one) 0 Stage.has_slot) 0 Stage.has_stack) 0
          Stage.has_fields)
        0 Stage.no_one;
}

started-Reach : Reach (boot_sys 3) started
unfolding claim_slot find_unused give_stack
started-Reach =
    Reach.next
      (Reach.next
        (Reach.next (Reach.next Reach.here (Step.claims 0 (omega arith) refl))
          (Step.stacks 0 100 refl refl))
        (Step.dresses 0 200 1 [] refl))
      (Step.starts 0 refl)

Reach-pids_example :
    ((i j : ℕ) (p q : Proc)
      → Holds started.table i p
      → Holds started.table j q
      → p.pid ≡ q.pid
      → 0 < p.pid
      → i ≡ j)
    × ((i : ℕ) (p : Proc) → Holds started.table i p → SlotOk 2 p)
    × ((i : ℕ) (p : Proc)
        → started.making i ≢ Stage.no_one
        → Holds started.table i p
        → p.state ≡ ProcState.embryo)
Reach-pids_example = Reach-pids 3 started-Reach
