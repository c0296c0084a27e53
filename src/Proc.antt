-- ===== src/Proc.antt =====
-- proc.h and proc.c: the process table. What runs with ptable.lock held is one step on the table.
-- allocproc, fork and userinit let the lock go between their parts: here are the parts, and the
-- functions as the parts one after the other, for a run during which nobody else changes the table
-- (Whole shows that this is one of their runs). Making lets the parts of several runs and all other
-- operations fall in between. A process is named by its index in the table. What other parts return
-- (a stack from kalloc, a page table from copyuvm) is an argument, 0 for a failure, and calls into
-- them are listed in order as effects.
pub mod Table
pub mod Life
pub mod Pids
pub mod Embryo
pub mod Alloc
pub mod Exit
pub mod Wait
pub mod Orphans
pub mod Kill
pub mod Steps
pub mod Making
pub mod Made
pub mod Boot
pub mod Fork
pub mod Whole
pub mod Invariant
mod Tests
use boss_os.Base.{
  Bool, List, Option, [], add32, false, if◌then◌else◌, none, some, true, ℕ, ◌++◌, ◌+◌, ◌==◌, ◌∷◌,
}
use Table.{modify}

pub data ProcState : Type 0 where
  unused embryo sleeping runnable running zombie : ProcState

abbrev pub num : ProcState → ℕ
num ProcState.unused = 0
num ProcState.embryo = 1
num ProcState.sleeping = 2
num ProcState.runnable = 3
num ProcState.running = 4
num ProcState.zombie = 5

infix 50 ◌=s◌
abbrev pub ◌=s◌ : ProcState → ProcState → Bool
a =s b = num a == num b

-- What a process may sleep on: nothing (a null pointer), a process, another address.
pub data Chan : Type 0 where
  null : Chan
  of_proc : ℕ → Chan
  of_addr : ℕ → Chan

infix 50 ◌=c◌
abbrev pub ◌=c◌ : Chan → Chan → Bool
null =c null = true
of_proc i =c of_proc j = i == j
of_addr i =c of_addr j = i == j
_ =c _ = false

-- `struct proc`; of the trap frame only `eax` is read here, and of the context `eip`.
pub record Proc : Type 0 where
  pub sz : ℕ
  pub pgdir : ℕ
  pub kstack : ℕ
  pub state : ProcState
  pub pid : ℕ
  pub parent : Option ℕ
  pub eax : ℕ
  pub eip : ℕ
  pub chan : Chan
  pub killed : Bool
  pub ofile : List (Option ℕ)
  pub cwd : Option ℕ
  pub name : List ℕ

pub record Ptable : Type 0 where
  pub procs : List Proc
  pub nextpid : ℕ
  pub initproc : ℕ

pub data Effect : Type 0 where
  filedup fileclose idup iput kfree freevm : ℕ → Effect

-- A name for the address of forkret, which the linker chooses; nothing rests on its value.
abbrev pub forkret : ℕ
forkret = 0x80103A00

-- The search for an UNUSED slot, from index `i` on.
pub find_unused : List Proc → ℕ → Option ℕ
find_unused [] i = none
find_unused (p ∷ ps) i = if p.state =s ProcState.unused then some i else find_unused ps (i + 1)

-- What the locked part of allocproc does to the slot; a pid is an int, which wraps.
abbrev pub claimed : ℕ → Proc → Proc
claimed pid p = record p { state = ProcState.embryo; pid = pid }

abbrev pub stacked : ℕ → Proc → Proc
stacked stack p = record p { kstack = stack; eip = forkret }

-- A slot whose kalloc failed: `kstack` is the null that kalloc returned.
abbrev pub unstacked : Proc → Proc
unstacked p = record p { kstack = 0; state = ProcState.unused }

abbrev pub claim : ℕ → Ptable → Ptable
claim i t = record t { procs = modify i (claimed t.nextpid) t.procs; nextpid = add32 t.nextpid 1 }

-- The locked part of allocproc, with the slot found.
abbrev pub claim_on : Option ℕ → Ptable → Option ℕ × Ptable
claim_on none t = (none, t)
claim_on (some i) t = (some i, claim i t)

pub claim_slot : Ptable → Option ℕ × Ptable
claim_slot t = claim_on (find_unused t.procs 0) t

-- The rest of allocproc, without the lock, with the stack that kalloc returned.
pub give_stack : (stack i : ℕ) → Ptable → Option ℕ × Ptable
give_stack stack i t =
    if stack == 0
    then (none, record t { procs = modify i unstacked t.procs })
    else (some i, record t { procs = modify i (stacked stack) t.procs })

pub then_stack : (stack : ℕ) → Option ℕ × Ptable → Option ℕ × Ptable
then_stack stack (none, t) = (none, t)
then_stack stack (some i, t) = give_stack stack i t

-- allocproc when nothing falls between its parts.
pub allocproc : (stack : ℕ) → Ptable → Option ℕ × Ptable
allocproc stack t = then_stack stack (claim_slot t)

-- `p->state = RUNNABLE`, with the lock held again.
abbrev pub set_runnable : Proc → Proc
set_runnable p = record p { state = ProcState.runnable }

-- userinit, when nothing falls between its parts: the first process, on the page table `pgdir`; `none` is the panic, and the slot that
-- allocproc returns is used unchecked.
abbrev pub dressed : (pgdir cwd : ℕ) → List ℕ → Proc → Proc
dressed pgdir cwd name p = record p { sz = 4096; pgdir = pgdir; cwd = some cwd; name = name }

abbrev pub booted : (pgdir cwd : ℕ) → List ℕ → Proc → Proc
booted pgdir cwd name p = set_runnable (dressed pgdir cwd name p)

pub userinit_on : (pgdir cwd : ℕ) → (name : List ℕ) → Option ℕ × Ptable → Option Ptable
userinit_on pgdir cwd name (none, t) = none
userinit_on pgdir cwd name (some i, t) =
    if pgdir == 0
    then none
    else some (record t { procs = modify i (booted pgdir cwd name) t.procs; initproc = i })

pub userinit : (stack pgdir cwd : ℕ) → (name : List ℕ) → Ptable → Option Ptable
userinit stack pgdir cwd name t = userinit_on pgdir cwd name (allocproc stack t)

-- The loop of fork over the open files of the parent.
pub dup_files : List (Option ℕ) → List Effect
dup_files [] = []
dup_files (none ∷ fs) = dup_files fs
dup_files (some f ∷ fs) = Effect.filedup f ∷ dup_files fs

-- The slot of the child keeps what it had where the parent's descriptor is closed.
pub dup_into : List (Option ℕ) → List (Option ℕ) → List (Option ℕ)
dup_into [] old = old
dup_into (f ∷ fs) [] = []
dup_into (none ∷ fs) (o ∷ old) = o ∷ dup_into fs old
dup_into (some f ∷ fs) (o ∷ old) = some f ∷ dup_into fs old

abbrev pub optional : (ℕ → Effect) → Option ℕ → List Effect
optional e none = []
optional e (some x) = e x ∷ []

-- A slot given back when copyuvm fails.
abbrev pub returned : Proc → Proc
returned p = record p { pgdir = 0; kstack = 0; state = ProcState.unused }

-- What fork copies to the slot of the child without the lock, and the slot after the last part.
abbrev pub filled : (me pgdir : ℕ) → Proc → Proc → Proc
filled me pgdir cur p = record p {
  pgdir = pgdir;
  sz = cur.sz;
  parent = some me;
  eax = 0;
  ofile = dup_into cur.ofile p.ofile;
  cwd = cur.cwd;
  name = cur.name;
}

abbrev pub forked : (me pgdir : ℕ) → Proc → Proc → Proc
forked me pgdir cur p = set_runnable (filled me pgdir cur p)

pub record Forked : Type 0 where
  pub table : Ptable
  pub child : Option (ℕ × ℕ)
  pub effects : List Effect

-- fork after allocproc has returned, when nothing falls between its parts.
pub fork_on : (me stack pgdir pid : ℕ) → Proc → Option ℕ × Ptable → Forked
fork_on me stack pgdir pid cur (none, t) = record { table = t; child = none; effects = [] }
fork_on me stack pgdir pid cur (some i, t) =
    if pgdir == 0
    then record {
      table = record t { procs = modify i returned t.procs };
      child = none;
      effects = Effect.kfree stack ∷ [];
    }
    else record {
      table = record t { procs = modify i (forked me pgdir cur) t.procs };
      child = some (i, pid);
      effects = dup_files cur.ofile ++ optional Effect.idup cur.cwd;
    }

-- fork by process `me`, whose slot is `cur`, when nothing falls between its parts. The child is its index with its pid, which
-- allocproc takes from `nextpid`.
pub fork : (me stack pgdir : ℕ) → Proc → Ptable → Forked
fork me stack pgdir cur t = fork_on me stack pgdir t.nextpid cur (allocproc stack t)
