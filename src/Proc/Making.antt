-- ===== src/Proc/Making.antt =====
-- fork and userinit in their parts, between which the lock is let go and any other operation may
-- run.
use boss_os.Base.{List, none, some, update, ℕ, ◌+◌, ◌<◌, ◌^◌, ◌≡◌}
use boss_os.Proc.{Proc, Ptable, claim_slot, dressed, filled, give_stack, returned, set_runnable}
use boss_os.Proc.Table.{modify}
use boss_os.Proc.Steps.{Holds, Op}

-- How far the fork or userinit that makes a process in a slot has come: there is none, or it has
-- the slot, a stack too, or all but the last assignment to the state.
pub data Stage : Type 0 where
  no_one has_slot has_stack has_fields : Stage

-- The table, and who is making a process in each slot.
pub record Sys : Type 0 where
  pub table : Ptable
  pub making : ℕ → Stage

-- Slot `i` is changed, and the fork that makes it goes on to a stage.
abbrev pub moved : ℕ → (Proc → Proc) → Stage → Sys → Sys
moved i f st s = record {
  table = record (s.table) { procs = modify i f s.table.procs };
  making = update s.making i st;
}

-- An operation, or one part of a fork or a userinit. A pid is taken only while nextpid, an int,
-- does not overflow.
pub data Step (s : Sys) : Sys → Type 0 where
  op : {t' : Ptable} → Op s.table t' → Step s (record s { table = t' })
  claims :
      {t' : Ptable} (i : ℕ)
      → s.table.nextpid + 1 < 2 ^ 31
      → claim_slot s.table ≡ (some i, t')
      → Step s (record { table = t'; making = update s.making i Stage.has_slot })
  stacks :
      {t' : Ptable} (i stack : ℕ)
      → s.making i ≡ Stage.has_slot
      → give_stack stack i s.table ≡ (some i, t')
      → Step s (record { table = t'; making = update s.making i Stage.has_stack })
  fails :
      {t' : Ptable} (i stack : ℕ)
      → s.making i ≡ Stage.has_slot
      → give_stack stack i s.table ≡ (none, t')
      → Step s (record { table = t'; making = update s.making i Stage.no_one })
  gives_back : (i : ℕ) → s.making i ≡ Stage.has_stack → Step s (moved i returned Stage.no_one s)
  fills :
      (i me pgdir : ℕ) (cur : Proc)
      → s.making i ≡ Stage.has_stack
      → Holds s.table me cur
      → Step s (moved i (filled me pgdir cur) Stage.has_fields s)
  dresses :
      (i pgdir cwd : ℕ) (name : List ℕ)
      → s.making i ≡ Stage.has_stack
      → Step s (record {
        table = record (s.table) {
          procs = modify i (dressed pgdir cwd name) s.table.procs;
          initproc = i;
        };
        making = update s.making i Stage.has_fields;
      })
  starts : (i : ℕ) → s.making i ≡ Stage.has_fields → Step s (moved i set_runnable Stage.no_one s)

pub data Reach (s : Sys) : Sys → Type 0 where
  here : Reach s s
  next : {t u : Sys} → Reach s t → Step t u → Reach s u
