-- ===== src/Log/Turns.antt =====
-- How begin_op, log_write and end_op of concurrent operations take turns. end_op is its two parts
-- under the lock, and the stages of commit between them without it.
use boss_os.Base.{List, [], get_elem?, length, set, some, suc, update, ℕ, ◌*◌, ◌+◌, ◌<◌, ◌∷◌, ◌≡◌}
use boss_os.Log.Disk.{Block}
use boss_os.Log.{
  Ending, Log, begin_op, install_trans, leave, log_write, max_op_blocks, reopen, write_head,
  write_log,
}
use boss_os.Log.Loops.{Home}
use boss_os.Log.Budget.{without}

-- How far the last operation out has come: none is out; it is about to commit; after write_log;
-- after the first write_head; after install_trans; and after commit.
pub data Phase : Type 0 where
  open_ to_commit log_written head_written installed committed : Phase

-- The log, with the number of blocks that each operation in progress may still log.
pub record Running : Type 0 where
  pub log : Log
  pub budgets : List ℕ
  pub phase : Phase

-- `bp->data` of block `b` changes in the cache.
abbrev pub modify : ℕ → Block → Log → Log
modify b x l = record l { store = record (l.store) { mem = update l.store.mem b x } }

-- The stages of commit.
abbrev pub wrote_log : Log → Log
wrote_log l = record l { store = write_log l.start l.lh l.store }

abbrev pub wrote_head : Log → Log
wrote_head l = record l { store = write_head l.start l.lh l.store }

abbrev pub did_install : Log → Log
did_install l = record l { store = install_trans l.start l.lh l.store }

abbrev pub erased : Log → Log
erased l = record l { lh = []; store = write_head l.start [] l.store }

-- One operation begins, logs a changed block, or leaves; or the last one out goes on, the power
-- lasting. In every phase any operation may try to begin.
pub data Step (s : Running) : Running → Type 0 where
  begin :
      {l : Log}
      → begin_op s.log ≡ some l
      → Step s (record s { log = l; budgets = max_op_blocks ∷ s.budgets })
  write :
      {l : Log} (i k b : ℕ) (x : Block)
      → get_elem? s.budgets i ≡ some (suc k)
      → Home s.log.start s.log.size b
      → log_write b (modify b x s.log) ≡ some l
      → Step s (record s { log = l; budgets = set s.budgets i k })
  leaves :
      {l : Log} (i k : ℕ)
      → get_elem? s.budgets i ≡ some k
      → leave s.log ≡ Ending.others l
      → Step s (record s { log = l; budgets = without s.budgets i })
  leaves_last :
      {l : Log} (i k : ℕ)
      → get_elem? s.budgets i ≡ some k
      → 2 * length s.log.lh + 1 < s.log.store.power
      → leave s.log ≡ Ending.last l
      → Step s (record { log = l; budgets = without s.budgets i; phase = Phase.to_commit })
  skips :
      s.phase ≡ Phase.to_commit
      → length s.log.lh ≡ 0
      → Step s (record s { phase = Phase.committed })
  writes_log :
      s.phase ≡ Phase.to_commit
      → 0 < length s.log.lh
      → Step s (record s { log = wrote_log s.log; phase = Phase.log_written })
  writes_head :
      s.phase ≡ Phase.log_written
      → Step s (record s { log = wrote_head s.log; phase = Phase.head_written })
  installs :
      s.phase ≡ Phase.head_written
      → Step s (record s { log = did_install s.log; phase = Phase.installed })
  erases :
      s.phase ≡ Phase.installed → Step s (record s { log = erased s.log; phase = Phase.committed })
  reopens :
      s.phase ≡ Phase.committed → Step s (record s { log = reopen s.log; phase = Phase.open_ })

pub data Reach (s : Running) : Running → Type 0 where
  here : Reach s s
  next : {t u : Running} → Reach s t → Step t u → Reach s u
