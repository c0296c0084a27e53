-- ===== src/Log/Tests.antt =====
-- A log of 31 blocks from block 2 on, with one transaction of block 50.
use boss_os.Base.{[], arith, false, refl, some, update, ℕ, ◌∷◌, ◌≡◌, ◌≢◌, ◌⊎◌}
use boss_os.Log.Disk.{Block, bwrite}
use boss_os.Log.{
  Ending, Log, absorb, begin_op, commit, install_from, install_trans, leave, log_write, read_blocks,
  read_head, recover_from_log, write_blocks, write_head, write_log, write_log_from,
}
use boss_os.Log.Crash.{IsClean, boot, boots}
use boss_os.Log.Commit.{IsReady, commit-atomic, commit-durable}
use boss_os.Log.Budget.{without}
use boss_os.Log.Turns.{Phase, Reach, Running, Step}
use boss_os.Log.Reserve.{IsIdle, Reach-log_write}

abbrev zeros : ℕ → Block
zeros b w = 0

abbrev after : ℕ → Block
after = update zeros 50 (λ w. 9)

abbrev idle_log : (power : ℕ) → Log
idle_log power = record {
  start = 2;
  size = 31;
  outstanding = 0;
  committing = false;
  lh = [];
  store = record { mem = zeros; disk = zeros; power = power };
}

abbrev logged : (power : ℕ) → Log
logged power = record (idle_log power) {
  lh = 50 ∷ [];
  store = record { mem = after; disk = zeros; power = power };
}

logged-IsReady : (power : ℕ) → IsReady (logged power)
unfolding read_blocks
logged-IsReady power = record {
  head = refl;
  fits = omega arith;
  away = (omega arith, tt);
  agree = λ a h m. ground arith;
}

-- The power fails after the header is written: a boot installs block 50.
crash_after_header : boot 2 40 (commit (logged 2)).store.disk 50 7 ≡ 9
unfolding commit write_log write_log_from write_head write_blocks install_trans install_from
    recover_from_log read_head read_blocks bwrite
crash_after_header = refl

crash_before_header : boot 2 40 (commit (logged 1)).store.disk 50 7 ≡ 0
unfolding commit write_log write_log_from write_head write_blocks install_trans install_from
    recover_from_log read_head read_blocks bwrite
crash_before_header = refl

commit-atomic_example :
    let d = boot 2 40 (boots 2 (1 ∷ []) (commit (logged 2)).store.disk) in
    IsClean 2 31 zeros d ⊎ IsClean 2 31 after d
commit-atomic_example = commit-atomic (logged 2) (logged-IsReady 2) (1 ∷ []) 40 (omega arith)

commit-durable_example :
    ((commit (logged 9)).lh ≡ [])
    × IsClean 2 31 after (commit (logged 9)).store.disk
    × IsClean 2 31 after (boot 2 40 (boots 2 (1 ∷ []) (commit (logged 9)).store.disk))
commit-durable_example =
    commit-durable (logged 9) (logged-IsReady 9) (1 ∷ []) 40 (omega arith) (omega arith)

abbrev rest : Running
rest = record { log = idle_log 100; budgets = []; phase = Phase.open_ }

rest-IsIdle : IsIdle rest
unfolding read_blocks
rest-IsIdle = record {
  ready = record { head = refl; fits = omega arith; away = tt; agree = λ a h m. refl };
  empty = refl;
  quiet = refl;
  none_out = refl;
  none_in = refl;
  room = omega arith;
  unlocked = refl;
}

-- One operation came and went, and committed nothing; and a second one is in progress.
abbrev begun : Running
begun = record {
  log = record (idle_log 100) { outstanding = 1 };
  budgets = 10 ∷ [];
  phase = Phase.open_;
}

begun-Reach : Reach rest begun
unfolding begin_op leave without
begun-Reach =
    Reach.next
      (Reach.next
        (Reach.next
          (Reach.next (Reach.next Reach.here (Step.begin refl))
            (Step.leaves_last 0 10 refl (omega arith) refl))
          (Step.skips refl refl))
        (Step.reopens refl))
      (Step.begin refl)

Reach-log_write_example :
    (log_write 50 begun.log ≡ some (record (begun.log) { lh = absorb 50 [] }))
    × IsReady begun.log
    × (begun.log.committing ≡ false)
    × (leave begun.log ≢ Ending.panics)
    × (leave begun.log ≢ Ending.unbalanced)
Reach-log_write_example = Reach-log_write 0 9 50 rest-IsIdle begun-Reach refl
