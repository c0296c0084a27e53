-- ===== src/Log/Reserve.antt =====
-- Operations that run concurrently between begin_op and end_op: each may log at most
-- max_op_blocks blocks, and begin_op reserves the room for them.
use boss_os.Base.{[], arith, false, get_elem?, length, some, suc, ℕ, ◌<◌, ◌∙◌, ◌≡◌, ◌≢◌}
use boss_os.Log.{Ending, Log, absorb, leave, log_size, log_write}
use boss_os.Log.Budget.{total, total_of_mem}
use boss_os.Log.Commit.{IsReady}
use boss_os.Log.Turns.{Phase, Reach, Running}
use boss_os.Log.Sound.{IsSound, Reach-IsSound, busy, opened}

-- The log of a machine that has just recovered, larger than the 30 blocks of a transaction.
pub record IsIdle (s : Running) : Type 0 where
  pub ready : IsReady s.log
  pub empty : s.log.lh ≡ []
  pub quiet : s.log.committing ≡ false
  pub none_out : s.log.outstanding ≡ 0
  pub none_in : s.budgets ≡ []
  pub room : log_size < s.log.size
  pub unlocked : s.phase ≡ Phase.open_

IsIdle-IsSound : {s : Running} → IsIdle s → IsSound s
unfolding total
IsIdle-IsSound v = record {
  phase_ok = opened _ _ v.unlocked v.quiet v.ready;
  counted = v.none_out ∙ rw v.none_in;
  reserved = rw (v.empty, v.none_in) (omega arith);
  small = rw v.none_in tt;
  room = v.room;
}

log_write-total :
    (b : ℕ) (l : Log)
    → length l.lh < log_size
    → log_size < l.size
    → 0 < l.outstanding
    → log_write b l ≡ some (record l { lh = absorb b l.lh })
unfolding log_write
log_write-total b l p q h = ground arith

leave-total :
    (l : Log)
    → 0 < l.outstanding
    → l.committing ≡ false
    → (leave l ≢ Ending.panics) × (leave l ≢ Ending.unbalanced)
unfolding leave
leave-total l p c = ground arith

-- However operations begin, log blocks and leave concurrently on an idle log of more than 30
-- blocks, each logging at most 10 blocks outside the log, and however the last one out commits
-- meanwhile, stage by stage and with the lock let go, the power lasting: while an operation that
-- may still log a block is in progress no commit is under way; neither its log_write nor its end_op
-- panics; and the transaction is one that commit may take (the log on disk empty, the logged
-- blocks fewer than the log's and outside it, every other block equal in the cache and on the
-- disk).
pub Reach-log_write :
    {s t : Running} (i k b : ℕ)
    → IsIdle s
    → Reach s t
    → get_elem? t.budgets i ≡ some (suc k)
    → (log_write b t.log ≡ some (record (t.log) { lh = absorb b t.log.lh }))
      × IsReady t.log
      × (t.log.committing ≡ false)
      × (leave t.log ≢ Ending.panics)
      × (leave t.log ≢ Ending.unbalanced)
Reach-log_write {t = t} i k b idle r e =
    let v = Reach-IsSound r (IsIdle-IsSound idle) in
    let some_ = total_of_mem t.budgets i (suc k) e in
    let (c, ok, ph) = busy i (suc k) e v in
    let (p, u) = leave-total t.log (omega (arith, v.counted)) c in
    (
      log_write-total b t.log (omega (arith, v.reserved)) v.room (omega (arith, v.counted)),
      ok,
      c,
      p,
      u,
    )
