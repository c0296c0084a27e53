-- ===== src/Sleeplock.antt =====
-- sleeplock.c: locks that a process sleeps for. Each function runs under the spin lock `lk`.
use boss_os.Base.{Bool, Option, false, if◌then◌else◌, none, some, true, ℕ, ◌&&◌, ◌==◌}

pub record Sleeplock : Type 0 where
  pub locked : Bool
  pub pid : ℕ

abbrev pub initsleeplock : Sleeplock
initsleeplock = record { locked = false; pid = 0 }

-- One test of the loop: `none` when the process goes to sleep.
unfoldable pub acquiresleep : (me : ℕ) → Sleeplock → Option Sleeplock
acquiresleep me lk = if lk.locked then none else some (record { locked = true; pid = me })

-- The wakeup that follows is for the processes that sleep on the lock.
abbrev pub releasesleep : Sleeplock → Sleeplock
releasesleep lk = record { locked = false; pid = 0 }

abbrev pub holdingsleep : (me : ℕ) → Sleeplock → Bool
holdingsleep me lk = lk.locked && (lk.pid == me)
