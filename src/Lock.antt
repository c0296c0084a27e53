-- ===== src/Lock.antt =====
-- spinlock.c: one spin lock and the processors that compete for it. The instructions of acquire
-- and release that touch the lock are single steps, so that they interleave; the barriers and the
-- recorded call stack are left out.
pub mod Nesting
pub mod Invariant
pub mod Moves
pub mod Exclusion
mod Tests
use boss_os.Base.{
  Bool, Option, false, if◌then◌else◌, none, some, true, update, ℕ, ◌&&◌, ◌+◌, ◌-◌, ◌==◌, ◌||◌,
}

-- `struct cpu` as far as spinlock.c uses it, with the interrupt flag of the processor.
pub record Cpu : Type 0 where
  pub interrupts : Bool
  pub ncli : ℕ
  pub intena : Bool

unfoldable pub pushcli : Cpu → Cpu
pushcli c = record {
  interrupts = false;
  ncli = c.ncli + 1;
  intena = if c.ncli == 0 then c.interrupts else c.intena;
}

-- `none` is a panic: interrupts are on, or `--ncli < 0`.
unfoldable pub popcli : Cpu → Option Cpu
popcli c =
    if c.interrupts || (c.ncli == 0)
    then none
    else some (record c { interrupts = (c.ncli == 1) && c.intena; ncli = c.ncli - 1 })

-- `owner` is `cpu`: 0 for the null pointer, else 1 and the index of the processor.
pub record Spinlock : Type 0 where
  pub locked : Bool
  pub owner : ℕ

abbrev pub initlock : Spinlock
initlock = record { locked = false; owner = 0 }

-- The test of holding, between its pushcli and popcli.
abbrev pub is_mine : Spinlock → ℕ → Bool
is_mine lk i = lk.locked && (lk.owner == i + 1)

abbrev pub with_test : Bool → Option Cpu → Option (Bool × Cpu)
with_test b none = none
with_test b (some c) = some (b, c)

unfoldable pub holding : Spinlock → ℕ → Cpu → Option (Bool × Cpu)
holding lk i c = with_test (is_mine lk i) (popcli (pushcli c))

-- Where a processor is: outside of acquire; in the loop on xchg; past it, before `cpu` is set;
-- between acquire and release; past the reset of `cpu`; before the popcli of release.
pub data Phase : Type 0 where
  outside spinning taken inside clearing leaving : Phase

pub record World : Type 0 where
  pub lk : Spinlock
  pub cpus : ℕ → Cpu
  pub at : ℕ → Phase

-- The branch of acquire (`wanted` false) or release (`wanted` true) on the answer of holding.
unfoldable pub checked : Option (Bool × Cpu) → (wanted : Bool) → (Cpu → World) → Option World
checked none wanted go = none
checked (some (b, c)) true go = if b then some (go c) else none
checked (some (b, c)) false go = if b then none else some (go c)

-- popcli at the end of release.
unfoldable pub popped : Option Cpu → (Cpu → World) → Option World
popped none go = none
popped (some c) go = some (go c)

-- The next step of processor `i`, which is at the phase; `none` is a panic.
unfoldable pub move_at : Phase → ℕ → World → Option World
move_at Phase.outside i w =
    checked (holding w.lk i (pushcli (w.cpus i))) false
      (λ c. record w { cpus = update w.cpus i c; at = update w.at i Phase.spinning })
move_at Phase.spinning i w = some (record w {
  lk = record { locked = true; owner = w.lk.owner };
  at = update w.at i (if w.lk.locked then Phase.spinning else Phase.taken);
})
move_at Phase.taken i w = some (record w {
  lk = record { locked = w.lk.locked; owner = i + 1 };
  at = update w.at i Phase.inside;
})
move_at Phase.inside i w = checked (holding w.lk i (w.cpus i)) true (λ c. record w {
  lk = record { locked = w.lk.locked; owner = 0 };
  cpus = update w.cpus i c;
  at = update w.at i Phase.clearing;
})
move_at Phase.clearing i w = some (record w {
  lk = record { locked = false; owner = w.lk.owner };
  at = update w.at i Phase.leaving;
})
move_at Phase.leaving i w =
    popped (popcli (w.cpus i))
      (λ c. record w { cpus = update w.cpus i c; at = update w.at i Phase.outside })

unfoldable pub move : World → ℕ → Option World
move w i = move_at (w.at i) i w
