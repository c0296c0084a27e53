-- ===== src/Lock/Nesting.antt =====
-- Pairs of pushcli and popcli.
use boss_os.Base.{
  Option, ap, arith, false, if◌then◌else◌, inl, inr, none, refl, some, ◌&&◌, ◌+◌, ◌-◌, ◌<◌, ◌==◌,
  ◌∙◌, ◌≡◌, ◌⊎◌,
}
use boss_os.Lock.{Cpu, popcli, pushcli}

-- Interrupts are off while `ncli` counts an open pushcli.
abbrev pub IsMasked : Cpu → Type 0
IsMasked c = (c.ncli ≡ 0) ⊎ (c.interrupts ≡ false)

-- popcli after pushcli restores the flag and the count.
pub record Restored (c : Cpu) (r : Option Cpu) : Type 0 where
  pub after : Cpu
  pub total : r ≡ some after
  pub flag : after.interrupts ≡ c.interrupts
  pub count : after.ncli ≡ c.ncli
  pub nested : 0 < c.ncli → after.intena ≡ c.intena

-- Calls that match as brackets do.
pub data Matched : Type 0 where
  nothing : Matched
  then_pair : Matched → Matched → Matched

abbrev pub before_pop : Option Cpu → Option Cpu
before_pop none = none
before_pop (some c) = popcli c

abbrev pub go_on : Option Cpu → (Cpu → Option Cpu) → Option Cpu
go_on none f = none
go_on (some c) f = f c

-- pushcli, the inner calls, popcli, then the calls that follow.
pub run : Matched → Cpu → Option Cpu
run Matched.nothing c = some c
run (Matched.then_pair inner later) c = go_on (before_pop (run inner (pushcli c))) (run later)

pub popcli_lem :
    (c : Cpu)
    → c.interrupts ≡ false
    → 0 < c.ncli
    → popcli c ≡ some (record c { interrupts = (c.ncli == 1) && c.intena; ncli = c.ncli - 1 })
unfolding popcli
popcli_lem c off open_ = let some_ : (c.ncli == 0) ≡ false = ground arith in rw (off, some_) refl

masks : (c : Cpu) → (pushcli c).interrupts ≡ false
unfolding pushcli
masks c = refl

-- The pair around calls that restore the state after the pushcli.
pub pair-Restored :
    (c : Cpu) (r : Option Cpu) → IsMasked c → Restored (pushcli c) r → Restored c (before_pop r)
unfolding pushcli
pair-Restored c r masked h =
    let off : h.after.interrupts ≡ false = h.flag in
    let more : h.after.ncli ≡ c.ncli + 1 = h.count in
    let kept : h.after.intena ≡ (if c.ncli == 0 then c.interrupts else c.intena) =
      h.nested (omega arith) in
    record {
      after = record h.after {
        interrupts = (h.after.ncli == 1) && h.after.intena;
        ncli = h.after.ncli - 1;
      };
      total = ap before_pop h.total ∙ popcli_lem h.after off (omega arith);
      flag = ground arith;
      count = ground arith;
      nested = λ pos. ground arith;
    }

IsMasked-Restored : (c : Cpu) (r : Option Cpu) → IsMasked c → (h : Restored c r) → IsMasked h.after
IsMasked-Restored c r (inl z) h = inl (h.count ∙ z)
IsMasked-Restored c r (inr off) h = inr (h.flag ∙ off)

-- However pushcli and popcli are nested, calls that match never panic and leave the interrupt flag
-- and the count of the processor as they were, given that interrupts are off while the count is
-- not 0.
pub run-Restored : (calls : Matched) (c : Cpu) → IsMasked c → Restored c (run calls c)
unfolding run
run-Restored Matched.nothing c masked = record {
  after = c;
  total = refl;
  flag = refl;
  count = refl;
  nested = λ pos. refl;
}
run-Restored (Matched.then_pair inner later) c masked =
    let one =
      pair-Restored c (run inner (pushcli c)) masked
        (run-Restored inner (pushcli c) (inr (masks c))) in
    let two = run-Restored later one.after (IsMasked-Restored c _ masked one) in
    record {
      after = two.after;
      total = ap (λ r. go_on r (run later)) one.total ∙ two.total;
      flag = two.flag ∙ one.flag;
      count = two.count ∙ one.count;
      nested = λ pos. two.nested (omega (arith, one.count)) ∙ one.nested pos;
    }
