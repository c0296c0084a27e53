-- ===== src/Lock/Exclusion.antt =====
-- The lock is held by one processor at a time.
use boss_os.Base.{
  Bool-cases, arith, false, inl, inr, refl, some, some-injective, subst, sym, true, ℕ, ℕ_discrete,
  ◌+◌, ◌==◌, ◌∙◌, ◌≡◌, ◌⊎◌,
}
use boss_os.Lock.{Cpu, Phase, World, initlock, is_mine, move, move_at}
use boss_os.Lock.Nesting.{IsMasked}
use boss_os.Lock.Invariant.{Inv, Moves, false-true, holds, is_inside}
use boss_os.Lock.Moves.{
  clearing-Moves, holds-inside, holds-outside, inside-Moves, leaving-Moves, masked_off,
  outside-Moves, spinning-Moves, taken-Moves,
}

-- Steps of the processors, in any order.
pub data Reach (w : World) : World → Type 0 where
  start : Reach w w
  next : {v u : World} (i : ℕ) → Reach w v → move v i ≡ some u → Reach w u

move-Moves : (w : World) (i : ℕ) → Inv w → Moves w (move w i)
unfolding move
move-Moves w i h = by_phase (w.at i) refl
  where
    by_phase : (p : Phase) → w.at i ≡ p → Moves w (move_at p i w)
    by_phase Phase.outside e = outside-Moves w i e h
    by_phase Phase.spinning e = spinning-Moves w i e h
    by_phase Phase.taken e = taken-Moves w i e h
    by_phase Phase.inside e = inside-Moves w i e h
    by_phase Phase.clearing e = clearing-Moves w i e h
    by_phase Phase.leaving e = leaving-Moves w i e h

Reach-Inv : (w u : World) → Inv w → Reach w u → Inv u
Reach-Inv w u h start = h
Reach-Inv w u h (next {v} i r e) =
    let m = move-Moves v i (Reach-Inv w v h r) in
    subst Inv (some-injective _ _ (sym m.total ∙ e)) m.keeps

-- All processors outside, and the lock as initlock leaves it.
abbrev pub initial : (ℕ → Cpu) → World
initial cpus = record { lk = initlock; cpus = cpus; at = λ i. Phase.outside }

pub initial-Inv : (cpus : ℕ → Cpu) → ((i : ℕ) → IsMasked (cpus i)) → Inv (initial cpus)
initial-Inv cpus masked = record {
  one = λ i j a b. absurd (false-true refl a);
  held = λ i a. absurd (false-true refl a);
  mine = λ i a. absurd (omega arith);
  named = λ i a. absurd (false-true refl a);
  masked = masked;
  off = λ i a. absurd (false-true a refl);
}

-- However the steps of acquire and release interleave, from the lock of initlock with every
-- processor outside and interrupts off wherever its count is not 0: no two processors hold the
-- lock; a processor that holds it has interrupts off; a processor between acquire and release, and
-- no other, finds the lock held by itself; and no step is a panic.
pub Reach-exclusive :
    (cpus : ℕ → Cpu) (w : World)
    → ((i : ℕ) → IsMasked (cpus i))
    → Reach (initial cpus) w
    → ((i j : ℕ) → holds (w.at i) ≡ true → holds (w.at j) ≡ true → i ≡ j)
      × ((i : ℕ) → holds (w.at i) ≡ true → (w.cpus i).interrupts ≡ false)
      × ((i : ℕ) → is_mine w.lk i ≡ is_inside (w.at i))
      × ((i : ℕ) → (u : World) × (move w i ≡ some u))
Reach-exclusive cpus w masked r =
    let h = Reach-Inv (initial cpus) w (initial-Inv cpus masked) r in
    (
      h.one,
      (λ i a. masked_off (w.cpus i) (h.masked i) (h.off i (holds-outside (w.at i) a))),
      (λ i. found i (Bool-cases (is_inside (w.at i))) h),
      λ i. let m = move-Moves w i h in (m.after, m.total),
    )
  where
    found :
        (i : ℕ)
        → (is_inside (w.at i) ≡ true) ⊎ (is_inside (w.at i) ≡ false)
        → Inv w
        → is_mine w.lk i ≡ is_inside (w.at i)
    found i (inl a) h =
        let on : w.lk.locked ≡ true = h.held i (holds-inside (w.at i) a) in
        let named = h.named i a in ground arith
    found i (inr a) h =
        let other : (w.lk.owner == i + 1) ≡ false = elim (ℕ_discrete w.lk.owner (i + 1)) [
          | yes e ↦ absurd (false-true a (h.mine i e))
          | no ne ↦ ground arith
        ] in
        ground arith
