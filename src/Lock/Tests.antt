-- ===== src/Lock/Tests.antt =====
-- Two processors that compete.
use boss_os.Base.{Option, false, inl, none, refl, some, true, ℕ, ◌≡◌}
use boss_os.Lock.{Cpu, Phase, World, checked, holding, is_mine, move, move_at, popcli, pushcli}
use boss_os.Lock.Invariant.{holds, is_inside}
use boss_os.Lock.Exclusion.{Reach, Reach-exclusive, initial}

abbrev idle : Cpu
idle = record { interrupts = true; ncli = 0; intena = false }

abbrev or_stay : World → Option World → World
or_stay w none = w
or_stay w (some u) = u

abbrev moved : World → ℕ → World
moved w i = or_stay w (move w i)

-- Processor 0 has the lock, and 1 waits for it.
abbrev contended : World
contended = moved (moved (moved (moved (moved (initial (λ i. idle)) 0) 1) 0) 1) 0

contended-at : (is_inside (contended.at 0) ≡ true) × (contended.at 1 ≡ Phase.spinning)
unfolding move move_at holding pushcli popcli checked
contended-at = (refl, refl)

Reach-exclusive_example :
    ((i j : ℕ) → holds (contended.at i) ≡ true → holds (contended.at j) ≡ true → i ≡ j)
    × ((i : ℕ) → holds (contended.at i) ≡ true → (contended.cpus i).interrupts ≡ false)
    × ((i : ℕ) → is_mine contended.lk i ≡ is_inside (contended.at i))
    × ((i : ℕ) → (u : World) × (move contended i ≡ some u))
unfolding move move_at holding pushcli popcli checked
Reach-exclusive_example =
    Reach-exclusive (λ i. idle) contended (λ i. inl refl)
      (Reach.next 0
        (Reach.next 1 (Reach.next 0 (Reach.next 1 (Reach.next 0 Reach.start refl) refl) refl) refl)
        refl)
