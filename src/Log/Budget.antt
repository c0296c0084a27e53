-- ===== src/Log/Budget.antt =====
-- The numbers of blocks that the operations in progress may still log, and the list of logged
-- blocks under log_write.
use boss_os.Base.{
  All, Bool-cases, List, [], arith, elem, false, get_elem?, inl, inr, length, refl, set, some, suc,
  zero, ℕ, ◌*◌, ◌+◌, ◌<◌, ◌==◌, ◌∷◌, ◌≡◌, ◌≢◌, ◌≤◌,
}
use boss_os.Log.{absorb, max_op_blocks}
use boss_os.Log.Loops.{Home}

unfoldable pub total : List ℕ → ℕ
total [] = 0
total (x ∷ xs) = x + total xs

unfoldable pub without : List ℕ → ℕ → List ℕ
without [] i = []
without (x ∷ xs) zero = xs
without (x ∷ xs) (suc i) = x ∷ without xs i

abbrev pub Allowed : ℕ → Type 0
Allowed k = k ≤ max_op_blocks

pub length-absorb : (b : ℕ) (xs : List ℕ) → length (absorb b xs) ≤ length xs + 1
unfolding absorb
length-absorb b [] = omega arith
length-absorb b (x ∷ xs) = ground (arith, length-absorb b xs)

pub elem-absorb :
    (a b : ℕ) (xs : List ℕ) → elem a (absorb b xs) ≡ false → (a ≢ b) × (elem a xs ≡ false)
unfolding absorb
elem-absorb a b [] h = (ground arith, refl)
elem-absorb a b (x ∷ xs) h = ground (arith, elem-absorb a b xs)

pub absorb-All :
    (start n b : ℕ) (xs : List ℕ)
    → Home start n b
    → All (Home start n) xs
    → All (Home start n) (absorb b xs)
unfolding absorb
absorb-All start n b [] h hs = (h, tt)
absorb-All start n b (x ∷ xs) h (hx, hs) = elim (Bool-cases (x == b)) [
  | inl e ↦ rw e (h, hs)
  | inr e ↦ rw e (hx, absorb-All start n b xs h hs)
]

pub total-set :
    (bs : List ℕ) (i k : ℕ) → get_elem? bs i ≡ some (suc k) → total bs ≡ total (set bs i k) + 1
unfolding total
total-set [] i k h = cc
total-set (b ∷ bs) zero k h = ground arith
total-set (b ∷ bs) (suc i) k h = omega (arith, total-set bs i k h)

pub without_lem :
    (bs : List ℕ) (i k : ℕ)
    → get_elem? bs i ≡ some k
    → (total (without bs i) ≤ total bs) × (length bs ≡ length (without bs i) + 1)
unfolding total without
without_lem [] i k h = cc
without_lem (b ∷ bs) zero k h = omega arith
without_lem (b ∷ bs) (suc i) k h = omega (arith, without_lem bs i k h)

pub total-le : (bs : List ℕ) → All Allowed bs → total bs ≤ length bs * max_op_blocks
unfolding total
total-le [] h = omega arith
total-le (b ∷ bs) (h, hs) = omega (arith, total-le bs hs)

pub set-All :
    (bs : List ℕ) (i k : ℕ) → k ≤ max_op_blocks → All Allowed bs → All Allowed (set bs i k)
set-All [] i k p h = tt
set-All (b ∷ bs) zero k p (h, hs) = (p, hs)
set-All (b ∷ bs) (suc i) k p (h, hs) = (h, set-All bs i k p hs)

pub get-All : (bs : List ℕ) (i k : ℕ) → get_elem? bs i ≡ some k → All Allowed bs → k ≤ max_op_blocks
get-All [] i k e h = cc
get-All (b ∷ bs) zero k e (h, hs) = ground arith
get-All (b ∷ bs) (suc i) k e (h, hs) = get-All bs i k e hs

pub without-All : (bs : List ℕ) (i : ℕ) → All Allowed bs → All Allowed (without bs i)
unfolding without
without-All [] i h = tt
without-All (b ∷ bs) zero (h, hs) = hs
without-All (b ∷ bs) (suc i) (h, hs) = (h, without-All bs i hs)

pub total_of_mem :
    (bs : List ℕ) (i k : ℕ) → get_elem? bs i ≡ some k → (k ≤ total bs) × (0 < length bs)
unfolding total
total_of_mem [] i k h = cc
total_of_mem (b ∷ bs) zero k h = ground arith
total_of_mem (b ∷ bs) (suc i) k h = omega (arith, total_of_mem bs i k h)
