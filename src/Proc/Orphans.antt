-- ===== src/Proc/Orphans.antt =====
-- exit passes every child to init.
use boss_os.Base.{
  List, Option, [], false, get_elem?, if◌then◌else◌, some, suc, zero, ℕ, ◌<◌, ◌∷◌, ◌≡◌,
}
use boss_os.Proc.{Proc}
use boss_os.Proc.Life.{same_slot}

parents : List Proc → List (Option ℕ)
parents [] = []
parents (p ∷ ps) = p.parent ∷ parents ps

-- One round of the loop in exit, on the parents alone.
disown : (me init i : ℕ) → List (Option ℕ) → List (Option ℕ)
disown me init zero [] = []
disown me init (suc i) [] = []
disown me init zero (q ∷ qs) = (if same_slot q me then some init else q) ∷ qs
disown me init (suc i) (q ∷ qs) = q ∷ disown me init i qs

-- Nobody below index `i` has the parent `me`.
abbrev NoneBelow : (me i : ℕ) → List (Option ℕ) → Type 0
NoneBelow me i qs =
    (j : ℕ) (q : Option ℕ) → get_elem? qs j ≡ some q → j < i → same_slot q me ≡ false
