-- ===== src/Proc/Pids.antt =====
-- The pids of the table, as numbers: a used pid stands once.
use boss_os.Base.{
  Bool, List, [], ap, arith, elem, false, if◌then◌else◌, not, refl, set, suc, true, zero, ℕ, ◌&&◌,
  ◌==◌, ◌∷◌, ◌≡◌, ◌≢◌, ◌⊎◌,
}
use boss_os.Proc.{Proc}
use boss_os.Proc.Table.{modify}

unfoldable pub pids : List Proc → List ℕ
pids [] = []
pids (p ∷ ps) = p.pid ∷ pids ps

-- No number but 0 stands twice.
unfoldable pub distinct_live : List ℕ → Bool
distinct_live [] = true
distinct_live (x ∷ xs) = if not (x == 0) && elem x xs then false else distinct_live xs

elem-set : (a i v : ℕ) (xs : List ℕ) → elem a xs ≡ false → a ≢ v → elem a (set xs i v) ≡ false
elem-set a i v [] h ne = refl
elem-set a zero v (x ∷ xs) h ne = ground arith
elem-set a (suc i) v (x ∷ xs) h ne = ground (arith, elem-set a i v xs)

-- A new pid that nobody has, or none at all, keeps the used pids apart.
pub distinct_live-set :
    (i v : ℕ) (xs : List ℕ)
    → (v ≡ 0) ⊎ (elem v xs ≡ false)
    → distinct_live xs ≡ true
    → distinct_live (set xs i v) ≡ true
unfolding distinct_live
distinct_live-set i v [] new h = refl
distinct_live-set zero v (x ∷ xs) new h = ground arith
distinct_live-set (suc i) v (x ∷ xs) new h =
    ground (arith, distinct_live-set i v xs, elem-set x i v xs)

pub pids-modify_same :
    (i : ℕ) (f : Proc → Proc) (ps : List Proc)
    → ((p : Proc) → (f p).pid ≡ p.pid)
    → pids (modify i f ps) ≡ pids ps
unfolding pids
pids-modify_same i f [] h = refl
pids-modify_same zero f (p ∷ ps) h = ap (λ k. k ∷ pids ps) (h p)
pids-modify_same (suc i) f (p ∷ ps) h = ap (λ l. p.pid ∷ l) (pids-modify_same i f ps h)

pub pids-modify-set :
    (i v : ℕ) (f : Proc → Proc) (ps : List Proc)
    → ((p : Proc) → (f p).pid ≡ v)
    → pids (modify i f ps) ≡ set (pids ps) i v
unfolding pids
pids-modify-set i v f [] h = refl
pids-modify-set zero v f (p ∷ ps) h = ap (λ k. k ∷ pids ps) (h p)
pids-modify-set (suc i) v f (p ∷ ps) h = ap (λ l. p.pid ∷ l) (pids-modify-set i v f ps h)
