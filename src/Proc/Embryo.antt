-- ===== src/Proc/Embryo.antt =====
-- The slots in state EMBRYO, which belong to the fork or userinit that took them.
use boss_os.Base.{
  List, Option, [], ap, ap₂, arith, get_elem?, if◌then◌else◌, none, refl, some, suc, zero, ℕ, ◌∷◌,
  ◌≡◌, ◌≢◌,
}
use boss_os.Proc.{Chan, Proc, ProcState, ◌=s◌}
use boss_os.Proc.Table.{modify}
use boss_os.Proc.Life.{wake, wakeup1}

-- The stack of an EMBRYO slot.
abbrev pub embryo_of : Proc → Option ℕ
embryo_of p = if p.state =s ProcState.embryo then some p.kstack else none

unfoldable pub embryos : List Proc → List (Option ℕ)
embryos [] = []
embryos (p ∷ ps) = embryo_of p ∷ embryos ps

pub embryos-get :
    (ps : List Proc) (i : ℕ) (p : Proc)
    → get_elem? ps i ≡ some p
    → get_elem? (embryos ps) i ≡ some (embryo_of p)
unfolding embryos
embryos-get [] i p h = cc
embryos-get (q ∷ ps) zero p h = let is : q ≡ p = cc in ap (λ x. some (embryo_of x)) is
embryos-get (q ∷ ps) (suc i) p h = embryos-get ps i p h

pub embryos-modify_same :
    (i : ℕ) (f : Proc → Proc) (ps : List Proc)
    → ((p : Proc) → get_elem? ps i ≡ some p → embryo_of (f p) ≡ embryo_of p)
    → embryos (modify i f ps) ≡ embryos ps
unfolding embryos
embryos-modify_same i f [] h = refl
embryos-modify_same zero f (p ∷ ps) h = ap (λ o. o ∷ embryos ps) (h p refl)
embryos-modify_same (suc i) f (p ∷ ps) h = ap (λ l. embryo_of p ∷ l) (embryos-modify_same i f ps h)

pub embryos-modify_ne :
    (i j : ℕ) (f : Proc → Proc) (ps : List Proc)
    → i ≢ j
    → get_elem? (embryos (modify i f ps)) j ≡ get_elem? (embryos ps) j
unfolding embryos
embryos-modify_ne i j f [] ne = refl
embryos-modify_ne zero zero f (p ∷ ps) ne = absurd (ne refl)
embryos-modify_ne zero (suc j) f (p ∷ ps) ne = refl
embryos-modify_ne (suc i) zero f (p ∷ ps) ne = refl
embryos-modify_ne (suc i) (suc j) f (p ∷ ps) ne = embryos-modify_ne i j f ps (λ e. ne (ap suc e))

-- What stands at the changed index, if the entry was an EMBRYO.
pub embryos-modify_at :
    (i : ℕ) (f : Proc → Proc) (ps : List Proc) (o : Option ℕ)
    → get_elem? (embryos ps) i ≡ some o
    → (p : Proc) × (get_elem? ps i ≡ some p)
      × (embryo_of p ≡ o)
      × (get_elem? (embryos (modify i f ps)) i ≡ some (embryo_of (f p)))
unfolding embryos
embryos-modify_at i f [] o h = cc
embryos-modify_at zero f (p ∷ ps) o h = (p, refl, cc, refl)
embryos-modify_at (suc i) f (p ∷ ps) o h = embryos-modify_at i f ps o h

wake-embryo_of : (c : Chan) (p : Proc) → embryo_of (wake c p) ≡ embryo_of p
wake-embryo_of c p = ground arith

pub embryos-wakeup1 : (c : Chan) (ps : List Proc) → embryos (wakeup1 c ps) ≡ embryos ps
unfolding embryos wakeup1
embryos-wakeup1 c [] = refl
embryos-wakeup1 c (p ∷ ps) = ap₂ ◌∷◌ (wake-embryo_of c p) (embryos-wakeup1 c ps)

pub embryo_of-state :
    (p : Proc) (k : ℕ) → embryo_of p ≡ some k → (p.state ≡ ProcState.embryo) × (p.kstack ≡ k)
embryo_of-state p k h = ground arith
