-- ===== src/Proc/Table.antt =====
-- Tables as lists: changes at one index, and what is true of every entry.
use boss_os.Base.{
  All, List, [], ap, arith, get_elem?, if◌then◌else◌, length, refl, some, subst, suc, zero, ℕ, ◌==◌,
  ◌∷◌, ◌≡◌,
}

module _ {ℓ} {A : Type ℓ} where
  abbrev pub modify : ℕ → (A → A) → List A → List A
  modify i f [] = []
  modify zero f (x ∷ xs) = f x ∷ xs
  modify (suc i) f (x ∷ xs) = x ∷ modify i f xs

  pub length-modify : (i : ℕ) (f : A → A) (xs : List A) → length (modify i f xs) ≡ length xs
  length-modify i f [] = refl
  length-modify zero f (x ∷ xs) = refl
  length-modify (suc i) f (x ∷ xs) = ap suc (length-modify i f xs)

  pub get_elem?-modify :
      (i j : ℕ) (f : A → A) (xs : List A) (x : A)
      → get_elem? xs j ≡ some x
      → get_elem? (modify i f xs) j ≡ some (if i == j then f x else x)
  get_elem?-modify i j f [] x h = cc
  get_elem?-modify zero zero f (y ∷ xs) x h = ground arith
  get_elem?-modify zero (suc j) f (y ∷ xs) x h = ground arith
  get_elem?-modify (suc i) zero f (y ∷ xs) x h = ground arith
  get_elem?-modify (suc i) (suc j) f (y ∷ xs) x h = ground (arith, get_elem?-modify i j f xs x h)

  pub All-modify {κ} :
      (P : A → Type κ) (i : ℕ) (f : A → A) (xs : List A)
      → ((x : A) → P x → P (f x))
      → All P xs
      → All P (modify i f xs)
  All-modify P i f [] h a = tt
  All-modify P zero f (x ∷ xs) h (a, as_) = (h x a, as_)
  All-modify P (suc i) f (x ∷ xs) h (a, as_) = (a, All-modify P i f xs h as_)

  -- Where the change keeps the predicate at the entry in question only.
  pub All-modify_at {κ} :
      (P : A → Type κ) (i : ℕ) (f : A → A) (xs : List A)
      → ((x : A) → get_elem? xs i ≡ some x → P x → P (f x))
      → All P xs
      → All P (modify i f xs)
  All-modify_at P i f [] h a = tt
  All-modify_at P zero f (x ∷ xs) h (a, as_) = (h x refl a, as_)
  All-modify_at P (suc i) f (x ∷ xs) h (a, as_) = (a, All-modify_at P i f xs h as_)

  pub All-mono {κ μ} :
      (P : A → Type κ) (Q : A → Type μ) (xs : List A) → ((x : A) → P x → Q x) → All P xs → All Q xs
  All-mono P Q [] h a = tt
  All-mono P Q (x ∷ xs) h (a, as_) = (h x a, All-mono P Q xs h as_)

  pub All-get {κ} :
      (P : A → Type κ) (xs : List A) (i : ℕ) (x : A) → get_elem? xs i ≡ some x → All P xs → P x
  All-get P [] i x e a = cc
  All-get P (y ∷ xs) zero x e (a, as_) = let same : y ≡ x = cc in subst P same a
  All-get P (y ∷ xs) (suc i) x e (a, as_) = All-get P xs i x e as_

  pub modify-modify :
      (i : ℕ) (f g : A → A) (xs : List A) → modify i g (modify i f xs) ≡ modify i (λ x. g (f x)) xs
  modify-modify i f g [] = refl
  modify-modify zero f g (x ∷ xs) = refl
  modify-modify (suc i) f g (x ∷ xs) = ap (λ l. x ∷ l) (modify-modify i f g xs)

  pub All-modify_change {κ μ} :
      (P : A → Type κ) (Q : A → Type μ) (i : ℕ) (f : A → A) (xs : List A)
      → ((x : A) → P x → Q x)
      → ((x : A) → P x → Q (f x))
      → All P xs
      → All Q (modify i f xs)
  All-modify_change P Q i f [] h k a = tt
  All-modify_change P Q zero f (x ∷ xs) h k (a, as_) = (k x a, All-mono P Q xs h as_)
  All-modify_change P Q (suc i) f (x ∷ xs) h k (a, as_) =
      (h x a, All-modify_change P Q i f xs h k as_)

  -- What stands at the changed index.
  pub get_elem?-modify_self :
      (i : ℕ) (f : A → A) (xs : List A) (y : A)
      → get_elem? (modify i f xs) i ≡ some y
      → (x : A) × (y ≡ f x)
  get_elem?-modify_self i f [] y h = cc
  get_elem?-modify_self zero f (x ∷ xs) y h = (x, cc)
  get_elem?-modify_self (suc i) f (x ∷ xs) y h = get_elem?-modify_self i f xs y h
