-- ===== src/File/Counts.antt =====
-- The count of each file, after each of the changes that file.c makes.
use boss_os.Base.{
  Bool-cases, List, Option, [], ap, arith, dec_lt, false, get_or, get_or-set_ne, get_or-set_self,
  if◌then◌else◌, inl, inr, length, ltb, none, refl, set, some, some-injective, suc, sym, true, zero,
  ℕ, ℕ_discrete, ◌+◌, ◌-◌, ◌<◌, ◌==◌, ◌↔◌, ◌∙◌, ◌∷◌, ◌≡◌, ◌≤◌,
}
use boss_os.File.{File, FileType, Ftable, drop_ref, filedup, find_free, next_one, no_file}

-- How often `i` stands in the list of held references.
abbrev pub count : ℕ → List ℕ → ℕ
count i [] = 0
count i (x ∷ xs) = (if x == i then 1 else 0) + count i xs

abbrev pub drop_one : ℕ → List ℕ → List ℕ
drop_one i [] = []
drop_one i (x ∷ xs) = if x == i then xs else x ∷ drop_one i xs

abbrev pub take_new : Option ℕ → List ℕ → List ℕ
take_new none held = held
take_new (some i) held = i ∷ held

abbrev pub ref_of : Ftable → ℕ → ℕ
ref_of t i = (get_or t i no_file).ref

get_or-beyond : (t : Ftable) (i : ℕ) → length t ≤ i → get_or t i no_file ≡ no_file
get_or-beyond [] i h = refl
get_or-beyond (f ∷ fs) zero h = absurd (omega arith)
get_or-beyond (f ∷ fs) (suc i) h = get_or-beyond fs i (omega arith)

pub ref_of-lt : (t : Ftable) (i : ℕ) → 0 < ref_of t i → i < length t
ref_of-lt t i h = elim (dec_lt i (length t)) [
  | yes lt ↦ lt
  | no ge ↦ absurd (omega (arith, ap (λ f. f.ref) (get_or-beyond t i (omega arith))))
]

-- A write at `i` changes the count of `i` only.
pub ref_of-set :
    (t : Ftable) (i j : ℕ) (f : File)
    → i < length t
    → ref_of (set t i f) j ≡ (if i == j then f.ref else ref_of t j)
ref_of-set t i j f lt = elim (ℕ_discrete i j) [
  | yes e ↦
      let test : (i == j) ≡ true = ground arith in
      rw test (
        ap (λ x. ref_of (set t i f) x) (sym e) ∙ ap (λ g. g.ref) (get_or-set_self t i f no_file lt))
  | no ne ↦
      let test : (i == j) ≡ false = ground arith in
      rw test (ap (λ g. g.ref) (get_or-set_ne t i j f no_file ne))
]

pub find_free-some : (t : Ftable) (i : ℕ) → find_free t ≡ some i → (i < length t) × (ref_of t i ≡ 0)
unfolding find_free
find_free-some [] i e = cc
find_free-some (f ∷ fs) i e = elim (Bool-cases (f.ref == 0)) [
  | inl z ↦ at_head i (some-injective 0 i (rw z at e)) (ground arith)
  | inr nz ↦ in_tail (λ k q. find_free-some fs k q) i (find_free fs) refl (rw nz at e)
]
  where
    at_head : (i : ℕ) → 0 ≡ i → f.ref ≡ 0 → (i < length (f ∷ fs)) × (ref_of (f ∷ fs) i ≡ 0)
    at_head zero e z = (omega arith, z)
    at_head (suc i) e z = absurd (omega arith)

    in_tail :
        ((k : ℕ) → find_free fs ≡ some k → (k < length fs) × (ref_of fs k ≡ 0))
        → (i : ℕ) (r : Option ℕ) → find_free fs ≡ r
        → next_one r ≡ some i
        → (i < length (f ∷ fs)) × (ref_of (f ∷ fs) i ≡ 0)
    in_tail ih i none q e = cc
    in_tail ih zero (some k) q e = absurd (omega (arith, some-injective (k + 1) 0 e))
    in_tail ih (suc i) (some k) q e =
        let same : k ≡ i = omega (arith, some-injective (k + 1) (suc i) e) in
        let (lt, z) = ih i (q ∙ ap some same) in (omega arith, z)

-- fileclose under the lock: the count goes down by one, and the file is released exactly when it
-- was one.
pub drop_ref_lem :
    (t : Ftable) (i : ℕ)
    → 0 < ref_of t i
    → (f : File) × (released : Option File) × (drop_ref i t ≡ some (set t i f, released))
      × (f.ref ≡ ref_of t i - 1)
      × ((released ≡ none) ↔ (1 < ref_of t i))
unfolding drop_ref
drop_ref_lem t i h =
    let held : ltb (ref_of t i) 1 ≡ false = ground arith in
    elim (Bool-cases (ltb 0 (ref_of t i - 1))) [
      | inl more ↦ (
        record (get_or t i no_file) { ref = ref_of t i - 1 },
        none,
        rw (held, more) refl,
        refl,
        ((λ e. ground arith), (λ l. refl)),
      )
      | inr last ↦ (
        record (get_or t i no_file) { ref = 0; kind = FileType.fd_none },
        some (record (get_or t i no_file) { ref = ref_of t i - 1 }),
        rw (held, last) refl,
        ground arith,
        ((λ e. cc), (λ l. absurd (ground arith))),
      )
    ]

pub filedup_lem :
    (t : Ftable) (i : ℕ)
    → 0 < ref_of t i
    → filedup i t ≡ some (set t i (record (get_or t i no_file) { ref = ref_of t i + 1 }))
unfolding filedup
filedup_lem t i h = let held : ltb (ref_of t i) 1 ≡ false = ground arith in rw held refl

pub count-drop_one :
    (i j : ℕ) (held : List ℕ)
    → 0 < count i held
    → count j (drop_one i held) ≡ (if i == j then count j held - 1 else count j held)
count-drop_one i j [] h = absurd (omega arith)
count-drop_one i j (x ∷ xs) h = ground (arith, count-drop_one i j xs)
