-- ===== src/Fs/Path/Elements.antt =====
-- Calling skipelem until it returns 0 yields the nonempty pieces of the path between its slashes.
use boss_os.Base.{
  Bool-cases, List, Option, [], ap, append-nil, append_assoc, arith, false, if◌then◌else◌, inl, inr,
  length, map, none, refl, some, suc, sym, true, zero, ℕ, ◌++◌, ◌<◌, ◌==◌, ◌∙◌, ◌∷◌, ◌≡◌, ◌≤◌,
}
use boss_os.Fs.Path.{elem_name, skip_on, skip_slashes, skipelem, slash, take_elem}

-- The pieces of a path, split at each slash: a description of its own. `cur` is the piece so far.
pub split : (cur : List ℕ) → List ℕ → List (List ℕ)
split cur [] = cur ∷ []
split cur (c ∷ cs) = if c == slash then cur ∷ split [] cs else split (cur ++ (c ∷ [])) cs

pub nonempty : List (List ℕ) → List (List ℕ)
nonempty [] = []
nonempty ([] ∷ ps) = nonempty ps
nonempty ((c ∷ cs) ∷ ps) = (c ∷ cs) ∷ nonempty ps

-- The names that a path goes through.
pub names : List ℕ → List (List ℕ)
names path = map elem_name (nonempty (split [] path))

-- The loop of namex, `while((path = skipelem(path, name)) != 0)`, with fuel: the names it meets.
walk_on : (List ℕ → Option (List (List ℕ))) → Option (List ℕ × List ℕ) → Option (List (List ℕ))
walk_on rest none = some []
walk_on rest (some (name, path)) = elim (rest path) [ none ↦ none | some ns ↦ some (name ∷ ns) ]

pub walk : (fuel : ℕ) → List ℕ → Option (List (List ℕ))
walk zero path = none
walk (suc f) path = walk_on (walk f) (skipelem path)

-- What follows the piece that ends at `rest`.
abbrev after : List ℕ → List (List ℕ)
after [] = []
after (c ∷ r) = split [] r

AtEnd : List ℕ → Type 0
AtEnd [] = Unit
AtEnd (c ∷ r) = c ≡ slash

take_elem-AtEnd : (cs : List ℕ) → AtEnd (take_elem cs).1
unfolding take_elem AtEnd
take_elem-AtEnd [] = tt
take_elem-AtEnd (c ∷ cs) = elim (Bool-cases (c == slash)) [
  | inl e ↦ rw e (ground arith)
  | inr e ↦ rw e (take_elem-AtEnd cs)
]

split-take_elem :
    (cur cs : List ℕ) → split cur cs ≡ (cur ++ (take_elem cs).0) ∷ after (take_elem cs).1
unfolding split take_elem
split-take_elem cur [] = rw append-nil
split-take_elem cur (c ∷ cs) = elim (Bool-cases (c == slash)) [
  | inl e ↦ rw (e, append-nil)
  | inr e ↦ rw e (
      split-take_elem (cur ++ (c ∷ [])) cs
      ∙ ap (λ x. x ∷ after (take_elem cs).1) (append_assoc cur (c ∷ []) (take_elem cs).0))
]

nonempty-after : (rest : List ℕ) → AtEnd rest → nonempty (after rest) ≡ nonempty (split [] rest)
unfolding AtEnd split nonempty
nonempty-after [] h = refl
nonempty-after (c ∷ r) h = let e : (c == slash) ≡ true = ground arith in rw e refl

nonempty-skip_slashes :
    (cs : List ℕ) → nonempty (split [] (skip_slashes cs)) ≡ nonempty (split [] cs)
unfolding split nonempty skip_slashes
nonempty-skip_slashes [] = refl
nonempty-skip_slashes (c ∷ cs) = elim (Bool-cases (c == slash)) [
  | inl e ↦ rw e (nonempty-skip_slashes cs)
  | inr e ↦ rw e (rw e refl)
]

-- What skip_slashes leaves does not begin with a slash, and is no longer.
skipped : (cs : List ℕ) (c : ℕ) (r : List ℕ) → skip_slashes cs ≡ c ∷ r → (c == slash) ≡ false
unfolding skip_slashes
skipped [] c r h = cc
skipped (x ∷ cs) c r h = elim (Bool-cases (x == slash)) [
  | inl e ↦ skipped cs c r (rw e at h)
  | inr e ↦ let same : x ∷ cs ≡ c ∷ r = rw e at h in let head : x ≡ c = cc in rw (← head) e
]

length-skip_slashes : (cs : List ℕ) → length (skip_slashes cs) ≤ length cs
unfolding skip_slashes
length-skip_slashes [] = omega arith
length-skip_slashes (c ∷ cs) = ground (arith, length-skip_slashes cs)

length-take_elem : (cs : List ℕ) → length (take_elem cs).1 ≤ length cs
unfolding take_elem
length-take_elem [] = omega arith
length-take_elem (c ∷ cs) = ground (arith, length-take_elem cs)

take_elem-cons :
    (c : ℕ) (cs : List ℕ)
    → (c == slash) ≡ false
    → take_elem (c ∷ cs) ≡ (c ∷ (take_elem cs).0, (take_elem cs).1)
unfolding take_elem
take_elem-cons c cs h = rw h

split-cons : (c : ℕ) (cs : List ℕ) → (c == slash) ≡ false → split [] (c ∷ cs) ≡ split (c ∷ []) cs
unfolding split
split-cons c cs h = rw h

nonempty-cons :
    (c : ℕ) (e : List ℕ) (ps : List (List ℕ)) → nonempty ((c ∷ e) ∷ ps) ≡ (c ∷ e) ∷ nonempty ps
unfolding nonempty
nonempty-cons c e ps = refl

-- The first name of a path that begins with no slash, and the names of the rest.
first_name :
    (c : ℕ) (cs : List ℕ)
    → (c == slash) ≡ false
    → (nonempty (split [] (c ∷ cs))
        ≡ (c ∷ (take_elem cs).0) ∷ nonempty (split [] (skip_slashes (take_elem cs).1)))
first_name c cs h =
    ap nonempty (split-cons c cs h ∙ split-take_elem (c ∷ []) cs)
    ∙ nonempty-cons c (take_elem cs).0 (after (take_elem cs).1)
    ∙ ap (λ r. (c ∷ (take_elem cs).0) ∷ r)
        (nonempty-after (take_elem cs).1 (take_elem-AtEnd cs)
          ∙ sym (nonempty-skip_slashes (take_elem cs).1))

skip_on-cons :
    (c : ℕ) (cs : List ℕ)
    → (c == slash) ≡ false
    → skip_on (c ∷ cs) ≡ some (elem_name (c ∷ (take_elem cs).0), skip_slashes (take_elem cs).1)
unfolding skip_on
skip_on-cons c cs h =
    ap (λ (x : List ℕ × List ℕ). some (elem_name x.0, skip_slashes x.1)) (take_elem-cons c cs h)

walk_nil :
    (go : List ℕ → Option (List (List ℕ)))
    → walk_on go (skip_on []) ≡ some (map elem_name (nonempty (split [] [])))
unfolding walk_on skip_on nonempty split
walk_nil go = refl

walk_cons :
    (go : List ℕ → Option (List (List ℕ))) (name rest : List ℕ) (ns : List (List ℕ))
    → go rest ≡ some ns
    → walk_on go (some (name, rest)) ≡ some (name ∷ ns)
unfolding walk_on
walk_cons go name rest ns h = rw (h, walk_on)

names-cons :
    (c : ℕ) (cs : List ℕ)
    → (c == slash) ≡ false
    → some (elem_name (c ∷ (take_elem cs).0) ∷ names (skip_slashes (take_elem cs).1))
      ≡ some (map elem_name (nonempty (split [] (c ∷ cs))))
unfolding names
names-cons c cs h = ap (λ l. some (map elem_name l)) (sym (first_name c cs h))

-- One round of the walk from a path without leading slashes.
walk_round :
    (f : ℕ) (path : List ℕ)
    → ((q : List ℕ) → length q < length path → walk f q ≡ some (names q))
    → (p : List ℕ) → skip_slashes path ≡ p
    → walk_on (walk f) (skip_on p) ≡ some (map elem_name (nonempty (split [] p)))
walk_round f path ih [] e = walk_nil (walk f)
walk_round f path ih (c ∷ cs) e =
    let h = skipped path c cs e in
    let rest = skip_slashes (take_elem cs).1 in
    let shorter : length rest < length path = omega (
      arith,
      length-skip_slashes path,
      ap length e,
      length-take_elem cs,
      length-skip_slashes (take_elem cs).1,
    ) in
    ap (walk_on (walk f)) (skip_on-cons c cs h)
    ∙ walk_cons (walk f) _ rest (names rest) (ih rest shorter)
    ∙ names-cons c cs h

-- The loop ends: with fuel beyond the length of the path it meets exactly the nonempty pieces of
-- the path between its slashes, in order, each cut to its first 14 bytes.
pub walk-names : (f : ℕ) (path : List ℕ) → length path < f → walk f path ≡ some (names path)
unfolding walk skipelem names
walk-names zero path h = absurd (omega arith)
walk-names (suc f) path h =
    walk_round f path (λ q shorter. walk-names f q (omega arith)) (skip_slashes path) refl
    ∙ ap (λ l. some (map elem_name l)) (nonempty-skip_slashes path)

-- One call of skipelem takes the first name off.
abbrev pub then_names : Option (List ℕ × List ℕ) → List (List ℕ)
then_names none = []
then_names (some (name, rest)) = name ∷ names rest

names-shut :
    (name rest : List ℕ)
    → name ∷ map elem_name (nonempty (split [] rest)) ≡ then_names (some (name, rest))
unfolding names
names-shut name rest = refl

no_names : map elem_name (nonempty (split [] [])) ≡ then_names (skip_on [])
unfolding skip_on nonempty split
no_names = refl

no_elem : (name rest : List ℕ) {n : ℕ} → skip_on [] ≡ some (name, rest) → length rest < n
unfolding skip_on
no_elem name rest h = cc

names_on :
    (path p : List ℕ)
    → skip_slashes path ≡ p
    → map elem_name (nonempty (split [] p)) ≡ then_names (skip_on p)
names_on path [] e = no_names
names_on path (c ∷ cs) e =
    let h = skipped path c cs e in
    ap (map elem_name) (first_name c cs h)
    ∙ names-shut (elem_name (c ∷ (take_elem cs).0)) (skip_slashes (take_elem cs).1)
    ∙ ap then_names (sym (skip_on-cons c cs h))

pub names-skipelem : (path : List ℕ) → names path ≡ then_names (skipelem path)
unfolding names skipelem
names-skipelem path =
    ap (map elem_name) (sym (nonempty-skip_slashes path)) ∙ names_on path (skip_slashes path) refl

-- And it leaves a shorter path.
shorter_on :
    (path p name rest : List ℕ)
    → skip_slashes path ≡ p
    → skip_on p ≡ some (name, rest)
    → length rest < length path
shorter_on path [] name rest e h = no_elem name rest h
shorter_on path (c ∷ cs) name rest e h =
    let k = skipped path c cs e in
    let same : rest ≡ skip_slashes (take_elem cs).1 = cc (sym h ∙ skip_on-cons c cs k) in
    rw same (
      omega (
        arith,
        length-skip_slashes path,
        ap length e,
        length-take_elem cs,
        length-skip_slashes (take_elem cs).1,
      ))

pub skipelem-shorter :
    (path name rest : List ℕ) → skipelem path ≡ some (name, rest) → length rest < length path
unfolding skipelem
skipelem-shorter path name rest h = shorter_on path (skip_slashes path) name rest refl h
