-- ===== src/Sysfile/Descriptors.antt =====
-- The descriptors of a process hold references.
use boss_os.Base.{
  Bool-cases, List, Option, [], ap, arith, false, get_or, if◌then◌else◌, inl, inr, leb, length,
  length-set, none, refl, set, some, suc, true, zero, ℕ, ℕ_discrete, ◌+◌, ◌<◌, ◌==◌, ◌^◌, ◌||◌, ◌∙◌,
  ◌∷◌, ◌≡◌, ◌≢◌, ◌≤◌,
}
use boss_os.File.{Ret, no_file}
use boss_os.File.Counts.{filedup_lem, ref_of, ref_of-lt, ref_of-set}
use boss_os.Sysfile.{
  Files, argfd, dup_at, dup_of, dup_ret, fdalloc, first_null, give_fd, next_fd, nofile, open_at,
  sys_dup, with_fd,
}

-- How many descriptors have the file `j`.
abbrev pub is_file : ℕ → Option ℕ → ℕ
is_file j none = 0
is_file j (some i) = if i == j then 1 else 0

abbrev pub owned : ℕ → List (Option ℕ) → ℕ
owned j [] = 0
owned j (v ∷ fds) = is_file j v + owned j fds

owned-set :
    (j k : ℕ) (v : Option ℕ) (fds : List (Option ℕ))
    → k < length fds
    → owned j (set fds k v) + is_file j (open_at fds k) ≡ owned j fds + is_file j v
owned-set j k v [] lt = absurd (omega arith)
owned-set j zero v (w ∷ fds) lt = omega arith
owned-set j (suc k) v (w ∷ fds) lt = omega (arith, owned-set j k v fds (omega arith))

-- No more descriptors than references.
pub record Backed (f : Files) : Type 0 where
  pub sixteen : length f.ofile ≡ nofile
  pub enough : (j : ℕ) → owned j f.ofile ≤ ref_of f.table j

-- The references that are not those of descriptors stay the same.
abbrev pub Balanced : Files → Files → Type 0
Balanced f g = (j : ℕ) → ref_of g.table j + owned j f.ofile ≡ ref_of f.table j + owned j g.ofile

owned-open :
    (k i : ℕ) (fds : List (Option ℕ)) → k < length fds → open_at fds k ≡ some i → 0 < owned i fds
owned-open k i fds lt q =
    let one : is_file i (open_at fds k) ≡ 1 = ap (is_file i) q ∙ ground arith in
    omega (arith, owned-set i k none fds lt, one)

pub data Argfd (fds : List (Option ℕ)) : Option (ℕ × ℕ) → Type 0 where
  bad : Argfd fds none
  good : {fd i : ℕ} → fd < nofile → open_at fds fd ≡ some i → Argfd fds (some (fd, i))

argfd-Argfd : (arg : Option ℕ) (fds : List (Option ℕ)) → Argfd fds (argfd arg fds)
unfolding argfd
argfd-Argfd none fds = bad
argfd-Argfd (some fd) fds = elim (Bool-cases (leb (2 ^ 31) fd || leb nofile fd)) [
  | inl out ↦ rw out bad
  | inr in_ ↦ rw in_ (from (open_at fds fd) refl (ground arith))
]
  where
    from : (v : Option ℕ) → open_at fds fd ≡ v → fd < nofile → Argfd fds (with_fd fd v)
    from none q lt = bad
    from (some i) q lt = good lt q

data Null (fds : List (Option ℕ)) : Option ℕ → Type 0 where
  no_null : ((k : ℕ) → k < length fds → open_at fds k ≢ none) → Null fds none
  null_at : {k : ℕ} → k < length fds → open_at fds k ≡ none → Null fds (some k)

first_null-Null : (fds : List (Option ℕ)) → Null fds (first_null fds)
unfolding first_null
first_null-Null [] = no_null (λ k lt. absurd (omega arith))
first_null-Null (none ∷ fds) = null_at (omega arith) refl
first_null-Null (some i ∷ fds) = from (first_null fds) (first_null-Null fds)
  where
    some_none : {n : ℕ} → some n ≡ none → ⊥
    some_none q = cc

    used :
        ((k : ℕ) → k < length fds → open_at fds k ≢ none)
        → (k : ℕ) → k < length (some i ∷ fds)
        → open_at (some i ∷ fds) k ≢ none
    used h zero lt = some_none
    used h (suc k) lt = h k (omega arith)

    from : (r : Option ℕ) → Null fds r → Null (some i ∷ fds) (next_fd r)
    from none (no_null h) = no_null (used h)
    from (some k) (null_at lt q) = null_at (omega arith) (shift q)
      where
        shift : open_at fds k ≡ none → open_at (some i ∷ fds) (k + 1) ≡ none
        shift q = let e : k + 1 ≡ suc k = omega arith in ap (open_at (some i ∷ fds)) e ∙ q

-- The descriptor `fd` was null and now has the file `i`.
pub record Duped (f : Files) (i fd : ℕ) (g : Files) : Type 0 where
  pub small : fd < nofile
  pub was_null : open_at f.ofile fd ≡ none
  pub now : g.ofile ≡ set f.ofile fd (some i)
  pub held : 0 < ref_of f.table i
  pub refs : (j : ℕ) → ref_of g.table j ≡ ref_of f.table j + is_file j (some i)
  pub backed : Backed g
  pub balanced : Balanced f g

-- sys_dup returns -1, and changes nothing, or gives a new descriptor of the file.
pub data DupEnd (f : Files) (arg : Option ℕ) : Option (Ret × Files) → Type 0 where
  bad_fd : argfd arg f.ofile ≡ none → DupEnd f arg (some (Ret.minus_one, f))
  all_open :
      ((k : ℕ) → k < nofile → open_at f.ofile k ≢ none) → DupEnd f arg (some (Ret.minus_one, f))
  duped :
      {fd i : ℕ} {g : Files} (old : ℕ)
      → argfd arg f.ofile ≡ some (old, i)
      → open_at f.ofile old ≡ some i
      → Duped f i fd g
      → DupEnd f arg (some (Ret.ret fd, g))

module _ (f : Files) (w : Backed f) (i fd : ℕ) (held : 0 < ref_of f.table i) (lt : fd < nofile)
    (free : open_at f.ofile fd ≡ none) where
  abbrev after : Files
  after = record {
    ofile = set f.ofile fd (some i);
    table = set f.table i (record (get_or f.table i no_file) { ref = ref_of f.table i + 1 });
  }

  one_more : (j : ℕ) → owned j after.ofile ≡ owned j f.ofile + is_file j (some i)
  one_more j =
      let none_here : is_file j (open_at f.ofile fd) ≡ 0 = ap (is_file j) free in
      omega (arith, owned-set j fd (some i) f.ofile (omega (arith, w.sixteen)), none_here)

  one_ref : (j : ℕ) → ref_of after.table j ≡ ref_of f.table j + is_file j (some i)
  one_ref j =
      ref_of-set f.table i j (record (get_or f.table i no_file) { ref = ref_of f.table i + 1 })
        (ref_of-lt f.table i held)
      ∙ by_file
    where
      by_file :
          (if i == j then ref_of f.table i + 1 else ref_of f.table j)
          ≡ ref_of f.table j + (if i == j then 1 else 0)
      by_file = elim (ℕ_discrete i j) [
        | yes e ↦
            let test : (i == j) ≡ true = ground arith in rw test (ap (λ k. ref_of f.table k + 1) e)
        | no ne ↦ let test : (i == j) ≡ false = ground arith in rw test (omega arith)
      ]

  dup-Duped : Duped f i fd after
  dup-Duped = record {
    small = lt;
    was_null = free;
    now = refl;
    held = held;
    refs = one_ref;
    backed = record {
      sixteen = length-set f.ofile fd (some i) ∙ w.sixteen;
      enough = λ j. omega (arith, one_more j, one_ref j, w.enough j);
    };
    balanced = λ j. omega (arith, one_more j, one_ref j);
  }

-- sys_dup of a process with 16 descriptors, not more of a file than it has references, does not
-- panic. It returns -1 and changes nothing when the argument is no open descriptor or all are open.
-- Else it returns a descriptor that was null and now has the same file; each file has as many more
-- references as it has more descriptors.
pub sys_dup-DupEnd : (arg : Option ℕ) (f : Files) → Backed f → DupEnd f arg (sys_dup arg f)
unfolding sys_dup dup_of dup_at dup_ret fdalloc
sys_dup-DupEnd arg f w = from (argfd arg f.ofile) refl (argfd-Argfd arg f.ofile)
  where
    at_fd :
        (old i : ℕ)
        → argfd arg f.ofile ≡ some (old, i)
        → open_at f.ofile old ≡ some i
        → 0 < ref_of f.table i
        → (r : Option ℕ) → Null f.ofile r
        → DupEnd f arg (dup_at f i (give_fd i f.ofile r))
    at_fd old i a q held none (no_null h) = all_open (λ k lt. h k (omega (arith, w.sixteen)))
    at_fd old i a q held (some fd) (null_at lt free) =
        rw (filedup_lem f.table i held)
          (duped old a q (dup-Duped f w i fd held (omega (arith, w.sixteen)) free))

    from :
        (r : Option (ℕ × ℕ)) → argfd arg f.ofile ≡ r → Argfd f.ofile r → DupEnd f arg (dup_of f r)
    from none a bad = bad_fd a
    from (some (old, i)) a (good lt q) =
        at_fd old i a q
          (omega (arith, w.enough i, owned-open old i f.ofile (omega (arith, w.sixteen)) q))
          (first_null f.ofile) (first_null-Null f.ofile)
