-- ===== src/Fs/Dir/Name.antt =====
-- The bytes of an entry: what it means that it has a name, and how a name is written.
use boss_os.Base.{
  Bool-cases, List, [], ap, ap₂, arith, false, get_or, get_or-drop, if◌then◌else◌, inl, inr, ltb,
  not, refl, suc, sym, true, update, update_ne, update_self, zero, ℕ, ◌%◌, ◌&&◌, ◌*◌, ◌+◌, ◌/◌, ◌<◌,
  ◌==◌, ◌∙◌, ◌∷◌, ◌≡◌, ◌≢◌, ◌≤◌,
}
use boss_os.Str.{Memory, diff, strncmp, strncpy, zero_fill}
use boss_os.Fs.Inode.{slice}
use boss_os.Fs.Dir.{entry_name, is_named, is_zero, namecmp, new_entry, side_by_side}

-- An entry is in use when its number, of two bytes, is not 0.
abbrev pub InUse : List ℕ → Type 0
InUse bs = get_or bs 0 0 + 256 * get_or bs 1 0 ≢ 0

-- The 14 bytes behind the number are those of the name, up to the first 0 of the name. Behind the
-- end of a list all bytes are 0.
abbrev pub HasName : List ℕ → List ℕ → Type 0
HasName name bs =
    (i : ℕ)
    → i < 14
    → ((j : ℕ) → j < i → get_or name j 0 ≢ 0)
    → get_or name i 0 ≡ get_or bs (2 + i) 0

-- The bytes at `p` and at `q`, `n` of them, agree up to the first 0.
abbrev Agree : Memory → (p q n : ℕ) → Type 0
Agree m p q n = (i : ℕ) → i < n → ((j : ℕ) → j < i → m (p + j) ≢ 0) → m (p + i) ≡ m (q + i)

Agree-step : (m : Memory) (p q n : ℕ) → m p ≡ m q → Agree m (p + 1) (q + 1) n → Agree m p q (suc n)
Agree-step m p q n e h zero lt nz = ap m (omega arith) ∙ e ∙ ap m (omega arith)
Agree-step m p q n e h (suc i) lt nz =
    ap m (omega arith)
    ∙ h i (omega arith) (λ j l z. nz (j + 1) (omega arith) (ap m (omega arith) ∙ z))
    ∙ ap m (omega arith)

Agree-rest : (m : Memory) (p q n : ℕ) → m p ≢ 0 → Agree m p q (suc n) → Agree m (p + 1) (q + 1) n
Agree-rest m p q n ne h i lt nz =
    ap m (omega arith) ∙ h (i + 1) (omega arith) (λ j l z. earlier j l z) ∙ ap m (omega arith)
  where
    earlier : (j : ℕ) → j < i + 1 → m (p + j) ≢ 0
    earlier zero l z = ne (ap m (omega arith) ∙ z)
    earlier (suc j) l z = nz j (omega arith) (ap m (omega arith) ∙ z)

diff_same : (a b : ℕ) → is_zero (diff a b) ≡ true → a ≡ b
diff_same a b h = ground arith

Agree-ended : (m : Memory) (p q n : ℕ) → m p ≡ 0 → m p ≡ m q → Agree m p q (suc n)
Agree-ended m p q n z e zero lt nz = ap m (omega arith) ∙ e ∙ ap m (omega arith)
Agree-ended m p q n z e (suc i) lt nz = absurd (nz 0 (omega arith) (ap m (omega arith) ∙ z))

strncmp-Agree : (p q n : ℕ) (m : Memory) → is_zero (strncmp p q n m) ≡ true → Agree m p q n
unfolding strncmp
strncmp-Agree p q zero m h = λ i lt nz. absurd (omega arith)
strncmp-Agree p q (suc n) m h = elim (Bool-cases (not (m p == 0) && (m p == m q))) [
  | inl more ↦ Agree-step m p q n (ground arith) (strncmp-Agree (p + 1) (q + 1) n m (rw more at h))
  | inr stop ↦
      let same : m p ≡ m q = diff_same (m p) (m q) (rw stop at h) in
      Agree-ended m p q n (ground arith) same
]

Agree-strncmp : (p q n : ℕ) (m : Memory) → Agree m p q n → is_zero (strncmp p q n m) ≡ true
unfolding strncmp
Agree-strncmp p q zero m h = refl
Agree-strncmp p q (suc n) m h =
    let same : m p ≡ m q =
      ap m (omega arith) ∙ h 0 (omega arith) (λ j l. absurd (omega arith)) ∙ ap m (omega arith) in
    elim (Bool-cases (not (m p == 0) && (m p == m q))) [
      | inl more ↦ rw more (Agree-strncmp (p + 1) (q + 1) n m (Agree-rest m p q n (ground arith) h))
      | inr stop ↦ rw stop (ground arith)
    ]

-- The two names in the memory of namecmp.
left_byte : (s t : List ℕ) (i : ℕ) → i < 14 → side_by_side s t (0 + i) ≡ get_or s i 0
left_byte s t i lt = ground arith

right_byte : (s bs : List ℕ) (i : ℕ) → side_by_side s (entry_name bs) (16 + i) ≡ get_or bs (2 + i) 0
right_byte s bs i =
    let test : ltb (16 + i) 16 ≡ false = ground arith in
    rw test (ap (λ k. get_or (entry_name bs) k 0) (omega arith) ∙ get_or-drop 2 i bs 0)

named-HasName : (name bs : List ℕ) → is_zero (namecmp name (entry_name bs)) ≡ true → HasName name bs
unfolding namecmp
named-HasName name bs h i lt nz =
    sym (left_byte name (entry_name bs) i lt)
    ∙ strncmp-Agree 0 16 14 (side_by_side name (entry_name bs)) h i lt
        (λ j l z. nz j l (sym (left_byte name (entry_name bs) j (omega arith)) ∙ z))
    ∙ right_byte name bs i

HasName-named : (name bs : List ℕ) → HasName name bs → is_zero (namecmp name (entry_name bs)) ≡ true
unfolding namecmp
HasName-named name bs h = Agree-strncmp 0 16 14 (side_by_side name (entry_name bs)) (λ i lt nz.
    left_byte name (entry_name bs) i lt
    ∙ h i lt (λ j l z. nz j l (left_byte name (entry_name bs) j (omega arith) ∙ z))
    ∙ sym (right_byte name bs i))

-- What the test of dirlookup means.
pub is_named-true : (name bs : List ℕ) → is_named name bs ≡ true → InUse bs × HasName name bs
is_named-true name bs h = (ground arith, named-HasName name bs (ground arith))

pub is_named-false : (name bs : List ℕ) → is_named name bs ≡ false → ¬ (InUse bs × HasName name bs)
is_named-false name bs h (used, has) = let z = HasName-named name bs has in ground arith

-- The first `n` bytes of a name, with zeros from its first 0 or its end on.
pub padded : ℕ → List ℕ → List ℕ
padded zero cs = []
padded (suc n) [] = 0 ∷ padded n []
padded (suc n) (c ∷ cs) = c ∷ padded n (if c == 0 then [] else cs)

-- The 16 bytes of an entry with a number and a name.
abbrev pub dirent : (name : List ℕ) → (inum : ℕ) → List ℕ
dirent name inum = inum % 256 ∷ inum / 256 % 256 ∷ padded 14 name

zero_fill-before : (s n a : ℕ) (m : Memory) → a < s → zero_fill s n m a ≡ m a
unfolding zero_fill
zero_fill-before s zero a m lt = refl
zero_fill-before s (suc n) a m lt =
    zero_fill-before (s + 1) n a (update m s 0) (omega arith) ∙ update_ne m s a 0 (omega arith)

strncpy-before : (s t n a : ℕ) (m : Memory) → a < s → strncpy s t n m a ≡ m a
unfolding strncpy
strncpy-before s t zero a m lt = refl
strncpy-before s t (suc n) a m lt = elim (Bool-cases (m t == 0)) [
  | inl z ↦ rw z (
      zero_fill-before (s + 1) n a (update m s (m t)) (omega arith)
      ∙ update_ne m s a (m t) (omega arith))
  | inr nz ↦ rw nz (
      strncpy-before (s + 1) (t + 1) n a (update m s (m t)) (omega arith)
      ∙ update_ne m s a (m t) (omega arith))
]

slice-zero_fill : (s n : ℕ) (m : Memory) → slice (zero_fill s n m) s n ≡ padded n []
unfolding slice zero_fill padded
slice-zero_fill s zero m = refl
slice-zero_fill s (suc n) m =
    ap₂ ◌∷◌ (zero_fill-before (s + 1) n s (update m s 0) (omega arith) ∙ update_self m s 0)
      (slice-zero_fill (s + 1) n (update m s 0))

strncpy-stop :
    (s t n : ℕ) (m : Memory)
    → m t ≡ 0
    → strncpy s t (suc n) m ≡ zero_fill (s + 1) n (update m s (m t))
unfolding strncpy
strncpy-stop s t n m z = let test : (m t == 0) ≡ true = ground arith in rw test refl

strncpy-more :
    (s t n : ℕ) (m : Memory)
    → m t ≢ 0
    → strncpy s t (suc n) m ≡ strncpy (s + 1) (t + 1) n (update m s (m t))
unfolding strncpy
strncpy-more s t n m nz = let test : (m t == 0) ≡ false = ground arith in rw test refl

-- When the first byte is 0, all are zeros.
slice-stop :
    (s t n : ℕ) (m : Memory) → m t ≡ 0 → slice (strncpy s t (suc n) m) s (suc n) ≡ 0 ∷ padded n []
unfolding slice
slice-stop s t n m z =
    ap (λ f. slice f s (suc n)) (strncpy-stop s t n m z)
    ∙ ap₂ ◌∷◌
        (zero_fill-before (s + 1) n s (update m s (m t)) (omega arith) ∙ update_self m s (m t) ∙ z)
        (slice-zero_fill (s + 1) n (update m s (m t)))

-- strncpy to a place behind the name.
slice-strncpy :
    (s t n : ℕ) (cs : List ℕ) (m : Memory)
    → t + n ≤ s
    → ((i : ℕ) → i < n → m (t + i) ≡ get_or cs i 0)
    → slice (strncpy s t n m) s n ≡ padded n cs
unfolding padded slice
slice-strncpy s t zero cs m far h = refl
slice-strncpy s t (suc n) [] m far h = slice-stop s t n m (ap m (omega arith) ∙ h 0 (omega arith))
slice-strncpy s t (suc n) (c ∷ cs) m far h =
    let first : m t ≡ c = ap m (omega arith) ∙ h 0 (omega arith) in
    elim (Bool-cases (c == 0)) [
      | inl z ↦
          let nil : c ≡ 0 = ground arith in
          rw z (slice-stop s t n m (first ∙ nil) ∙ ap (λ x. x ∷ padded n []) (sym nil))
      | inr nz ↦
          let full : m t ≢ 0 = ground arith in
          let copied : Memory = update m s (m t) in
          rw nz (
            ap (λ f. slice f s (suc n)) (strncpy-more s t n m full)
            ∙ ap₂ ◌∷◌
                (strncpy-before (s + 1) (t + 1) n s copied (omega arith)
                  ∙ update_self m s (m t)
                  ∙ first)
                (slice-strncpy (s + 1) (t + 1) n cs copied (omega arith) (λ i lt.
                  update_ne m s (t + 1 + i) (m t) (omega arith)
                  ∙ ap m (omega arith)
                  ∙ h (suc i) (omega arith))))
    ]

-- What dirlink writes.
pub new_entry-dirent :
    (name : List ℕ) (inum : ℕ) (old : List ℕ) → new_entry name inum old ≡ dirent name inum
unfolding new_entry
new_entry-dirent name inum old =
    ap (λ l. inum % 256 ∷ inum / 256 % 256 ∷ l)
      (slice-strncpy 16 0 14 name (side_by_side name (entry_name old)) (omega arith)
        (λ i lt. left_byte name (entry_name old) i lt))
