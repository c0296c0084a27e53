-- ===== src/Grep/Match.antt =====
-- The matcher of grep decides what the patterns mean.
use boss_os.Base.{
  Bool, Bool-cases, List, [], ap, arith, false, inl, inr, refl, true, ℕ, ◌++◌, ◌==◌, ◌||◌, ◌↔◌, ◌∙◌,
  ◌∷◌, ◌≡◌, ◌≢◌,
}
use boss_os.Grep.{anywhere, is_end, match, matchhere, matchstar, step}
use boss_os.Grep.Pattern.{
  Found, Item, Matches, anchored, at_end, byte, leave, nothing_left, parse, take_one,
}

false-true : {b : Bool} → b ≡ false → b ≡ true → ⊥
false-true a b = cc

module _ (here : List ℕ → Bool) (p : List Item) (c : ℕ) where
  matchstar-Matches :
      (s : List ℕ)
      → ((r : List ℕ) → here r ≡ true → Matches p r)
      → matchstar here c s ≡ true
      → Matches (Item.many c ∷ p) s
  unfolding matchstar
  matchstar-Matches [] h e = leave (h [] e)
  matchstar-Matches (t ∷ ts) h e = elim (Bool-cases (here (t ∷ ts))) [
    | inl now ↦ leave (h (t ∷ ts) now)
    | inr later ↦ elim (Bool-cases ((t == c) || (c == b'.'))) [
      | inl on ↦ take_one (ground arith) (matchstar-Matches ts h (rw (later, on) at e))
      | inr stop ↦ absurd (false-true refl (rw (later, stop) at e))
    ]
  ]

  Matches-matchstar :
      (s : List ℕ)
      → ((r : List ℕ) → Matches p r → here r ≡ true)
      → Matches (Item.many c ∷ p) s
      → matchstar here c s ≡ true
  unfolding matchstar
  Matches-matchstar [] h (leave m) = h [] m
  Matches-matchstar (t ∷ ts) h (leave m) = rw (h (t ∷ ts) m) refl
  Matches-matchstar (t ∷ ts) h (take_one a m) = ground (arith, Matches-matchstar ts h m)

pub matchhere-Matches : (re s : List ℕ) → matchhere re s ≡ true → Matches (parse re) s
unfolding matchhere parse
matchhere-Matches [] s e = nothing_left
matchhere-Matches (c ∷ []) s e = elim (Bool-cases (c == b'$')) [
  | inl dollar ↦ rw dollar (ends s (rw dollar at e))
  | inr other ↦ rw other (byte_only s (rw other at e))
]
  where
    ends : (s : List ℕ) → is_end s ≡ true → Matches (Item.end_of_text ∷ []) s
    ends [] e = at_end
    ends (t ∷ ts) e = absurd (false-true refl e)

    byte_only : (s : List ℕ) → step c (λ ts. true) s ≡ true → Matches (Item.one c ∷ []) s
    byte_only [] e = absurd (false-true refl e)
    byte_only (t ∷ ts) e = byte (ground arith) nothing_left
matchhere-Matches (c ∷ d ∷ re) s e = elim (Bool-cases (d == b'*')) [
  | inl star ↦
      rw star
        (matchstar-Matches (matchhere re) (parse re) c s (matchhere-Matches re) (rw star at e))
  | inr other ↦ rw other (first s (matchhere-Matches (d ∷ re)) (rw other at e))
]
  where
    first :
        (s : List ℕ)
        → ((r : List ℕ) → matchhere (d ∷ re) r ≡ true → Matches (parse (d ∷ re)) r)
        → step c (matchhere (d ∷ re)) s ≡ true
        → Matches (Item.one c ∷ parse (d ∷ re)) s
    first [] h e = absurd (false-true refl e)
    first (t ∷ ts) h e = elim (Bool-cases ((c == b'.') || (c == t))) [
      | inl on ↦ byte on (h ts (rw on at e))
      | inr stop ↦ absurd (false-true refl (rw stop at e))
    ]

pub Matches-matchhere : (re s : List ℕ) → Matches (parse re) s → matchhere re s ≡ true
unfolding matchhere parse
Matches-matchhere [] s m = refl
Matches-matchhere (c ∷ []) s m = elim (Bool-cases (c == b'$')) [
  | inl dollar ↦ rw dollar (ends s (rw dollar at m))
  | inr other ↦ rw other (byte_only s (rw other at m))
]
  where
    ends : (s : List ℕ) → Matches (Item.end_of_text ∷ []) s → is_end s ≡ true
    ends [] at_end = refl
    ends (t ∷ ts) m = elim m [ ]

    byte_only : (s : List ℕ) → Matches (Item.one c ∷ []) s → step c (λ ts. true) s ≡ true
    byte_only [] m = elim m [ ]
    byte_only (t ∷ ts) (byte a m) = rw a refl
Matches-matchhere (c ∷ d ∷ re) s m = elim (Bool-cases (d == b'*')) [
  | inl star ↦
      rw star
        (Matches-matchstar (matchhere re) (parse re) c s (Matches-matchhere re) (rw star at m))
  | inr other ↦ rw other (first s (Matches-matchhere (d ∷ re)) (rw other at m))
]
  where
    first :
        (s : List ℕ)
        → ((r : List ℕ) → Matches (parse (d ∷ re)) r → matchhere (d ∷ re) r ≡ true)
        → Matches (Item.one c ∷ parse (d ∷ re)) s
        → step c (matchhere (d ∷ re)) s ≡ true
    first [] h m = elim m [ ]
    first (t ∷ ts) h (byte a m) = rw a (h ts m)

-- A part of the text that the items match, and what stands before it.
abbrev Somewhere : (re text : List ℕ) → Type 0
Somewhere re text =
    (before : List ℕ) × (rest : List ℕ) × (text ≡ before ++ rest) × Matches (parse re) rest

anywhere-Somewhere : (re s : List ℕ) → anywhere re s ≡ true → Somewhere re s
unfolding anywhere
anywhere-Somewhere re [] e = ([], [], refl, matchhere-Matches re [] e)
anywhere-Somewhere re (t ∷ ts) e = elim (Bool-cases (matchhere re (t ∷ ts))) [
  | inl now ↦ ([], t ∷ ts, refl, matchhere-Matches re (t ∷ ts) now)
  | inr later ↦
      let (b, r, q, m) = anywhere-Somewhere re ts (rw later at e) in
      (t ∷ b, r, ap (λ l. t ∷ l) q, m)
]

Somewhere-anywhere :
    (re before rest : List ℕ) → Matches (parse re) rest → anywhere re (before ++ rest) ≡ true
unfolding anywhere
Somewhere-anywhere re [] [] m = Matches-matchhere re [] m
Somewhere-anywhere re [] (t ∷ ts) m = rw (Matches-matchhere re (t ∷ ts) m) refl
Somewhere-anywhere re (b ∷ bs) rest m = elim (Bool-cases (matchhere re (b ∷ (bs ++ rest)))) [
  | inl now ↦ rw now refl
  | inr later ↦ rw later (Somewhere-anywhere re bs rest m)
]

match-Found : (re s : List ℕ) → match re s ≡ true → Found re s
unfolding match
match-Found [] s e =
    let (b, r, q, m) = anywhere-Somewhere [] s e in Found.anywhere b r (λ c t h. cc) q m
match-Found (c ∷ re) s e = elim (Bool-cases (c == b'^')) [
  | inl caret ↦ anchored (ground arith) (matchhere-Matches re s (rw caret at e))
  | inr other ↦
      let (b, r, q, m) = anywhere-Somewhere (c ∷ re) s (rw other at e) in
      Found.anywhere b r (λ d t h k. not_caret other (head-eq h ∙ k)) q m
]
  where
    not_caret : (c == b'^') ≡ false → c ≢ b'^'
    not_caret other k = ground arith

    head-eq : {d : ℕ} {t : List ℕ} → c ∷ re ≡ d ∷ t → c ≡ d
    head-eq h = cc

Found-match : (re s : List ℕ) → Found re s → match re s ≡ true
unfolding match
Found-match (c ∷ re) s (anchored caret m) =
    let test : (c == b'^') ≡ true = ground arith in rw test (Matches-matchhere re s m)
Found-match [] s (Found.anywhere b r no_caret q m) = rw q (Somewhere-anywhere [] b r m)
Found-match (c ∷ re) s (Found.anywhere b r no_caret q m) =
    let ne = no_caret c re refl in
    let test : (c == b'^') ≡ false = ground arith in
    rw (test, q) (Somewhere-anywhere (c ∷ re) b r m)

-- match answers 1 exactly on the texts in which the pattern is found: right at the start if the
-- pattern begins with `^`, and else behind any part of the text; `c*` stands for any number of the
-- byte, `.` for any byte, and a last `$` for the end of the text.
pub match_iff : (re s : List ℕ) → (match re s ≡ true) ↔ Found re s
match_iff re s = (match-Found re s, Found-match re s)
