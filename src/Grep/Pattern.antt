-- ===== src/Grep/Pattern.antt =====
-- What the patterns of grep mean.
use boss_os.Base.{Bool, List, [], if◌then◌else◌, true, ℕ, ◌++◌, ◌==◌, ◌||◌, ◌∷◌, ◌≡◌, ◌≢◌}

-- A parsed pattern: a byte, the end of the text, or any number of a byte; `.` is any byte.
pub data Item : Type 0 where
  one : ℕ → Item
  end_of_text : Item
  many : ℕ → Item

unfoldable pub parse : List ℕ → List Item
parse [] = []
parse (c ∷ []) = if c == b'$' then Item.end_of_text ∷ [] else Item.one c ∷ []
parse (c ∷ d ∷ re) =
    let star = Item.many c ∷ parse re in
    let rest = Item.one c ∷ parse (d ∷ re) in if d == b'*' then star else rest

abbrev pub accepts : (c t : ℕ) → Bool
accepts c t = (c == b'.') || (c == t)

-- A prefix of the text matches the items.
pub data Matches : List Item → List ℕ → Type 0 where
  nothing_left : {s : List ℕ} → Matches [] s
  at_end : Matches (Item.end_of_text ∷ []) []
  byte :
      {c t : ℕ} {p : List Item} {s : List ℕ}
      → accepts c t ≡ true
      → Matches p s
      → Matches (Item.one c ∷ p) (t ∷ s)
  leave : {c : ℕ} {p : List Item} {s : List ℕ} → Matches p s → Matches (Item.many c ∷ p) s
  take_one :
      {c t : ℕ} {p : List Item} {s : List ℕ}
      → accepts c t ≡ true
      → Matches (Item.many c ∷ p) s
      → Matches (Item.many c ∷ p) (t ∷ s)

-- Where a pattern may match in a text: at the start, after `^`, and else behind any part of it.
pub data Found : (re text : List ℕ) → Type 0 where
  anchored : {c : ℕ} {re text : List ℕ} → c ≡ b'^' → Matches (parse re) text → Found (c ∷ re) text
  anywhere :
      {re text : List ℕ} (before rest : List ℕ)
      → ((c : ℕ) (r : List ℕ) → re ≡ c ∷ r → c ≢ b'^')
      → text ≡ before ++ rest
      → Matches (parse re) rest
      → Found re text
