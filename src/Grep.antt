-- ===== src/Grep.antt =====
-- grep.c: the matcher, and the loop over the reads of a file. A string is the list of its bytes
-- before the terminating 0.
pub mod Pattern
pub mod Match
pub mod Lines
mod Tests
use boss_os.Base.{
  Bool, List, Option, [], false, if◌then◌else◌, length, none, some, suc, true, zero, ℕ, ◌++◌, ◌+◌,
  ◌==◌, ◌||◌, ◌∷◌,
}

-- The loop of matchstar on the text left; `here` is matchhere with the rest of the pattern.
unfoldable pub matchstar : (here : List ℕ → Bool) → (c : ℕ) → (text : List ℕ) → Bool
matchstar here c [] = here []
matchstar here c (t ∷ ts) =
    let more = matchstar here c ts in
    if here (t ∷ ts) then true else (if (t == c) || (c == b'.') then more else false)

-- `*text!='\0' && (re[0]=='.' || re[0]==*text)`, and then matchhere of the rest.
abbrev pub step : (c : ℕ) → (here : List ℕ → Bool) → (text : List ℕ) → Bool
step c here [] = false
step c here (t ∷ ts) = if (c == b'.') || (c == t) then here ts else false

abbrev pub is_end : List ℕ → Bool
is_end [] = true
is_end (_ ∷ _) = false

unfoldable pub matchhere : (re text : List ℕ) → Bool
matchhere [] text = true
matchhere (c ∷ []) text = if c == b'$' then is_end text else step c (λ ts. true) text
matchhere (c ∷ d ∷ re) text =
    let star = matchstar (matchhere re) c text in
    let one = step c (matchhere (d ∷ re)) text in if d == b'*' then star else one

-- The loop of match over the suffixes of the text, the empty one included.
unfoldable pub anywhere : (re text : List ℕ) → Bool
anywhere re [] = matchhere re []
anywhere re (t ∷ ts) = let more = anywhere re ts in if matchhere re (t ∷ ts) then true else more

unfoldable pub match : (re text : List ℕ) → Bool
match [] text = anywhere [] text
match (c ∷ re) text = if c == b'^' then matchhere re text else anywhere (c ∷ re) text

abbrev pub buf_size : ℕ
buf_size = 1024

abbrev pub cons_line : ℕ → Option (List ℕ × List ℕ) → Option (List ℕ × List ℕ)
cons_line c none = none
cons_line c (some (line, rest)) = some (c ∷ line, rest)

-- strchr(p, '\n') on the bytes from `p` to the 0 behind the buffer: the line, and what follows it.
unfoldable pub next_line : List ℕ → Option (List ℕ × List ℕ)
next_line [] = none
next_line (c ∷ cs) =
    if c == 0 then none else (if c == 10 then some ([], cs) else cons_line c (next_line cs))

abbrev pub show : (re line : List ℕ) → List ℕ
show re line = if match re line then line ++ 10 ∷ [] else []

-- What the loop over the lines of the buffer writes, whether it met a line, and the bytes from `p`
-- on; with fuel for the lines.
pub record Scanned : Type 0 where
  pub out : List ℕ
  pub moved : Bool
  pub rest : List ℕ

unfoldable pub scan_on : (List ℕ → Scanned) → (re buf : List ℕ) → Option (List ℕ × List ℕ) → Scanned
scan_on again re buf none = record { out = []; moved = false; rest = buf }
scan_on again re buf (some (line, rest)) =
    let s = again rest in record { out = show re line ++ s.out; moved = true; rest = s.rest }

unfoldable pub scan : (fuel : ℕ) → (re buf : List ℕ) → Scanned
scan zero re buf = record { out = []; moved = false; rest = buf }
scan (suc k) re buf = scan_on (scan k re) re buf (next_line buf)

-- grep over what the calls of read return, `buf` being the bytes kept from before. A read of no
-- byte ends it. What is left without a newline is kept only if a line was met.
unfoldable pub grep : (re buf : List ℕ) → (reads : List (List ℕ)) → List ℕ
grep re buf [] = []
grep re buf ([] ∷ reads) = []
grep re buf ((c ∷ cs) ∷ reads) =
    let all = buf ++ c ∷ cs in
    let s = scan (length all + 1) re all in s.out ++ grep re (if s.moved then s.rest else []) reads
