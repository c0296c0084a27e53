-- ===== src/Grep/Lines.antt =====
-- What grep prints of a file that comes in several reads.
use boss_os.Base.{
  All, Bool, Bool-cases, List, Option, [], ap, append-nil, append_assoc, arith, false,
  if◌then◌else◌, inl, inr, length, length-append, none, not, refl, some, suc, sym, true, zero, ℕ,
  ◌&&◌, ◌++◌, ◌+◌, ◌<◌, ◌==◌, ◌||◌, ◌∙◌, ◌∷◌, ◌≡◌,
}
use boss_os.Grep.{Scanned, cons_line, grep, next_line, scan, scan_on, show}

-- No byte of the list ends a string or a line.
abbrev pub plain : List ℕ → Bool
plain [] = true
plain (c ∷ cs) = (not (c == 0) && not (c == 10)) && plain cs

abbrev pub no_zero : List ℕ → Bool
no_zero [] = true
no_zero (c ∷ cs) = not (c == 0) && no_zero cs

abbrev pub has_newline : List ℕ → Bool
has_newline [] = false
has_newline (c ∷ cs) = (c == 10) || has_newline cs

-- The lines of a file that end in a newline; `line` is what is read of the current one.
pub lines_from : (line : List ℕ) → List ℕ → List (List ℕ)
lines_from line [] = []
lines_from line (c ∷ cs) =
    let done = line ∷ lines_from [] cs in
    let more = lines_from (line ++ c ∷ []) cs in if c == 10 then done else more

-- The lines that match, with their newlines.
pub shown : (re : List ℕ) → List (List ℕ) → List ℕ
shown re [] = []
shown re (l ∷ ls) = show re l ++ shown re ls

pub concat : List (List ℕ) → List ℕ
concat [] = []
concat (r ∷ rs) = r ++ concat rs

lines_from-plain :
    (line cs rest : List ℕ)
    → plain cs ≡ true
    → lines_from line (cs ++ 10 ∷ rest) ≡ (line ++ cs) ∷ lines_from [] rest
unfolding lines_from
lines_from-plain line [] rest h = ap (λ l. l ∷ lines_from [] rest) (sym (append-nil line))
lines_from-plain line (c ∷ cs) rest h =
    let other : (c == 10) ≡ false = ground arith in
    rw other (
      lines_from-plain (line ++ c ∷ []) cs rest (ground arith)
      ∙ ap (λ l. l ∷ lines_from [] rest) (append_assoc line (c ∷ []) cs))

lines_from-none : (line cs : List ℕ) → plain cs ≡ true → lines_from line cs ≡ []
unfolding lines_from
lines_from-none line [] h = refl
lines_from-none line (c ∷ cs) h =
    let other : (c == 10) ≡ false = ground arith in
    rw other (lines_from-none (line ++ c ∷ []) cs (ground arith))

-- What the search for a newline finds.
pub data Next (cs : List ℕ) : Option (List ℕ × List ℕ) → Type 0 where
  whole : plain cs ≡ true → Next cs none
  line : {l rest : List ℕ} → plain l ≡ true → cs ≡ l ++ 10 ∷ rest → Next cs (some (l, rest))

next_line-Next : (cs : List ℕ) → no_zero cs ≡ true → Next cs (next_line cs)
unfolding next_line
next_line-Next [] h = Next.whole refl
next_line-Next (c ∷ cs) h =
    let ok : (c == 0) ≡ false = ground arith in
    rw ok (elim (Bool-cases (c == 10)) [
      | inl end_ ↦
          let e : 10 ≡ c = ground arith in rw end_ (Next.line refl (ap (λ x. x ∷ cs) (sym e)))
      | inr on ↦ rw on (further (next_line cs) (next_line-Next cs (ground arith)) ok on)
    ])
  where
    further :
        (r : Option (List ℕ × List ℕ))
        → Next cs r
        → (c == 0) ≡ false
        → (c == 10) ≡ false
        → Next (c ∷ cs) (cons_line c r)
    further none (Next.whole p) ok on = Next.whole (ground arith)
    further (some (l, rest)) (Next.line p q) ok on = Next.line (ground arith) (ap (λ x. c ∷ x) q)

-- What the loop over the lines of the buffer does with the bytes `all`, whatever follows them.
pub record ScanSpec (re all : List ℕ) (s : Scanned) : Type 0 where
  pub tail : plain s.rest ≡ true
  pub prints :
      (more : List ℕ)
      → shown re (lines_from [] (all ++ more)) ≡ s.out ++ shown re (lines_from [] (s.rest ++ more))
  pub moves : has_newline all ≡ true → s.moved ≡ true

plain-no_newline : (cs : List ℕ) → plain cs ≡ true → has_newline cs ≡ true → ⊥
plain-no_newline [] p h = cc
plain-no_newline (c ∷ cs) p h = ground (arith, plain-no_newline cs)

length-behind : (l rest : List ℕ) → length rest < length (l ++ 10 ∷ rest)
length-behind l rest = omega (arith, length-append l (10 ∷ rest))

no_zero-behind : (l rest : List ℕ) → no_zero (l ++ 10 ∷ rest) ≡ true → no_zero rest ≡ true
no_zero-behind [] rest h = ground arith
no_zero-behind (c ∷ l) rest h = no_zero-behind l rest (ground arith)

pub scan-ScanSpec :
    (k : ℕ) (re all : List ℕ)
    → length all < k
    → no_zero all ≡ true
    → ScanSpec re all (scan k re all)
unfolding scan scan_on shown
scan-ScanSpec zero re all h z = absurd (omega arith)
scan-ScanSpec (suc k) re all h z =
    by_line (next_line all) (next_line-Next all z) (λ r lt zr. scan-ScanSpec k re r lt zr)
  where
    one_line :
        (l rest more : List ℕ)
        → plain l ≡ true
        → shown re (lines_from [] ((l ++ 10 ∷ rest) ++ more))
          ≡ show re l ++ shown re (lines_from [] (rest ++ more))
    one_line l rest more p =
        ap (λ x. shown re (lines_from [] x)) (append_assoc l (10 ∷ rest) more)
        ∙ ap (shown re) (lines_from-plain [] l (rest ++ more) p)

    by_line :
        (r : Option (List ℕ × List ℕ))
        → Next all r
        → ((rest : List ℕ)
            → length rest < k
            → no_zero rest ≡ true
            → ScanSpec re rest (scan k re rest))
        → ScanSpec re all (scan_on (scan k re) re all r)
    by_line none (Next.whole p) ih = record {
      tail = p;
      prints = λ more. refl;
      moves = λ n. absurd (plain-no_newline all p n);
    }
    by_line (some (l, rest)) (Next.line p q) ih =
        let shorter : length rest < k = omega (arith, length-behind l rest, ap length q) in
        let s = ih rest shorter (no_zero-behind l rest (ap no_zero (sym q) ∙ z)) in
        record {
          tail = s.tail;
          prints = λ more.
              ap (λ x. shown re (lines_from [] (x ++ more))) q
              ∙ one_line l rest more p
              ∙ ap (λ x. show re l ++ x) (s.prints more)
              ∙ sym (append_assoc (show re l) _ _);
          moves = λ n. refl;
        }

-- What a read gives: at least one newline, and no byte 0.
abbrev pub IsRead : List ℕ → Type 0
IsRead r = (no_zero r ≡ true) × (has_newline r ≡ true)

no_zero-append : (xs ys : List ℕ) → plain xs ≡ true → no_zero ys ≡ true → no_zero (xs ++ ys) ≡ true
no_zero-append [] ys p z = z
no_zero-append (x ∷ xs) ys p z = ground (arith, no_zero-append xs ys)

has_newline-append : (xs ys : List ℕ) → has_newline ys ≡ true → has_newline (xs ++ ys) ≡ true
has_newline-append [] ys h = h
has_newline-append (x ∷ xs) ys h = ground (arith, has_newline-append xs ys)

pub grep-shown :
    (re buf : List ℕ) (reads : List (List ℕ))
    → plain buf ≡ true
    → All IsRead reads
    → grep re buf reads ≡ shown re (lines_from [] (buf ++ concat reads))
unfolding grep concat shown
grep-shown re buf [] p h =
    ap (shown re) (sym (lines_from-none [] (buf ++ []) (ap plain (append-nil buf) ∙ p)))
grep-shown re buf ([] ∷ reads) p ((z, n), h) = cc
grep-shown re buf ((c ∷ cs) ∷ reads) p ((z, n), h) =
    let all = buf ++ c ∷ cs in
    let s = scan-ScanSpec (length all + 1) re all (omega arith) (no_zero-append buf (c ∷ cs) p z) in
    let m = s.moves (has_newline-append buf (c ∷ cs) n) in
    rw m (
      ap (λ x. (scan (length all + 1) re all).out ++ x)
        (grep-shown re (scan (length all + 1) re all).rest reads s.tail h)
      ∙ sym (s.prints (concat reads))
      ∙ ap (λ x. shown re (lines_from [] x)) (append_assoc buf (c ∷ cs) (concat reads)))

next_line-plain : (cs : List ℕ) → plain cs ≡ true → next_line cs ≡ none
unfolding next_line
next_line-plain [] p = refl
next_line-plain (c ∷ cs) p =
    let zero_ : (c == 0) ≡ false = ground arith in
    let end_ : (c == 10) ≡ false = ground arith in
    rw (zero_, end_) (ap (cons_line c) (next_line-plain cs (ground arith)))

scan-none :
    (k : ℕ) (re cs : List ℕ)
    → next_line cs ≡ none
    → scan k re cs ≡ record { out = []; moved = false; rest = cs }
unfolding scan scan_on
scan-none zero re cs e = refl
scan-none (suc k) re cs e = ap (scan_on (scan k re) re cs) e

-- But a first part of a line that a read gives alone, with no newline, is lost: grep goes on as if
-- the file began behind it.
pub grep-lost :
    (re : List ℕ) (c : ℕ) (cs : List ℕ) (reads : List (List ℕ))
    → plain (c ∷ cs) ≡ true
    → grep re [] ((c ∷ cs) ∷ reads) ≡ grep re [] reads
unfolding grep
grep-lost re c cs reads p =
    ap (λ s. s.out ++ grep re (if s.moved then s.rest else []) reads)
      (scan-none (length (c ∷ cs) + 1) re (c ∷ cs) (next_line-plain (c ∷ cs) p))
