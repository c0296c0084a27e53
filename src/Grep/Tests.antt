-- ===== src/Grep/Tests.antt =====
-- Patterns and files.
use boss_os.Base.{List, [], refl, true, ℕ, ◌++◌, ◌↔◌, ◌∷◌, ◌≡◌}
use boss_os.Grep.{anywhere, grep, match, matchhere, matchstar, next_line, scan, scan_on}
use boss_os.Grep.Pattern.{Found}
use boss_os.Grep.Match.{match_iff}
use boss_os.Grep.Lines.{grep-lost}

-- "b*c$" in "abbc"
abbrev tail_re : List ℕ
tail_re = b'b' ∷ b'*' ∷ b'c' ∷ b'$' ∷ []

abbrev abbc : List ℕ
abbc = b'a' ∷ b'b' ∷ b'b' ∷ b'c' ∷ []

match-tail_re : match tail_re abbc ≡ true
unfolding match anywhere matchhere matchstar
match-tail_re = refl

match_iff_example : (match tail_re abbc ≡ true) ↔ Found tail_re abbc
match_iff_example = match_iff tail_re abbc

-- "c\nab" and "bc\n", with "bb" searched for
abbrev two_reads : List (List ℕ)
two_reads = (b'c' ∷ 10 ∷ b'a' ∷ b'b' ∷ []) ∷ (b'b' ∷ b'c' ∷ 10 ∷ []) ∷ []

abbrev bb : List ℕ
bb = b'b' ∷ b'b' ∷ []

grep-two_reads : grep bb [] two_reads ≡ abbc ++ 10 ∷ []
unfolding grep scan scan_on next_line match anywhere matchhere matchstar
grep-two_reads = refl

-- Here "ab" comes first, alone.
grep-lost_example :
    grep bb [] ((b'a' ∷ b'b' ∷ []) ∷ (b'b' ∷ 10 ∷ []) ∷ []) ≡ grep bb [] ((b'b' ∷ 10 ∷ []) ∷ [])
grep-lost_example = grep-lost bb b'a' (b'b' ∷ []) ((b'b' ∷ 10 ∷ []) ∷ []) refl
