-- ===== src/Console/Tests.antt =====
-- A line is typed, corrected and read.
use boss_os.Base.{[], arith, false, length, refl, replicate, sub32, u32_mod, ◌-◌, ◌∷◌, ◌≡◌, ◌≤◌}
use boss_os.Console.{Input, accept, consoleintr, consoleread, ctrl, input_buf, key, read_loop}
use boss_os.Console.Window.{InWindow, IsKilled, Reach, Reach-console, key-IsKilled}

-- The counters are about to wrap.
abbrev quiet : Input
quiet = record { buf = replicate 128 0; r = u32_mod - 2; w = u32_mod - 2; e = u32_mod - 2 }

-- "ax", backspace, "b", return.
abbrev typed_line : Input
typed_line = (consoleintr (97 ∷ 120 ∷ 8 ∷ 98 ∷ 13 ∷ []) false quiet).0

read-typed_line : (consoleread false 10 typed_line).bytes ≡ 97 ∷ 98 ∷ 10 ∷ []
unfolding consoleread read_loop consoleintr key accept
read-typed_line = refl

quiet-InWindow : InWindow quiet
quiet-InWindow = record {
  a = 0;
  b = 0;
  order = omega arith;
  room = omega arith;
  small = omega arith;
  lines = refl;
  typed = refl;
  ring = refl;
}

Reach-console_example :
    (sub32 typed_line.w typed_line.r ≤ sub32 typed_line.e typed_line.r)
    × (sub32 typed_line.e typed_line.r ≤ input_buf)
    × (length (consoleread false 2 typed_line).bytes ≤ 2)
Reach-console_example =
    Reach-console quiet typed_line false 2 quiet-InWindow
      (Reach.interrupt (97 ∷ 120 ∷ 8 ∷ 98 ∷ 13 ∷ []) false Reach.start)

-- "axb" is typed, and not yet a line.
abbrev edited : Input
edited = (consoleintr (97 ∷ 120 ∷ 98 ∷ []) false quiet).0

edited-InWindow : InWindow edited
unfolding consoleintr key accept
edited-InWindow = record {
  a = 0;
  b = 3;
  order = omega arith;
  room = omega arith;
  small = omega arith;
  lines = refl;
  typed = refl;
  ring = refl;
}

key-IsKilled_example : IsKilled edited (key (ctrl b'U') edited)
unfolding consoleintr key accept
key-IsKilled_example = key-IsKilled edited edited-InWindow
