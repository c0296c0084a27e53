-- ===== src/Ulib/Tests.antt =====
-- Numbers and lines.
use boss_os.Base.{[], arith, refl, true, u32_mod, ◌-◌, ◌∷◌, ◌≡◌}
use boss_os.Console.{backwards, fill, printint}
use boss_os.Ulib.{atoi}
use boss_os.Ulib.Decimal.{atoi-printint}

printint-minus : printint (u32_mod - 12) 10 true ≡ b'-' ∷ b'1' ∷ b'2' ∷ []
unfolding printint fill backwards
printint-minus = refl

atoi-printint_example : atoi (printint 2048 10 true) ≡ 2048
atoi-printint_example = atoi-printint 2048 (omega arith)
