-- ===== src/Sysfile/Tests.antt =====
-- The descriptors of a small process.
use boss_os.Base.{
  List, Option, [], arith, none, refl, replicate, some, suc, true, zero, ℕ, ◌∷◌, ◌≡◌, ◌≤◌,
}
use boss_os.File.{Calls, File, Ret, filedup, no_file}
use boss_os.File.Counts.{ref_of}
use boss_os.Sysfile.{Files, argfd, dup_at, dup_of, dup_ret, fdalloc, first_null, sys_close, sys_dup}
use boss_os.Sysfile.Descriptors.{Backed, owned}
use boss_os.Sysfile.DupClose.{Restored, sys_close-sys_dup}

-- File 0 is open once.
abbrev opened : File
opened = record no_file { ref = 1; readable = true }

abbrev nulls : ℕ → List (Option ℕ)
nulls n = replicate n none

abbrev one_open : Files
one_open = record { ofile = some 0 ∷ nulls 15; table = opened ∷ no_file ∷ [] }

owned-nulls : (j n : ℕ) → owned j (nulls n) ≡ 0
owned-nulls j zero = refl
owned-nulls j (suc n) = omega (arith, owned-nulls j n)

one_open-Backed : Backed one_open
one_open-Backed = record { sixteen = refl; enough = λ j. at_most j }
  where
    at_most : (j : ℕ) → owned j one_open.ofile ≤ ref_of one_open.table j
    at_most zero = omega (arith, owned-nulls 0 15)
    at_most (suc j) = ground (arith, owned-nulls (suc j) 15)

-- After a sys_dup of 0.
abbrev two_open : Files
two_open = record {
  ofile = some 0 ∷ some 0 ∷ nulls 14;
  table = record opened { ref = 2 } ∷ no_file ∷ [];
}

dup_zero : sys_dup (some 0) one_open ≡ some (Ret.ret 1, two_open)
unfolding sys_dup argfd fdalloc first_null dup_of dup_at dup_ret filedup
dup_zero = refl

-- Calls that do nothing.
abbrev no_calls : Calls ℕ
no_calls = record {
  begin_op = λ s. s;
  end_op = λ s. s;
  ilock = λ i s. s;
  iunlock = λ i s. s;
  iput = λ i s. s;
  stati = λ i s. s;
  pipeclose = λ p b s. s;
  piperead = λ p a n s. (none, s);
  pipewrite = λ p a n s. (none, s);
  readi = λ i a o n s. (none, s);
  writei = λ i a o n s. (none, s);
}

sys_close-sys_dup_example : Restored one_open 7 (sys_close no_calls (some 1) two_open 7)
sys_close-sys_dup_example =
    sys_close-sys_dup no_calls (some 0) one_open 7 1 two_open one_open-Backed dup_zero
