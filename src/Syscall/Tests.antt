-- ===== src/Syscall/Tests.antt =====
-- A process with a small memory.
use boss_os.Base.{
  Option, add32, arith, if◌then◌else◌, refl, some, u32_mod, ℕ, ◌*◌, ◌+◌, ◌-◌, ◌<◌, ◌==◌, ◌↔◌, ◌≡◌,
  ◌≤◌,
}
use boss_os.Syscall.{
  User, argint, argptr, argstr, check_ptr, fetchint, fetchstr, load, scan, syscall,
}
use boss_os.Syscall.Args.{StringAt, argptr-inside, fetchstr_iff}

-- 200 bytes; the stack pointer is 100, and the first argument, at 104, is 16. At 16 stands "A".
abbrev small : User
small = record {
  sz = 200;
  esp = 100;
  mem = λ a. if a == 104 then 16 else (if a == 16 then 65 else 0);
}

argptr-inside_example :
    (16 < 200)
    × (16 + 8 ≤ 200)
    × (add32 (add32 100 4) (4 * 0) + 4 ≤ 200)
    × (16 ≡ load small.mem (add32 (add32 100 4) (4 * 0)))
unfolding argptr argint fetchint check_ptr
argptr-inside_example = argptr-inside 0 8 16 small (omega arith) refl

fetchstr_iff_example : (fetchstr 16 small ≡ some (16, 1)) ↔ StringAt 200 16 1 small.mem
fetchstr_iff_example = fetchstr_iff 16 1 small

argstr_small : argstr 0 small ≡ some (16, 1)
unfolding argstr argint fetchint fetchstr scan
argstr_small = refl

-- The table of system calls has no entry 0.
syscall_zero : {S : Type 0} (t : ℕ → Option (S → ℕ × S)) (s : S) → (syscall t 0 s).0 ≡ u32_mod - 1
unfolding syscall
syscall_zero t s = refl
