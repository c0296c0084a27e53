-- ===== src/Syscall.antt =====
-- syscall.c: the arguments of a system call, fetched from user memory, and the dispatch. `none`
-- is the return value -1.
pub mod Args
mod Tests
use boss_os.Base.{
  Option, add32, if◌then◌else◌, leb, ltb, none, some, suc, u32_mod, zero, ℕ, ◌&&◌, ◌*◌, ◌+◌, ◌-◌,
  ◌==◌, ◌^◌, ◌||◌,
}

-- What these functions read of the current process: `sz`, `tf->esp`, and the bytes of its memory.
pub record User : Type 0 where
  pub sz : ℕ
  pub esp : ℕ
  pub mem : ℕ → ℕ

-- `*(int*)(addr)`, as a uint: the bytes in little-endian order.
abbrev pub load : (ℕ → ℕ) → ℕ → ℕ
load m a = m a + 0x100 * m (a + 1) + 0x1_0000 * m (a + 2) + 0x100_0000 * m (a + 3)

unfoldable pub fetchint : ℕ → User → Option ℕ
fetchint addr u = if leb u.sz addr || ltb u.sz (add32 addr 4) then none else some (load u.mem addr)

-- The loop of fetchstr, with `fuel` bytes before the end and `n` behind.
unfoldable pub scan : (fuel addr n : ℕ) → (ℕ → ℕ) → Option ℕ
scan zero addr n m = none
scan (suc k) addr n m =
    let more = scan k addr (n + 1) m in if m (addr + n) == 0 then some n else more

abbrev pub with_ptr : ℕ → Option ℕ → Option (ℕ × ℕ)
with_ptr addr none = none
with_ptr addr (some n) = some (addr, n)

-- The pointer and the length of the string.
unfoldable pub fetchstr : ℕ → User → Option (ℕ × ℕ)
fetchstr addr u = if leb u.sz addr then none else with_ptr addr (scan (u.sz - addr) addr 0 u.mem)

unfoldable pub argint : ℕ → User → Option ℕ
argint n u = fetchint (add32 (add32 u.esp 4) (4 * n)) u

-- The test of argptr on a pointer; `size` is negative when its top bit is set.
unfoldable pub check_ptr : (size : ℕ) → User → Option ℕ → Option ℕ
check_ptr size u none = none
check_ptr size u (some i) =
    if leb (2 ^ 31) size || (leb u.sz i || ltb u.sz (add32 i size)) then none else some i

unfoldable pub argptr : (n size : ℕ) → User → Option ℕ
argptr n size u = check_ptr size u (argint n u)

unfoldable pub argstr : ℕ → User → Option (ℕ × ℕ)
argstr n u = fetch (argint n u)
  where
    fetch : Option ℕ → Option (ℕ × ℕ)
    fetch none = none
    fetch (some addr) = fetchstr addr u

-- NELEM(syscalls)
abbrev pub nelem : ℕ
nelem = 22

-- The dispatch: the value that goes to eax, as a uint, and the state that the handler leaves. The
-- table gives the handler of a number, if there is one.
unfoldable pub syscall : {S : Type 0} → (ℕ → Option (S → ℕ × S)) → (eax : ℕ) → S → ℕ × S
syscall {S} table eax s =
    if (ltb 0 eax && ltb eax (2 ^ 31)) && ltb eax nelem then call (table eax) else (u32_mod - 1, s)
  where
    call : Option (S → ℕ × S) → ℕ × S
    call none = (u32_mod - 1, s)
    call (some f) = f s
