-- ===== src/Sysfile.antt =====
-- sysfile.c: the descriptors of a process. A file is its index in the table of file.c.
pub mod Descriptors
pub mod DupClose
mod Tests
use boss_os.Base.{
  List, Option, [], get_or, if◌then◌else◌, leb, none, set, some, ℕ, ◌+◌, ◌^◌, ◌||◌, ◌∷◌,
}
use boss_os.File.{Calls, Ftable, Ret, fileclose, filedup}

abbrev pub nofile : ℕ
nofile = 16

-- `ofile` of the process, `none` for the null pointer, and the table of files.
pub record Files : Type 0 where
  pub ofile : List (Option ℕ)
  pub table : Ftable

abbrev pub open_at : List (Option ℕ) → ℕ → Option ℕ
open_at fds fd = get_or fds fd none

abbrev pub with_fd : ℕ → Option ℕ → Option (ℕ × ℕ)
with_fd fd none = none
with_fd fd (some i) = some (fd, i)

-- argfd on what argint gave, a word read as an `int`: the descriptor and its file, `none` for -1.
unfoldable pub argfd : Option ℕ → List (Option ℕ) → Option (ℕ × ℕ)
argfd none fds = none
argfd (some fd) fds = if leb (2 ^ 31) fd || leb nofile fd then none else with_fd fd (open_at fds fd)

abbrev pub next_fd : Option ℕ → Option ℕ
next_fd none = none
next_fd (some fd) = some (fd + 1)

-- The first descriptor that is null.
unfoldable pub first_null : List (Option ℕ) → Option ℕ
first_null [] = none
first_null (none ∷ fds) = some 0
first_null (some i ∷ fds) = next_fd (first_null fds)

abbrev pub give_fd : ℕ → List (Option ℕ) → Option ℕ → Option (ℕ × List (Option ℕ))
give_fd i fds none = none
give_fd i fds (some fd) = some (fd, set fds fd (some i))

-- fdalloc of the file `i`; `none` for -1.
unfoldable pub fdalloc : ℕ → List (Option ℕ) → Option (ℕ × List (Option ℕ))
fdalloc i fds = give_fd i fds (first_null fds)

-- `filedup(f); return fd;`
unfoldable pub dup_ret : ℕ → List (Option ℕ) → Option Ftable → Option (Ret × Files)
dup_ret fd fds none = none
dup_ret fd fds (some t) = some (Ret.ret fd, record { ofile = fds; table = t })

unfoldable pub dup_at : Files → (i : ℕ) → Option (ℕ × List (Option ℕ)) → Option (Ret × Files)
dup_at f i none = some (Ret.minus_one, f)
dup_at f i (some (fd, fds)) = dup_ret fd fds (filedup i f.table)

unfoldable pub dup_of : Files → Option (ℕ × ℕ) → Option (Ret × Files)
dup_of f none = some (Ret.minus_one, f)
dup_of f (some (fd, i)) = dup_at f i (fdalloc i f.ofile)

-- sys_dup on its argument; `none` is a panic.
unfoldable pub sys_dup : Option ℕ → Files → Option (Ret × Files)
sys_dup arg f = dup_of f (argfd arg f.ofile)

module _ {S : Type 0} (c : Calls S) where
  unfoldable pub close_ret : List (Option ℕ) → Option (Ftable × S) → Option (Ret × Files × S)
  close_ret fds none = none
  close_ret fds (some (t, s)) = some (Ret.ret 0, record { ofile = fds; table = t }, s)

  unfoldable pub close_of : Files → S → Option (ℕ × ℕ) → Option (Ret × Files × S)
  close_of f s none = some (Ret.minus_one, f, s)
  close_of f s (some (fd, i)) = close_ret (set f.ofile fd none) (fileclose c i f.table s)

  unfoldable pub sys_close : Option ℕ → Files → S → Option (Ret × Files × S)
  sys_close arg f s = close_of f s (argfd arg f.ofile)
