-- ===== src/File.antt =====
-- file.c: the table of open files. A pointer to a file is its index in the table; pipes, inodes
-- and the log are an interface of state-passing calls. Each change of the table is made under its
-- lock.
pub mod Counts
pub mod Refs
pub mod Write
mod Tests
use boss_os.Base.{
  Bool, List, Option, [], add32, false, get_or, if◌then◌else◌, ltb, min, none, set, some, suc, zero,
  ℕ, ◌*◌, ◌+◌, ◌-◌, ◌/◌, ◌==◌, ◌∷◌,
}

pub data FileType : Type 0 where
  fd_none fd_pipe fd_inode : FileType

-- `struct file`; `pipe` and `ip` are pointers.
pub record File : Type 0 where
  pub kind : FileType
  pub ref : ℕ
  pub readable : Bool
  pub writable : Bool
  pub pipe : ℕ
  pub ip : ℕ
  pub off : ℕ

abbrev pub nfile : ℕ
nfile = 100

abbrev pub no_file : File
no_file = record {
  kind = FileType.fd_none;
  ref = 0;
  readable = false;
  writable = false;
  pipe = 0;
  ip = 0;
  off = 0;
}

abbrev pub Ftable : Type 0
Ftable = List File

abbrev pub next_one : Option ℕ → Option ℕ
next_one none = none
next_one (some i) = some (i + 1)

-- The first file with `ref == 0`.
unfoldable pub find_free : Ftable → Option ℕ
find_free [] = none
find_free (f ∷ fs) = if f.ref == 0 then some 0 else next_one (find_free fs)

abbrev pub alloc_at : Option ℕ → Ftable → Option ℕ × Ftable
alloc_at none t = (none, t)
alloc_at (some i) t = (some i, set t i (record (get_or t i no_file) { ref = 1 }))

-- `none` for the null pointer.
unfoldable pub filealloc : Ftable → Option ℕ × Ftable
filealloc t = alloc_at (find_free t) t

-- `none` is the panic.
unfoldable pub filedup : ℕ → Ftable → Option Ftable
filedup i t =
    let f = get_or t i no_file in
    if ltb f.ref 1 then none else some (set t i (record f { ref = f.ref + 1 }))

-- The part of fileclose under the lock: the table after it, and the copy of the file when the
-- last reference is gone.
unfoldable pub drop_ref : ℕ → Ftable → Option (Ftable × Option File)
drop_ref i t =
    let f = get_or t i no_file in
    if ltb f.ref 1
    then none
    else (if ltb 0 (f.ref - 1)
        then some (set t i (record f { ref = f.ref - 1 }), none)
        else some (
          set t i (record f { ref = 0; kind = FileType.fd_none }),
          some (record f { ref = f.ref - 1 }),
        ))

-- The calls of other files that file.c makes, on a state of theirs. A number read or written is
-- `some`, and -1 is `none`.
pub record Calls (S : Type 0) : Type 0 where
  pub begin_op : S → S
  pub end_op : S → S
  pub ilock : ℕ → S → S
  pub iunlock : ℕ → S → S
  pub iput : ℕ → S → S
  pub stati : ℕ → S → S
  pub pipeclose : ℕ → Bool → S → S
  pub piperead : (pipe addr n : ℕ) → S → Option ℕ × S
  pub pipewrite : (pipe addr n : ℕ) → S → Option ℕ × S
  pub readi : (ip addr off n : ℕ) → S → Option ℕ × S
  pub writei : (ip addr off n : ℕ) → S → Option ℕ × S

-- A returned number, -1, or a panic.
pub data Ret : Type 0 where
  ret : ℕ → Ret
  minus_one panicked : Ret

abbrev pub to_ret : Option ℕ → Ret
to_ret none = Ret.minus_one
to_ret (some n) = Ret.ret n

-- (MAXOPBLOCKS-1-1-2)/2 blocks.
abbrev pub max_write : ℕ
max_write = (10 - 1 - 1 - 2) / 2 * 512

module _ {S : Type 0} (c : Calls S) where
  -- What fileclose does with the copy, after the lock.
  unfoldable pub release_file : Option File → S → S
  release_file none s = s
  release_file (some f) s = by_kind f.kind
    where
      by_kind : FileType → S
      by_kind FileType.fd_pipe = c.pipeclose f.pipe f.writable s
      by_kind FileType.fd_inode = c.end_op (c.iput f.ip (c.begin_op s))
      by_kind FileType.fd_none = s

  unfoldable pub fileclose : ℕ → Ftable → S → Option (Ftable × S)
  fileclose i t s = closed (drop_ref i t)
    where
      closed : Option (Ftable × Option File) → Option (Ftable × S)
      closed none = none
      closed (some (t', gone)) = some (t', release_file gone s)

  pub filestat : File → S → Ret × S
  filestat f s = by_kind f.kind
    where
      by_kind : FileType → Ret × S
      by_kind FileType.fd_inode = (Ret.ret 0, c.iunlock f.ip (c.stati f.ip (c.ilock f.ip s)))
      by_kind _ = (Ret.minus_one, s)

  -- `if((r = readi(...)) > 0) f->off += r;`
  abbrev pub advance : Option ℕ → File → File
  advance none f = f
  advance (some r) f = record f { off = add32 f.off r }

  pub fileread : (addr n : ℕ) → File → S → Ret × File × S
  fileread addr n f s = if f.readable then by_kind f.kind else (Ret.minus_one, f, s)
    where
      by_kind : FileType → Ret × File × S
      by_kind FileType.fd_pipe = let (r, s') = c.piperead f.pipe addr n s in (to_ret r, f, s')
      by_kind FileType.fd_inode =
          let (r, s') = c.readi f.ip addr f.off n (c.ilock f.ip s) in
          (to_ret r, advance r f, c.iunlock f.ip s')
      by_kind FileType.fd_none = (Ret.panicked, f, s)

  -- One round of the loop of filewrite: writei between its brackets.
  abbrev pub write_chunk : (addr i n1 : ℕ) → File → S → Option ℕ × S
  write_chunk addr i n1 f s =
      let (r, s') = c.writei f.ip (addr + i) f.off n1 (c.ilock f.ip (c.begin_op s)) in
      (r, c.end_op (c.iunlock f.ip s'))

  -- The end of a round with what writei returned; `go` makes the rounds that follow.
  unfoldable pub after_chunk :
      (ℕ → File → S → Ret × File × S) → (i n1 : ℕ) → File → Option ℕ × S → Ret × File × S
  after_chunk go i n1 f (none, s) = (Ret.minus_one, f, s)
  after_chunk go i n1 f (some r, s) =
      let f' = advance (some r) f in
      let more = go (i + r) f' s in if r == n1 then more else (Ret.panicked, f', s)

  -- The loop of filewrite, `i` bytes in, with fuel for its rounds.
  unfoldable pub write_loop : (fuel addr n i : ℕ) → File → S → Ret × File × S
  write_loop zero addr n i f s = (if i == n then Ret.ret n else Ret.minus_one, f, s)
  write_loop (suc k) addr n i f s =
      let n1 = min (n - i) max_write in
      let more = after_chunk (write_loop k addr n) i n1 f (write_chunk addr i n1 f s) in
      if ltb i n then more else (if i == n then Ret.ret n else Ret.minus_one, f, s)

  unfoldable pub filewrite : (addr n : ℕ) → File → S → Ret × File × S
  filewrite addr n f s = if f.writable then by_kind f.kind else (Ret.minus_one, f, s)
    where
      by_kind : FileType → Ret × File × S
      by_kind FileType.fd_pipe = let (r, s') = c.pipewrite f.pipe addr n s in (to_ret r, f, s')
      by_kind FileType.fd_inode = write_loop n addr n 0 f s
      by_kind FileType.fd_none = (Ret.panicked, f, s)
