-- ===== src/File/Refs.antt =====
-- The reference counts of the table count the references that are held.
use boss_os.Base.{List, Option, get_or, length, set, some, ℕ, ◌-◌, ◌<◌, ◌∷◌, ◌≡◌}
use boss_os.File.{Calls, File, FileType, Ftable, drop_ref, filealloc, fileclose, filedup, no_file}
use boss_os.File.Counts.{count, drop_one, ref_of, take_new}

-- The table with the references that processes hold.
pub record Held : Type 0 where
  pub table : Ftable
  pub held : List ℕ

-- A call of filealloc; of filedup or of fileclose by the holder of a reference; or a change of a
-- file that leaves its count.
pub data Step (s : Held) : Held → Type 0 where
  alloc :
      Step s
        (record { table = (filealloc s.table).1; held = take_new (filealloc s.table).0 s.held })
  dup :
      {t : Ftable} (i : ℕ)
      → 0 < count i s.held
      → filedup i s.table ≡ some t
      → Step s (record { table = t; held = i ∷ s.held })
  close :
      {t : Ftable} {released : Option File} (i : ℕ)
      → 0 < count i s.held
      → drop_ref i s.table ≡ some (t, released)
      → Step s (record { table = t; held = drop_one i s.held })
  change :
      (i : ℕ) (f : File)
      → i < length s.table
      → f.ref ≡ (get_or s.table i no_file).ref
      → Step s (record { table = set s.table i f; held = s.held })

pub data Reach (s : Held) : Held → Type 0 where
  start : Reach s s
  next : {t u : Held} → Reach s t → Step t u → Reach s u

abbrev pub Counts : Held → Type 0
Counts s = (i : ℕ) → ref_of s.table i ≡ count i s.held

-- What fileclose of file `i` does, by the references that are held, and the kind of the file.
pub record CloseSpec {S : Type 0} (c : Calls S) (t : Held) (i : ℕ) (x : S) : Type 0 where
  pub file : File
  pub is : get_or t.table i no_file ≡ file
  pub shared :
      1 < count i t.held
      → fileclose c i t.table x ≡ some (set t.table i (record file { ref = file.ref - 1 }), x)
  pub last_pipe :
      count i t.held ≡ 1
      → file.kind ≡ FileType.fd_pipe
      → fileclose c i t.table x
        ≡ some (
          set t.table i (record file { ref = 0; kind = FileType.fd_none }),
          c.pipeclose file.pipe file.writable x,
        )
  pub last_inode :
      count i t.held ≡ 1
      → file.kind ≡ FileType.fd_inode
      → fileclose c i t.table x
        ≡ some (
          set t.table i (record file { ref = 0; kind = FileType.fd_none }),
          c.end_op (c.iput file.ip (c.begin_op x)),
        )
