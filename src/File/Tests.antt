-- ===== src/File/Tests.antt =====
-- A small table of open files, and a write in two chunks.
use boss_os.Base.{
  [], arith, if◌then◌else◌, inl, inr, none, refl, some, suc, true, zero, ℕ, ◌-◌, ◌==◌, ◌∷◌, ◌≡◌,
  ◌⊎◌,
}
use boss_os.File.{Calls, File, FileType, Ftable, filealloc, filewrite, no_file}
use boss_os.File.Counts.{take_new}
use boss_os.File.Refs.{Counts, Held}
use boss_os.File.Write.{WriteEnd, filewrite-WriteEnd}

abbrev two_free : Ftable
two_free = no_file ∷ no_file ∷ []

abbrev all_free : Held
all_free = record { table = two_free; held = [] }

-- A file is opened.
abbrev opened : Held
opened = record { table = (filealloc two_free).1; held = take_new (filealloc two_free).0 [] }

-- The state is the number of blocks left on the disk; a write takes one, and fails on none.
abbrev small_disk : Calls ℕ
small_disk = record {
  begin_op = λ s. s;
  end_op = λ s. s;
  ilock = λ i s. s;
  iunlock = λ i s. s;
  iput = λ i s. s;
  stati = λ i s. s;
  pipeclose = λ p w s. s;
  piperead = λ p a n s. (some 0, s);
  pipewrite = λ p a n s. (none, s);
  readi = λ p a o n s. (some 0, s);
  writei = λ p a o n s. (if s == 0 then none else some n, s - 1);
}

abbrev a_file : File
a_file = record no_file { kind = FileType.fd_inode; ref = 1; writable = true; off = 100 }

small_disk-whole :
    (ip a off m s : ℕ)
    → ((small_disk.writei ip a off m s).0 ≡ none) ⊎ ((small_disk.writei ip a off m s).0 ≡ some m)
small_disk-whole ip a off m zero = inl refl
small_disk-whole ip a off m (suc s) = inr (ground arith)

filewrite-WriteEnd_example :
    WriteEnd small_disk 0 2000 0 a_file 5 (filewrite small_disk 0 2000 a_file 5)
filewrite-WriteEnd_example =
    filewrite-WriteEnd small_disk 0 2000 small_disk-whole a_file 5 refl refl
