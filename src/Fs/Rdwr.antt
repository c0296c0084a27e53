-- ===== src/Fs/Rdwr.antt =====
-- fs.c: readi, writei and stati. A device is a function of the table `devsw`.
pub mod Reading
pub mod Written
pub mod Writing
pub mod ReadBack
mod Tests
use boss_os.Base.{
  Bool, List, Option, add32, if◌then◌else◌, leb, length, ltb, none, some, ℕ, ◌&&◌, ◌*◌, ◌-◌, ◌==◌,
  ◌^◌, ◌||◌,
}
use boss_os.Fs.Disk.{Disk, Super, bsize}
use boss_os.Fs.Inode.{Inode, maxfile, read_from, write_from}
use boss_os.Fs.Dinode.{iupdate}

abbrev pub t_dev : ℕ
t_dev = 3

abbrev pub ndev : ℕ
ndev = 10

-- devsw[major].read or .write, `none` for the null pointer.
abbrev pub Devsw : Type 0 → Type 0
Devsw A = ℕ → Option (Inode → A)

-- `ip->major < 0 || ip->major >= NDEV`
abbrev pub no_major : ℕ → Bool
no_major major = leb (2 ^ 15) major || leb ndev major

pub data ReadiResult (A : Type 0) : Type 0 where
  failed : ReadiResult A
  device : A → ReadiResult A
  got : List ℕ → Inode → Disk → ReadiResult A

unfoldable pub read_device : {A : Type 0} → Option (Inode → A) → Inode → ReadiResult A
read_device none ip = failed
read_device (some f) ip = device (f ip)

abbrev pub got_all : {A : Type 0} → Option (List ℕ × Inode × Disk) → Option (ReadiResult A)
got_all none = none
got_all (some (bs, ip, d)) = some (got bs ip d)

-- The number that readi returns is the length of the bytes; `none` is a panic.
unfoldable pub readi :
    {A : Type 0} → Devsw A → Super → Inode → (off n : ℕ) → Disk → Option (ReadiResult A)
readi devsw sb ip off n d =
    let n' = if ltb ip.size (add32 off n) then ip.size - off else n in
    if ip.type == t_dev
    then some (if no_major ip.major then failed else read_device (devsw ip.major) ip)
    else (if ltb ip.size off || ltb (add32 off n) off
        then some failed
        else got_all (read_from n' sb off n' ip d))

pub data WriteiResult (A : Type 0) : Type 0 where
  refused : WriteiResult A
  device : A → WriteiResult A
  put : (n : ℕ) → Inode → Disk → WriteiResult A

unfoldable pub write_device : {A : Type 0} → Option (Inode → A) → Inode → WriteiResult A
write_device none ip = refused
write_device (some f) ip = device (f ip)

-- After the loop: `if(n > 0 && off > ip->size)`.
unfoldable pub grow_size :
    {A : Type 0} → Super → (off n : ℕ) → Option (Inode × Disk) → Option (WriteiResult A)
grow_size sb off n none = none
grow_size sb off n (some (ip, d)) =
    let big = record ip { size = off } in
    if ltb 0 n && ltb ip.size off then some (put n big (iupdate sb big d)) else some (put n ip d)

unfoldable pub writei :
    {A : Type 0}
    → Devsw A
    → Super
    → Inode
    → (src : List ℕ) → (off : ℕ) → Disk
    → Option (WriteiResult A)
writei devsw sb ip src off d =
    let n = length src in
    if ip.type == t_dev
    then some (if no_major ip.major then refused else write_device (devsw ip.major) ip)
    else (if ltb ip.size off || ltb (add32 off n) off
        then some refused
        else (if ltb (maxfile * bsize) (add32 off n)
            then some refused
            else grow_size sb (add32 off n) n (write_from n sb off src ip d)))

-- `struct stat`
pub record Stat : Type 0 where
  pub type : ℕ
  pub dev : ℕ
  pub ino : ℕ
  pub nlink : ℕ
  pub size : ℕ

abbrev pub stati : Inode → Stat
stati ip = record { dev = ip.dev; ino = ip.inum; type = ip.type; nlink = ip.nlink; size = ip.size }
