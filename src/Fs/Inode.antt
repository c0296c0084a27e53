-- ===== src/Fs/Inode.antt =====
-- fs.c: an inode in memory and the blocks of its content. A panic is `none`.
pub mod Slots
pub mod Grow
pub mod Kept
pub mod Entry
pub mod Bmap
pub mod Read
pub mod Put
pub mod Meta
pub mod Write
pub mod WriteLoop
pub mod Tests
use boss_os.Base.{
  Bool, List, Option, [], drop, get_or, if◌then◌else◌, leb, length, ltb, min, none, set, some, suc,
  zero, ℕ, ◌%◌, ◌&&◌, ◌*◌, ◌++◌, ◌+◌, ◌-◌, ◌/◌, ◌==◌, ◌∷◌,
}
use boss_os.Sleeplock.{Sleeplock}
use boss_os.Fs.Disk.{Block, Disk, Super, bsize, get32, put_block, set32}
use boss_os.Fs.Bitmap.{balloc}

abbrev pub ndirect : ℕ
ndirect = 12

abbrev pub nindirect : ℕ
nindirect = 128

abbrev pub maxfile : ℕ
maxfile = 140

-- `struct inode`; `addrs` has NDIRECT + 1 entries. A short is a number below 2 ^ 16.
pub record Inode : Type 0 where
  pub dev : ℕ
  pub inum : ℕ
  pub ref : ℕ
  pub lock : Sleeplock
  pub valid : Bool
  pub type : ℕ
  pub major : ℕ
  pub minor : ℕ
  pub nlink : ℕ
  pub size : ℕ
  pub addrs : List ℕ

-- `ip->addrs[n] = addr = balloc(ip->dev)`
unfoldable pub store_addr : Inode → ℕ → Option (ℕ × Disk) → Option (ℕ × Inode × Disk)
store_addr ip n none = none
store_addr ip n (some (a, d)) = some (a, record ip { addrs = set ip.addrs n a }, d)

-- `if((addr = ip->addrs[n]) == 0) ip->addrs[n] = addr = balloc(ip->dev);`
unfoldable pub load_addr : Super → Inode → ℕ → Disk → Option (ℕ × Inode × Disk)
load_addr sb ip n d =
    let a = get_or ip.addrs n 0 in if a == 0 then store_addr ip n (balloc sb d) else some (a, ip, d)

-- `a[bn] = addr = balloc(ip->dev); log_write(bp);`
unfoldable pub store_entry : (table n : ℕ) → Inode → Option (ℕ × Disk) → Option (ℕ × Inode × Disk)
store_entry table n ip none = none
store_entry table n ip (some (a, d)) =
    some (a, ip, put_block table (set32 (d.blocks table) (4 * n) a) d)

-- The entry of the indirect block.
unfoldable pub load_entry : Super → ℕ → Option (ℕ × Inode × Disk) → Option (ℕ × Inode × Disk)
load_entry sb n none = none
load_entry sb n (some (table, ip, d)) =
    let a = get32 (d.blocks table) (4 * n) in
    if a == 0 then store_entry table n ip (balloc sb d) else some (a, ip, d)

unfoldable pub bmap : Super → Inode → (bn : ℕ) → Disk → Option (ℕ × Inode × Disk)
bmap sb ip bn d =
    if ltb bn ndirect
    then load_addr sb ip bn d
    else (if ltb (bn - ndirect) nindirect
        then load_entry sb (bn - ndirect) (load_addr sb ip ndirect d)
        else none)

-- The bytes `o ..` of a block, `m` of them.
unfoldable pub slice : Block → (o m : ℕ) → List ℕ
slice f o zero = []
slice f o (suc m) = f o ∷ slice f (o + 1) m

-- memmove(bp->data + o, src, m)
abbrev pub paste : Block → (o m : ℕ) → (src : List ℕ) → Block
paste f o m src i = if leb o i && ltb i (o + m) then get_or src (i - o) 0 else f i

-- The bytes that one round copies.
abbrev pub chunk : (off left : ℕ) → ℕ
chunk off left = min left (bsize - off % bsize)

abbrev pub add_bytes : List ℕ → Option (List ℕ × Inode × Disk) → Option (List ℕ × Inode × Disk)
add_bytes bs none = none
add_bytes bs (some (cs, ip, d)) = some (bs ++ cs, ip, d)

-- One round of the loop of readi on what bmap returned; `go` makes the rounds that follow.
unfoldable pub read_round :
    (ℕ → ℕ → Inode → Disk → Option (List ℕ × Inode × Disk))
    → (off left : ℕ) → Option (ℕ × Inode × Disk)
    → Option (List ℕ × Inode × Disk)
read_round go off left none = none
read_round go off left (some (a, ip, d)) =
    add_bytes (slice (d.blocks a) (off % bsize) (chunk off left))
      (go (off + chunk off left) (left - chunk off left) ip d)

-- The loop of readi with `left` bytes to go, and fuel for its rounds.
unfoldable pub read_from :
    (fuel : ℕ) → Super → (off left : ℕ) → Inode → Disk → Option (List ℕ × Inode × Disk)
read_from zero sb off left ip d = some ([], ip, d)
read_from (suc k) sb off left ip d =
    let more = read_round (read_from k sb) off left (bmap sb ip (off / bsize) d) in
    if left == 0 then some ([], ip, d) else more

unfoldable pub write_round :
    (ℕ → List ℕ → Inode → Disk → Option (Inode × Disk))
    → (off : ℕ) → (src : List ℕ) → Option (ℕ × Inode × Disk)
    → Option (Inode × Disk)
write_round go off src none = none
write_round go off src (some (a, ip, d)) =
    let m = chunk off (length src) in
    go (off + m) (drop m src) ip (put_block a (paste (d.blocks a) (off % bsize) m src) d)

-- The loop of writei with the bytes `src` to go, and fuel for its rounds.
unfoldable pub write_from :
    (fuel : ℕ) → Super → (off : ℕ) → (src : List ℕ) → Inode → Disk → Option (Inode × Disk)
write_from zero sb off src ip d = some (ip, d)
write_from (suc k) sb off src ip d =
    let more = write_round (write_from k sb) off src (bmap sb ip (off / bsize) d) in
    if length src == 0 then some (ip, d) else more
