-- ===== src/Fs/Dinode.antt =====
-- fs.h and fs.c: `struct dinode`, 64 bytes in a block of inodes, and its copies to and from memory.
pub mod Fields
use boss_os.Base.{
  List, Option, [], if◌then◌else◌, ltb, none, not, some, suc, true, zero, ℕ, ◌%◌, ◌*◌, ◌+◌, ◌/◌,
  ◌==◌, ◌||◌, ◌∷◌,
}
use boss_os.Sleeplock.{Sleeplock, acquiresleep, holdingsleep, releasesleep}
use boss_os.Fs.Disk.{Block, Disk, Super, get16, get32, put_block, set16, set32}
use boss_os.Fs.Inode.{Inode}

-- IPB
abbrev pub ipb : ℕ
ipb = 8

-- IBLOCK(i, sb)
abbrev pub iblock : Super → ℕ → ℕ
iblock sb i = i / ipb + sb.inodestart

-- The offset of the dinode in its block.
abbrev pub dinode_at : ℕ → ℕ
dinode_at i = 64 * (i % ipb)

-- memmove of an array of words into a block.
unfoldable pub set_words : List ℕ → (o : ℕ) → Block → Block
set_words [] o f = f
set_words (v ∷ vs) o f = set_words vs (o + 4) (set32 f o v)

-- memmove of `n` words out of a block.
unfoldable pub get_words : (n o : ℕ) → Block → List ℕ
get_words zero o f = []
get_words (suc n) o f = get32 f o ∷ get_words n (o + 4) f

-- The assignments of iupdate.
unfoldable pub set_dinode : Inode → (o : ℕ) → Block → Block
set_dinode ip o f = set_words ip.addrs (o + 12) (
    set32
      (set16 (set16 (set16 (set16 f o ip.type) (o + 2) ip.major) (o + 4) ip.minor) (o + 6) ip.nlink)
      (o + 8) ip.size)

unfoldable pub iupdate : Super → Inode → Disk → Disk
iupdate sb ip d =
    put_block (iblock sb ip.inum) (set_dinode ip (dinode_at ip.inum) (d.blocks (iblock sb ip.inum)))
      d

-- The assignments of ilock.
unfoldable pub get_dinode : Block → (o : ℕ) → Inode → Inode
get_dinode f o ip = record ip {
  type = get16 f o;
  major = get16 f (o + 2);
  minor = get16 f (o + 4);
  nlink = get16 f (o + 6);
  size = get32 f (o + 8);
  addrs = get_words 13 (o + 12) f;
}

-- What ilock does under the sleep lock, where `valid` is 0: `none` is the panic on a free dinode.
unfoldable pub read_inode : Super → Inode → Disk → Option Inode
read_inode sb ip d =
    let read = get_dinode (d.blocks (iblock sb ip.inum)) (dinode_at ip.inum) ip in
    if read.type == 0 then none else some (record read { valid = true })

abbrev pub awake : Option Inode → Option (Option Inode)
awake none = none
awake (some ip) = some (some ip)

-- `none` is the panic.
unfoldable pub fill : Super → Inode → Disk → Option Inode
fill sb ip d = if ip.valid then some ip else read_inode sb ip d

-- ilock after acquiresleep: `some none` for a process that sleeps.
unfoldable pub ilock_from : Super → Inode → Disk → Option Sleeplock → Option (Option Inode)
ilock_from sb ip d none = some none
ilock_from sb ip d (some lk) = awake (fill sb (record ip { lock = lk }) d)

-- ilock by the process `me`; `none` is a panic.
unfoldable pub ilock : Super → (me : ℕ) → Inode → Disk → Option (Option Inode)
ilock sb me ip d = if ltb ip.ref 1 then none else ilock_from sb ip d (acquiresleep me ip.lock)

unfoldable pub iunlock : (me : ℕ) → Inode → Option Inode
iunlock me ip =
    if not (holdingsleep me ip.lock) || ltb ip.ref 1
    then none
    else some (record ip { lock = releasesleep ip.lock })
