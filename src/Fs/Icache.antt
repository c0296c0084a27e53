-- ===== src/Fs/Icache.antt =====
-- fs.c: the inode cache. A pointer to an inode is its index in the table.
pub mod Ialloc
pub mod Iget
pub mod Iput
mod Tests
use boss_os.Base.{
  Bool, List, Option, [], false, get_or, if◌then◌else◌, leb, ltb, none, replicate, set, some, suc,
  zero, ℕ, ◌&&◌, ◌+◌, ◌-◌, ◌==◌, ◌∷◌,
}
use boss_os.Sleeplock.{Sleeplock, acquiresleep, initsleeplock, releasesleep}
use boss_os.Fs.Disk.{Block, Disk, Super, get16, put_block, set16}
use boss_os.Fs.Inode.{Inode}
use boss_os.Fs.Dinode.{dinode_at, iblock, iunlock, iupdate}
use boss_os.Fs.Trunc.{itrunc}

abbrev pub ninode : ℕ
ninode = 50

abbrev pub Icache : Type 0
Icache = List Inode

abbrev pub no_inode : Inode
no_inode = record {
  dev = 0;
  inum = 0;
  ref = 0;
  lock = initsleeplock;
  valid = false;
  type = 0;
  major = 0;
  minor = 0;
  nlink = 0;
  size = 0;
  addrs = replicate 13 0;
}

-- What the loop of iinit does to the table; `icache` is zeroed memory.
abbrev pub iinit : Icache
iinit = replicate ninode no_inode

-- `dip->type == 0`
abbrev pub is_free_inode : Super → ℕ → Disk → Bool
is_free_inode sb inum d = get16 (d.blocks (iblock sb inum)) (dinode_at inum) == 0

-- `memset(dip, 0, sizeof(*dip)); dip->type = type;`
abbrev pub clear_dinode : (o : ℕ) → Block → Block
clear_dinode o f i = if leb o i && ltb i (o + 64) then 0 else f i

unfoldable pub mark_inode : Super → (inum type : ℕ) → Disk → Disk
mark_inode sb inum type d =
    let b = iblock sb inum in
    put_block b (set16 (clear_dinode (dinode_at inum) (d.blocks b)) (dinode_at inum) type) d

-- The loop of ialloc from `inum` on, `n` inodes; `none` is the panic.
unfoldable pub ialloc_from : Super → (type n inum : ℕ) → Disk → Option (ℕ × Disk)
ialloc_from sb type zero inum d = none
ialloc_from sb type (suc n) inum d =
    let more = ialloc_from sb type n (inum + 1) d in
    if is_free_inode sb inum d then some (inum, mark_inode sb inum type d) else more

-- How the loop of iget ends: at the inode, or with the empty slot that it remembers.
pub data Search : Type 0 where
  cached : ℕ → Search
  missing : Option ℕ → Search

abbrev pub is_inode : (dev inum : ℕ) → Inode → Bool
is_inode dev inum ip = ltb 0 ip.ref && (ip.dev == dev) && (ip.inum == inum)

-- `if(empty == 0 && ip->ref == 0) empty = ip;`
unfoldable pub remember : ℕ → Inode → Option ℕ → Option ℕ
remember i ip (some e) = some e
remember i ip none = if ip.ref == 0 then some i else none

-- The loop of iget from index `i` on.
unfoldable pub search_from : (dev inum i : ℕ) → Option ℕ → Icache → Search
search_from dev inum i empty [] = missing empty
search_from dev inum i empty (ip ∷ ips) =
    let more = search_from dev inum (i + 1) (remember i ip empty) ips in
    if is_inode dev inum ip then cached i else more

unfoldable pub iget_at : (dev inum : ℕ) → Icache → Search → Option (ℕ × Icache)
iget_at dev inum t (missing none) = none
iget_at dev inum t (missing (some e)) =
    some
      (e, set t e (record (get_or t e no_inode) { dev = dev; inum = inum; ref = 1; valid = false }))
iget_at dev inum t (cached i) =
    let ip = get_or t i no_inode in some (i, set t i (record ip { ref = ip.ref + 1 }))

-- `none` is the panic.
unfoldable pub iget : (dev inum : ℕ) → Icache → Option (ℕ × Icache)
iget dev inum t = iget_at dev inum t (search_from dev inum 0 none t)

abbrev pub with_disk : Disk → Option (ℕ × Icache) → Option (ℕ × Icache × Disk)
with_disk d none = none
with_disk d (some (i, t)) = some (i, t, d)

-- `return iget(dev, inum);`
unfoldable pub get_new : (dev : ℕ) → Icache → Option (ℕ × Disk) → Option (ℕ × Icache × Disk)
get_new dev t none = none
get_new dev t (some (inum, d)) = with_disk d (iget dev inum t)

unfoldable pub ialloc : Super → (dev type : ℕ) → Icache → Disk → Option (ℕ × Icache × Disk)
ialloc sb dev type t d = get_new dev t (ialloc_from sb type (sb.ninodes - 1) 1 d)

abbrev pub idup : ℕ → Icache → Icache
idup i t = let ip = get_or t i no_inode in set t i (record ip { ref = ip.ref + 1 })

-- `ip->type = 0; iupdate(ip); ip->valid = 0;`
unfoldable pub free_inode : Super → Option (Inode × Disk) → Option (Inode × Disk)
free_inode sb none = none
free_inode sb (some (ip, d)) =
    let ip' = record ip { type = 0 } in some (record ip' { valid = false }, iupdate sb ip' d)

-- `releasesleep(&ip->lock);`, and `ip->ref--;`
unfoldable pub put_back : Option (Inode × Disk) → Option (Inode × Disk)
put_back none = none
put_back (some (ip, d)) = some (record ip { lock = releasesleep ip.lock; ref = ip.ref - 1 }, d)

-- iput after acquiresleep.
unfoldable pub iput_locked : Super → Inode → Disk → Option (Inode × Disk)
iput_locked sb ip d = put_back (
    if ip.valid && (ip.nlink == 0) && (ip.ref == 1)
    then free_inode sb (itrunc sb ip d)
    else some (ip, d))

unfoldable pub iput_from : Super → Inode → Disk → Option Sleeplock → Option (Option (Inode × Disk))
iput_from sb ip d none = some none
iput_from sb ip d (some lk) = awake_put (iput_locked sb (record ip { lock = lk }) d)
  where
    awake_put : Option (Inode × Disk) → Option (Option (Inode × Disk))
    awake_put none = none
    awake_put (some r) = some (some r)

-- iput by the process `me`: `none` is a panic, `some none` a process that sleeps.
unfoldable pub iput : Super → (me : ℕ) → Inode → Disk → Option (Option (Inode × Disk))
iput sb me ip d = iput_from sb ip d (acquiresleep me ip.lock)

unfoldable pub iput_after : Super → (me : ℕ) → Option Inode → Disk → Option (Option (Inode × Disk))
iput_after sb me none d = none
iput_after sb me (some ip) d = iput sb me ip d

unfoldable pub iunlockput : Super → (me : ℕ) → Inode → Disk → Option (Option (Inode × Disk))
iunlockput sb me ip d = iput_after sb me (iunlock me ip) d
