-- ===== src/Fs/Inode/Slots.antt =====
-- The blocks that an inode owns, and the bytes of its content.
use boss_os.Base.{
  ap, arith, false, get_or, if◌then◌else◌, length, ltb, ℕ, ◌%◌, ◌*◌, ◌+◌, ◌-◌, ◌/◌, ◌<◌, ◌==◌, ◌≡◌,
  ◌≢◌, ◌≤◌,
}
use boss_os.Fs.Disk.{Disk, Super, bsize, get32}
use boss_os.Fs.Bitmap.{bits_per_block}
use boss_os.Fs.Bitmap.Alloc.{is_free}
use boss_os.Fs.Bitmap.Balloc.{IsMap}
use boss_os.Fs.Inode.{Inode, maxfile, ndirect}

-- The address of block `bn` of the content, 0 if there is none.
abbrev pub addr_of : Inode → Disk → ℕ → ℕ
addr_of ip d bn =
    if ltb bn ndirect
    then get_or ip.addrs bn 0
    else (if get_or ip.addrs ndirect 0 == 0
        then 0
        else get32 (d.blocks (get_or ip.addrs ndirect 0)) (4 * (bn - ndirect)))

-- The slots of an inode: its content blocks, and last its indirect block.
abbrev pub block_of : Inode → Disk → ℕ → ℕ
block_of ip d s = if s == maxfile then get_or ip.addrs ndirect 0 else addr_of ip d s

-- A byte of a block; a block that is not there reads as zeros.
abbrev pub byte_at : Disk → (a o : ℕ) → ℕ
byte_at d a o = if a == 0 then 0 else d.blocks a o

-- Byte `k` of the content.
abbrev pub file_byte : Inode → Disk → ℕ → ℕ
file_byte ip d k = byte_at d (addr_of ip d (k / bsize)) (k % bsize)

-- The last block of the bitmap.
abbrev pub bitmap_end : Super → ℕ
bitmap_end sb = sb.bmapstart + sb.size / bits_per_block

-- The blocks of the slots are data blocks in use, each of one slot.
pub record Owns (sb : Super) (ip : Inode) (d : Disk) : Type 0 where
  pub is_map : IsMap sb d
  pub thirteen : length ip.addrs ≡ 13
  pub used : (s : ℕ) → s ≤ maxfile → block_of ip d s ≢ 0 → is_free sb d (block_of ip d s) ≡ false
  pub in_range : (s : ℕ) → s ≤ maxfile → block_of ip d s ≢ 0 → block_of ip d s < sb.size
  pub beyond : (s : ℕ) → s ≤ maxfile → block_of ip d s ≢ 0 → bitmap_end sb < block_of ip d s
  pub single :
      (s t : ℕ)
      → s ≤ maxfile
      → t ≤ maxfile
      → block_of ip d s ≢ 0
      → block_of ip d s ≡ block_of ip d t
      → s ≡ t

pub block_of-addr :
    (ip : Inode) (d : Disk) (bn : ℕ) → bn < maxfile → block_of ip d bn ≡ addr_of ip d bn
block_of-addr ip d bn lt =
    let other : (bn == maxfile) ≡ false = ground arith in
    ap (λ t. if t then get_or ip.addrs ndirect 0 else addr_of ip d bn) other
