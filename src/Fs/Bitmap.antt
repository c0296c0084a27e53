-- ===== src/Fs/Bitmap.antt =====
-- fs.c: the bitmap of free blocks, balloc and bfree. Bit b % 8 of byte b / 8 of the bitmap stands
-- for block b.
pub mod Bits
pub mod Alloc
pub mod Balloc
pub mod Tests
use boss_os.Base.{
  Bool, Option, bit_and, bit_or, if◌then◌else◌, ltb, none, some, suc, update, zero, ℕ, ◌%◌, ◌+◌,
  ◌-◌, ◌/◌, ◌==◌, ◌^◌,
}
use boss_os.Fs.Disk.{Block, Disk, Super, put_block}

-- BPB
abbrev pub bits_per_block : ℕ
bits_per_block = 4096

-- BBLOCK(b, sb)
abbrev pub bitmap_block : Super → ℕ → ℕ
bitmap_block sb b = b / bits_per_block + sb.bmapstart

pub bzero : ℕ → Disk → Disk
bzero b d = put_block b (λ i. 0) d

-- `(data[bi/8] & m) == 0` with `m = 1 << (bi % 8)`.
unfoldable pub is_clear : Block → ℕ → Bool
is_clear f bi = bit_and (f (bi / 8)) (2 ^ (bi % 8)) == 0

-- `data[bi/8] |= m`
unfoldable pub set_bit : Block → ℕ → Block
set_bit f bi = update f (bi / 8) (bit_or (f (bi / 8)) (2 ^ (bi % 8)))

-- `data[bi/8] &= ~m`
unfoldable pub clear_bit : Block → ℕ → Block
clear_bit f bi = update f (bi / 8) (bit_and (f (bi / 8)) (255 - 2 ^ (bi % 8)))

-- The inner loop of balloc from bit `bi` on, `n` bits before the end of the block; `b` is the
-- first block that the bitmap block stands for.
unfoldable pub scan_bits : (n bi b size : ℕ) → Block → Option ℕ
scan_bits zero bi b size f = none
scan_bits (suc n) bi b size f =
    let more = scan_bits n (bi + 1) b size f in
    if ltb (b + bi) size then (if is_clear f bi then some bi else more) else none

-- The outer loop, with fuel for the bitmap blocks: the first block of the bitmap block, and the
-- bit in it.
abbrev pub or_next : ℕ → Option (ℕ × ℕ) → Option ℕ → Option (ℕ × ℕ)
or_next b more none = more
or_next b more (some bi) = some (b, bi)

unfoldable pub scan_blocks : (fuel b : ℕ) → Super → Disk → Option (ℕ × ℕ)
scan_blocks zero b sb d = none
scan_blocks (suc k) b sb d =
    let more =
      or_next b (scan_blocks k (b + bits_per_block) sb d)
        (scan_bits bits_per_block 0 b sb.size (d.blocks (bitmap_block sb b))) in
    if ltb b sb.size then more else none

-- The bit is set and the block zeroed.
abbrev pub mark_on : Super → Disk → Option (ℕ × ℕ) → Option (ℕ × Disk)
mark_on sb d none = none
mark_on sb d (some (b, bi)) =
    let m = bitmap_block sb b in
    some (b + bi, bzero (b + bi) (put_block m (set_bit (d.blocks m) bi) d))

-- `none` is the panic.
unfoldable pub balloc : Super → Disk → Option (ℕ × Disk)
balloc sb d = mark_on sb d (scan_blocks sb.size 0 sb d)

unfoldable pub bfree : Super → ℕ → Disk → Option Disk
bfree sb b d =
    let m = bitmap_block sb b in
    let bi = b % bits_per_block in
    if is_clear (d.blocks m) bi then none else some (put_block m (clear_bit (d.blocks m) bi) d)
