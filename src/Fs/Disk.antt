-- ===== src/Fs/Disk.antt =====
-- fs.h, and what fs.c sees of bio.c and log.c: the bytes of each block as the buffer cache has
-- them, and the blocks given to log_write so far, the last one first.
pub mod Words
use boss_os.Base.{List, if◌then◌else◌, update, ℕ, ◌%◌, ◌*◌, ◌+◌, ◌/◌, ◌==◌, ◌∷◌}

abbrev pub bsize : ℕ
bsize = 512

-- `struct superblock`.
pub record Super : Type 0 where
  pub size : ℕ
  pub nblocks : ℕ
  pub ninodes : ℕ
  pub nlog : ℕ
  pub logstart : ℕ
  pub inodestart : ℕ
  pub bmapstart : ℕ

-- The bytes of one block.
abbrev pub Block : Type 0
Block = ℕ → ℕ

pub record Disk : Type 0 where
  pub blocks : ℕ → Block
  pub logged : List ℕ

-- bread, a change of the data, log_write, brelse.
abbrev pub put_block : ℕ → Block → Disk → Disk
put_block b f d = record { blocks = update d.blocks b f; logged = b ∷ d.logged }

-- The little-endian words of a block, at a byte offset.
abbrev pub get16 : Block → ℕ → ℕ
get16 f o = f o + 256 * f (o + 1)

abbrev pub get32 : Block → ℕ → ℕ
get32 f o = f o + 256 * (f (o + 1) + 256 * (f (o + 2) + 256 * f (o + 3)))

unfoldable pub set16 : Block → ℕ → ℕ → Block
set16 f o v i = if i == o then v % 256 else (if i == o + 1 then v / 256 % 256 else f i)

unfoldable pub set32 : Block → ℕ → ℕ → Block
set32 f o v i =
    if i == o
    then v % 256
    else (if i == o + 1
        then v / 0x100 % 256
        else (if i == o + 2
            then v / 0x1_0000 % 256
            else (if i == o + 3 then v / 0x100_0000 % 256 else f i)))
