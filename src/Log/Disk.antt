-- ===== src/Log/Disk.antt =====
-- What log.c sees of bio.c and the driver: a block is read through the buffer cache, and
-- `bwrite` copies it to the disk. Every `bwrite` is one write of the disk, and the machine has
-- `power` writes left before it stops: later writes reach the cache only. A block that log_write
-- pinned (B_DIRTY) is never evicted, so the cache keeps what the file system stored.
use boss_os.Base.{if◌then◌else◌, update, ℕ, ◌-◌, ◌==◌}

-- The words of a block of 512 bytes, by index.
abbrev pub Block : Type 0
Block = ℕ → ℕ

pub record Store : Type 0 where
  pub mem : ℕ → Block
  pub disk : ℕ → Block
  pub power : ℕ

-- `bread(dev, b)->data`
abbrev pub bread : Store → ℕ → Block
bread s b = s.mem b

-- `bp->data` changed, then `bwrite(bp)`.
unfoldable pub bwrite : Store → ℕ → Block → Store
bwrite s b blk = record {
  mem = update s.mem b blk;
  disk = (if s.power == 0 then s.disk else update s.disk b blk);
  power = s.power - 1;
}

-- The machine starts again: the cache is empty, the disk is as it was left.
abbrev pub reboot : ℕ → (ℕ → Block) → Store
reboot power disk = record { mem = disk; disk = disk; power = power }
