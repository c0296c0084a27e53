-- ===== src/Fs/Icache/Ialloc.antt =====
-- ialloc takes the first free dinode.
use boss_os.Base.{Option, false, none, some, true, ℕ, ◌+◌, ◌<◌, ◌^◌, ◌≡◌, ◌≢◌, ◌≤◌}
use boss_os.Fs.Disk.{Block, Disk, Super, get16}
use boss_os.Fs.Inode.{Inode}
use boss_os.Fs.Dinode.{dinode_at, get_dinode, iblock}
use boss_os.Fs.Icache.{clear_dinode, is_free_inode}

-- The dinode `k` was free and now has the type; the rest of it is 0, and no other dinode changed.
pub record Allocated (sb : Super) (type : ℕ) (d : Disk) (k : ℕ) (d' : Disk) : Type 0 where
  pub was_free : is_free_inode sb k d ≡ true
  pub typed : get16 (d'.blocks (iblock sb k)) (dinode_at k) ≡ type
  pub zeroed : (i : ℕ) → 2 ≤ i → i < 64 → d'.blocks (iblock sb k) (dinode_at k + i) ≡ 0
  pub others :
      (j : ℕ) (jp : Inode)
      → j ≢ k
      → get_dinode (d'.blocks (iblock sb j)) (dinode_at j) jp
        ≡ get_dinode (d.blocks (iblock sb j)) (dinode_at j) jp
  pub kept : (b : ℕ) → b ≢ iblock sb k → d'.blocks b ≡ d.blocks b

pub data IallocEnd (sb : Super) (type inum n : ℕ) (d : Disk) : Option (ℕ × Disk) → Type 0 where
  no_inodes :
      ((j : ℕ) → inum ≤ j → j < inum + n → is_free_inode sb j d ≡ false)
      → IallocEnd sb type inum n d none
  allocated :
      {k : ℕ} {d' : Disk}
      → inum ≤ k
      → k < inum + n
      → ((j : ℕ) → inum ≤ j → j < k → is_free_inode sb j d ≡ false)
      → Allocated sb type d k d'
      → IallocEnd sb type inum n d (some (k, d'))

module _ (sb : Super) (type : ℕ) (d : Disk) (k : ℕ) (small : type < 2 ^ 16) where
  abbrev cleared : Block
  cleared = clear_dinode (dinode_at k) (d.blocks (iblock sb k))
