-- ===== src/Fs/Icache/Iput.antt =====
-- iput of the last reference to an inode without links.
use boss_os.Base.{
  Bool-cases, Option, ap, arith, dec_lt, false, get_or_beyond, inl, inr, none, refl, some, subst,
  true, update_ne, update_self, ℕ, ◌%◌, ◌&&◌, ◌-◌, ◌<◌, ◌==◌, ◌∙◌, ◌≡◌, ◌≢◌, ◌≤◌,
}
use boss_os.Fs.Disk.{Disk, Super, get16}
use boss_os.Fs.Bitmap.{bitmap_block, bits_per_block, is_clear}
use boss_os.Fs.Bitmap.Alloc.{is_free}
use boss_os.Fs.Inode.{Inode, maxfile}
use boss_os.Fs.Inode.Slots.{Owns, bitmap_end, block_of}
use boss_os.Fs.Dinode.{dinode_at, iblock, iupdate, set_dinode}
use boss_os.Fs.Dinode.Fields.{Fits, get-type}
use boss_os.Fs.Trunc.{itrunc}
use boss_os.Fs.Trunc.Emptied.{Emptied, TruncEnd, emptied, itrunc-TruncEnd}
use boss_os.Fs.Icache.{free_inode, iput_locked, is_free_inode, put_back}
use boss_os.Sleeplock.{releasesleep}

-- The inode was freed: on the disk, with its blocks, and in the cache.
pub record Gone (sb : Super) (ip : Inode) (d : Disk) (ip' : Inode) (d' : Disk) : Type 0 where
  pub ref : ip'.ref ≡ 0
  pub invalid : ip'.valid ≡ false
  pub on_disk : is_free_inode sb ip.inum d' ≡ true
  pub now_free :
      (s : ℕ) → s ≤ maxfile → block_of ip d s ≢ 0 → is_free sb d' (block_of ip d s) ≡ true
  pub others :
      (y : ℕ)
      → ((s : ℕ) → s ≤ maxfile → block_of ip d s ≢ 0 → block_of ip d s ≢ y)
      → is_free sb d' y ≡ is_free sb d y
  pub kept : (b : ℕ) → bitmap_end sb < b → d'.blocks b ≡ d.blocks b

pub data IputEnd (sb : Super) (ip : Inode) (d : Disk) : Option (Inode × Disk) → Type 0 where
  gone :
      {ip' : Inode} {d' : Disk}
      → ip.valid ≡ true
      → ip.nlink ≡ 0
      → ip.ref ≡ 1
      → Gone sb ip d ip' d'
      → IputEnd sb ip d (some (ip', d'))
  still :
      (ip.valid ≡ true → ip.nlink ≡ 0 → ip.ref ≡ 1 → ⊥)
      → IputEnd sb ip d (some (record ip { lock = releasesleep ip.lock; ref = ip.ref - 1 }, d))

-- The fields of the emptied inode fit in its dinode.
Emptied-Fits :
    {sb : Super} {ip : Inode} {d : Disk} {ip' : Inode} {d' : Disk}
    → Fits ip
    → Emptied sb ip d ip' d'
    → Fits (record ip' { type = 0 })
Emptied-Fits {ip' = ip'} h e = record {
  type = omega arith;
  major = omega (arith, h.major, ap Inode.major e.same);
  minor = omega (arith, h.minor, ap Inode.minor e.same);
  nlink = omega (arith, h.nlink, ap Inode.nlink e.same);
  size = omega (arith, ap Inode.size e.same);
  addrs = λ i. elim (dec_lt i 13) [
    | yes low ↦ omega (arith, e.no_addrs i (omega arith))
    | no high ↦ omega (arith, get_or_beyond ip'.addrs i 0 (omega (arith, e.thirteen)))
  ];
  thirteen = e.thirteen;
}

module _ (sb : Super) (ip : Inode) (d : Disk) (low : iblock sb ip.inum < sb.bmapstart) where
  is_free-iupdate : (y : ℕ) → is_free sb (iupdate sb ip d) y ≡ is_free sb d y
  unfolding iupdate
  is_free-iupdate y =
      ap (λ g. is_clear g (y % bits_per_block))
        (update_ne d.blocks (iblock sb ip.inum) (bitmap_block sb y) _ (λ q. absurd (omega arith)))

  iupdate_far : (b : ℕ) → bitmap_end sb < b → (iupdate sb ip d).blocks b ≡ d.blocks b
  unfolding iupdate
  iupdate_far b far = update_ne d.blocks (iblock sb ip.inum) b _ (λ q. absurd (omega arith))

  is_free_inode-iupdate : Fits ip → ip.type ≡ 0 → is_free_inode sb ip.inum (iupdate sb ip d) ≡ true
  unfolding iupdate
  is_free_inode-iupdate h z =
      ap (λ f. get16 f (dinode_at ip.inum) == 0)
        (update_self d.blocks (iblock sb ip.inum)
          (set_dinode ip (dinode_at ip.inum) (d.blocks (iblock sb ip.inum))))
      ∙ ap (λ t. t == 0) (get-type ip (dinode_at ip.inum) (d.blocks (iblock sb ip.inum)) h ∙ z)

-- iput, after acquiresleep, of an inode that owns its blocks, whose fields fit in a dinode, and that
-- has its dinode in front of the bitmap. It does not panic. The last reference to a valid inode without
-- links frees it: its dinode on the disk becomes free, the blocks of its slots become free and no
-- others, no data block is written, and the slot of the cache has no reference and no valid inode.
-- Else only the reference goes, and the disk is as it was.
pub iput_locked-IputEnd :
    (sb : Super) (ip : Inode) (d : Disk)
    → iblock sb ip.inum < sb.bmapstart
    → Fits ip
    → Owns sb ip d
    → IputEnd sb ip d (iput_locked sb ip d)
unfolding iput_locked put_back free_inode
iput_locked-IputEnd sb ip d low h w =
    elim (Bool-cases (ip.valid && (ip.nlink == 0) && (ip.ref == 1))) [
      | inl last ↦ rw last (
          from (ground arith) (ground arith) (ground arith) (itrunc sb ip d)
            (itrunc-TruncEnd sb ip d low w))
      | inr more ↦ rw more (still (λ v n r. ground arith))
    ]
  where
    from :
        ip.valid ≡ true
        → ip.nlink ≡ 0
        → ip.ref ≡ 1
        → (r : Option (Inode × Disk)) → TruncEnd sb ip d r
        → IputEnd sb ip d (put_back (free_inode sb r))
    from v n r none e = elim e [ ]
    from v n r (some (ip1, d1)) (emptied e) =
        let inum : ip1.inum ≡ ip.inum = ap Inode.inum e.same in
        let is_one : ip1.ref ≡ ip.ref = ap Inode.ref e.same in
        let below : iblock sb ip1.inum < sb.bmapstart = omega (arith, low, inum) in
        let last : Inode = record ip1 { type = 0 } in
        gone v n r (record {
          ref = omega arith;
          invalid = refl;
          on_disk =
              subst (λ i. is_free_inode sb i (iupdate sb last d1) ≡ true) inum
                (is_free_inode-iupdate sb last d1 below (Emptied-Fits h e) refl);
          now_free =
              λ s le ne. is_free-iupdate sb last d1 below (block_of ip d s) ∙ e.now_free s le ne;
          others = λ y k. is_free-iupdate sb last d1 below y ∙ e.others y k;
          kept = λ b far. iupdate_far sb last d1 below b far ∙ e.kept b far;
        })
