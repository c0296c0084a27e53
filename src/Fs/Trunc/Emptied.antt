-- ===== src/Fs/Trunc/Emptied.antt =====
-- itrunc gives back every block of the inode.
use boss_os.Base.{
  Bool-cases, Option, ap, arith, dec_lt, false, get_or, inl, inr, length, ltb, none, refl, some,
  sym, true, update_ne, ℕ, ℕ_discrete, ◌%◌, ◌+◌, ◌<◌, ◌==◌, ◌∙◌, ◌≡◌, ◌≢◌, ◌≤◌,
}
use boss_os.Fs.Disk.{Disk, Super}
use boss_os.Fs.Bitmap.{bitmap_block, bits_per_block, is_clear}
use boss_os.Fs.Bitmap.Alloc.{is_free}
use boss_os.Fs.Inode.{Inode, maxfile, ndirect, nindirect}
use boss_os.Fs.Inode.Slots.{Owns, bitmap_end, block_of}
use boss_os.Fs.Dinode.{iblock, iupdate}
use boss_os.Fs.Trunc.{
  clear_table, free_direct, free_entries, free_last, free_table, itrunc, no_size,
}
use boss_os.Fs.Trunc.Freeing.{Freeing, Freeing-none}
use boss_os.Fs.Trunc.Loops.{
  Cut, Cut-set, Cut-skip, Directs, Frees, directs, free_direct-Directs, free_entries-Frees,
  free_last-Frees, frees,
}

-- What itrunc leaves: no addresses, the size 0, and the blocks of the inode free, of all the blocks.
pub record Emptied (sb : Super) (ip : Inode) (d : Disk) (ip' : Inode) (d' : Disk) : Type 0 where
  pub same : ip' ≡ record ip { addrs = ip'.addrs; size = 0 }
  pub no_addrs : (s : ℕ) → s ≤ ndirect → get_or ip'.addrs s 0 ≡ 0
  pub thirteen : length ip'.addrs ≡ 13
  pub now_free :
      (s : ℕ) → s ≤ maxfile → block_of ip d s ≢ 0 → is_free sb d' (block_of ip d s) ≡ true
  pub others :
      (y : ℕ)
      → ((s : ℕ) → s ≤ maxfile → block_of ip d s ≢ 0 → block_of ip d s ≢ y)
      → is_free sb d' y ≡ is_free sb d y
  pub kept : (b : ℕ) → bitmap_end sb < b → d'.blocks b ≡ d.blocks b

-- itrunc does not panic.
pub data TruncEnd (sb : Super) (ip : Inode) (d : Disk) : Option (Inode × Disk) → Type 0 where
  emptied : {ip' : Inode} {d' : Disk} → Emptied sb ip d ip' d' → TruncEnd sb ip d (some (ip', d'))

-- Every slot is given back.
data Tables (sb : Super) (ip : Inode) (d : Disk) : Option (Inode × Disk) → Type 0 where
  tables :
      {ip1 : Inode} {d1 : Disk}
      → Cut ip 13 ip1
      → Freeing sb ip d (maxfile + 1) d1
      → Tables sb ip d (some (ip1, d1))

module _ {sb : Super} {ip : Inode} {d : Disk} (w : Owns sb ip d) where
  -- There is no indirect block, so there are no blocks past the direct ones.
  Freeing-rest :
      {d1 : Disk}
      → get_or ip.addrs ndirect 0 ≡ 0
      → Freeing sb ip d ndirect d1
      → Freeing sb ip d (maxfile + 1) d1
  Freeing-rest {d1} z p = record {
    now_free = λ s lt ne. elim (dec_lt s ndirect) [
      | yes low ↦ p.now_free s low ne
      | no high ↦ absurd (ne (no_slot s high))
    ];
    others = λ y h. p.others y (λ s lt ne. h s (omega arith) ne);
    bytes = p.bytes;
    kept = p.kept;
    below = p.below;
  }
    where
      no_slot : (s : ℕ) → ¬ (s < ndirect) → block_of ip d s ≡ 0
      no_slot s high =
          let far : ltb s ndirect ≡ false = ground arith in
          elim (Bool-cases (s == maxfile)) [
            | inl last ↦ rw (last, z) refl
            | inr low ↦ rw (low, far, z) refl
          ]

  free_table-Tables :
      (r : Option (Inode × Disk)) → Directs sb ip d ndirect r → Tables sb ip d (free_table sb r)
  unfolding free_table clear_table
  free_table-Tables none e = elim e [ ]
  free_table-Tables (some (ip1, d1)) (directs c p) =
      elim (ℕ_discrete (get_or ip1.addrs ndirect 0) 0) [
        | yes z ↦
            let test : (get_or ip1.addrs ndirect 0 == 0) ≡ true = ground arith in
            rw test (
              tables (Cut-skip ndirect z c)
                (Freeing-rest (sym (c.left ndirect (omega arith)) ∙ z) p))
        | no ne ↦
            let test : (get_or ip1.addrs ndirect 0 == 0) ≡ false = ground arith in
            let same : get_or ip.addrs ndirect 0 ≡ get_or ip1.addrs ndirect 0 =
              sym (c.left ndirect (omega arith)) in
            let table : ℕ = get_or ip1.addrs ndirect 0 in
            rw test (
              from (free_last sb table (free_entries sb table nindirect 0 d1)) (
                free_last-Frees w table same ne (free_entries sb table nindirect 0 d1)
                  (free_entries-Frees w table same ne nindirect 0 d1 (omega arith) p)))
      ]
    where
      from : (r : Option Disk) → Frees sb ip d (maxfile + 1) r → Tables sb ip d (clear_table ip1 r)
      from none e = elim e [ ]
      from (some d2) (frees p2) = tables (Cut-set ndirect (omega arith) c) p2

-- itrunc of an inode that owns its blocks, with its dinode in front of the bitmap, does not panic:
-- the addresses and the size become 0, the blocks that were in its slots are free, no other block
-- is given back or taken, and no data block is written.
pub itrunc-TruncEnd :
    (sb : Super) (ip : Inode) (d : Disk)
    → iblock sb ip.inum < sb.bmapstart
    → Owns sb ip d
    → TruncEnd sb ip d (itrunc sb ip d)
unfolding itrunc no_size iupdate
itrunc-TruncEnd sb ip d low w = from (free_table sb (free_direct sb ndirect 0 ip d)) (
    free_table-Tables w (free_direct sb ndirect 0 ip d) (
      free_direct-Directs w ndirect 0 ip d (omega arith)
        (record {
          same = refl;
          cleared = λ s lt. absurd (omega arith);
          left = λ s le. refl;
          thirteen = w.thirteen;
        })
        (Freeing-none w)))
  where
    from : (r : Option (Inode × Disk)) → Tables sb ip d r → TruncEnd sb ip d (no_size sb r)
    from none e = elim e [ ]
    from (some (ip1, d1)) (tables c p) =
        let inum : ip1.inum ≡ ip.inum = ap Inode.inum c.same in
        emptied (record {
          same = ap sized c.same;
          no_addrs = λ s le. c.cleared s (omega arith);
          thirteen = c.thirteen;
          now_free = λ s le ne.
              unchanged (omega (arith, low, inum)) (block_of ip d s)
              ∙ p.now_free s (omega arith) ne;
          others = λ y h.
              unchanged (omega (arith, low, inum)) y ∙ p.others y (λ s lt ne. h s (omega arith) ne);
          kept = λ b far.
              update_ne d1.blocks (iblock sb ip1.inum) b _ (λ q. absurd (omega (arith, low, inum)))
              ∙ p.kept b far;
        })
      where
        sized : Inode → Inode
        sized j = record j { size = 0 }

        unchanged :
            iblock sb ip1.inum < sb.bmapstart
            → (y : ℕ) → is_free sb (iupdate sb (record ip1 { size = 0 }) d1) y ≡ is_free sb d1 y
        unchanged low' y =
            ap (λ g. is_clear g (y % bits_per_block))
              (update_ne d1.blocks (iblock sb ip1.inum) (bitmap_block sb y) _
                (λ q. absurd (omega arith)))
