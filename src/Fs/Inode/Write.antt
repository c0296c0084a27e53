-- ===== src/Fs/Inode/Write.antt =====
-- The loop of writei puts the bytes of the source into the content.
use boss_os.Base.{
  Bool-cases, List, ap, arith, false, get_or, if◌then◌else◌, inl, inr, leb, ltb, refl, subst, sym,
  true, ℕ, ℕ_discrete, ◌%◌, ◌&&◌, ◌+◌, ◌-◌, ◌/◌, ◌<◌, ◌==◌, ◌∙◌, ◌≡◌, ◌≢◌, ◌≤◌, ◌⊎◌,
}
use boss_os.Fs.Disk.{Block, Disk, Super, bsize, put_block}
use boss_os.Fs.Bitmap.Bits.{IsBytes}
use boss_os.Fs.Inode.{Inode, maxfile, paste}
use boss_os.Fs.Inode.Slots.{Owns, addr_of, block_of, block_of-addr, byte_at, file_byte}
use boss_os.Fs.Inode.Kept.{Around, Around-refl, Foreign-Around, NewBlock}
use boss_os.Fs.Inode.Bmap.{Mapped}
use boss_os.Fs.Inode.Put.{block_of-put, elsewhere, file_byte-put, is_free-put_same, put-Owns}

-- The first `n` bytes of `src` stand in the content from `off` on; the rest of the content is as it
-- was, and so are the blocks of others.
pub record Wrote (sb : Super) (ip : Inode) (d : Disk) (off n : ℕ) (src : List ℕ) (ip' : Inode)
    (d' : Disk) : Type 0 where
  pub around : Around sb ip d ip' d'
  pub bytes :
      (k : ℕ)
      → k / bsize < maxfile
      → file_byte ip' d' k
        ≡ (if leb off k && ltb k (off + n) then get_or src (k - off) 0 else file_byte ip d k)
  pub there : (k : ℕ) → k / bsize < maxfile → off ≤ k → k < off + n → addr_of ip' d' (k / bsize) ≢ 0

-- The bytes that a round pastes.
paste-IsBytes :
    (f : Block) (o m : ℕ) (src : List ℕ)
    → IsBytes f
    → ((i : ℕ) → get_or src i 0 < 256)
    → IsBytes (paste f o m src)
paste-IsBytes f o m src h hs i = ground (arith, h i, hs (i - o))

pub Wrote-none :
    {sb : Super} {ip : Inode} {d : Disk} (off : ℕ) (src : List ℕ)
    → Owns sb ip d
    → Wrote sb ip d off 0 src ip d
Wrote-none off src w = record {
  around = Around-refl w;
  bytes = λ k lt. ground arith;
  there = λ k lt lo hi. absurd (omega arith);
}

-- One round: the block that bmap found is given the bytes.
module _ {sb : Super} {ip : Inode} {d : Disk} (off m : ℕ) (src : List ℕ) {a : ℕ} {ip1 : Inode}
    {d1 : Disk} (fits : off % bsize + m ≤ bsize) (small : off / bsize < maxfile)
    (are_bytes : (i : ℕ) → get_or src i 0 < 256) (mp : Mapped sb ip d (off / bsize) a ip1 d1) where
  abbrev bn : ℕ
  bn = off / bsize

  is_a : block_of ip1 d1 bn ≡ a
  is_a = block_of-addr ip1 d1 bn small ∙ mp.here

  abbrev block : Block
  block = paste (d1.blocks a) (off % bsize) m src

  abbrev written : Disk
  written = put_block a block d1

  -- The bytes of the block that the source gives.
  range :
      (k : ℕ)
      → k / bsize ≡ bn
      → (leb (off % bsize) (k % bsize) && ltb (k % bsize) (off % bsize + m))
        ≡ (leb off k && ltb k (off + m))
  range k e = elim (Bool-cases (leb off k && ltb k (off + m))) [
    | inl inside ↦ rw inside (ground arith)
    | inr outside ↦ rw outside (ground arith)
  ]

  old_byte :
      (k : ℕ) → k / bsize ≡ bn → k / bsize < maxfile → d1.blocks a (k % bsize) ≡ file_byte ip d k
  old_byte k e lt =
      let there : (a == 0) ≡ false = ground (arith, mp.present) in
      sym (ap (λ b. byte_at d1 b (k % bsize)) (ap (addr_of ip1 d1) e ∙ mp.here) ∙ rw there refl)
      ∙ mp.kept.bytes k lt

  by_range :
      (k : ℕ)
      → k / bsize < maxfile
      → k / bsize ≡ bn
      → (if leb off k && ltb k (off + m)
          then get_or src (k % bsize - off % bsize) 0
          else d1.blocks a (k % bsize))
        ≡ (if leb off k && ltb k (off + m) then get_or src (k - off) 0 else file_byte ip d k)
  by_range k lt e = elim (Bool-cases (leb off k && ltb k (off + m))) [
    | inl inside ↦
        let index : k % bsize - off % bsize ≡ k - off = ground arith in rw (inside, index) refl
    | inr outside ↦ rw outside (old_byte k e lt)
  ]

  round_bytes :
      (k : ℕ)
      → k / bsize < maxfile
      → file_byte ip1 written k
        ≡ (if leb off k && ltb k (off + m) then get_or src (k - off) 0 else file_byte ip d k)
  round_bytes k lt =
      file_byte-put mp.kept.around.owns bn small a is_a mp.present block k lt ∙ by_block
    where
      by_block :
          (if k / bsize == bn then block (k % bsize) else file_byte ip1 d1 k)
          ≡ (if leb off k && ltb k (off + m) then get_or src (k - off) 0 else file_byte ip d k)
      by_block = elim (ℕ_discrete (k / bsize) bn) [
        | yes e ↦
            let at_bn : (k / bsize == bn) ≡ true = ground arith in
            rw (at_bn, range k e) (by_range k lt e)
        | no ne ↦
            let away : (k / bsize == bn) ≡ false = ground arith in
            let outside : (leb off k && ltb k (off + m)) ≡ false = ground arith in
            rw (away, outside) (mp.kept.bytes k lt)
      ]

  round_Around : Around sb ip d ip1 written
  round_Around = record {
    owns = put-Owns mp.kept.around.owns bn small a is_a mp.present block (
        paste-IsBytes (d1.blocks a) (off % bsize) m src (mp.kept.around.owns.is_map.bytes a)
          are_bytes);
    same = mp.kept.around.same;
    free_before = λ y lt h.
        mp.kept.around.free_before y lt
          (sym (is_free-put_same mp.kept.around.owns bn small a is_a mp.present block y lt) ∙ h);
    foreign = λ b f.
        elsewhere mp.kept.around.owns bn small a is_a mp.present block b
          (λ q. (Foreign-Around b mp.kept.around f).not_mine bn (omega arith) (is_a ∙ sym q))
        ∙ mp.kept.around.foreign b f;
    origin = λ s le.
        subst (λ b. (b ≡ block_of ip d s) ⊎ NewBlock sb d b)
          (sym (block_of-put mp.kept.around.owns bn small a is_a mp.present block s))
          (mp.kept.around.origin s le);
  }

  round_there : (k : ℕ) → k / bsize ≡ bn → addr_of ip1 written (k / bsize) ≢ 0
  round_there k e z = mp.present (
      sym is_a
      ∙ sym (block_of-put mp.kept.around.owns bn small a is_a mp.present block bn)
      ∙ block_of-addr ip1 written bn small
      ∙ ap (addr_of ip1 written) (sym e)
      ∙ z)

  pub round_Wrote : Wrote sb ip d off m src ip1 written
  round_Wrote = record {
    around = round_Around;
    bytes = round_bytes;
    there = λ k lt lo hi. round_there k (omega arith);
  }
