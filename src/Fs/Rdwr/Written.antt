-- ===== src/Fs/Rdwr/Written.antt =====
-- The inode after a write.
use boss_os.Base.{
  List, [], ap, arith, false, get_or, if◌then◌else◌, leb, length, ltb, max, sym, true, ℕ, ◌&&◌, ◌*◌,
  ◌+◌, ◌-◌, ◌/◌, ◌<◌, ◌∙◌, ◌∷◌, ◌≡◌, ◌≢◌, ◌≤◌,
}
use boss_os.Fs.Disk.{Block, Disk, Super, bsize, set16, set32}
use boss_os.Fs.Bitmap.Bits.{IsBytes}
use boss_os.Fs.Bitmap.Balloc.{IsMap}
use boss_os.Fs.Inode.{Inode, maxfile}
use boss_os.Fs.Inode.Slots.{Owns, addr_of, bitmap_end, block_of-addr, file_byte}
use boss_os.Fs.Inode.Kept.{Around, Around-there, Foreign}
use boss_os.Fs.Inode.Read.{Present}
use boss_os.Fs.Inode.Bmap.{set32-IsBytes}
use boss_os.Fs.Inode.Write.{Wrote}
use boss_os.Fs.Inode.Meta.{block_of-meta, file_byte-meta, meta-Owns, same_block}
use boss_os.Fs.Dinode.{dinode_at, iblock, iupdate, set_dinode, set_words}

set16-IsBytes : (f : Block) (o v : ℕ) → IsBytes f → IsBytes (set16 f o v)
unfolding set16
set16-IsBytes f o v h i = ground (arith, h i)

set_words-IsBytes : (vs : List ℕ) (o : ℕ) (f : Block) → IsBytes f → IsBytes (set_words vs o f)
unfolding set_words
set_words-IsBytes [] o f h = h
set_words-IsBytes (v ∷ vs) o f h =
    set_words-IsBytes vs (o + 4) (set32 f o v) (set32-IsBytes f o v h)

set_dinode-IsBytes : (ip : Inode) (o : ℕ) (f : Block) → IsBytes f → IsBytes (set_dinode ip o f)
unfolding set_dinode
set_dinode-IsBytes ip o f h = set_words-IsBytes ip.addrs (o + 12) _ (
    set32-IsBytes _ (o + 8) ip.size (
      set16-IsBytes _ (o + 6) ip.nlink (
        set16-IsBytes _ (o + 4) ip.minor
          (set16-IsBytes _ (o + 2) ip.major (set16-IsBytes f o ip.type h)))))

-- The content after `src` is written at `off`.
pub record Written (sb : Super) (ip : Inode) (d : Disk) (off : ℕ) (src : List ℕ) (ip' : Inode)
    (d' : Disk) : Type 0 where
  pub owns : Owns sb ip' d'
  pub size : ip'.size ≡ (if ltb 0 (length src) then max ip.size (off + length src) else ip.size)
  pub same : ip' ≡ record ip { addrs = ip'.addrs; size = ip'.size }
  pub bytes :
      (k : ℕ)
      → k / bsize < maxfile
      → file_byte ip' d' k ≡ (
          if leb off k && ltb k (off + length src)
          then get_or src (k - off) 0
          else file_byte ip d k)
  pub foreign : (b : ℕ) → Foreign sb ip d b → d'.blocks b ≡ d.blocks b
  pub there : Present ip' d' off (length src)
  pub still_there : (bn : ℕ) → bn < maxfile → addr_of ip d bn ≢ 0 → addr_of ip' d' bn ≢ 0

abbrev resized : ℕ → Inode → Inode
resized n ip = record ip { size = n }

Owns-resize :
    {sb : Super} {ip : Inode} {d : Disk} (n : ℕ) → Owns sb ip d → Owns sb (record ip { size = n }) d
Owns-resize n w = record {
  is_map = w.is_map;
  thirteen = w.thirteen;
  used = w.used;
  in_range = w.in_range;
  beyond = w.beyond;
  single = w.single;
}

addr_kept :
    {sb : Super} {ip : Inode} {d : Disk} {ip' : Inode} {d' : Disk} (bn : ℕ)
    → bn < maxfile
    → IsMap sb d
    → Around sb ip d ip' d'
    → addr_of ip d bn ≢ 0
    → addr_of ip' d' bn ≢ 0
addr_kept {sb} {ip} {d} {ip'} {d'} bn lt m a ne z =
    Around-there bn m a (omega arith) (λ q. ne (sym (block_of-addr ip d bn lt) ∙ q))
      (block_of-addr ip' d' bn lt ∙ z)

-- Nothing is stored when the size does not change.
pub kept_size :
    {sb : Super} {ip : Inode} {d : Disk} {off : ℕ} {src : List ℕ} {ip' : Inode} {d' : Disk}
    → IsMap sb d
    → off + length src ≤ maxfile * bsize
    → Wrote sb ip d off (length src) src ip' d'
    → (ltb 0 (length src) && ltb ip'.size (off + length src)) ≡ false
    → Written sb ip d off src ip' d'
kept_size {ip = ip} {d} {off} {src} {ip'} {d'} m small v stays = record {
  owns = v.around.owns;
  size = size_of (ap Inode.size v.around.same);
  same =
      v.around.same
      ∙ ap (λ n. record ip { addrs = ip'.addrs; size = n }) (sym (ap Inode.size v.around.same));
  bytes = v.bytes;
  foreign = v.around.foreign;
  there = λ k lo hi. v.there k (omega arith) lo hi;
  still_there = λ bn lt ne. addr_kept bn lt m v.around ne;
}
  where
    size_of :
        ip'.size ≡ ip.size
        → ip'.size ≡ (if ltb 0 (length src) then max ip.size (off + length src) else ip.size)
    size_of q = ground arith

-- The size grows, and iupdate stores the inode.
pub new_size :
    {sb : Super} {ip : Inode} {d : Disk} {off : ℕ} {src : List ℕ} {ip' : Inode} {d' : Disk}
    → iblock sb ip.inum < sb.bmapstart
    → IsMap sb d
    → off + length src ≤ maxfile * bsize
    → Wrote sb ip d off (length src) src ip' d'
    → (ltb 0 (length src) && ltb ip'.size (off + length src)) ≡ true
    → Written sb ip d off src
        (record ip' { size = off + length src })
        (iupdate sb (record ip' { size = off + length src }) d')
unfolding iupdate
new_size {sb} {ip} {d} {off} {src} {ip'} {d'} low m small v grows = record {
  owns = meta-Owns (Owns-resize (off + length src) v.around.owns) block below _ (
      set_dinode-IsBytes (record ip' { size = off + length src }) (dinode_at ip'.inum)
        (d'.blocks block) (v.around.owns.is_map.bytes block));
  size = size_of (ap Inode.size v.around.same);
  same = ap (resized (off + length src)) v.around.same;
  bytes = λ k lt. file_byte-meta v.around.owns block below _ k lt ∙ v.bytes k lt;
  foreign = λ b f.
      same_block v.around.owns block below _ b (λ q. absurd (far b f.beyond q))
      ∙ v.around.foreign b f;
  there = λ k lo hi z. v.there k (omega arith) lo hi (stored_addr (k / bsize) (omega arith) z);
  still_there = λ bn lt ne z. addr_kept bn lt m v.around ne (stored_addr bn lt z);
}
  where
    -- The block of the inode is not one of the file.
    stored_addr :
        (bn : ℕ)
        → bn < maxfile
        → addr_of
            (resized (off + length src) ip')
            (iupdate sb (resized (off + length src) ip') d')
            bn
          ≡ 0
        → addr_of ip' d' bn ≡ 0
    stored_addr bn lt z =
        sym (block_of-addr ip' d' bn lt)
        ∙ sym (
            block_of-meta v.around.owns (iblock sb ip'.inum)
              (omega (arith, low, ap Inode.inum v.around.same)) _ bn)
        ∙ block_of-addr ip' (iupdate sb (resized (off + length src) ip') d') bn lt
        ∙ z

    block : ℕ
    block = iblock sb ip'.inum

    below : block < sb.bmapstart
    below = omega (arith, low, ap Inode.inum v.around.same)

    far : (b : ℕ) → bitmap_end sb < b → b ≡ block → ⊥
    far b lt q = let low' = below in omega arith

    size_of :
        ip'.size ≡ ip.size
        → off + length src
          ≡ (if ltb 0 (length src) then max ip.size (off + length src) else ip.size)
    size_of q = ground arith
