-- ===== src/Fs/Rdwr/Writing.antt =====
-- How writei ends.
use boss_os.Base.{
  Bool-cases, List, Option, add32, arith, false, get_or, inl, inr, length, ltb, none, some, u32_mod,
  ℕ, ◌&&◌, ◌*◌, ◌+◌, ◌<◌, ◌==◌, ◌||◌, ◌≡◌, ◌≢◌, ◌≤◌,
}
use boss_os.Fs.Disk.{Disk, Super, bsize}
use boss_os.Fs.Bitmap.Balloc.{IsMap}
use boss_os.Fs.Inode.{Inode, maxfile}
use boss_os.Fs.Inode.Slots.{Owns}
use boss_os.Fs.Inode.Entry.{AtMostOneFree}
use boss_os.Fs.Inode.Write.{Wrote}
use boss_os.Fs.Inode.WriteLoop.{WriteEnd, stopped, write_from-WriteEnd, wrote}
use boss_os.Fs.Dinode.{iblock}
use boss_os.Fs.Rdwr.{Devsw, WriteiResult, grow_size, t_dev, writei}
use boss_os.Fs.Rdwr.Written.{Written, kept_size, new_size}

pub data WriteiEnd (A : Type 0) (sb : Super) (ip : Inode) (d : Disk) (off : ℕ) (src : List ℕ)
    : Option (WriteiResult A) → Type 0 where
  refused_end :
      (off ≤ ip.size → off + length src ≤ maxfile * bsize → ⊥)
      → WriteiEnd A sb ip d off src (some WriteiResult.refused)
  stopped_end :
      {n : ℕ} {ip1 : Inode} {d1 : Disk}
      → n < length src
      → Wrote sb ip d off n src ip1 d1
      → AtMostOneFree sb d1
      → WriteiEnd A sb ip d off src none
  written_end :
      {ip' : Inode} {d' : Disk}
      → off ≤ ip.size
      → off + length src ≤ maxfile * bsize
      → Written sb ip d off src ip' d'
      → WriteiEnd A sb ip d off src (some (WriteiResult.put (length src) ip' d'))

grow_size-WriteiEnd :
    {A : Type 0} {sb : Super} {ip : Inode} {d : Disk} (off : ℕ) (src : List ℕ)
    (r : Option (Inode × Disk))
    → off ≤ ip.size
    → iblock sb ip.inum < sb.bmapstart
    → IsMap sb d
    → off + length src ≤ maxfile * bsize
    → WriteEnd sb ip d off src r
    → WriteiEnd A sb ip d off src (grow_size sb (off + length src) (length src) r)
unfolding grow_size
grow_size-WriteiEnd off src none le low m small (stopped lt v few) = stopped_end lt v few
grow_size-WriteiEnd {sb = sb} {ip} {d} off src (some (ip', d')) le low m small (wrote v) =
    elim (Bool-cases (ltb 0 (length src) && ltb ip'.size (off + length src))) [
      | inl grows ↦ rw grows (written_end le small (new_size low m small v grows))
      | inr stays ↦ rw stays (written_end le small (kept_size m small v stays))
    ]

-- writei, for an offset, a length and a size that are words and a source of bytes, of an inode that is
-- no device, owns its blocks and has its dinode in front of the bitmap. It refuses exactly an offset
-- past the size and a write past the end of the largest file. Else it writes all of `src` at `off`,
-- keeps the rest of the content and the data blocks of others, and the size becomes the larger of the
-- old size and the end of the write; or bmap panics, with at most one block of the disk free and a
-- first part of `src` written.
pub writei-WriteiEnd :
    {A : Type 0} (devsw : Devsw A) (sb : Super) (ip : Inode) (src : List ℕ) (off : ℕ) (d : Disk)
    → ip.type ≢ t_dev
    → off < u32_mod
    → length src < u32_mod
    → ip.size < u32_mod
    → ((i : ℕ) → get_or src i 0 < 256)
    → iblock sb ip.inum < sb.bmapstart
    → Owns sb ip d
    → WriteiEnd A sb ip d off src (writei devsw sb ip src off d)
unfolding writei
writei-WriteiEnd devsw sb ip src off d file off_lt src_lt size_lt bs low w =
    let not_device : (ip.type == t_dev) ≡ false = ground arith in
    rw not_device (elim (Bool-cases (ltb ip.size off || ltb (add32 off (length src)) off)) [
      | inl bad ↦ rw bad (refused_end (λ a b. ground arith))
      | inr good ↦ elim (Bool-cases (ltb (maxfile * bsize) (add32 off (length src)))) [
        | inl long ↦ rw (good, long) (refused_end (λ a b. ground arith))
        | inr fits ↦
            let sum : add32 off (length src) ≡ off + length src = ground arith in
            rw (good, fits, sum)
              (grow_size-WriteiEnd off src _ (ground arith) low w.is_map (ground arith) (
                write_from-WriteEnd (length src) sb off src ip d (omega arith) (ground arith) bs w))
      ]
    ])
