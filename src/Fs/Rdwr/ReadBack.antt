-- ===== src/Fs/Rdwr/ReadBack.antt =====
-- What writei wrote, readi reads.
use boss_os.Base.{
  Bool-cases, List, Option, [], ap, arith, get_or, inl, inr, leb, length, ltb, min, none, refl,
  some, subst, suc, sym, true, u32_mod, ℕ, ◌&&◌, ◌*◌, ◌+◌, ◌-◌, ◌/◌, ◌<◌, ◌∙◌, ◌∷◌, ◌≡◌, ◌≢◌, ◌≤◌,
}
use boss_os.Fs.Disk.{Disk, Super, bsize}
use boss_os.Fs.Inode.{Inode, maxfile}
use boss_os.Fs.Inode.Slots.{Owns, file_byte}
use boss_os.Fs.Inode.Read.{Present, content}
use boss_os.Fs.Dinode.{iblock}
use boss_os.Fs.Rdwr.{Devsw, ReadiResult, WriteiResult, readi, t_dev, writei}
use boss_os.Fs.Rdwr.Reading.{readi_lem}
use boss_os.Fs.Rdwr.Written.{Written}
use boss_os.Fs.Rdwr.Writing.{WriteiEnd, refused_end, stopped_end, writei-WriteiEnd, written_end}

content_is :
    (ip : Inode) (d : Disk) (src : List ℕ) (off : ℕ)
    → ((i : ℕ) → i < length src → file_byte ip d (off + i) ≡ get_or src i 0)
    → content ip d off (length src) ≡ src
unfolding content
content_is ip d [] off h = refl
content_is ip d (b ∷ src) off h =
    let first : file_byte ip d off ≡ b = ap (file_byte ip d) (omega arith) ∙ h 0 (omega arith) in
    rw first (
      ap (λ bs. b ∷ bs)
        (content_is ip d src (off + 1)
          (λ i lt. ap (file_byte ip d) (omega arith) ∙ h (suc i) (omega arith))))

-- What holds of an end that returned a number.
abbrev Returned :
    (A : Type 0) → Super → Inode → Disk → ℕ → List ℕ → Option (WriteiResult A) → Type 0
Returned A sb ip d off src (some (WriteiResult.put n ip' d')) =
    (off ≤ ip.size)
    × (off + length src ≤ maxfile * bsize)
    × (n ≡ length src)
    × Written sb ip d off src ip' d'
Returned A sb ip d off src (some WriteiResult.refused) = Unit
Returned A sb ip d off src (some (WriteiResult.device a)) = Unit
Returned A sb ip d off src none = Unit

WriteiEnd-Returned :
    {A : Type 0} {sb : Super} {ip : Inode} {d : Disk} {off : ℕ} {src : List ℕ}
    {r : Option (WriteiResult A)}
    → WriteiEnd A sb ip d off src r
    → Returned A sb ip d off src r
WriteiEnd-Returned (refused_end h) = tt
WriteiEnd-Returned (stopped_end lt v few) = tt
WriteiEnd-Returned (written_end le small v) = (le, small, refl, v)

-- After a writei that returned `n`, a readi of `n` bytes at the same offset gives the bytes written.
-- The offset and the length are words, the source is bytes, and the inode is no device, is not larger
-- than the largest file, owns its blocks, has all of them up to its size, and has its dinode in front of
-- the bitmap.
pub readi-writei :
    {A : Type 0} (devsw : Devsw A) (sb : Super) (ip : Inode) (src : List ℕ) (off n : ℕ) (d : Disk)
    (ip' : Inode) (d' : Disk)
    → ip.type ≢ t_dev
    → off < u32_mod
    → length src < u32_mod
    → ip.size ≤ maxfile * bsize
    → ((i : ℕ) → get_or src i 0 < 256)
    → iblock sb ip.inum < sb.bmapstart
    → Owns sb ip d
    → Present ip d 0 ip.size
    → writei devsw sb ip src off d ≡ some (WriteiResult.put n ip' d')
    → readi devsw sb ip' off n d' ≡ some (ReadiResult.got src ip' d')
readi-writei {A} devsw sb ip src off n d ip' d' file off_lt src_lt small bs low w present q = from (
    subst (Returned A sb ip d off src) q (
      WriteiEnd-Returned
        (writei-WriteiEnd devsw sb ip src off d file off_lt src_lt (omega arith) bs low w)))
  where
    present_after :
        off ≤ ip.size
        → off + length src ≤ maxfile * bsize
        → Written sb ip d off src ip' d'
        → Present ip' d' 0 ip'.size
    present_after le room v k lo hi = elim (Bool-cases (leb off k && ltb k (off + length src))) [
      | inl inside ↦ v.there k (ground arith) (ground arith)
      | inr outside ↦
          v.still_there (k / bsize) (ground (arith, v.size, small))
            (present k (omega arith) (ground (arith, v.size)))
    ]

    from :
        (off ≤ ip.size)
          × (off + length src ≤ maxfile * bsize)
          × (n ≡ length src)
          × Written sb ip d off src ip' d'
        → readi devsw sb ip' off n d' ≡ some (ReadiResult.got src ip' d')
    from (le, room, all, v) =
        let good : (leb off ip'.size && ltb (off + n) u32_mod) ≡ true = ground (arith, v.size) in
        let count : min n (ip'.size - off) ≡ length src = ground (arith, v.size) in
        readi_lem devsw sb ip' off n d' (λ z. file (sym (ap Inode.type v.same) ∙ z)) off_lt
          (omega arith) (ground (arith, v.size)) (present_after le room v)
        ∙ rw (good, count)
            (ap (λ bs. some (ReadiResult.got bs ip' d'))
              (content_is ip' d' src off (λ i lt.
                let inside : (leb off (off + i) && ltb (off + i) (off + length src)) ≡ true =
                  ground arith in
                let index : off + i - off ≡ i = omega arith in
                v.bytes (off + i) (omega arith) ∙ rw (inside, index) refl)))
