-- ===== src/Fs/Rdwr/Reading.antt =====
-- readi, and the bytes of the content.
use boss_os.Base.{
  Bool-cases, add32, ap, arith, false, if◌then◌else◌, inl, inr, leb, ltb, min, refl, some, true,
  u32_mod, ℕ, ◌&&◌, ◌*◌, ◌+◌, ◌-◌, ◌<◌, ◌==◌, ◌||◌, ◌≡◌, ◌≢◌, ◌≤◌,
}
use boss_os.Fs.Disk.{Disk, Super, bsize}
use boss_os.Fs.Inode.{Inode, maxfile}
use boss_os.Fs.Inode.Read.{Present, content, read_from_lem}
use boss_os.Fs.Rdwr.{Devsw, ReadiResult, got_all, readi, t_dev}

-- readi of an inode that is no device, is not larger than the largest file and has its blocks up to
-- its size, for words `off` and `n`: the bytes of the content from `off` on, at most `n` and not past
-- the size, and nothing changes. It fails exactly where `off` is past the size or `off + n` overflows.
pub readi_lem :
    {A : Type 0} (devsw : Devsw A) (sb : Super) (ip : Inode) (off n : ℕ) (d : Disk)
    → ip.type ≢ t_dev
    → off < u32_mod
    → n < u32_mod
    → ip.size ≤ maxfile * bsize
    → Present ip d 0 ip.size
    → readi devsw sb ip off n d
      ≡ some (
          if leb off ip.size && ltb (off + n) u32_mod
          then ReadiResult.got (content ip d off (min n (ip.size - off))) ip d
          else ReadiResult.failed)
unfolding readi
readi_lem devsw sb ip off n d file off_lt n_lt small present =
    let not_device : (ip.type == t_dev) ≡ false = ground arith in
    elim (Bool-cases (leb off ip.size && ltb (off + n) u32_mod)) [
      | inl good ↦
          let passes : (ltb ip.size off || ltb (add32 off n) off) ≡ false = ground arith in
          let count : (if ltb ip.size (add32 off n) then ip.size - off else n)
              ≡ min n (ip.size - off) =
            ground arith in
          rw (not_device, passes, good, count)
            (ap got_all (
              read_from_lem (min n (ip.size - off)) sb off (min n (ip.size - off)) ip d
                (omega arith) (ground arith) (λ k a b. present k (omega arith) (ground arith))))
      | inr bad ↦
          let fails : (ltb ip.size off || ltb (add32 off n) off) ≡ true = ground arith in
          rw (not_device, fails, bad) refl
    ]
