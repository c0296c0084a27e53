-- ===== src/Fs/Rdwr/Tests.antt =====
-- Reads and writes of a small file.
use boss_os.Base.{
  [], ap, arith, get_or, if◌then◌else◌, leb, ltb, min, none, refl, some, suc, u32_mod, zero, ℕ,
  ◌&&◌, ◌/◌, ◌<◌, ◌==◌, ◌∷◌, ◌≡◌,
}
use boss_os.Fs.Disk.{Disk, bsize, put_block}
use boss_os.Fs.Bitmap.Tests.{small_disk, small_super}
use boss_os.Fs.Inode.{bmap, load_addr, paste, write_from, write_round}
use boss_os.Fs.Inode.Slots.{addr_of}
use boss_os.Fs.Inode.Read.{Present, content}
use boss_os.Fs.Inode.Tests.{small_inode, small_inode-Owns, zeros}
use boss_os.Fs.Dinode.{iupdate, read_inode}
use boss_os.Fs.Dinode.Fields.{Fits, copied, read_inode-iupdate}
use boss_os.Fs.Rdwr.{Devsw, ReadiResult, WriteiResult, grow_size, readi, writei}
use boss_os.Fs.Rdwr.Reading.{readi_lem}
use boss_os.Fs.Rdwr.Writing.{WriteiEnd, writei-WriteiEnd}
use boss_os.Fs.Rdwr.ReadBack.{readi-writei}

abbrev no_devices : Devsw ℕ
no_devices major = none

small_inode-Present : Present small_inode small_disk 0 3
small_inode-Present k a b q =
    let block : k / bsize ≡ 0 = omega arith in
    absurd (omega (arith, ap (addr_of small_inode small_disk) block, q))

two_bytes : (i : ℕ) → get_or (66 ∷ 67 ∷ []) i 0 < 256
two_bytes zero = omega arith
two_bytes (suc zero) = omega arith
two_bytes (suc (suc i)) = omega arith

small_words : (i : ℕ) → get_or small_inode.addrs i 0 < u32_mod
small_words zero = omega arith
small_words (suc i) = omega (arith, zeros 12 i)

small_inode-Fits : Fits small_inode
small_inode-Fits = record {
  type = omega arith;
  major = omega arith;
  minor = omega arith;
  nlink = omega arith;
  size = omega arith;
  addrs = small_words;
  thirteen = refl;
}

readi_lem_example :
    readi no_devices small_super small_inode 1 5 small_disk
    ≡ some (
        if leb 1 3 && ltb 6 u32_mod
        then ReadiResult.got (content small_inode small_disk 1 (min 5 2)) small_inode small_disk
        else ReadiResult.failed)
readi_lem_example =
    readi_lem no_devices small_super small_inode 1 5 small_disk (λ q. absurd (omega arith))
      (omega arith) (omega arith) (omega arith) small_inode-Present

writei-WriteiEnd_example :
    WriteiEnd ℕ small_super small_inode small_disk 2
      (66 ∷ 67 ∷ [])
      (writei no_devices small_super small_inode (66 ∷ 67 ∷ []) 2 small_disk)
writei-WriteiEnd_example =
    writei-WriteiEnd no_devices small_super small_inode (66 ∷ 67 ∷ []) 2 small_disk
      (λ q. absurd (omega arith)) (omega arith) (omega arith) (omega arith) two_bytes (omega arith)
      small_inode-Owns

read_inode-iupdate_example :
    read_inode small_super small_inode (iupdate small_super small_inode small_disk) ≡ (
      if 3 == 3
      then some (copied small_inode small_inode)
      else read_inode small_super small_inode small_disk)
read_inode-iupdate_example =
    read_inode-iupdate small_super small_inode small_inode small_disk small_inode-Fits
      (λ q. absurd (omega arith))

one_byte : (i : ℕ) → get_or (66 ∷ []) i 0 < 256
one_byte zero = omega arith
one_byte (suc i) = omega arith

-- The second byte is overwritten.
abbrev rewritten : Disk
rewritten = put_block 10 (paste (small_disk.blocks 10) 1 1 (66 ∷ [])) small_disk

overwrites :
    writei no_devices small_super small_inode (66 ∷ []) 1 small_disk
    ≡ some (WriteiResult.put 1 small_inode rewritten)
unfolding writei write_from write_round bmap load_addr grow_size
overwrites = refl

readi-writei_example :
    readi no_devices small_super small_inode 1 1 rewritten
    ≡ some (ReadiResult.got (66 ∷ []) small_inode rewritten)
readi-writei_example =
    readi-writei no_devices small_super small_inode (66 ∷ []) 1 1 small_disk small_inode rewritten
      (λ q. absurd (omega arith)) (omega arith) (omega arith) (omega arith) one_byte (omega arith)
      small_inode-Owns small_inode-Present overwrites
