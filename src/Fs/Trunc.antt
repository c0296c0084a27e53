-- ===== src/Fs/Trunc.antt =====
-- fs.c: itrunc. A panic of bfree is `none`.
pub mod Freeing
pub mod Loops
pub mod Emptied
mod Tests
use boss_os.Base.{Option, get_or, if◌then◌else◌, none, set, some, suc, zero, ℕ, ◌*◌, ◌+◌, ◌==◌}
use boss_os.Fs.Disk.{Disk, Super, get32}
use boss_os.Fs.Bitmap.{bfree}
use boss_os.Fs.Inode.{Inode, ndirect, nindirect}
use boss_os.Fs.Dinode.{iupdate}

-- `if(a) bfree(dev, a);`
unfoldable pub free_block : Super → ℕ → Disk → Option Disk
free_block sb a d = if a == 0 then some d else bfree sb a d

-- The rounds of the first loop after the block of entry `i` was given back.
unfoldable pub free_next :
    (ℕ → Inode → Disk → Option (Inode × Disk)) → ℕ → Inode → Option Disk → Option (Inode × Disk)
free_next go i ip none = none
free_next go i ip (some d) = go (i + 1) (record ip { addrs = set ip.addrs i 0 }) d

-- The first loop from entry `i` on, `n` entries; an entry of 0 stays as it is.
unfoldable pub free_direct : Super → (n i : ℕ) → Inode → Disk → Option (Inode × Disk)
free_direct sb zero i ip d = some (ip, d)
free_direct sb (suc n) i ip d =
    let a = get_or ip.addrs i 0 in
    let skip = free_direct sb n (i + 1) ip d in
    let more = free_next (free_direct sb n) i ip (bfree sb a d) in if a == 0 then skip else more

unfoldable pub free_next_entry : (ℕ → Disk → Option Disk) → ℕ → Option Disk → Option Disk
free_next_entry go j none = none
free_next_entry go j (some d) = go (j + 1) d

-- The loop over the indirect block from entry `j` on, `n` entries.
unfoldable pub free_entries : Super → (table n j : ℕ) → Disk → Option Disk
free_entries sb table zero j d = some d
free_entries sb table (suc n) j d =
    free_next_entry (free_entries sb table n) j (free_block sb (get32 (d.blocks table) (4 * j)) d)

unfoldable pub free_last : Super → ℕ → Option Disk → Option Disk
free_last sb table none = none
free_last sb table (some d) = bfree sb table d

unfoldable pub clear_table : Inode → Option Disk → Option (Inode × Disk)
clear_table ip none = none
clear_table ip (some d) = some (record ip { addrs = set ip.addrs ndirect 0 }, d)

unfoldable pub free_table : Super → Option (Inode × Disk) → Option (Inode × Disk)
free_table sb none = none
free_table sb (some (ip, d)) =
    let table = get_or ip.addrs ndirect 0 in
    if table == 0
    then some (ip, d)
    else clear_table ip (free_last sb table (free_entries sb table nindirect 0 d))

-- `ip->size = 0; iupdate(ip);`
unfoldable pub no_size : Super → Option (Inode × Disk) → Option (Inode × Disk)
no_size sb none = none
no_size sb (some (ip, d)) = let empty = record ip { size = 0 } in some (empty, iupdate sb empty d)

unfoldable pub itrunc : Super → Inode → Disk → Option (Inode × Disk)
itrunc sb ip d = no_size sb (free_table sb (free_direct sb ndirect 0 ip d))
