-- ===== src/Fs/Trunc/Tests.antt =====
-- A small file is emptied.
use boss_os.Base.{arith}
use boss_os.Fs.Bitmap.Tests.{small_disk, small_super}
use boss_os.Fs.Inode.Tests.{small_inode, small_inode-Owns}
use boss_os.Fs.Trunc.{itrunc}
use boss_os.Fs.Trunc.Emptied.{TruncEnd, itrunc-TruncEnd}

itrunc-TruncEnd_example :
    TruncEnd small_super small_inode small_disk (itrunc small_super small_inode small_disk)
itrunc-TruncEnd_example =
    itrunc-TruncEnd small_super small_inode small_disk (omega arith) small_inode-Owns
