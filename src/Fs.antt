-- ===== src/Fs.antt =====
-- fs.c: the file system, layer by layer.
pub mod Disk
pub mod Bitmap
pub mod Inode
pub mod Dinode
pub mod Rdwr
pub mod Trunc
pub mod Icache
pub mod Dir
pub mod Path
pub mod Namex
