-- ===== src/Lib.antt =====
-- A verification library for the kernel of Boss-OS, an xv6 for x86. The files of the repository's
-- root that it models, and where:
--   string.c (bytes and strings)          Str: memset, memmove, memcmp, strncmp, strncpy,
--                                         safestrcpy, strlen, on a memory of bytes
--   spinlock.c (spin locks)               Lock: pushcli, popcli, holding; acquire and release as
--                                         the steps of `move` between the phases of a processor
--   sleeplock.c (sleep locks)             Sleeplock
--   kalloc.c (pages)                      Kalloc: kinit1, kinit2, freerange, kfree, kalloc, on
--                                         the words of memory
--   bio.c (buffer cache)                  Bio: binit, bget (find_cached, recycle), brelse
--   log.c (redo log)                      Log: initlog, begin_op, log_write, end_op (leave,
--                                         commit and reopen), commit, write_log,
--                                         write_head, read_head,
--                                         install_trans, recover_from_log
--   fs.c, fs.h (the file system)          Fs.Disk: the bytes of the blocks; Fs.Bitmap: bzero, balloc,
--                                         bfree; Fs.Inode: bmap and the loops of readi and writei;
--                                         Fs.Dinode: iupdate, ilock, iunlock; Fs.Rdwr: readi,
--                                         writei, stati; Fs.Trunc: itrunc; Fs.Icache: iinit,
--                                         ialloc, iget, idup, iput, iunlockput; Fs.Dir:
--                                         namecmp, dirlookup, dirlink; Fs.Path: skipelem;
--                                         Fs.Namex: namex
--   file.c (open files)                   File: filealloc, filedup, fileclose (drop_ref,
--                                         release_file), filestat, fileread, filewrite
--   pipe.c (pipes)                        Pipe: pipewrite, piperead, pipeclose
--   proc.c, proc.h (processes)            Proc: allocproc (claim_slot, give_stack), userinit,
--                                         fork; Proc.Making: the steps of their parts; Proc.Life:
--                                         exit, wait,
--                                         kill, sleep, wakeup, yield, growproc, sched's checks,
--                                         scheduler
--   sysfile.c (descriptors)               Sysfile: argfd, fdalloc, sys_dup, sys_close
--   syscall.c (system calls)              Syscall: fetchint, fetchstr, argint, argptr, argstr,
--                                         syscall
--   console.c (console input)             Console: consoleintr (key, kill_line), consoleread,
--                                         consolewrite, printint
--   ulib.c (user library)                 Ulib: strcpy, strcmp, strchr, strlen, gets, atoi,
--                                         memset, memmove
--   grep.c (a user program)               Grep: match, matchhere, matchstar, grep
-- Base holds what they share.
--
-- The parts meet as in the source: file.c calls pipes, inodes and the log through the record
-- File.Calls; namex reads directories through the record Fs.Namex.Tree, and lists its calls of the
-- inode cache in order; proc.c lists its calls of other parts as effects, and takes what they
-- return as arguments; the buffer cache uses the sleep locks; log.c runs over a store of a cache
-- and a disk, Log.Disk; the operations on inodes run over the bytes of the blocks as the cache has
-- them, and list the blocks that they give to log_write.
--
-- How the model stands to the code. A state is a record, a panic is `none` or a result of its own,
-- and -1 a result of its own. A pointer is an address, or an index into the array that it points
-- into. Code under a spin lock is one step, since the lock gives it the state alone (Lock); what
-- sleeps returns that it sleeps, with what is left to do, and is resumed on the state of that
-- time. Other processors and processes come in as any order of steps (Reach in each part). `uint`
-- arithmetic wraps at 2 ^ 32 where the code relies on it or could overflow: pipe counters, buffer
-- references, file offsets, the tests of addresses. A crash is a budget of disk writes: when it is
-- used up the disk stays as it is until the next boot. Where the code lets a lock go in the middle,
-- the parts are steps of their own, and what else runs may fall in between: end_op and commit
-- (Log.Turns), allocproc, fork and userinit (Proc.Making). Proc.fork and Proc.userinit are the
-- parts one after the other, with nothing in between. nextpid is an int: a step that takes a pid
-- is taken only while it does not overflow.
--
-- Fuel. The loop of namex has the length of the path and one more: a name takes a byte at least.
-- freerange has the end address and one more, and moves by a page. filewrite has n rounds, each
-- writing a byte at least. fetchstr has the bytes up to the end of the process. strlen, and the
-- searches of ulib.c, take their fuel from the caller. printint has its buffer of 16 bytes. ^U at
-- the console has the size of the buffer. balloc has the number of blocks of the disk, readi and
-- writei the number of bytes, since each round moves a block or a byte at least; a loop over the
-- entries of a directory has its size in bytes; the search of grep for lines has one step for each
-- byte of the buffer. The other loops go over a list or count down.
--
-- Not modelled: page tables and exec (vm.c, exec.c), the other system call handlers
-- (sysfile.c, sysproc.c), output on the screen (console.c, tui.c), the other user programs;
-- and what is hardware access only: traps, drivers, interrupt controllers, boot. Of struct fields, names of locks and
-- recorded call stacks are left out.
pub mod Base
pub mod Grep
pub mod Str
pub mod Lock
pub mod Sleeplock
pub mod Kalloc
pub mod Bio
pub mod Log
pub mod Fs
pub mod File
pub mod Pipe
pub mod Proc
pub mod Syscall
pub mod Sysfile
pub mod Console
pub mod Ulib
