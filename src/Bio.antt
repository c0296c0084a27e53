-- ===== src/Bio.antt =====
-- bio.c: the buffer cache. The doubly linked list is a list of buffers, the most recently used one
-- first; a pointer to a buffer is its index in `bcache.buf`.
pub mod Copies
pub mod Cache
mod Tests
use boss_os.Base.{
  Bool, List, Option, [], add32, false, if◌then◌else◌, none, not, some, sub32, suc, zero, ℕ, ◌&&◌,
  ◌==◌, ◌∷◌,
}
use boss_os.Sleeplock.{Sleeplock, holdingsleep, initsleeplock, releasesleep}

-- `struct buf`; `valid` and `dirty` are B_VALID and B_DIRTY of `flags`.
pub record Buf : Type 0 where
  pub id : ℕ
  pub dev : ℕ
  pub blockno : ℕ
  pub valid : Bool
  pub dirty : Bool
  pub refcnt : ℕ
  pub lock : Sleeplock
  pub bytes : List ℕ

abbrev pub nbuf : ℕ
nbuf = 30

abbrev pub new_buf : ℕ → Buf
new_buf i = record {
  id = i;
  dev = 0;
  blockno = 0;
  valid = false;
  dirty = false;
  refcnt = 0;
  lock = initsleeplock;
  bytes = [];
}

-- The list that binit builds, each buffer in front of the ones before.
unfoldable pub chain : ℕ → List Buf
chain zero = []
chain (suc i) = new_buf i ∷ chain i

abbrev pub binit : List Buf
binit = chain nbuf

abbrev pub is_block : (dev blockno : ℕ) → Buf → Bool
is_block dev blockno b = (b.dev == dev) && (b.blockno == blockno)

abbrev pub keep : Buf → Option (ℕ × List Buf) → Option (ℕ × List Buf)
keep b none = none
keep b (some (i, bs)) = some (i, b ∷ bs)

-- The first loop of bget, from the front: the buffer that holds the block gets a reference.
unfoldable pub find_cached : (dev blockno : ℕ) → List Buf → Option (ℕ × List Buf)
find_cached dev blockno [] = none
find_cached dev blockno (b ∷ bs) =
    if is_block dev blockno b
    then some (b.id, record b { refcnt = add32 b.refcnt 1 } ∷ bs)
    else keep b (find_cached dev blockno bs)

abbrev pub is_unused : Buf → Bool
is_unused b = (b.refcnt == 0) && not b.dirty

abbrev pub renew : (dev blockno : ℕ) → Buf → Buf
renew dev blockno b = record b {
  dev = dev;
  blockno = blockno;
  valid = false;
  dirty = false;
  refcnt = 1;
}

abbrev pub or_here :
    (dev blockno : ℕ) → Buf → List Buf → Option (ℕ × List Buf) → Option (ℕ × List Buf)
or_here dev blockno b bs none = if is_unused b then some (b.id, renew dev blockno b ∷ bs) else none
or_here dev blockno b bs (some (i, bs')) = some (i, b ∷ bs')

-- The second loop, from the back: the last buffer that is not in use.
unfoldable pub recycle : (dev blockno : ℕ) → List Buf → Option (ℕ × List Buf)
recycle dev blockno [] = none
recycle dev blockno (b ∷ bs) = or_here dev blockno b bs (recycle dev blockno bs)

abbrev pub or_recycle : (dev blockno : ℕ) → List Buf → Option (ℕ × List Buf) → Option (ℕ × List Buf)
or_recycle dev blockno bs none = recycle dev blockno bs
or_recycle dev blockno bs (some r) = some r

-- bget up to its acquiresleep; `none` is the panic.
unfoldable pub bget : (dev blockno : ℕ) → List Buf → Option (ℕ × List Buf)
bget dev blockno bs = or_recycle dev blockno bs (find_cached dev blockno bs)

-- The part of brelse under the lock of the cache: the buffer loses a reference, and without one it
-- leaves the list.
unfoldable pub unlink : (i : ℕ) → List Buf → Option Buf × List Buf
unlink i [] = (none, [])
unlink i (b ∷ bs) =
    let b' = record b { refcnt = sub32 b.refcnt 1; lock = releasesleep b.lock } in
    let (front, rest) = unlink i bs in
    if b.id == i
    then (if sub32 b.refcnt 1 == 0 then (some b', bs) else (none, b' ∷ bs))
    else (front, b ∷ rest)

abbrev pub to_front : Option Buf × List Buf → List Buf
to_front (none, bs) = bs
to_front (some b, bs) = b ∷ bs

-- The lock of the buffer.
abbrev pub lock_of : ℕ → List Buf → Sleeplock
lock_of i [] = initsleeplock
lock_of i (b ∷ bs) = if b.id == i then b.lock else lock_of i bs

-- `none` is the panic.
unfoldable pub brelse : (me i : ℕ) → List Buf → Option (List Buf)
brelse me i bs = if holdingsleep me (lock_of i bs) then some (to_front (unlink i bs)) else none
