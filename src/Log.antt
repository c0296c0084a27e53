-- ===== src/Log.antt =====
-- log.c: the redo log. `lh` is the in-memory header: the numbers of the logged blocks, whose
-- length is `lh.n`. A function that panics returns `none`.
pub mod Disk
pub mod Loops
pub mod Crash
pub mod Commit
pub mod Budget
pub mod Turns
pub mod Sound
pub mod Reserve
mod Tests
use boss_os.Base.{
  Bool, List, Option, [], false, if◌then◌else◌, leb, length, ltb, none, some, suc, true, update,
  zero, ℕ, ◌*◌, ◌+◌, ◌-◌, ◌==◌, ◌||◌, ◌∷◌,
}
use Disk.{Block, Store, bread, bwrite, reboot}

abbrev pub max_op_blocks : ℕ
max_op_blocks = 10

abbrev pub log_size : ℕ
log_size = max_op_blocks * 3

-- `struct log` less its lock and device, with the disk that it writes.
pub record Log : Type 0 where
  pub start : ℕ
  pub size : ℕ
  pub outstanding : ℕ
  pub committing : Bool
  pub lh : List ℕ
  pub store : Store

-- The loop of install_trans from `tail` on, over `lh.block[tail ..]`.
pub install_from : (start tail : ℕ) → List ℕ → Store → Store
install_from start tail [] s = s
install_from start tail (b ∷ bs) s =
    install_from start (tail + 1) bs (bwrite s b (bread s (start + tail + 1)))

pub install_trans : (start : ℕ) → List ℕ → Store → Store
install_trans start lh s = install_from start 0 lh s

-- The loop of read_head: words `i + 1 ..` of the header block, `n` of them.
pub read_blocks : ℕ → ℕ → Block → List ℕ
read_blocks zero i hb = []
read_blocks (suc n) i hb = hb (i + 1) ∷ read_blocks n (i + 1) hb

pub read_head : ℕ → Store → List ℕ
read_head start s = let hb = bread s start in read_blocks (hb 0) 0 hb

-- The loop of write_head from `i` on.
pub write_blocks : ℕ → List ℕ → Block → Block
write_blocks i [] hb = hb
write_blocks i (b ∷ bs) hb = write_blocks (i + 1) bs (update hb (i + 1) b)

pub write_head : ℕ → List ℕ → Store → Store
write_head start lh s = bwrite s start (write_blocks 0 lh (update (bread s start) 0 (length lh)))

-- The loop of write_log from `tail` on.
pub write_log_from : (start tail : ℕ) → List ℕ → Store → Store
write_log_from start tail [] s = s
write_log_from start tail (b ∷ bs) s =
    write_log_from start (tail + 1) bs (bwrite s (start + tail + 1) (bread s b))

pub write_log : (start : ℕ) → List ℕ → Store → Store
write_log start lh s = write_log_from start 0 lh s

pub recover_from_log : (start : ℕ) → Store → Store
recover_from_log start s = write_head start [] (install_trans start (read_head start s) s)

-- initlog, with `logstart` and `nlog` of the super block.
pub initlog : (logstart nlog : ℕ) → Store → Log
initlog logstart nlog s = record {
  start = logstart;
  size = nlog;
  outstanding = 0;
  committing = false;
  lh = [];
  store = recover_from_log logstart s;
}

pub commit : Log → Log
commit l =
    if ltb 0 (length l.lh)
    then (let s1 = write_log l.start l.lh l.store in
        let s2 = write_head l.start l.lh s1 in
        let s3 = install_trans l.start l.lh s2 in
        record l { lh = []; store = write_head l.start [] s3 })
    else l

-- One round of begin_op under the lock: `none` is asleep on the log, to try again.
pub begin_op : Log → Option Log
begin_op l =
    if l.committing
    then none
    else (if ltb log_size (length l.lh + (l.outstanding + 1) * max_op_blocks)
        then none
        else some (record l { outstanding = l.outstanding + 1 }))

-- How the first locked part of end_op ends; after `last`, commit runs without the lock, and then
-- `reopen`. With no operation outstanding the C count would turn
-- negative; the model stops there.
pub data Ending : Type 0 where
  panics unbalanced : Ending
  others : Log → Ending
  last : Log → Ending

pub leave : Log → Ending
leave l =
    if l.outstanding == 0
    then Ending.unbalanced
    else (if l.committing
        then Ending.panics
        else (if l.outstanding - 1 == 0
            then Ending.last (record l { outstanding = l.outstanding - 1; committing = true })
            else Ending.others (record l { outstanding = l.outstanding - 1 })))

-- How end_op ends when it has committed, under the lock again.
abbrev pub reopen : Log → Log
reopen l = record l { committing = false }

-- The search loop of log_write and the store into the slot it stops at.
pub absorb : ℕ → List ℕ → List ℕ
absorb b [] = b ∷ []
absorb b (x ∷ xs) = if x == b then b ∷ xs else x ∷ absorb b xs

-- log_write of a block whose new contents are in the cache already.
pub log_write : ℕ → Log → Option Log
log_write b l =
    if leb log_size (length l.lh) || leb (l.size - 1) (length l.lh)
    then none
    else (if ltb l.outstanding 1 then none else some (record l { lh = absorb b l.lh }))
