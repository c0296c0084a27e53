-- ===== src/Kalloc.antt =====
-- kalloc.c: the free list of physical pages, threaded through the pages themselves. The lock is
-- held for the whole of each change of the list, or not needed yet.
pub mod FreeList
pub mod Range
pub mod Owners
mod Tests
use boss_os.Base.{
  Bool, Option, false, if◌then◌else◌, leb, ltb, none, not, some, sub32, suc, true, update, zero, ℕ,
  ◌%◌, ◌&&◌, ◌*◌, ◌+◌, ◌/◌, ◌==◌, ◌||◌,
}

abbrev pub page_size : ℕ
page_size = 4096

abbrev pub kern_base : ℕ
kern_base = 0x8000_0000

abbrev pub phys_stop : ℕ
phys_stop = 0xE00_0000

-- `kmem`, with the words of memory: `mem v` is the `next` of a free page at `v`. 0 is the null
-- pointer.
pub record Kmem : Type 0 where
  pub freelist : ℕ
  pub use_lock : Bool
  pub mem : ℕ → ℕ

-- memset(v, 1, PGSIZE), seen by words.
abbrev pub junk : ℕ → (ℕ → ℕ) → ℕ → ℕ
junk v m a = if leb v a && ltb a (v + page_size) then 0x0101_0101 else m a

-- The test of kfree; `end` is the first address after the kernel. V2P wraps.
abbrev pub bad_page : (end v : ℕ) → Bool
bad_page end v = not (v % page_size == 0) || (ltb v end || leb phys_stop (sub32 v kern_base))

-- `none` is the panic.
pub kfree : (end v : ℕ) → Kmem → Option Kmem
kfree end v k =
    if bad_page end v
    then none
    else some (record k { freelist = v; mem = update (junk v k.mem) v k.freelist })

-- The page, 0 if there is none.
unfoldable pub kalloc : Kmem → ℕ × Kmem
kalloc k =
    if k.freelist == 0 then (0, k) else (k.freelist, record k { freelist = k.mem k.freelist })

-- PGROUNDUP
abbrev pub page_round_up : ℕ → ℕ
page_round_up a = (a + 4095) / 4096 * 4096

abbrev pub bind : Option Kmem → (Kmem → Option Kmem) → Option Kmem
bind none f = none
bind (some k) f = f k

-- The loop of freerange, with fuel for the pages.
pub free_from : (fuel end p vend : ℕ) → Kmem → Option Kmem
free_from zero end p vend k = none
free_from (suc n) end p vend k =
    let more = bind (kfree end p k) (free_from n end (p + page_size) vend) in
    if leb (p + page_size) vend then more else some k

pub freerange : (end vstart vend : ℕ) → Kmem → Option Kmem
freerange end vstart vend k = free_from (vend + 1) end (page_round_up vstart) vend k

pub kinit1 : (end vstart vend : ℕ) → Kmem → Option Kmem
kinit1 end vstart vend k = freerange end vstart vend (record k { use_lock = false })

pub kinit2 : (end vstart vend : ℕ) → Kmem → Option Kmem
kinit2 end vstart vend k =
    bind (freerange end vstart vend k) (λ k'. some (record k' { use_lock = true }))
