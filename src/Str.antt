-- ===== src/Str.antt =====
-- string.c: the kernel's operations on bytes in memory. A pointer is an address, and the memory
-- gives a byte at each address; the ranges do not run past the end of the address space.
pub mod Move
pub mod Copy
mod Tests
use boss_os.Base.{
  Option, if◌then◌else◌, leb, ltb, none, not, some, suc, update, zero, ℕ, ◌%◌, ◌&&◌, ◌+◌, ◌-◌, ◌==◌,
}

abbrev pub Memory : Type 0
Memory = ℕ → ℕ

-- What a comparison returns: a - b of two unsigned bytes.
pub data Diff : Type 0 where
  plus : ℕ → Diff
  minus : ℕ → Diff

abbrev pub diff : ℕ → ℕ → Diff
diff a b = if leb b a then Diff.plus (a - b) else Diff.minus (b - a)

-- memset, whose two assembly loops store the same byte `n` times.
pub memset : (dst c n : ℕ) → Memory → Memory
memset dst c zero m = m
memset dst c (suc n) m = memset (dst + 1) c n (update m dst (c % 256))

-- The loop of memmove that copies upwards.
unfoldable pub copy_up : (d s n : ℕ) → Memory → Memory
copy_up d s zero m = m
copy_up d s (suc n) m = copy_up (d + 1) (s + 1) n (update m d (m s))

-- The loop that copies downwards: with `n + 1` bytes left the next one is at offset `n`.
unfoldable pub copy_down : (d s n : ℕ) → Memory → Memory
copy_down d s zero m = m
copy_down d s (suc n) m = copy_down d s n (update m (d + n) (m (s + n)))

unfoldable pub memmove : (dst src n : ℕ) → Memory → Memory
memmove dst src n m =
    if ltb src dst && ltb dst (src + n) then copy_down dst src n m else copy_up dst src n m

pub memcmp : (v1 v2 n : ℕ) → Memory → Diff
memcmp v1 v2 zero m = Diff.plus 0
memcmp v1 v2 (suc n) m =
    let rest = memcmp (v1 + 1) (v2 + 1) n m in if m v1 == m v2 then rest else diff (m v1) (m v2)

unfoldable pub strncmp : (p q n : ℕ) → Memory → Diff
strncmp p q zero m = Diff.plus 0
strncmp p q (suc n) m =
    let rest = strncmp (p + 1) (q + 1) n m in
    if not (m p == 0) && (m p == m q) then rest else diff (m p) (m q)

-- The second loop of strncpy: the rest of the buffer is zeroed.
unfoldable pub zero_fill : (s n : ℕ) → Memory → Memory
zero_fill s zero m = m
zero_fill s (suc n) m = zero_fill (s + 1) n (update m s 0)

unfoldable pub strncpy : (s t n : ℕ) → Memory → Memory
strncpy s t zero m = m
strncpy s t (suc n) m =
    let m' = update m s (m t) in
    let more = strncpy (s + 1) (t + 1) n m' in if m t == 0 then zero_fill (s + 1) n m' else more

-- The loop of safestrcpy with `n` bytes left after the decrement, and the 0 that ends it. On a 0
-- of `t` the pointer has moved on, so a second 0 follows the first.
pub safe_copy : (s t n : ℕ) → Memory → Memory
safe_copy s t zero m = update m s 0
safe_copy s t (suc n) m =
    let m' = update m s (m t) in
    let more = safe_copy (s + 1) (t + 1) n m' in if m t == 0 then update m' (s + 1) 0 else more

pub safestrcpy : (s t n : ℕ) → Memory → Memory
safestrcpy s t zero m = m
safestrcpy s t (suc n) m = safe_copy s t n m

-- strlen, with fuel for the bytes that it may look at.
unfoldable pub strlen_from : (fuel s n : ℕ) → Memory → Option ℕ
strlen_from zero s n m = none
strlen_from (suc k) s n m =
    let more = strlen_from k s (n + 1) m in if m (s + n) == 0 then some n else more

unfoldable pub strlen : (fuel s : ℕ) → Memory → Option ℕ
strlen fuel s m = strlen_from fuel s 0 m
