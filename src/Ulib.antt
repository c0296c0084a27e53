-- ===== src/Ulib.antt =====
-- ulib.c: the library of the user programs, on a memory of bytes.
pub mod Decimal
pub mod Line
mod Tests
use boss_os.Base.{
  Bool, List, Option, [], if◌then◌else◌, leb, max, none, not, some, suc, u32_mod, update, zero, ℕ,
  ◌%◌, ◌&&◌, ◌*◌, ◌+◌, ◌-◌, ◌==◌, ◌||◌, ◌∷◌,
}
use boss_os.Str.{Diff, Memory, diff}

-- strcpy, with fuel for the bytes of `t` and its 0; `none` when there is no 0 among them.
pub strcpy : (fuel s t : ℕ) → Memory → Option Memory
strcpy zero s t m = none
strcpy (suc k) s t m =
    let m' = update m s (m t) in
    let more = strcpy k (s + 1) (t + 1) m' in if m t == 0 then some m' else more

pub strcmp : (fuel p q : ℕ) → Memory → Option Diff
strcmp zero p q m = none
strcmp (suc k) p q m =
    let more = strcmp k (p + 1) (q + 1) m in
    if not (m p == 0) && (m p == m q) then more else some (diff (m p) (m q))

-- strchr, 0 for the null pointer.
pub strchr : (fuel s c : ℕ) → Memory → Option ℕ
strchr zero s c m = none
strchr (suc k) s c m =
    let more = strchr k (s + 1) c m in
    if m s == 0 then some 0 else (if m s == c then some s else more)

-- The loop of gets with room for `k` more bytes, on the bytes that read gives before it returns
-- less than 1, and the 0 that ends the line.
unfoldable pub gets_from : (k at : ℕ) → List ℕ → Memory → Memory
gets_from zero at cs m = update m at 0
gets_from (suc k) at [] m = update m at 0
gets_from (suc k) at (c ∷ cs) m =
    let m' = update m at c in
    let more = gets_from k (at + 1) cs m' in
    if (c == 10) || (c == 13) then update m' (at + 1) 0 else more

unfoldable pub gets : (buf max : ℕ) → List ℕ → Memory → Memory
gets buf max cs m = gets_from (max - 1) buf cs m

abbrev pub is_digit : ℕ → Bool
is_digit c = leb b'0' c && leb c b'9'

-- The loop of atoi over the bytes of the string; an int is a word of 32 bits.
unfoldable pub atoi_from : (n : ℕ) → List ℕ → ℕ
atoi_from n [] = n
atoi_from n (c ∷ cs) =
    let more = atoi_from ((n * 10 + c - b'0') % u32_mod) cs in if is_digit c then more else n

unfoldable pub atoi : List ℕ → ℕ
atoi cs = atoi_from 0 cs

-- memmove of the library, which always copies upwards.
pub memmove : (vdst vsrc n : ℕ) → Memory → Memory
memmove vdst vsrc zero m = m
memmove vdst vsrc (suc n) m = memmove (vdst + 1) (vsrc + 1) n (update m vdst (m vsrc))

pub strlen_from : (fuel s n : ℕ) → Memory → Option ℕ
strlen_from zero s n m = none
strlen_from (suc k) s n m =
    let more = strlen_from k s (n + 1) m in if m (s + n) == 0 then some n else more

pub strlen : (fuel s : ℕ) → Memory → Option ℕ
strlen fuel s m = strlen_from fuel s 0 m

pub memset : (dst c n : ℕ) → Memory → Memory
memset dst c zero m = m
memset dst c (suc n) m = memset (dst + 1) c n (update m dst (c % 256))
