-- ===== src/Console.antt =====
-- console.c: the line discipline. Each function runs under cons.lock. `input.buf` is a ring of
-- bytes with three counters that wrap at 2 ^ 32: read, write (the end of the last whole line) and
-- edit.
pub mod Window
mod Tests
use boss_os.Base.{
  Bool, List, [], add32, false, get_or, if◌then◌else◌, leb, ltb, not, set, sub32, suc, true,
  u32_mod, zero, ℕ, ◌%◌, ◌&&◌, ◌++◌, ◌+◌, ◌-◌, ◌/◌, ◌==◌, ◌^◌, ◌||◌, ◌∷◌,
}

abbrev pub input_buf : ℕ
input_buf = 128

pub record Input : Type 0 where
  pub buf : List ℕ
  pub r : ℕ
  pub w : ℕ
  pub e : ℕ

-- `digits[d]`
abbrev pub digit : ℕ → ℕ
digit d = if ltb d 10 then b'0' + d else b'a' + d - 10

-- The first loop of printint: the buffer, the lowest digit first, with fuel for its 16 bytes.
unfoldable pub fill : (fuel x base : ℕ) → List ℕ
fill zero x base = []
fill (suc k) x base =
    let more = fill k (x / base) base in digit (x % base) ∷ (if x / base == 0 then [] else more)

-- The last loop: the buffer from its end.
unfoldable pub backwards : List ℕ → List ℕ
backwards [] = []
backwards (c ∷ cs) = backwards cs ++ c ∷ []

-- printint on the word `xx`, an int that is negative when its top bit is set: the bytes in the
-- order of consputc.
unfoldable pub printint : (xx base : ℕ) → (sign : Bool) → List ℕ
printint xx base sign =
    if sign && leb (2 ^ 31) xx
    then b'-' ∷ backwards (fill 15 (u32_mod - xx) base)
    else backwards (fill 16 xx base)

-- What consputc is called with.
pub data Echo : Type 0 where
  backspace : Echo
  char : ℕ → Echo

-- C(x)
abbrev pub ctrl : ℕ → ℕ
ctrl x = x - b'@'

-- The input after a key, what was echoed, and whether the readers were woken.
pub record Typed : Type 0 where
  pub input : Input
  pub echo : List Echo
  pub woken : Bool

abbrev pub add_echo : Echo → Typed → Typed
add_echo c t = record t { echo = c ∷ t.echo }

-- The loop of ^U, with fuel for the bytes that are edited.
unfoldable pub kill_line : (fuel : ℕ) → Input → Typed
kill_line zero s = record { input = s; echo = []; woken = false }
kill_line (suc k) s =
    let more = add_echo Echo.backspace (kill_line k (record s { e = sub32 s.e 1 })) in
    if not (s.e == s.w) && not (get_or s.buf (sub32 s.e 1 % input_buf) 0 == 10)
    then more
    else record { input = s; echo = []; woken = false }

-- `input.buf[input.e++ % INPUT_BUF] = c`
abbrev pub put : ℕ → Input → Input
put c s = record s { buf = set s.buf (s.e % input_buf) c; e = add32 s.e 1 }

-- The default case, on a byte that fits.
unfoldable pub accept : ℕ → Input → Typed
accept c s =
    let s' = put c s in
    if (c == 10) || ((c == ctrl b'D') || (s'.e == add32 s'.r input_buf))
    then record { input = record s' { w = s'.e }; echo = Echo.char c ∷ []; woken = true }
    else record { input = s'; echo = Echo.char c ∷ []; woken = false }

-- One key, less ^P.
unfoldable pub key : ℕ → Input → Typed
key c s =
    if c == ctrl b'U'
    then kill_line input_buf s
    else (if (c == ctrl b'H') || (c == 127)
        then (if s.e == s.w then record { input = s; echo = []; woken = false } else record {
          input = record s { e = sub32 s.e 1 };
          echo = Echo.backspace ∷ [];
          woken = false;
        })
        else (if not (c == 0) && ltb (sub32 s.e s.r) input_buf
            then accept (if c == 13 then 10 else c) s
            else record { input = s; echo = []; woken = false }))

-- consoleintr on the keys that getc gives before a negative number, with its flag `doprocdump`.
unfoldable pub consoleintr : List ℕ → Bool → Input → Input × Bool
consoleintr [] dump s = (s, dump)
consoleintr (c ∷ cs) dump s =
    if c == ctrl b'P' then consoleintr cs true s else consoleintr cs dump (key c s).input

-- How a run of consoleread ends: with the bytes copied, with -1, or asleep on `input.r`.
pub data ReadEnd : Type 0 where
  done failed asleep : ReadEnd

pub record Read : Type 0 where
  pub end : ReadEnd
  pub bytes : List ℕ
  pub input : Input

abbrev pub add_byte : ℕ → Read → Read
add_byte c x = record x { bytes = c ∷ x.bytes }

-- The loop of consoleread with `n` bytes to go; `started` is `n < target`.
unfoldable pub read_loop : (killed : Bool) → (n : ℕ) → (started : Bool) → Input → Read
read_loop killed zero started s = record { end = ReadEnd.done; bytes = []; input = s }
read_loop killed (suc n) started s =
    let c = get_or s.buf (s.r % input_buf) 0 in
    let s' = record s { r = add32 s.r 1 } in
    let more = add_byte c (read_loop killed n true s') in
    if s.r == s.w
    then record { end = if killed then ReadEnd.failed else ReadEnd.asleep; bytes = []; input = s }
    else (if c == ctrl b'D'
        then record {
          end = ReadEnd.done;
          bytes = [];
          input = if started then record s' { r = sub32 s'.r 1 } else s';
        }
        else (if c == 10 then record { end = ReadEnd.done; bytes = c ∷ []; input = s' } else more))

unfoldable pub consoleread : (killed : Bool) → (n : ℕ) → Input → Read
consoleread killed n s = read_loop killed n false s

-- consolewrite between the unlock and the lock of the inode: what is shown, and the length.
pub consolewrite : List ℕ → List Echo × ℕ
consolewrite [] = ([], 0)
consolewrite (c ∷ cs) = let (es, n) = consolewrite cs in (Echo.char (c % 256) ∷ es, n + 1)
