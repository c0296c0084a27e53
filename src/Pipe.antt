-- ===== src/Pipe.antt =====
-- pipe.c: the ring of a pipe, and the two loops that fill and drain it under `p->lock`.
-- A call that sleeps returns `asleep` with what is left to do; the caller resumes it on the pipe
-- of that time, so every interleaving of calls is a sequence of these runs.
pub mod Ring
pub mod Calls
pub mod Stream
mod Tests
use boss_os.Base.{
  Bool, List, [], add32, false, get_or, if◌then◌else◌, length, not, set, suc, true, zero, ℕ, ◌%◌,
  ◌&&◌, ◌+◌, ◌==◌, ◌||◌, ◌∷◌,
}

abbrev pub pipe_size : ℕ
pipe_size = 512

-- `struct pipe` less its lock.
pub record Pipe : Type 0 where
  pub buf : List ℕ
  pub nread : ℕ
  pub nwrite : ℕ
  pub readopen : Bool
  pub writeopen : Bool

-- The channels that `wakeup` and `sleep` name.
pub data Chan : Type 0 where
  on_nread on_nwrite : Chan

-- How a run under the lock ends: with the returned number, -1, or asleep.
pub data Outcome : Type 0 where
  done : ℕ → Outcome
  failed : Outcome
  asleep : Chan → List ℕ → Outcome

-- The page of a new pipe as `pipealloc` fills it in; `page` is what kalloc left there.
abbrev pub fresh_pipe : List ℕ → Pipe
fresh_pipe page = record { buf = page; nread = 0; nwrite = 0; readopen = true; writeopen = true }

-- `nwrite == nread + PIPESIZE`, in uint arithmetic.
pub is_full : Pipe → Bool
is_full p = p.nwrite == add32 p.nread pipe_size

pub is_empty : Pipe → Bool
is_empty p = p.nread == p.nwrite

-- `p->data[p->nwrite++ % PIPESIZE] = c`
pub put : Pipe → ℕ → Pipe
put p c = record p { buf = set p.buf (p.nwrite % pipe_size) c; nwrite = add32 p.nwrite 1 }

-- `p->data[p->nread++ % PIPESIZE]`
pub fetch : Pipe → ℕ × Pipe
fetch p = (get_or p.buf (p.nread % pipe_size) 0, record p { nread = add32 p.nread 1 })

-- What a run did: its end, the wakeups in order, and the pipe it leaves.
pub record Wrote : Type 0 where
  pub end : Outcome
  pub woken : List Chan
  pub pipe : Pipe

-- The `for` loop of pipewrite from `addr + i`, with the number of bytes already written. On a
-- full ring it fails, or wakes the readers and sleeps.
pub write_from : (killed : Bool) → Pipe → ℕ → List ℕ → Wrote
write_from killed p i [] = record { end = Outcome.done i; woken = Chan.on_nread ∷ []; pipe = p }
write_from killed p i (c ∷ cs) =
    if is_full p
    then (if not p.readopen || killed
        then record { end = Outcome.failed; woken = []; pipe = p }
        else record {
          end = Outcome.asleep Chan.on_nwrite (c ∷ cs);
          woken = Chan.on_nread ∷ [];
          pipe = p;
        })
    else write_from killed (put p c) (i + 1) cs

-- `pipewrite(p, addr, n)` on the `n` bytes of `addr`.
pub pipewrite : (killed : Bool) → Pipe → List ℕ → Wrote
pipewrite killed p addr = write_from killed p 0 addr

pub record Got : Type 0 where
  pub end : Outcome
  pub bytes : List ℕ
  pub woken : List Chan
  pub pipe : Pipe

-- The copying loop of piperead, with `n - i` rounds left.
pub copy_out : ℕ → Pipe → List ℕ × Pipe
copy_out zero p = ([], p)
copy_out (suc n) p =
    let (c, p') = fetch p in
    let (cs, p'') = copy_out n p' in if is_empty p then ([], p) else (c ∷ cs, p'')

pub piperead : (killed : Bool) → Pipe → ℕ → Got
piperead killed p n =
    if is_empty p && p.writeopen
    then (if killed
        then record { end = Outcome.failed; bytes = []; woken = []; pipe = p }
        else record { end = Outcome.asleep Chan.on_nread []; bytes = []; woken = []; pipe = p })
    else (let (cs, p') = copy_out n p in
        record {
          end = Outcome.done (length cs);
          bytes = cs;
          woken = Chan.on_nwrite ∷ [];
          pipe = p';
        })

-- `pipeclose`: the end that closes wakes the other; the last tells to free the page.
pub record Closed : Type 0 where
  pub woken : List Chan
  pub pipe : Pipe
  pub freed : Bool

pub pipeclose : Pipe → (writable : Bool) → Closed
pipeclose p writable =
    let p' = (if writable then record p { writeopen = false } else record p { readopen = false }) in
    record {
      woken = (if writable then Chan.on_nread else Chan.on_nwrite) ∷ [];
      pipe = p';
      freed = not p'.readopen && not p'.writeopen;
    }
