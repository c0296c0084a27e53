-- ===== src/Pipe/Calls.antt =====
-- pipewrite and piperead as operations on the queue that the ring holds.
use boss_os.Base.{
  Bool, Bool-cases, List, [], arith, false, if◌then◌else◌, inl, inr, length, min, refl, true, ℕ,
  ◌&&◌, ◌++◌, ◌==◌, ◌∷◌, ◌≡◌,
}
use boss_os.Pipe.{Chan, Got, Outcome, Pipe, copy_out, is_empty, piperead, pipewrite}
use boss_os.Pipe.Ring.{
  IsRing, SameEnds, WriteSpec, contents, copy_out-CopySpec, used, write_from-WriteSpec,
}

-- pipewrite keeps the ring well formed and its ends as they are, appends to the queue exactly the
-- leading bytes of `addr` that fit in what is left of the 512, and ends: with `n` if all fit, else
-- with -1 if the read end is closed or the process was killed, else asleep on `nwrite` with
-- exactly the bytes that did not fit left to write.
pub pipewrite-WriteSpec :
    (killed : Bool) (p : Pipe) (addr : List ℕ)
    → IsRing p
    → WriteSpec killed p 0 addr (pipewrite killed p addr)
unfolding pipewrite
pipewrite-WriteSpec killed p addr v = write_from-WriteSpec killed p 0 addr v

abbrev pub read_end : (killed writeopen : Bool) → (n used : ℕ) → Outcome
read_end killed writeopen n k =
    if (k == 0) && writeopen
    then (if killed then Outcome.failed else Outcome.asleep Chan.on_nread [])
    else Outcome.done (min n k)

pub record ReadSpec (killed : Bool) (p : Pipe) (n : ℕ) (g : Got) : Type 0 where
  pub ring : IsRing g.pipe
  pub ends : SameEnds g.pipe p
  pub queue : contents p ≡ g.bytes ++ contents g.pipe
  pub count : length g.bytes ≡ min n (used p)
  pub outcome : g.end ≡ read_end killed p.writeopen n (used p)

is_empty-used : (p : Pipe) → IsRing p → is_empty p ≡ (used p == 0)
unfolding is_empty
is_empty-used p v = ground arith

piperead-runs :
    (killed : Bool) (p : Pipe) (n : ℕ)
    → (is_empty p && p.writeopen) ≡ false
    → let (cs, p') = copy_out n p in
      piperead killed p n ≡ record {
        end = Outcome.done (length cs);
        bytes = cs;
        woken = Chan.on_nwrite ∷ [];
        pipe = p';
      }
unfolding piperead
piperead-runs killed p n go = rw go

piperead-waits :
    (killed : Bool) (p : Pipe) (n : ℕ)
    → IsRing p
    → (is_empty p && p.writeopen) ≡ true
    → ReadSpec killed p n (piperead killed p n)
unfolding piperead
piperead-waits true p n v wait =
    let none_used : used p ≡ 0 = ground (arith, is_empty-used p v) in
    let open_ : p.writeopen ≡ true = ground arith in
    rw wait (record {
      ring = v;
      ends = (refl, refl);
      queue = refl;
      count = rw none_used (omega arith);
      outcome = rw (none_used, open_) refl;
    })
piperead-waits false p n v wait =
    let none_used : used p ≡ 0 = ground (arith, is_empty-used p v) in
    let open_ : p.writeopen ≡ true = ground arith in
    rw wait (record {
      ring = v;
      ends = (refl, refl);
      queue = refl;
      count = rw none_used (omega arith);
      outcome = rw (none_used, open_) refl;
    })

-- piperead keeps the ring well formed and its ends as they are, takes min(n, queue length) bytes
-- off the front of the queue in order, and ends: on an empty queue with the write end open with
-- -1 if the process was killed and asleep on `nread` if not, and else with the number of bytes
-- taken.
pub piperead-ReadSpec :
    (killed : Bool) (p : Pipe) (n : ℕ) → IsRing p → ReadSpec killed p n (piperead killed p n)
piperead-ReadSpec killed p n v = elim (Bool-cases (is_empty p && p.writeopen)) [
  | inl wait ↦ piperead-waits killed p n v wait
  | inr go ↦
      let r = copy_out-CopySpec n p v in
      rw (piperead-runs killed p n go) (record {
        ring = r.ring;
        ends = r.ends;
        queue = r.queue;
        count = r.count;
        outcome = rw (r.count, ← is_empty-used p v, go) refl;
      })
]
