-- ===== src/Pipe/Stream.antt =====
-- A pipe shared by writers and readers that run in any order: it is a byte stream.
use boss_os.Base.{
  Bool, List, [], ap, append_assoc, arith, false, length, refl, sym, take, true, ℕ, ◌++◌, ◌-◌, ◌∙◌,
  ◌≡◌, ◌≤◌,
}
use boss_os.Pipe.{Pipe, fresh_pipe, pipe_size, pipeclose, piperead, write_from}
use boss_os.Pipe.Ring.{IsRing, contents, length-contents, used, write_from-WriteSpec}
use boss_os.Pipe.Calls.{piperead-ReadSpec}

-- The pipe with all that went into it and all that came out so far.
pub record Traffic : Type 0 where
  pub pipe : Pipe
  pub sent : List ℕ
  pub received : List ℕ

-- The bytes of `cs` that a run of the write loop stores.
abbrev pub accepted : Pipe → List ℕ → List ℕ
accepted p cs = take (pipe_size - used p) cs

-- One run under the lock: a write (new, or resumed after `i` bytes), a read, or a close.
pub data Step : Traffic → Traffic → Type 0 where
  write :
      (s : Traffic) (killed : Bool) (i : ℕ) (cs : List ℕ)
      → Step s (record {
        pipe = (write_from killed s.pipe i cs).pipe;
        sent = s.sent ++ accepted s.pipe cs;
        received = s.received;
      })
  read :
      (s : Traffic) (killed : Bool) (n : ℕ)
      → Step s (record {
        pipe = (piperead killed s.pipe n).pipe;
        sent = s.sent;
        received = s.received ++ (piperead killed s.pipe n).bytes;
      })
  close :
      (s : Traffic) (writable : Bool)
      → Step s (record s { pipe = (pipeclose s.pipe writable).pipe })

pub data Reach (s : Traffic) : Traffic → Type 0 where
  here : Reach s s
  next : {t u : Traffic} → Reach s t → Step t u → Reach s u

abbrev pub fresh_traffic : List ℕ → Traffic
fresh_traffic page = record { pipe = fresh_pipe page; sent = []; received = [] }

pub record InOrder (s : Traffic) : Type 0 where
  pub ring : IsRing s.pipe
  pub stream : s.sent ≡ s.received ++ contents s.pipe

pipeclose-IsRing :
    (p : Pipe) (w : Bool)
    → IsRing p
    → IsRing (pipeclose p w).pipe × (contents (pipeclose p w).pipe ≡ contents p)
unfolding pipeclose
pipeclose-IsRing p true v = (
  record {
    storage = v.storage;
    read_word = v.read_word;
    write_word = v.write_word;
    bounded = v.bounded;
  },
  refl,
)
pipeclose-IsRing p false v = (
  record {
    storage = v.storage;
    read_word = v.read_word;
    write_word = v.write_word;
    bounded = v.bounded;
  },
  refl,
)

Step-InOrder : {s t : Traffic} → Step s t → InOrder s → InOrder t
Step-InOrder (write s killed i cs) inv =
    let w = write_from-WriteSpec killed s.pipe i cs inv.ring in
    record {
      ring = w.ring;
      stream =
          ap (λ l. l ++ accepted s.pipe cs) inv.stream
          ∙ append_assoc s.received (contents s.pipe) (accepted s.pipe cs)
          ∙ ap (λ l. s.received ++ l) (sym w.queue);
    }
Step-InOrder (read s killed n) inv =
    let r = piperead-ReadSpec killed s.pipe n inv.ring in
    record {
      ring = r.ring;
      stream =
          inv.stream
          ∙ ap (λ l. s.received ++ l) r.queue
          ∙ sym (
              append_assoc s.received (piperead killed s.pipe n).bytes
                (contents (piperead killed s.pipe n).pipe));
    }
Step-InOrder (close s w) inv =
    let (v, same) = pipeclose-IsRing s.pipe w inv.ring in
    record { ring = v; stream = inv.stream ∙ ap (λ l. s.received ++ l) (sym same) }

Reach-InOrder : {s t : Traffic} → Reach s t → InOrder s → InOrder t
Reach-InOrder here inv = inv
Reach-InOrder (next r st) inv = Step-InOrder st (Reach-InOrder r inv)

-- From a new pipe, after any sequence of write, read and close runs in any order, the bytes
-- received, followed by the at most 512 bytes still in the ring, are exactly the bytes stored, in
-- order: nothing is lost, duplicated or reordered, also when the 32-bit counters wrap.
pub Reach-in_order :
    (page : List ℕ) {s : Traffic}
    → length page ≡ pipe_size
    → Reach (fresh_traffic page) s
    → (s.sent ≡ s.received ++ contents s.pipe) × (length (contents s.pipe) ≤ pipe_size)
Reach-in_order page {s} h r =
    let inv = Reach-InOrder r (record { ring = omega arith; stream = refl }) in
    (inv.stream, rw (length-contents s.pipe) inv.ring.bounded)
