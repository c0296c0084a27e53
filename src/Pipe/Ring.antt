-- ===== src/Pipe/Ring.antt =====
-- The ring of pipe.c holds a queue of at most 512 bytes, whatever the counters wrap to.
use boss_os.Base.{
  Bool, Bool-cases, List, [], add32, ap, append-nil, append_assoc, ap₂, arith, drop, false, get_or,
  get_or-set_ne, get_or-set_self, if◌then◌else◌, inl, inr, leb, length, length-set, min, not, refl,
  set, sub32, suc, sym, take, true, u32_mod, zero, ℕ, ◌%◌, ◌++◌, ◌+◌, ◌-◌, ◌<◌, ◌||◌, ◌∙◌, ◌∷◌, ◌≡◌,
  ◌≤◌,
}
use boss_os.Pipe.{
  Chan, Outcome, Pipe, Wrote, copy_out, fetch, is_empty, is_full, pipe_size, put, write_from,
}

-- The `k` bytes from counter `r` on.
abbrev pub window : List ℕ → ℕ → ℕ → List ℕ
window buf r zero = []
window buf r (suc k) = get_or buf (r % pipe_size) 0 ∷ window buf (add32 r 1) k

abbrev pub used : Pipe → ℕ
used p = sub32 p.nwrite p.nread

abbrev pub contents : Pipe → List ℕ
contents p = window p.buf p.nread (used p)

pub record IsRing (p : Pipe) : Type 0 where
  pub storage : length p.buf ≡ pipe_size
  pub read_word : p.nread < u32_mod
  pub write_word : p.nwrite < u32_mod
  pub bounded : used p ≤ pipe_size

pub length-window : (buf : List ℕ) (r k : ℕ) → length (window buf r k) ≡ k
length-window buf r zero = refl
length-window buf r (suc k) = ap suc (length-window buf (add32 r 1) k)

window-set :
    (buf : List ℕ) (c k r i : ℕ)
    → length buf ≡ pipe_size
    → k < pipe_size
    → i ≡ (r + k) % pipe_size
    → window (set buf i c) r (suc k) ≡ window buf r k ++ (c ∷ [])
window-set buf c zero r i hs hk e =
    let e' : i ≡ r % pipe_size = omega arith in
    ap (λ x. x ∷ []) (rw (← e') (get_or-set_self buf i c 0 (omega arith)))
window-set buf c (suc k) r i hs hk e =
    ap₂ ◌∷◌ (get_or-set_ne buf i (r % pipe_size) c 0 (omega arith))
      (window-set buf c k (add32 r 1) i hs (omega arith) (omega arith))

-- The byte that a write stores comes last in the queue.
pub contents-put :
    (p : Pipe) (c : ℕ)
    → IsRing p
    → is_full p ≡ false
    → IsRing (put p c)
      × (used (put p c) ≡ used p + 1)
      × (contents (put p c) ≡ contents p ++ (c ∷ []))
unfolding is_full put
contents-put p c v open_ =
    let room : used p < pipe_size = ground arith in
    let grown : used (put p c) ≡ suc (used p) = omega arith in
    let after =
      window-set p.buf c (used p) p.nread (p.nwrite % pipe_size) v.storage room (omega arith) in
    (
      record {
        storage = length-set p.buf (p.nwrite % pipe_size) c ∙ v.storage;
        read_word = v.read_word;
        write_word = omega arith;
        bounded = omega arith;
      },
      omega arith,
      ap (window (set p.buf (p.nwrite % pipe_size) c) p.nread) grown ∙ after,
    )

-- The byte that a read takes is the first of the queue.
pub contents-fetch :
    (p : Pipe)
    → IsRing p
    → is_empty p ≡ false
    → let (c, p') = fetch p in IsRing p' × (used p ≡ used p' + 1) × (contents p ≡ c ∷ contents p')
unfolding is_empty fetch
contents-fetch p v some_ =
    let left = sub32 p.nwrite (add32 p.nread 1) in
    let e : used p ≡ suc left = ground arith in
    (
      record {
        storage = v.storage;
        read_word = omega arith;
        write_word = v.write_word;
        bounded = omega arith;
      },
      omega arith,
      ap (window p.buf p.nread) e,
    )

pub contents-empty : (p : Pipe) → IsRing p → is_empty p ≡ true → contents p ≡ []
unfolding is_empty
contents-empty p v h = let e : used p ≡ 0 = ground arith in ap (window p.buf p.nread) e

pub length-contents : (p : Pipe) → length (contents p) ≡ used p
length-contents p = length-window p.buf p.nread (used p)

-- The ends of the pipe that are open.
abbrev pub SameEnds : Pipe → Pipe → Type 0
SameEnds p q = (p.readopen ≡ q.readopen) × (p.writeopen ≡ q.writeopen)

-- The end of a write with `room` bytes free, `i` bytes done and `cs` to go.
abbrev pub write_end : (killed readopen : Bool) → (room i : ℕ) → List ℕ → Outcome
write_end killed readopen room i cs =
    if leb (length cs) room
    then Outcome.done (i + length cs)
    else (if not readopen || killed
        then Outcome.failed
        else Outcome.asleep Chan.on_nwrite (drop room cs))

pub record WriteSpec (killed : Bool) (p : Pipe) (i : ℕ) (cs : List ℕ) (w : Wrote) : Type 0 where
  pub ring : IsRing w.pipe
  pub ends : SameEnds w.pipe p
  pub queue : contents w.pipe ≡ contents p ++ take (pipe_size - used p) cs
  pub outcome : w.end ≡ write_end killed p.readopen (pipe_size - used p) i cs

take-nil : (n : ℕ) → take {A = ℕ} n [] ≡ []
take-nil zero = refl
take-nil (suc n) = refl

used_of_full : (p : Pipe) → IsRing p → is_full p ≡ true → pipe_size - used p ≡ 0
unfolding is_full
used_of_full p v h = ground arith

used_of_room :
    (p : Pipe) → IsRing p → is_full p ≡ false → pipe_size - used p ≡ suc (pipe_size - (used p + 1))
unfolding is_full
used_of_room p v h = ground arith

-- A byte that finds no room: the run ends as `write_end` says, and the pipe is as it was.
write_from-full :
    (killed : Bool) (p : Pipe) (i c : ℕ) (cs : List ℕ)
    → is_full p ≡ true
    → let w = write_from killed p i (c ∷ cs) in
      (w.pipe ≡ p) × (w.end ≡ write_end killed p.readopen 0 i (c ∷ cs))
unfolding write_from
write_from-full killed p i c cs full = ground arith

write_from-room :
    (killed : Bool) (p : Pipe) (i c : ℕ) (cs : List ℕ)
    → is_full p ≡ false
    → write_from killed p i (c ∷ cs) ≡ write_from killed (put p c) (i + 1) cs
unfolding write_from
write_from-room killed p i c cs room = rw room

write_end-cons :
    (killed readopen : Bool) (n i c : ℕ) (cs : List ℕ)
    → write_end killed readopen (suc n) i (c ∷ cs) ≡ write_end killed readopen n (i + 1) cs
write_end-cons killed readopen n i c cs = ground arith

put-SameEnds : (p : Pipe) (c : ℕ) → SameEnds (put p c) p
unfolding put
put-SameEnds p c = (refl, refl)

pub write_from-WriteSpec :
    (killed : Bool) (p : Pipe) (i : ℕ) (cs : List ℕ)
    → IsRing p
    → WriteSpec killed p i cs (write_from killed p i cs)
unfolding write_from
write_from-WriteSpec killed p i [] v = record {
  ring = v;
  ends = (refl, refl);
  queue = rw (take-nil, append-nil);
  outcome = ground arith;
}
write_from-WriteSpec killed p i (c ∷ cs) v = elim (Bool-cases (is_full p)) [
  | inl full ↦
      let (same, out) = write_from-full killed p i c cs full in
      let none_left = used_of_full p v full in
      record {
        ring = rw same v;
        ends = rw same (refl, refl);
        queue = rw (same, none_left, append-nil);
        outcome = rw none_left out;
      }
  | inr room ↦
      let (v', grown, queue) = contents-put p c v room in
      let r = write_from-WriteSpec killed (put p c) (i + 1) cs v' in
      let e : pipe_size - used p ≡ suc (pipe_size - used (put p c)) =
        used_of_room p v room ∙ rw grown in
      let (ro, wo) = put-SameEnds p c in
      rw (write_from-room killed p i c cs room) (record {
        ring = r.ring;
        ends = (r.ends.0 ∙ ro, r.ends.1 ∙ wo);
        queue =
            r.queue
            ∙ rw (queue, e)
                (append_assoc (contents p) (c ∷ []) (take (pipe_size - used (put p c)) cs));
        outcome =
            r.outcome
            ∙ rw (ro, e)
                (sym (write_end-cons killed p.readopen (pipe_size - used (put p c)) i c cs));
      })
]

-- What the copying loop of piperead has done: `cs` came off the front of the queue.
pub record CopySpec (n : ℕ) (p : Pipe) (cs : List ℕ) (p' : Pipe) : Type 0 where
  pub ring : IsRing p'
  pub ends : SameEnds p' p
  pub queue : contents p ≡ cs ++ contents p'
  pub count : length cs ≡ min n (used p)

copy_out-empty : (n : ℕ) (p : Pipe) → is_empty p ≡ true → copy_out (suc n) p ≡ ([], p)
unfolding copy_out
copy_out-empty n p e = rw e

copy_out-more :
    (n : ℕ) (p : Pipe)
    → is_empty p ≡ false
    → copy_out (suc n) p ≡ ((fetch p).0 ∷ (copy_out n (fetch p).1).0, (copy_out n (fetch p).1).1)
unfolding copy_out
copy_out-more n p e = rw e

fetch-SameEnds : (p : Pipe) → SameEnds (fetch p).1 p
unfolding fetch
fetch-SameEnds p = (refl, refl)

pub copy_out-CopySpec :
    (n : ℕ) (p : Pipe) → IsRing p → CopySpec n p (copy_out n p).0 (copy_out n p).1
unfolding copy_out
copy_out-CopySpec zero p v = record {
  ring = v;
  ends = (refl, refl);
  queue = refl;
  count = omega arith;
}
copy_out-CopySpec (suc n) p v = elim (Bool-cases (is_empty p)) [
  | inl e ↦ rw (copy_out-empty n p e) (record {
    ring = v;
    ends = (refl, refl);
    queue = refl;
    count = rw (← length-contents p, contents-empty p v e) (omega arith);
  })
  | inr more ↦
      let (v', fewer, queue) = contents-fetch p v more in
      let r = copy_out-CopySpec n (fetch p).1 v' in
      let (ro, wo) = fetch-SameEnds p in
      rw (copy_out-more n p more) (record {
        ring = r.ring;
        ends = (r.ends.0 ∙ ro, r.ends.1 ∙ wo);
        queue = queue ∙ ap (λ q. (fetch p).0 ∷ q) r.queue;
        count = rw fewer (omega (arith, r.count));
      })
]
