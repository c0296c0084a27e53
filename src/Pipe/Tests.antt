-- ===== src/Pipe/Tests.antt =====
-- Runs of pipe.c on a small pipe whose counters are about to wrap, and the theorems there.
use boss_os.Base.{
  List, [], arith, false, length, refl, replicate, set, true, u32_mod, ℕ, ◌++◌, ◌-◌, ◌∷◌, ◌≡◌, ◌≤◌,
}
use boss_os.Pipe.{
  Pipe, copy_out, fetch, fresh_pipe, is_empty, pipe_size, piperead, pipewrite, write_from,
}
use boss_os.Pipe.Ring.{IsRing, WriteSpec, contents}
use boss_os.Pipe.Calls.{ReadSpec, piperead-ReadSpec, pipewrite-WriteSpec}
use boss_os.Pipe.Stream.{Reach, Reach-in_order, Step, Traffic, fresh_traffic}

abbrev page : List ℕ
page = replicate 512 0

-- Two bytes, 7 and 8, the second past the wrap of `nwrite`.
abbrev wrapping : Pipe
wrapping = record {
  buf = 8 ∷ set (replicate 511 0) 510 7;
  nread = u32_mod - 1;
  nwrite = 1;
  readopen = true;
  writeopen = true;
}

wrapping-IsRing : IsRing wrapping
wrapping-IsRing = record {
  storage = refl;
  read_word = omega arith;
  write_word = omega arith;
  bounded = omega arith;
}

contents-wrapping : contents wrapping ≡ 7 ∷ 8 ∷ []
contents-wrapping = refl

read_wrapping : (piperead false wrapping 5).bytes ≡ 7 ∷ 8 ∷ []
unfolding piperead is_empty copy_out fetch
read_wrapping = refl

pipewrite-WriteSpec_example :
    WriteSpec false wrapping 0 (5 ∷ 6 ∷ []) (pipewrite false wrapping (5 ∷ 6 ∷ []))
pipewrite-WriteSpec_example = pipewrite-WriteSpec false wrapping (5 ∷ 6 ∷ []) wrapping-IsRing

piperead-ReadSpec_example : ReadSpec true wrapping 1 (piperead true wrapping 1)
piperead-ReadSpec_example = piperead-ReadSpec true wrapping 1 wrapping-IsRing

abbrev written : Traffic
written = record {
  pipe = (write_from false (fresh_pipe page) 0 (1 ∷ 2 ∷ [])).pipe;
  sent = 1 ∷ 2 ∷ [];
  received = [];
}

written-Reach : Reach (fresh_traffic page) written
written-Reach = Reach.next Reach.here (Step.write (fresh_traffic page) false 0 (1 ∷ 2 ∷ []))

Reach-in_order_example :
    (written.sent ≡ written.received ++ contents written.pipe)
    × (length (contents written.pipe) ≤ pipe_size)
Reach-in_order_example = Reach-in_order page refl written-Reach
