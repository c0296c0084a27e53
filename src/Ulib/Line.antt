-- ===== src/Ulib/Line.antt =====
-- gets stays in its buffer.
use boss_os.Base.{
  Bool-cases, List, [], ap, arith, inl, inr, max, subst, suc, update, update_ne, update_self, zero,
  ℕ, ◌+◌, ◌-◌, ◌<◌, ◌==◌, ◌||◌, ◌∙◌, ◌∷◌, ◌≡◌,
}
use boss_os.Str.{Memory}
use boss_os.Str.Copy.{Terminated}
use boss_os.Ulib.{gets, gets_from}

gets_from-Terminated :
    (k at : ℕ) (cs : List ℕ) (m : Memory) → Terminated at (k + 1) m (gets_from k at cs m)
unfolding gets_from
gets_from-Terminated zero at cs m = record {
  outside = λ a h. update_ne m at a 0 (omega arith);
  ends = (0, omega arith, ground arith);
}
gets_from-Terminated (suc k) at [] m = record {
  outside = λ a h. update_ne m at a 0 (omega arith);
  ends = (0, omega arith, ground arith);
}
gets_from-Terminated (suc k) at (c ∷ cs) m = elim (Bool-cases ((c == 10) || (c == 13))) [
  | inl line ↦ rw line (record {
    outside = λ a h.
        update_ne (update m at c) (at + 1) a 0 (omega arith) ∙ update_ne m at a c (omega arith);
    ends = (1, omega arith, update_self (update m at c) (at + 1) 0);
  })
  | inr more ↦
      let ih = gets_from-Terminated k (at + 1) cs (update m at c) in
      let (i, lt, e) = ih.ends in
      rw more (record {
        outside = λ a h. ih.outside a (omega arith) ∙ update_ne m at a c (omega arith);
        ends = (i + 1, omega arith, ap (gets_from k (at + 1) cs (update m at c)) (omega arith) ∙ e);
      })
]

-- gets with room for at least one byte writes inside its buffer only, however long the input, and
-- leaves a 0 in it.
pub gets-Terminated :
    (buf max : ℕ) (cs : List ℕ) (m : Memory) → 0 < max → Terminated buf max m (gets buf max cs m)
unfolding gets
gets-Terminated buf max cs m pos =
    let e : max - 1 + 1 ≡ max = omega arith in
    subst (λ n. Terminated buf n m (gets_from (max - 1) buf cs m)) e
      (gets_from-Terminated (max - 1) buf cs m)
