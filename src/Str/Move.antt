-- ===== src/Str/Move.antt =====
-- memmove copies as if through a buffer of its own, also where the ranges overlap.
use boss_os.Base.{
  Bool-cases, ap, arith, dec_lt, false, inl, inr, ltb, refl, suc, update, update_ne, update_self,
  zero, ℕ, ◌&&◌, ◌+◌, ◌-◌, ◌<◌, ◌∙◌, ◌≡◌, ◌≤◌, ◌⊎◌,
}
use boss_os.Str.{Memory, copy_down, copy_up, memmove}

-- `n` bytes from `src` stand at `dst`, and the rest of the memory is as it was.
pub record Moved (dst src n : ℕ) (m m' : Memory) : Type 0 where
  pub inside : (i : ℕ) → i < n → m' (dst + i) ≡ m (src + i)
  pub outside : (a : ℕ) → (a < dst) ⊎ (dst + n ≤ a) → m' a ≡ m a

at : (m : Memory) (a b : ℕ) → a ≡ b → m a ≡ m b
at m a b e = ap m e

copy_up_lem : (d s n : ℕ) (m : Memory) → (d ≤ s) ⊎ (s + n ≤ d) → Moved d s n m (copy_up d s n m)
unfolding copy_up
copy_up_lem d s zero m safe = record { inside = λ i h. absurd (omega arith); outside = λ a h. refl }
copy_up_lem d s (suc n) m safe =
    let m1 : Memory = update m d (m s) in
    let ih = copy_up_lem (d + 1) (s + 1) n m1 (omega arith) in
    record {
      inside = λ i h. elim (dec_lt 0 i) [
        | yes later ↦
            at (copy_up (d + 1) (s + 1) n m1) (d + i) (d + 1 + (i - 1)) (omega arith)
            ∙ ih.inside (i - 1) (omega arith)
            ∙ at m1 (s + 1 + (i - 1)) (s + i) (omega arith)
            ∙ update_ne m d (s + i) (m s) (omega arith)
        | no first ↦
            at (copy_up (d + 1) (s + 1) n m1) (d + i) d (omega arith)
            ∙ ih.outside d (omega arith)
            ∙ update_self m d (m s)
            ∙ at m s (s + i) (omega arith)
      ];
      outside = λ a h. ih.outside a (omega arith) ∙ update_ne m d a (m s) (omega arith);
    }

copy_down_lem : (d s n : ℕ) (m : Memory) → s < d → Moved d s n m (copy_down d s n m)
unfolding copy_down
copy_down_lem d s zero m safe = record {
  inside = λ i h. absurd (omega arith);
  outside = λ a h. refl;
}
copy_down_lem d s (suc n) m safe =
    let m1 : Memory = update m (d + n) (m (s + n)) in
    let ih = copy_down_lem d s n m1 safe in
    record {
      inside = λ i h. elim (dec_lt i n) [
        | yes earlier ↦ ih.inside i earlier ∙ update_ne m (d + n) (s + i) (m (s + n)) (omega arith)
        | no last ↦
            at (copy_down d s n m1) (d + i) (d + n) (omega arith)
            ∙ ih.outside (d + n) (omega arith)
            ∙ update_self m (d + n) (m (s + n))
            ∙ at m (s + n) (s + i) (omega arith)
      ];
      outside = λ a h. ih.outside a (omega arith) ∙ update_ne m (d + n) a (m (s + n)) (omega arith);
    }

-- memmove leaves at `dst + i`, for each i < n, the byte that stood at `src + i` before the call,
-- whatever the overlap, and changes no byte outside the n bytes from `dst` on.
pub memmove-Moved : (dst src n : ℕ) (m : Memory) → Moved dst src n m (memmove dst src n m)
unfolding memmove
memmove-Moved dst src n m = elim (Bool-cases (ltb src dst && ltb dst (src + n))) [
  | inl over ↦ rw over (copy_down_lem dst src n m (ground arith))
  | inr apart ↦ rw apart (copy_up_lem dst src n m (safe dst src n apart))
]
  where
    safe :
        (dst src n : ℕ) → (ltb src dst && ltb dst (src + n)) ≡ false → (dst ≤ src) ⊎ (src + n ≤ dst)
    safe dst src n h = elim (dec_lt src dst) [
      | yes p ↦ inr (ground arith)
      | no p ↦ inl (omega arith)
    ]
