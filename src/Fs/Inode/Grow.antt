-- ===== src/Fs/Inode/Grow.antt =====
-- An inode that is given one more block.
use boss_os.Base.{
  Bool, ap, arith, false, if◌then◌else◌, inl, inr, length, refl, subst, sym, true, ℕ, ℕ_discrete,
  ◌%◌, ◌/◌, ◌<◌, ◌==◌, ◌∙◌, ◌≡◌, ◌≢◌, ◌≤◌, ◌⊎◌,
}
use boss_os.Fs.Disk.{Disk, Super, bsize}
use boss_os.Fs.Bitmap.Alloc.{is_free}
use boss_os.Fs.Bitmap.Balloc.{IsMap}
use boss_os.Fs.Inode.{Inode, maxfile}
use boss_os.Fs.Inode.Slots.{Owns, bitmap_end, block_of, block_of-addr, byte_at, file_byte}

-- The free block `x` goes to the slot `s`; no other slot changes, nor the content of a block.
pub record Grows (sb : Super) (ip : Inode) (d : Disk) (s x : ℕ) (ip' : Inode) (d' : Disk)
    : Type 0 where
  pub small : x < sb.size
  pub was_free : is_free sb d x ≡ true
  pub bits : (y : ℕ) → y < sb.size → is_free sb d' y ≡ (if y == x then false else is_free sb d y)
  pub is_map : IsMap sb d'
  pub thirteen : length ip'.addrs ≡ 13
  pub slots : (t : ℕ) → t ≤ maxfile → block_of ip' d' t ≡ (if t == s then x else block_of ip d t)
  pub was_empty : block_of ip d s ≡ 0
  pub content :
      (t : ℕ)
      → t < maxfile
      → t ≢ s
      → block_of ip d t ≢ 0
      → d'.blocks (block_of ip d t) ≡ d.blocks (block_of ip d t)
  pub zeroed : s < maxfile → (i : ℕ) → d'.blocks x i ≡ 0

module _ {sb : Super} {ip : Inode} {d : Disk} {s x : ℕ} {ip' : Inode} {d' : Disk} (w : Owns sb ip d)
    (g : Grows sb ip d s x ip' d') where
  beyond_x : bitmap_end sb < x
  beyond_x = w.is_map.meta x g.small g.was_free

  -- What holds of the new block and of the blocks of the old slots holds of the new slots.
  each :
      (P : ℕ → Type 0)
      → P x
      → ((t : ℕ) → t ≤ maxfile → block_of ip d t ≢ 0 → P (block_of ip d t))
      → (t : ℕ) → t ≤ maxfile
      → block_of ip' d' t ≢ 0
      → P (block_of ip' d' t)
  each P px old t le ne = elim (ℕ_discrete t s) [
    | yes e ↦
        let here : (t == s) ≡ true = ground arith in subst P (sym (g.slots t le ∙ rw here refl)) px
    | no other ↦
        let away : (t == s) ≡ false = ground arith in
        let same : block_of ip' d' t ≡ block_of ip d t = g.slots t le ∙ rw away refl in
        subst P (sym same) (old t le (λ z. ne (same ∙ z)))
  ]

  -- The new block is the block of no old slot.
  not_old : (t : ℕ) → t ≤ maxfile → block_of ip d t ≢ 0 → block_of ip d t ≢ x
  not_old t le ne q = false-true (w.used t le ne) (ap (is_free sb d) q ∙ g.was_free)
    where
      false-true : {b : Bool} → b ≡ false → b ≡ true → ⊥
      false-true a b = cc

  Grows-single :
      (t u : ℕ)
      → t ≤ maxfile
      → u ≤ maxfile
      → block_of ip' d' t ≢ 0
      → block_of ip' d' t ≡ block_of ip' d' u
      → t ≡ u
  Grows-single t u lt lu ne q = elim (ℕ_discrete t s) [
    | yes e ↦ elim (ℕ_discrete u s) [
      | yes e' ↦ e ∙ sym e'
      | no o' ↦
          let b = at_other u lu o' in
          let a = at_slot t lt e in absurd (not_old u lu (λ z. ne (q ∙ b ∙ z)) (sym b ∙ sym q ∙ a))
    ]
    | no o ↦ elim (ℕ_discrete u s) [
      | yes e' ↦
          let a = at_other t lt o in
          absurd (not_old t lt (λ z. ne (a ∙ z)) (sym a ∙ q ∙ at_slot u lu e'))
      | no o' ↦
          let a = at_other t lt o in
          w.single t u lt lu (λ z. ne (a ∙ z)) (sym a ∙ q ∙ at_other u lu o')
    ]
  ]
    where
      at_slot : (v : ℕ) → v ≤ maxfile → v ≡ s → block_of ip' d' v ≡ x
      at_slot v lv e = let here : (v == s) ≡ true = ground arith in g.slots v lv ∙ rw here refl

      at_other : (v : ℕ) → v ≤ maxfile → v ≢ s → block_of ip' d' v ≡ block_of ip d v
      at_other v lv o = let away : (v == s) ≡ false = ground arith in g.slots v lv ∙ rw away refl

  pub Grows-Owns : Owns sb ip' d'
  Grows-Owns = record {
    is_map = g.is_map;
    thirteen = g.thirteen;
    used = λ t le ne.
        (each (λ b. (b < sb.size) × (is_free sb d' b ≡ false)) (g.small, taken x g.small (inl refl))
          (λ u lu nu. (w.in_range u lu nu, taken _ (w.in_range u lu nu) (inr (w.used u lu nu)))) t
          le ne).1;
    in_range = each (λ b. b < sb.size) g.small w.in_range;
    beyond = each (λ b. bitmap_end sb < b) beyond_x w.beyond;
    single = Grows-single;
  }
    where
      taken : (b : ℕ) → b < sb.size → (b ≡ x) ⊎ (is_free sb d b ≡ false) → is_free sb d' b ≡ false
      taken b lt (inl e) = let here : (b == x) ≡ true = ground arith in g.bits b lt ∙ rw here refl
      taken b lt (inr u) = g.bits b lt ∙ keep (b == x) u
        where
          keep : (t : Bool) {v : Bool} → v ≡ false → (if t then false else v) ≡ false
          keep true e = refl
          keep false e = e

  Grows-byte :
      (t o : ℕ) → t < maxfile → byte_at d' (block_of ip' d' t) o ≡ byte_at d (block_of ip d t) o
  Grows-byte t o lt = elim (ℕ_discrete t s) [
    | yes e ↦
        let here : (t == s) ≡ true = ground arith in
        let zero_ : block_of ip d t ≡ 0 = ap (block_of ip d) e ∙ g.was_empty in
        ap (λ b. byte_at d' b o) (g.slots t (omega arith) ∙ rw here refl)
        ∙ blank (g.zeroed (omega arith) o)
        ∙ sym (ap (λ b. byte_at d b o) zero_)
    | no other ↦
        let away : (t == s) ≡ false = ground arith in
        ap (λ b. byte_at d' b o) (g.slots t (omega arith) ∙ rw away refl)
        ∙ same (block_of ip d t) (g.content t lt other)
  ]
    where
      blank : d'.blocks x o ≡ 0 → byte_at d' x o ≡ 0
      blank z = ground arith

      same : (b : ℕ) → (b ≢ 0 → d'.blocks b ≡ d.blocks b) → byte_at d' b o ≡ byte_at d b o
      same b h = elim (ℕ_discrete b 0) [
        | yes z ↦ let test : (b == 0) ≡ true = ground arith in rw test refl
        | no nz ↦ ap (λ f. if b == 0 then 0 else f o) (h nz)
      ]

  pub Grows-file_byte : (k : ℕ) → k / bsize < maxfile → file_byte ip' d' k ≡ file_byte ip d k
  Grows-file_byte k lt =
      ap (λ b. byte_at d' b (k % bsize)) (sym (block_of-addr ip' d' (k / bsize) lt))
      ∙ Grows-byte (k / bsize) (k % bsize) lt
      ∙ ap (λ b. byte_at d b (k % bsize)) (block_of-addr ip d (k / bsize) lt)
