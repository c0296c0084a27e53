-- ===== src/Fs/Icache/Iget.antt =====
-- iget keeps one slot of the cache for each inode in use.
use boss_os.Base.{
  Bool, Bool-cases, Option, [], ap, arith, false, get_or, get_or-set_ne, get_or-set_self, inl, inr,
  length, length-set, none, refl, set, some, subst, suc, sym, true, zero, ℕ, ℕ_discrete, ◌+◌, ◌<◌,
  ◌==◌, ◌∙◌, ◌∷◌, ◌≡◌, ◌≢◌, ◌⊎◌,
}
use boss_os.Fs.Inode.{Inode}
use boss_os.Fs.Icache.{
  Icache, Search, cached, iget, iget_at, is_inode, missing, no_inode, remember, search_from,
}

abbrev at : Icache → ℕ → Inode
at t i = get_or t i no_inode

-- No slot holds the inode.
abbrev pub Absent : (dev inum : ℕ) → Icache → Type 0
Absent dev inum t = (j : ℕ) → j < length t → is_inode dev inum (at t j) ≡ false

-- What the loop finds in the slots `t`, the first one with the index `i`.
data Found (dev inum i : ℕ) (t : Icache) : Option ℕ → Search → Type 0 where
  hit :
      {empty : Option ℕ} {k : ℕ} (j : ℕ)
      → k ≡ i + j
      → j < length t
      → is_inode dev inum (at t j) ≡ true
      → Found dev inum i t empty (cached k)
  full :
      Absent dev inum t
      → ((j : ℕ) → j < length t → (at t j).ref ≢ 0)
      → Found dev inum i t none (missing none)
  old : {k : ℕ} → Absent dev inum t → Found dev inum i t (some k) (missing (some k))
  fresh :
      {k : ℕ} (j : ℕ)
      → k ≡ i + j
      → Absent dev inum t
      → j < length t
      → (at t j).ref ≡ 0
      → Found dev inum i t none (missing (some k))

-- One slot more in front.
module _ (dev inum i : ℕ) (ip : Inode) (t : Icache) (other : is_inode dev inum ip ≡ false) where
  Absent-cons : Absent dev inum t → Absent dev inum (ip ∷ t)
  Absent-cons h zero lt = other
  Absent-cons h (suc j) lt = h j (omega arith)

  Found-remembered :
      (e : ℕ) (r : Search)
      → Found dev inum (i + 1) t (some e) r
      → Found dev inum i (ip ∷ t) (some e) r
  Found-remembered e r (hit j q lt here) = hit (suc j) (omega arith) (omega arith) here
  Found-remembered e r (old h) = old (Absent-cons h)

  Found-empty :
      (r : Search)
      → ip.ref ≡ 0
      → Found dev inum (i + 1) t (some i) r
      → Found dev inum i (ip ∷ t) none r
  Found-empty r z (hit j q lt here) = hit (suc j) (omega arith) (omega arith) here
  Found-empty r z (old h) = fresh 0 (omega arith) (Absent-cons h) (omega arith) z

  Found-used :
      (r : Search) → ip.ref ≢ 0 → Found dev inum (i + 1) t none r → Found dev inum i (ip ∷ t) none r
  Found-used r ne (hit j q lt here) = hit (suc j) (omega arith) (omega arith) here
  Found-used r ne (full h used) = full (Absent-cons h) all_used
    where
      all_used : (j : ℕ) → j < length (ip ∷ t) → (at (ip ∷ t) j).ref ≢ 0
      all_used zero lt = ne
      all_used (suc j) lt = used j (omega arith)
  Found-used r ne (fresh j q h lt z) = fresh (suc j) (omega arith) (Absent-cons h) (omega arith) z

  Found-cons :
      (empty : Option ℕ) (r : Search)
      → Found dev inum (i + 1) t (remember i ip empty) r
      → Found dev inum i (ip ∷ t) empty r
  unfolding remember
  Found-cons (some e) r f = Found-remembered e r f
  Found-cons none r f = elim (ℕ_discrete ip.ref 0) [
    | yes z ↦ let test : (ip.ref == 0) ≡ true = ground arith in Found-empty r z (rw test at f)
    | no ne ↦ let test : (ip.ref == 0) ≡ false = ground arith in Found-used r ne (rw test at f)
  ]

search_from-Found :
    (dev inum i : ℕ) (empty : Option ℕ) (t : Icache)
    → Found dev inum i t empty (search_from dev inum i empty t)
unfolding search_from
search_from-Found dev inum i none [] =
    full (λ j lt. absurd (omega arith)) (λ j lt. absurd (omega arith))
search_from-Found dev inum i (some e) [] = old (λ j lt. absurd (omega arith))
search_from-Found dev inum i empty (ip ∷ t) = elim (Bool-cases (is_inode dev inum ip)) [
  | inl here ↦ rw here (hit 0 (omega arith) (omega arith) here)
  | inr other ↦ rw other (
      Found-cons dev inum i ip t other empty (search_from dev inum (i + 1) (remember i ip empty) t)
        (search_from-Found dev inum (i + 1) (remember i ip empty) t))
]

-- An inode has one slot at most.
abbrev pub Single : Icache → Type 0
Single t =
    (dev inum i j : ℕ)
    → i < length t
    → j < length t
    → is_inode dev inum (at t i) ≡ true
    → is_inode dev inum (at t j) ≡ true
    → i ≡ j

-- The slot `i` was given to the caller.
pub record Got (dev inum : ℕ) (t : Icache) (i : ℕ) (t' : Icache) : Type 0 where
  pub small : i < length t
  pub same_length : length t' ≡ length t
  pub others : (j : ℕ) → j ≢ i → at t' j ≡ at t j
  pub holds : is_inode dev inum (at t' i) ≡ true
  pub counted :
      ((is_inode dev inum (at t i) ≡ true) × (at t' i ≡ record (at t i) { ref = (at t i).ref + 1 }))
      ⊎ (Absent dev inum t × ((at t i).ref ≡ 0) × ((at t' i).ref ≡ 1) × ((at t' i).valid ≡ false))

pub data IgetEnd (dev inum : ℕ) (t : Icache) : Option (ℕ × Icache) → Type 0 where
  no_slot :
      Absent dev inum t → ((j : ℕ) → j < length t → (at t j).ref ≢ 0) → IgetEnd dev inum t none
  got : {i : ℕ} {t' : Icache} → Got dev inum t i t' → Single t' → IgetEnd dev inum t (some (i, t'))

same_inode :
    (d n dev inum : ℕ) (ip : Inode)
    → is_inode d n ip ≡ true
    → is_inode dev inum ip ≡ true
    → (d ≡ dev) × (n ≡ inum)
same_inode d n dev inum ip a b = (ground arith, ground arith)

false-true : {b : Bool} → b ≡ false → b ≡ true → ⊥
false-true a b = cc

module _ {dev inum : ℕ} {t : Icache} {i : ℕ} {t' : Icache} (s : Single t)
    (g : Got dev inum t i t') where
  -- No other slot holds the inode of slot `i`.
  apart :
      (d n k : ℕ)
      → k < length t
      → k ≢ i
      → is_inode d n (at t' k) ≡ true
      → is_inode d n (at t' i) ≡ true
      → ⊥
  apart d n k lk ne hk hi = held g.counted
    where
      ids : (d ≡ dev) × (n ≡ inum)
      ids = same_inode d n dev inum (at t' i) hi g.holds

      there : is_inode dev inum (at t k) ≡ true
      there =
          ap (is_inode dev inum) (sym (g.others k ne))
          ∙ ap (λ x. is_inode x inum (at t' k)) (sym ids.0)
          ∙ ap (λ y. is_inode d y (at t' k)) (sym ids.1)
          ∙ hk

      held :
          ((is_inode dev inum (at t i) ≡ true)
              × (at t' i ≡ record (at t i) { ref = (at t i).ref + 1 }))
            ⊎ (Absent dev inum t
                × ((at t i).ref ≡ 0)
                × ((at t' i).ref ≡ 1)
                × ((at t' i).valid ≡ false))
          → ⊥
      held (inl (here, q)) = ne (s dev inum k i lk g.small there here)
      held (inr (h, unused, one, fresh_)) = false-true (h k lk) there

  Got-Single : Single t'
  Got-Single d n j k lj lk hj hk = elim (ℕ_discrete j i) [
    | yes e ↦ elim (ℕ_discrete k i) [
      | yes e' ↦ e ∙ sym e'
      | no o' ↦ absurd (
          apart d n k (omega (arith, g.same_length)) o' hk
            (ap (λ m. is_inode d n (at t' m)) (sym e) ∙ hj))
    ]
    | no o ↦ elim (ℕ_discrete k i) [
      | yes e' ↦ absurd (
          apart d n j (omega (arith, g.same_length)) o hj
            (ap (λ m. is_inode d n (at t' m)) (sym e') ∙ hk))
      | no o' ↦
          s d n j k (omega (arith, g.same_length)) (omega (arith, g.same_length))
            (ap (is_inode d n) (sym (g.others j o)) ∙ hj)
            (ap (is_inode d n) (sym (g.others k o')) ∙ hk)
    ]
  ]

-- The slot `i` is changed to `ip`.
set-Got :
    (dev inum : ℕ) (t : Icache) (i : ℕ) (ip : Inode)
    → i < length t
    → is_inode dev inum ip ≡ true
    → ((is_inode dev inum (at t i) ≡ true) × (ip ≡ record (at t i) { ref = (at t i).ref + 1 }))
      ⊎ (Absent dev inum t × ((at t i).ref ≡ 0) × (ip.ref ≡ 1) × (ip.valid ≡ false))
    → Got dev inum t i (set t i ip)
set-Got dev inum t i ip lt holds counted = record {
  small = lt;
  same_length = length-set t i ip;
  others = λ j ne. get_or-set_ne t i j ip no_inode (λ q. ne (sym q));
  holds = ap (is_inode dev inum) self ∙ holds;
  counted =
      subst
        (λ x.
          ((is_inode dev inum (at t i) ≡ true) × (x ≡ record (at t i) { ref = (at t i).ref + 1 }))
          ⊎ (Absent dev inum t × ((at t i).ref ≡ 0) × (x.ref ≡ 1) × (x.valid ≡ false)))
        (sym self) counted;
}
  where
    self : at (set t i ip) i ≡ ip
    self = get_or-set_self t i ip no_inode lt

iget_at-IgetEnd :
    (dev inum : ℕ) (t : Icache) (r : Search)
    → Single t
    → Found dev inum 0 t none r
    → IgetEnd dev inum t (iget_at dev inum t r)
unfolding iget_at
iget_at-IgetEnd dev inum t (cached k) s (hit j q lt here) =
    let index : k ≡ j = omega arith in
    let there : is_inode dev inum (at t k) ≡ true =
      ap (λ m. is_inode dev inum (at t m)) index ∙ here in
    let g =
      set-Got dev inum t k (record (at t k) { ref = (at t k).ref + 1 }) (omega arith) (ground arith)
        (inl (there, refl)) in
    got g (Got-Single s g)
iget_at-IgetEnd dev inum t (missing none) s (full h used) = no_slot h used
iget_at-IgetEnd dev inum t (missing (some k)) s (fresh j q h lt z) =
    let index : k ≡ j = omega arith in
    let unused : (at t k).ref ≡ 0 = ap (λ m. (at t m).ref) index ∙ z in
    let g =
      set-Got dev inum t k (record (at t k) { dev = dev; inum = inum; ref = 1; valid = false })
        (omega arith) (ground arith) (inr (h, unused, refl, refl)) in
    got g (Got-Single s g)

-- In a cache where an inode has one slot at most, iget gives a slot of the inode: the one that holds
-- it, with one reference more, or else one that nothing used, with one reference and not valid. The
-- other slots stay as they are, and again an inode has one slot at most. It panics exactly when no
-- slot holds the inode and every slot has a reference.
pub iget-IgetEnd : (dev inum : ℕ) (t : Icache) → Single t → IgetEnd dev inum t (iget dev inum t)
unfolding iget
iget-IgetEnd dev inum t s =
    iget_at-IgetEnd dev inum t (search_from dev inum 0 none t) s
      (search_from-Found dev inum 0 none t)
