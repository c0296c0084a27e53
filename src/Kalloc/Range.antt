-- ===== src/Kalloc/Range.antt =====
-- freerange puts exactly the whole pages of its range on the free list.
use boss_os.Base.{
  Bool-cases, List, Option, arith, elem, false, inl, inr, leb, refl, some, suc, true, zero, ℕ,
  ℕ_discrete, ◌%◌, ◌+◌, ◌<◌, ◌∙◌, ◌∷◌, ◌≡◌, ◌≤◌, ◌⊎◌,
}
use boss_os.Kalloc.{Kmem, free_from, kern_base, kfree, page_size, phys_stop}
use boss_os.Kalloc.FreeList.{Links, kfree-Links}

-- A whole page of the range from `p` to `vend`.
abbrev pub Within : (p vend a : ℕ) → Type 0
Within p vend a = (a % page_size ≡ 0) × (p ≤ a) × (a + page_size ≤ vend)

-- The list `ys` holds what `xs` held, and the pages of the range.
pub record Filled (end p vend : ℕ) (k : Kmem) (xs : List ℕ) (r : Option Kmem) : Type 0 where
  pub after : Kmem
  pub pages : List ℕ
  pub total : r ≡ some after
  pub links : Links end after.mem after.freelist pages
  pub all_in : (a : ℕ) → Within p vend a → elem a pages ≡ true
  pub only : (a : ℕ) → elem a pages ≡ true → (elem a xs ≡ true) ⊎ Within p vend a
  pub kept : (a : ℕ) → elem a xs ≡ true → elem a pages ≡ true

elem-cons : (a x : ℕ) (xs : List ℕ) → elem a (x ∷ xs) ≡ true → (x ≡ a) ⊎ (elem a xs ≡ true)
elem-cons a x xs h = ground arith

free_from_stop :
    (n end p vend : ℕ) (k : Kmem)
    → leb (p + page_size) vend ≡ false
    → free_from (suc n) end p vend k ≡ some k
unfolding free_from
free_from_stop n end p vend k h = rw h refl

free_from_more :
    (n end p vend : ℕ) (k k' : Kmem)
    → leb (p + page_size) vend ≡ true
    → kfree end p k ≡ some k'
    → free_from (suc n) end p vend k ≡ free_from n end (p + page_size) vend k'
unfolding free_from
free_from_more n end p vend k k' h e = rw (h, e) refl

module _ (end vend : ℕ) (fits : vend ≤ kern_base + phys_stop) where
  pub free_from-Filled :
      (n p : ℕ) (k : Kmem) (xs : List ℕ)
      → 0 < n
      → vend < n + p
      → p % page_size ≡ 0
      → end ≤ p
      → kern_base ≤ p
      → ((a : ℕ) → elem a xs ≡ true → (a < p) ⊎ (vend ≤ a))
      → Links end k.mem k.freelist xs
      → Filled end p vend k xs (free_from n end p vend k)
  free_from-Filled zero p k xs pos fuel al lo kb apart h = absurd (omega arith)
  free_from-Filled (suc n) p k xs pos fuel al lo kb apart h =
      elim (Bool-cases (leb (p + page_size) vend)) [
        | inr stop ↦ record {
          after = k;
          pages = xs;
          total = free_from_stop n end p vend k stop;
          links = h;
          all_in = λ a w. absurd (ground arith);
          only = λ a i. inl i;
          kept = λ a i. i;
        }
        | inl more ↦
            let room : p + page_size ≤ vend = ground arith in
            let fresh : elem p xs ≡ false = out p xs (λ i. absurd (omega (arith, apart p i))) in
            let (k', e, l, u) = kfree-Links end p k xs (al, lo, kb, omega arith) fresh h in
            let apart' : (a : ℕ) → elem a (p ∷ xs) ≡ true → (a < p + page_size) ⊎ (vend ≤ a) =
              λ a i. nearer a (elem-cons a p xs i) in
            let ih =
              free_from-Filled n (p + page_size) k' (p ∷ xs) (omega arith) (omega arith)
                (omega arith) (omega arith) (omega arith) apart' l in
            record {
              after = ih.after;
              pages = ih.pages;
              total = free_from_more n end p vend k k' more e ∙ ih.total;
              links = ih.links;
              all_in = λ a w. elim (ℕ_discrete p a) [
                | yes same ↦ ih.kept a (ground arith)
                | no ne ↦ ih.all_in a (w.0, omega arith, w.2)
              ];
              only = λ a i. elim (ih.only a i) [
                | inl j ↦ elim (elem-cons a p xs j) [
                  | inl same ↦ inr (omega arith)
                  | inr old ↦ inl old
                ]
                | inr w ↦ inr (w.0, omega arith, w.2)
              ];
              kept = λ a i. ih.kept a (ground arith);
            }
      ]
    where
      out : (a : ℕ) (ys : List ℕ) → (elem a ys ≡ true → ⊥) → elem a ys ≡ false
      out a ys f = elim (Bool-cases (elem a ys)) [ inl i ↦ absurd (f i) | inr o ↦ o ]

      nearer : (a : ℕ) → (p ≡ a) ⊎ (elem a xs ≡ true) → (a < p + page_size) ⊎ (vend ≤ a)
      nearer a (inl e) = omega arith
      nearer a (inr i) = omega (arith, apart a i)
