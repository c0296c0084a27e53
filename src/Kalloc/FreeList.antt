-- ===== src/Kalloc/FreeList.antt =====
-- The list of pages that the links of kalloc.c stand for.
use boss_os.Base.{
  List, [], ap, arith, elem, false, inl, inr, refl, some, sym, true, update, update_self, ℕ,
  ℕ_discrete, ◌%◌, ◌+◌, ◌<◌, ◌==◌, ◌∙◌, ◌∷◌, ◌≡◌, ◌≤◌, ◌⊎◌,
}
use boss_os.Kalloc.{Kmem, bad_page, junk, kalloc, kern_base, kfree, page_size, phys_stop}

-- A page that kfree accepts.
abbrev pub IsPage : (end v : ℕ) → Type 0
IsPage end v = (v % page_size ≡ 0) × (end ≤ v) × (kern_base ≤ v) × (v < kern_base + phys_stop)

-- From `v` the links lead through the pages of the list, each accepted by kfree and none twice.
pub Links : (end : ℕ) → (ℕ → ℕ) → ℕ → List ℕ → Type 0
Links end m v [] = v ≡ 0
Links end m v (x ∷ xs) = (v ≡ x) × IsPage end x × (elem x xs ≡ false) × Links end m (m x) xs

pub Links-frame :
    (end v : ℕ) (m m' : ℕ → ℕ) (xs : List ℕ)
    → ((a : ℕ) → elem a xs ≡ true → IsPage end a → m' a ≡ m a)
    → Links end m v xs
    → Links end m' v xs
unfolding Links
Links-frame end v m m' [] same h = h
Links-frame end v m m' (x ∷ xs) same (e, p, out, r) =
    let stay : m' x ≡ m x = same x (ground arith) p in
    (e, p, out, rw stay (Links-frame end (m x) m m' xs (λ a i q. same a (ground arith) q) r))

pub Links-nil : (end : ℕ) (m : ℕ → ℕ) → Links end m 0 []
unfolding Links
Links-nil end m = refl

pub Links-cons :
    (end x : ℕ) (m : ℕ → ℕ) (xs : List ℕ)
    → IsPage end x
    → elem x xs ≡ false
    → Links end m (m x) xs
    → Links end m x (x ∷ xs)
unfolding Links
Links-cons end x m xs page out h = (refl, page, out, h)

pub Links-head :
    (end v : ℕ) (m : ℕ → ℕ) (x : ℕ) (xs : List ℕ)
    → Links end m v (x ∷ xs)
    → IsPage end x × (elem x xs ≡ false)
unfolding Links
Links-head end v m x xs (e, page, out, r) = (page, out)

-- kfree accepts a page that is not free already, puts it at the head of the list and keeps the
-- rest of the list.
pub kfree-Links :
    (end v : ℕ) (k : Kmem) (xs : List ℕ)
    → IsPage end v
    → elem v xs ≡ false
    → Links end k.mem k.freelist xs
    → (k' : Kmem) × (kfree end v k ≡ some k')
      × Links end k'.mem k'.freelist (v ∷ xs)
      × (k'.use_lock ≡ k.use_lock)
unfolding kfree Links
kfree-Links end v k xs page out h =
    let ok : bad_page end v ≡ false = ground arith in
    (
      record k { freelist = v; mem = update (junk v k.mem) v k.freelist },
      rw ok refl,
      (
        refl,
        page,
        out,
        rw (update_self (junk v k.mem) v k.freelist) (
            Links-frame end k.freelist k.mem (update (junk v k.mem) v k.freelist) xs
              (λ a i q. other a i q) h),
      ),
      refl,
    )
  where
    other :
        (a : ℕ) → elem a xs ≡ true → IsPage end a → update (junk v k.mem) v k.freelist a ≡ k.mem a
    other a i q = elim (ℕ_discrete a v) [
      | yes e ↦ absurd (false-true (sym out ∙ ap (λ x. elem x xs) (sym e) ∙ i))
      | no ne ↦ ground arith
    ]
      where
        false-true : false ≡ true → ⊥
        false-true h = cc

-- kalloc returns 0 and changes nothing when no page is free, and else takes the first one.
pub kalloc-Links :
    (end : ℕ) (k : Kmem) (xs : List ℕ)
    → 0 < end
    → Links end k.mem k.freelist xs
    → ((xs ≡ []) × (kalloc k ≡ (0, k)))
      ⊎ ((v : ℕ) × (ys : List ℕ) × (xs ≡ v ∷ ys)
          × ((kalloc k).0 ≡ v)
          × Links end (kalloc k).1.mem (kalloc k).1.freelist ys)
unfolding kalloc Links
kalloc-Links end k [] pos h = inl (refl, rw h (ground arith))
kalloc-Links end k (x ∷ xs) pos (e, page, out, r) =
    let some_ : (k.freelist == 0) ≡ false = ground arith in
    inr (x, xs, refl, rw some_ e, rw some_ (rw e r))
