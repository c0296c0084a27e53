-- ===== src/Kalloc/Owners.antt =====
-- The pages that kalloc has handed out belong to one owner each.
use boss_os.Base.{
  Bool-cases, List, [], ap, arith, distinct, elem, false, if◌then◌else◌, inl, inr, refl, some,
  some-injective, subst, sym, true, ℕ, ℕ_discrete, ◌<◌, ◌==◌, ◌∙◌, ◌∷◌, ◌≡◌, ◌⊎◌,
}
use boss_os.Kalloc.{Kmem, kalloc, kfree}
use boss_os.Kalloc.FreeList.{IsPage, Links, Links-head, kalloc-Links, kfree-Links}

-- The allocator with the pages that it has handed out.
pub record Pool : Type 0 where
  pub kmem : Kmem
  pub out : List ℕ

pub drop_page : ℕ → List ℕ → List ℕ
drop_page v [] = []
drop_page v (x ∷ xs) = if x == v then xs else x ∷ drop_page v xs

abbrev pub hand_out : ℕ → List ℕ → List ℕ
hand_out v out = if v == 0 then out else v ∷ out

-- A call of kalloc, or of kfree by the owner of a page.
pub data Step (end : ℕ) (s : Pool) : Pool → Type 0 where
  alloc : Step end s (record { kmem = (kalloc s.kmem).1; out = hand_out (kalloc s.kmem).0 s.out })
  free :
      {k : Kmem} (v : ℕ)
      → elem v s.out ≡ true
      → kfree end v s.kmem ≡ some k
      → Step end s (record { kmem = k; out = drop_page v s.out })

pub data Reach (end : ℕ) (s : Pool) : Pool → Type 0 where
  here : Reach end s s
  next : {t u : Pool} → Reach end s t → Step end t u → Reach end s u

pub record IsSound (end : ℕ) (s : Pool) : Type 0 where
  pub free : List ℕ
  pub links : Links end s.kmem.mem s.kmem.freelist free
  pub apart : (a : ℕ) → elem a free ≡ true → elem a s.out ≡ false
  pub single : distinct s.out ≡ true
  pub pages : (a : ℕ) → elem a s.out ≡ true → IsPage end a

elem-drop_page : (a v : ℕ) (xs : List ℕ) → elem a xs ≡ false → elem a (drop_page v xs) ≡ false
unfolding drop_page
elem-drop_page a v [] h = refl
elem-drop_page a v (x ∷ xs) h = ground (arith, elem-drop_page a v xs)

distinct-drop_page :
    (v : ℕ) (xs : List ℕ)
    → distinct xs ≡ true
    → (distinct (drop_page v xs) ≡ true) × (elem v (drop_page v xs) ≡ false)
unfolding drop_page
distinct-drop_page v [] h = (refl, refl)
distinct-drop_page v (x ∷ xs) h = ground (arith, distinct-drop_page v xs, elem-drop_page x v xs)

elem-cons : (a x : ℕ) (xs : List ℕ) → elem a (x ∷ xs) ≡ true → (x ≡ a) ⊎ (elem a xs ≡ true)
elem-cons a x xs h = ground arith

elem-Bool : (a : ℕ) (xs : List ℕ) → (elem a xs ≡ true → ⊥) → elem a xs ≡ false
elem-Bool a xs f = elim (Bool-cases (elem a xs)) [ inl i ↦ absurd (f i) | inr o ↦ o ]

elem-drop_page_sub : (a v : ℕ) (xs : List ℕ) → elem a (drop_page v xs) ≡ true → elem a xs ≡ true
unfolding drop_page
elem-drop_page_sub a v [] h = h
elem-drop_page_sub a v (x ∷ xs) h = ground (arith, elem-drop_page_sub a v xs)

-- kalloc keeps the owners sound.
alloc-IsSound :
    (end : ℕ) (s : Pool)
    → 0 < end
    → IsSound end s
    → IsSound end (record { kmem = (kalloc s.kmem).1; out = hand_out (kalloc s.kmem).0 s.out })
alloc-IsSound end s pos h = elim (kalloc-Links end s.kmem h.free pos h.links) [
  | inl (no_page, e) ↦ rw e h
  | inr (v, ys, f, e, l) ↦
      let (page, once) = Links-head end s.kmem.freelist s.kmem.mem v ys (rw (sym f) h.links) in
      let mine : hand_out (kalloc s.kmem).0 s.out ≡ v ∷ s.out = rw e (ground arith) in
      let free_v : elem v h.free ≡ true = rw f (ground arith) in
      record {
        free = ys;
        links = l;
        apart = λ a i. rw mine (elim (ℕ_discrete v a) [
          | yes same ↦ absurd (ground (arith, ap (λ x. elem x ys) same))
          | no ne ↦ ground (arith, h.apart a (rw f (ground arith)))
        ]);
        single = rw mine (ground (arith, h.apart v free_v, h.single));
        pages = λ a i. owned page a (elem-cons a v s.out (ap (elem a) (sym mine) ∙ i));
      }
]
  where
    owned : {v : ℕ} → IsPage end v → (a : ℕ) → (v ≡ a) ⊎ (elem a s.out ≡ true) → IsPage end a
    owned page a (inl e) = subst (IsPage end) e page
    owned page a (inr i) = h.pages a i

free-IsSound :
    (end v : ℕ) (s : Pool) (k : Kmem)
    → IsSound end s
    → elem v s.out ≡ true
    → kfree end v s.kmem ≡ some k
    → IsSound end (record { kmem = k; out = drop_page v s.out })
free-IsSound end v s k h own e =
    let not_free = elem-Bool v h.free (λ i. absurd (ground (arith, h.apart v i))) in
    let (k', e', l, u) = kfree-Links end v s.kmem h.free (h.pages v own) not_free h.links in
    let (single', gone) = distinct-drop_page v s.out h.single in
    record {
      free = v ∷ h.free;
      links = rw (some-injective _ _ (sym e ∙ e')) l;
      apart = λ a i. elim (ℕ_discrete v a) [
        | yes same ↦ rw (sym same) gone
        | no ne ↦ elem-drop_page a v s.out (h.apart a (ground arith))
      ];
      single = single';
      pages = λ a i. h.pages a (elem-drop_page_sub a v s.out i);
    }

Step-IsSound : {end : ℕ} {s t : Pool} → 0 < end → IsSound end s → Step end s t → IsSound end t
Step-IsSound pos h alloc = alloc-IsSound _ _ pos h
Step-IsSound pos h (free {k} v own e) = free-IsSound _ v _ k h own e

Reach-IsSound : {end : ℕ} {s t : Pool} → 0 < end → IsSound end s → Reach end s t → IsSound end t
Reach-IsSound pos h here = h
Reach-IsSound pos h (next r st) = Step-IsSound pos (Reach-IsSound pos h r) st

kalloc-fresh : (end : ℕ) (s : Pool) → 0 < end → IsSound end s → elem (kalloc s.kmem).0 s.out ≡ false
kalloc-fresh end s pos h = elim (kalloc-Links end s.kmem h.free pos h.links) [
  | inl (no_page, e) ↦ rw e (elem-Bool 0 s.out (λ i. absurd (omega (arith, (h.pages 0 i).1))))
  | inr (v, ys, f, e, l) ↦ rw e (h.apart v (rw f (ground arith)))
]

-- From a sound state, whatever the order in which pages are taken by kalloc and given back by
-- their owners with kfree: no page is out twice; the next page of kalloc is not one that is out;
-- and kfree of a page that is out does not panic.
pub Reach-owners :
    (end : ℕ) (s t : Pool)
    → 0 < end
    → IsSound end s
    → Reach end s t
    → (distinct t.out ≡ true)
      × (elem (kalloc t.kmem).0 t.out ≡ false)
      × ((v : ℕ) → elem v t.out ≡ true → (k : Kmem) × (kfree end v t.kmem ≡ some k))
Reach-owners end s t pos h r =
    let f = Reach-IsSound pos h r in
    (
      f.single,
      kalloc-fresh end t pos f,
      λ v own.
          let not_free = elem-Bool v f.free (λ i. absurd (ground (arith, f.apart v i))) in
          let (k, e, l, u) = kfree-Links end v t.kmem f.free (f.pages v own) not_free f.links in
          (k, e),
    )
