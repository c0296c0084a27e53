-- ===== src/Kalloc/Tests.antt =====
-- Concrete runs of the page allocator.
use boss_os.Base.{[], arith, distinct, elem, false, refl, some, true, ℕ, ◌∷◌, ◌≡◌}
use boss_os.Kalloc.{Kmem, kalloc, kfree}
use boss_os.Kalloc.FreeList.{Links, Links-cons, Links-nil}
use boss_os.Kalloc.Owners.{IsSound, Pool, Reach, Reach-owners, Step}

-- The kernel ends one page above KERNBASE.
abbrev kernel_end : ℕ
kernel_end = 0x8000_1000

abbrev no_pages : Kmem
no_pages = record { freelist = 0; use_lock = false; mem = λ a. 0 }

abbrev page : ℕ
page = 0x8000_2000

-- One page is free, and none is out.
abbrev one_page : Pool
one_page = record { kmem = record { freelist = page; use_lock = false; mem = λ a. 0 }; out = [] }

false-true : false ≡ true → ⊥
false-true h = cc

one_page-Links : Links kernel_end (λ a. 0) page (page ∷ [])
one_page-Links =
    Links-cons kernel_end page (λ a. 0) [] (refl, omega arith, omega arith, omega arith) refl
      (Links-nil kernel_end (λ a. 0))

one_page-IsSound : IsSound kernel_end one_page
one_page-IsSound = record {
  free = page ∷ [];
  links = one_page-Links;
  apart = λ a i. refl;
  single = refl;
  pages = λ a i. absurd (false-true i);
}

-- After one kalloc the page is out, and the next kalloc finds none.
Reach-owners_example :
    (distinct (page ∷ []) ≡ true)
    × (elem (kalloc (kalloc one_page.kmem).1).0 (page ∷ []) ≡ false)
    × ((v : ℕ)
        → elem v (page ∷ []) ≡ true
        → (k : Kmem) × (kfree kernel_end v (kalloc one_page.kmem).1 ≡ some k))
unfolding kalloc
Reach-owners_example =
    Reach-owners kernel_end one_page (record { kmem = (kalloc one_page.kmem).1; out = page ∷ [] })
      (omega arith) one_page-IsSound (Reach.next Reach.here Step.alloc)
