-- ===== src/Bio/Tests.antt =====
-- A block is looked up twice.
use boss_os.Base.{List, Option, none, refl, some, true, ℕ, ◌≡◌}
use boss_os.Bio.{Buf, bget, binit, chain, find_cached, recycle}
use boss_os.Bio.Copies.{serves}
use boss_os.Bio.Cache.{IsSingle, Reach, Reach-bget, Step}

abbrev after_get : List Buf → Option (ℕ × List Buf) → List Buf
after_get bs none = bs
after_get bs (some (i, bs')) = bs'

-- Block 7 of device 1 was looked up.
abbrev used : List Buf
used = after_get binit (bget 1 7 binit)

-- The second lookup finds the same buffer.
Reach-bget_example :
    IsSingle used
    × IsSingle (after_get used (bget 1 7 used))
    × (serves 0 1 7 (after_get used (bget 1 7 used)) ≡ true)
unfolding bget find_cached recycle chain
Reach-bget_example =
    Reach-bget used (after_get used (bget 1 7 used)) 1 7 0
      (Reach.next Reach.start (Step.get 1 7 0 refl refl)) refl refl
