-- ===== src/Str/Tests.antt =====
-- Concrete runs of the operations on bytes.
use boss_os.Base.{[], if◌then◌else◌, ltb, map, refl, some, ◌∷◌, ◌≡◌}
use boss_os.Str.{Memory, copy_down, copy_up, memmove, strlen, strlen_from}
use boss_os.Str.Move.{Moved, memmove-Moved}

-- The byte at `a` is `a`, and from 20 on there are only zeros.
abbrev bytes : Memory
bytes a = if ltb a 20 then a else 0

memmove_overlap :
    map (memmove 12 10 5 bytes) (11 ∷ 12 ∷ 13 ∷ 16 ∷ 17 ∷ []) ≡ 11 ∷ 10 ∷ 11 ∷ 14 ∷ 17 ∷ []
unfolding memmove copy_down copy_up
memmove_overlap = refl

-- The ranges overlap.
memmove-Moved_example : Moved 12 10 5 bytes (memmove 12 10 5 bytes)
memmove-Moved_example = memmove-Moved 12 10 5 bytes

strlen_18 : strlen 5 18 bytes ≡ some 2
unfolding strlen strlen_from
strlen_18 = refl
