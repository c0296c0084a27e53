-- ===== src/Fs/Path/Tests.antt =====
-- Concrete paths.
use boss_os.Base.{List, [], refl, some, ℕ, ◌∷◌, ◌≡◌}
use boss_os.Fs.Path.{elem_name, skip_on, skip_slashes, skipelem, slash, take_elem}

-- "//ab/c/"
abbrev sample : List ℕ
sample = slash ∷ slash ∷ 97 ∷ 98 ∷ slash ∷ 99 ∷ slash ∷ []

skipelem-sample : skipelem sample ≡ some (97 ∷ 98 ∷ [], 99 ∷ slash ∷ [])
unfolding skipelem skip_slashes skip_on take_elem elem_name
skipelem-sample = refl
