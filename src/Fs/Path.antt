-- ===== src/Fs/Path.antt =====
-- skipelem of fs.c: a path is the list of its bytes before the terminating 0.
pub mod Elements
mod Tests
use boss_os.Base.{List, Option, [], if◌then◌else◌, leb, length, none, some, take, ℕ, ◌==◌, ◌∷◌}

abbrev pub slash : ℕ
slash = b'/'

abbrev pub dir_size : ℕ
dir_size = 14

-- `while(*path == '/') path++;`
unfoldable pub skip_slashes : List ℕ → List ℕ
skip_slashes [] = []
skip_slashes (c ∷ cs) = if c == slash then skip_slashes cs else c ∷ cs

-- `while(*path != '/' && *path != 0) path++;`: the bytes passed over, and the rest.
unfoldable pub take_elem : List ℕ → List ℕ × List ℕ
take_elem [] = ([], [])
take_elem (c ∷ cs) =
    let (e, rest) = take_elem cs in if c == slash then ([], c ∷ cs) else (c ∷ e, rest)

-- The bytes of `name` before its 0, or all 14 if there is none.
unfoldable pub elem_name : List ℕ → List ℕ
elem_name e = if leb dir_size (length e) then take dir_size e else e

-- `none` for the null pointer; else the name and the remaining path.
unfoldable pub skip_on : List ℕ → Option (List ℕ × List ℕ)
skip_on [] = none
skip_on (c ∷ cs) = let (e, rest) = take_elem (c ∷ cs) in some (elem_name e, skip_slashes rest)

unfoldable pub skipelem : List ℕ → Option (List ℕ × List ℕ)
skipelem path = skip_on (skip_slashes path)
