-- ===== src/Fs/Namex/Resolve.antt =====
-- namex ends, and finds what looking up the names of the path one by one finds.
use boss_os.Base.{Bool, List, Option, [], false, if◌then◌else◌, none, some, ℕ, ◌∷◌, ◌≡◌}
use boss_os.Fs.Namex.{Found, Tree, root_inode, starts_at_root}

abbrev pub onward : Option ℕ → (ℕ → Option ℕ) → Option ℕ
onward none go = none
onward (some i) go = go i

-- The inode at the end of a list of names: each name is looked up in a directory.
pub resolve : Tree → ℕ → List (List ℕ) → Option ℕ
resolve t ip [] = some ip
resolve t ip (name ∷ ns) =
    let next = onward (t.lookup ip name) (λ i. resolve t i ns) in if t.is_dir ip then next else none

abbrev pub number : Option (ℕ × List ℕ) → Option ℕ
number none = none
number (some (i, name)) = some i

-- The run ends, in `o` if it is one of namei.
abbrev pub Ends : (parent : Bool) → Option Found → Option ℕ → Type 0
Ends parent r o = (s : Found) × (r ≡ some s) × (parent ≡ false → number s.inode ≡ o)

abbrev pub start_inode : ℕ → List ℕ → ℕ
start_inode cwd path = if starts_at_root path then root_inode else cwd
