-- ===== src/Fs/Namex/Tests.antt =====
-- A path in a small tree.
use boss_os.Base.{List, [], get_or, if◌then◌else◌, leb, none, some, ℕ, ◌&&◌, ◌==◌, ◌∷◌}
use boss_os.Fs.Path.{slash}
use boss_os.Fs.Namex.{Tree}

-- Inodes 1 and 2 are directories; in 1, "a" is 2; in 2, "b" is 3.
abbrev small : Tree
small = record {
  is_dir = λ i. leb i 2;
  lookup = λ i name.
      if i == 1 && (get_or name 0 0 == 97)
      then some 2
      else (if i == 2 && (get_or name 0 0 == 98) then some 3 else none);
}

-- "/a/b"
abbrev to_b : List ℕ
to_b = slash ∷ 97 ∷ slash ∷ 98 ∷ []
