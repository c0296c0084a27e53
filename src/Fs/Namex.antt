-- ===== src/Fs/Namex.antt =====
-- namex of fs.c: a path is followed from an inode to an inode, and every reference and lock taken
-- on the way is given back. What directories hold is an interface.
pub mod Follow
pub mod Resolve
mod Tests
use boss_os.Base.{
  Bool, List, Option, [], false, if◌then◌else◌, length, none, some, suc, true, zero, ℕ, ◌&&◌, ◌++◌,
  ◌+◌, ◌==◌, ◌∷◌,
}
use boss_os.Fs.Path.{skipelem, slash}

-- `ip->type == T_DIR`, and the inode number that dirlookup finds under a name.
pub record Tree : Type 0 where
  pub is_dir : ℕ → Bool
  pub lookup : ℕ → List ℕ → Option ℕ

-- Calls on the inode cache, in order; dirlookup's own iget and idup are gets.
pub data Event : Type 0 where
  get lock unlock put : ℕ → Event

-- The inode returned, with the last name copied out, and the calls made.
pub record Found : Type 0 where
  pub inode : Option (ℕ × List ℕ)
  pub events : List Event

abbrev pub prepend : List Event → Option Found → Option Found
prepend es none = none
prepend es (some r) = some (record r { events = es ++ r.events })

abbrev pub is_nil : List ℕ → Bool
is_nil [] = true
is_nil (_ ∷ _) = false

abbrev pub root_inode : ℕ
root_inode = 1

abbrev pub starts_at_root : List ℕ → Bool
starts_at_root [] = false
starts_at_root (c ∷ cs) = c == slash

module _ (t : Tree) (nameiparent : Bool) where
  -- The round after the lookup in directory `ip`; `go` follows the rest of the path.
  pub entered : (ℕ → List ℕ → Option Found) → (ip : ℕ) → (rest : List ℕ) → Option ℕ → Option Found
  entered go ip rest none =
      some (record { inode = none; events = Event.lock ip ∷ Event.unlock ip ∷ Event.put ip ∷ [] })
  entered go ip rest (some next) =
      prepend (Event.lock ip ∷ Event.get next ∷ Event.unlock ip ∷ Event.put ip ∷ []) (go next rest)

  -- One round of the loop at inode `ip`, with what skipelem returned.
  pub round : (ℕ → List ℕ → Option Found) → (ip : ℕ) → Option (List ℕ × List ℕ) → Option Found
  round go ip none =
      if nameiparent
      then some (record { inode = none; events = Event.put ip ∷ [] })
      else some (record { inode = some (ip, []); events = [] })
  round go ip (some (name, rest)) =
      if t.is_dir ip
      then (if nameiparent && is_nil rest
          then some
              (record { inode = some (ip, name); events = Event.lock ip ∷ Event.unlock ip ∷ [] })
          else entered go ip rest (t.lookup ip name))
      else some
          (record { inode = none; events = Event.lock ip ∷ Event.unlock ip ∷ Event.put ip ∷ [] })

  -- The loop, with fuel for its rounds.
  pub follow : (fuel : ℕ) → (ip : ℕ) → List ℕ → Option Found
  follow zero ip path = none
  follow (suc f) ip path = round (follow f) ip (skipelem path)

  pub namex : (cwd : ℕ) → List ℕ → Option Found
  namex cwd path =
      let ip = (if starts_at_root path then root_inode else cwd) in
      prepend (Event.get ip ∷ []) (follow (length path + 1) ip path)
