-- ===== src/Fs/Namex/Follow.antt =====
-- What namex finds, and that it keeps no reference but the one that it returns.
use boss_os.Base.{
  Bool, Bool-cases, List, Option, [], arith, if◌then◌else◌, inl, inr, none, refl, some, suc, zero,
  ℕ, ◌&&◌, ◌++◌, ◌+◌, ◌==◌, ◌∷◌, ◌≡◌,
}
use boss_os.Fs.Path.{skipelem}
use boss_os.Fs.Namex.{Event, Found, Tree, entered, follow, is_nil, prepend, round}

-- The number of calls of each kind on inode `j`.
abbrev pub gets : ℕ → Event → ℕ
gets j (Event.get i) = if i == j then 1 else 0
gets j _ = 0

abbrev pub puts : ℕ → Event → ℕ
puts j (Event.put i) = if i == j then 1 else 0
puts j _ = 0

abbrev pub locks : ℕ → Event → ℕ
locks j (Event.lock i) = if i == j then 1 else 0
locks j _ = 0

abbrev pub unlocks : ℕ → Event → ℕ
unlocks j (Event.unlock i) = if i == j then 1 else 0
unlocks j _ = 0

abbrev pub total : (Event → ℕ) → List Event → ℕ
total f [] = 0
total f (e ∷ es) = f e + total f es

-- 1 for the inode that is returned.
abbrev pub returned : ℕ → Option (ℕ × List ℕ) → ℕ
returned j none = 0
returned j (some (i, name)) = if i == j then 1 else 0

-- Starting with one reference to `ip`, the run gives back all but the one that it returns, and
-- every lock.
pub record Balanced (ip : ℕ) (r : Found) : Type 0 where
  pub refs :
      (j : ℕ)
      → (if ip == j then 1 else 0) + total (gets j) r.events
        ≡ total (puts j) r.events + returned j r.inode
  pub locked : (j : ℕ) → total (locks j) r.events ≡ total (unlocks j) r.events

prepend-inv :
    (es : List Event) (o : Option Found) (r : Found)
    → prepend es o ≡ some r
    → (s : Found) × (o ≡ some s) × (r ≡ record s { events = es ++ s.events })
prepend-inv es none r h = cc
prepend-inv es (some s) r h = (s, refl, cc)

-- A round that hands over to `next`.
hand_over :
    (ip next : ℕ) (s : Found)
    → Balanced next s
    → Balanced ip (record s {
      events = Event.lock ip ∷ Event.get next ∷ Event.unlock ip ∷ Event.put ip ∷ s.events;
    })
hand_over ip next s b = record {
  refs = λ j. omega (arith, b.refs j);
  locked = λ j. omega (arith, b.locked j);
}

module _ (t : Tree) (parent : Bool) where
  entered-Balanced :
      (go : ℕ → List ℕ → Option Found) (ip : ℕ) (rest : List ℕ) (o : Option ℕ) (r : Found)
      → ((i : ℕ) (q : List ℕ) (s : Found) → go i q ≡ some s → Balanced i s)
      → entered t parent go ip rest o ≡ some r
      → Balanced ip r
  unfolding entered
  entered-Balanced go ip rest none r ih h = record {
    refs = λ j. ground arith;
    locked = λ j. ground arith;
  }
  entered-Balanced go ip rest (some next) r ih h =
      let (s, e, is) =
        prepend-inv (Event.lock ip ∷ Event.get next ∷ Event.unlock ip ∷ Event.put ip ∷ [])
          (go next rest) r h in
      rw is (hand_over ip next s (ih next rest s e))

  given_back :
      (ip : ℕ) (r : Found)
      → r ≡ record { inode = none; events = Event.lock ip ∷ Event.unlock ip ∷ Event.put ip ∷ [] }
      → Balanced ip r
  given_back ip r e = rw e (record { refs = λ j. omega arith; locked = λ j. omega arith })

  round-Balanced :
      (go : ℕ → List ℕ → Option Found) (ip : ℕ) (o : Option (List ℕ × List ℕ)) (r : Found)
      → ((i : ℕ) (q : List ℕ) (s : Found) → go i q ≡ some s → Balanced i s)
      → round t parent go ip o ≡ some r
      → Balanced ip r
  unfolding round
  round-Balanced go ip none r ih h = elim (Bool-cases parent) [
    | inl p ↦
        let e : r ≡ record { inode = none; events = Event.put ip ∷ [] } = cc (rw p at h) in
        rw e (record { refs = λ j. omega arith; locked = λ j. refl })
    | inr p ↦
        let e : r ≡ record { inode = some (ip, []); events = [] } = cc (rw p at h) in
        rw e (record { refs = λ j. omega arith; locked = λ j. refl })
  ]
  round-Balanced go ip (some (name, rest)) r ih h = elim (Bool-cases (t.is_dir ip)) [
    | inr file ↦ given_back ip r (cc (rw file at h))
    | inl dir ↦ elim (Bool-cases (parent && is_nil rest)) [
      | inl stop ↦
          let e : r
              ≡ record { inode = some (ip, name); events = Event.lock ip ∷ Event.unlock ip ∷ [] } =
            cc (rw (dir, stop) at h) in
          rw e (record { refs = λ j. omega arith; locked = λ j. omega arith })
      | inr more ↦ entered-Balanced go ip rest (t.lookup ip name) r ih (rw (dir, more) at h)
    ]
  ]

  pub follow-Balanced :
      (f ip : ℕ) (path : List ℕ) (r : Found) → follow t parent f ip path ≡ some r → Balanced ip r
  unfolding follow
  follow-Balanced zero ip path r h = cc
  follow-Balanced (suc f) ip path r h =
      round-Balanced (follow t parent f) ip (skipelem path) r (follow-Balanced f) h
