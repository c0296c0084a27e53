-- ===== src/Bio/Cache.antt =====
-- A block is in one buffer at most.
use boss_os.Base.{
  Bool-cases, List, Option, ap, arith, inl, inr, none, refl, some, some-injective, suc, sym, true,
  zero, ℕ, ◌&&◌, ◌<◌, ◌==◌, ◌∙◌, ◌≡◌, ◌≤◌, ◌⊎◌,
}
use boss_os.Bio.{Buf, bget, binit, brelse, chain, find_cached, lock_of, nbuf, or_recycle}
use boss_os.Sleeplock.{holdingsleep}
use boss_os.Bio.Copies.{
  copies, copies-unlink, find_cached-none, find_cached-some, recycle-some, serves, small,
}

-- A call of bget or of brelse, or a change of one buffer by its holder that leaves its block: the
-- read and the write of the disk, and the bytes.
pub data Step (bs : List Buf) : List Buf → Type 0 where
  get : {bs' : List Buf} (d n i : ℕ) → small bs ≡ true → bget d n bs ≡ some (i, bs') → Step bs bs'
  release : {bs' : List Buf} (me i : ℕ) → brelse me i bs ≡ some bs' → Step bs bs'
  change : {bs' : List Buf} → ((d n : ℕ) → copies d n bs' ≡ copies d n bs) → Step bs bs'

pub data Reach (bs : List Buf) : List Buf → Type 0 where
  start : Reach bs bs
  next : {cs ds : List Buf} → Reach bs cs → Step cs ds → Reach bs ds

-- Device 0 is that of a buffer that has never been used.
abbrev pub IsSingle : List Buf → Type 0
IsSingle bs = (d n : ℕ) → 0 < d → copies d n bs ≤ 1

-- What bget of block `n` of device `d` gives from the list.
pub bget-Served :
    (d n i : ℕ) (bs bs' : List Buf)
    → small bs ≡ true
    → bget d n bs ≡ some (i, bs')
    → (serves i d n bs' ≡ true)
      × ((d' n' : ℕ) → (copies d' n' bs' ≤ copies d' n' bs) ⊎ (copies d' n' bs' ≤ 1))
unfolding bget
bget-Served d n i bs bs' sm e = by_loop (find_cached d n bs) refl e
  where
    both : (d' n' : ℕ) → ((d == d') && (n == n')) ≡ true → (d ≡ d') × (n ≡ n')
    both d' n' h = (ground arith, ground arith)

    by_loop :
        (r : Option (ℕ × List Buf))
        → find_cached d n bs ≡ r
        → or_recycle d n bs r ≡ some (i, bs')
        → (serves i d n bs' ≡ true)
          × ((d' n' : ℕ) → (copies d' n' bs' ≤ copies d' n' bs) ⊎ (copies d' n' bs' ≤ 1))
    by_loop none q e =
        let none_there = find_cached-none d n bs q in
        let h = recycle-some d n bs i bs' e in
        (
          h.found,
          λ d' n'. elim (Bool-cases ((d == d') && (n == n'))) [
            | inl same ↦
                let (dd, nn) = both d' n' same in inr (rw (sym dd, sym nn) (omega (arith, h.one)))
            | inr ne ↦ inl (h.others d' n' ne)
          ],
        )
    by_loop (some (j, cs)) q e =
        let h = find_cached-some d n bs i bs' sm (q ∙ e) in
        (h.found, λ d' n'. inl (omega (arith, h.same d' n')))

brelse-copies :
    (me i : ℕ) (bs bs' : List Buf) (d n : ℕ)
    → brelse me i bs ≡ some bs'
    → copies d n bs' ≡ copies d n bs
unfolding brelse
brelse-copies me i bs bs' d n e = elim (Bool-cases (holdingsleep me (lock_of i bs))) [
  | inl held ↦ ap (copies d n) (sym (some-injective _ _ (rw held at e))) ∙ copies-unlink d n i bs
  | inr not_held ↦ absurd (none_some (rw not_held at e))
]
  where
    none_some : {A : Type 0} {a : A} → none ≡ some a → ⊥
    none_some e = cc

Step-IsSingle : {bs cs : List Buf} → IsSingle bs → Step bs cs → IsSingle cs
Step-IsSingle {bs} {cs} h (get d n i sm e) d' n' pos =
    elim ((bget-Served d n i bs cs sm e).1 d' n') [
      | inl le ↦ omega (arith, h d' n' pos)
      | inr le ↦ le
    ]
Step-IsSingle {bs} {cs} h (release me i e) d' n' pos =
    omega (arith, brelse-copies me i bs cs d' n' e, h d' n' pos)
Step-IsSingle h (change same) d' n' pos = omega (arith, same d' n', h d' n' pos)

Reach-IsSingle : {bs cs : List Buf} → IsSingle bs → Reach bs cs → IsSingle cs
Reach-IsSingle h start = h
Reach-IsSingle h (next r st) = Step-IsSingle (Reach-IsSingle h r) st

chain-new : (k d n : ℕ) → 0 < d → copies d n (chain k) ≡ 0
unfolding chain
chain-new zero d n pos = refl
chain-new (suc k) d n pos = ground (arith, chain-new k d n pos)

-- From the cache that binit builds, whatever the order of the calls of bget and brelse and of
-- changes that leave the blocks of the buffers, when no counter is at its maximum: a call of bget
-- that does not panic returns a buffer that stands for the block and has a reference; and neither
-- before nor after it is a block of a device other than 0 in two buffers.
pub Reach-bget :
    (bs bs' : List Buf) (d n i : ℕ)
    → Reach binit bs
    → small bs ≡ true
    → bget d n bs ≡ some (i, bs')
    → IsSingle bs × IsSingle bs' × (serves i d n bs' ≡ true)
Reach-bget bs bs' d n i r sm e =
    let h = Reach-IsSingle (λ d n pos. omega (arith, chain-new nbuf d n pos)) r in
    (h, Step-IsSingle h (get d n i sm e), (bget-Served d n i bs bs' sm e).0)
