-- ===== src/Fs/Inode/Entry.antt =====
-- A new block as an entry of `addrs` or of the indirect block.
use boss_os.Base.{
  Bool, Bool-cases, Option, ap, arith, dec_lt, false, get_or, get_or-set_ne, get_or-set_self,
  if◌then◌else◌, inl, inr, length-set, none, refl, set, some, sym, true, ℕ, ℕ_discrete, ◌*◌, ◌+◌,
  ◌-◌, ◌<◌, ◌==◌, ◌∙◌, ◌≡◌, ◌≢◌, ◌≤◌,
}
use boss_os.Fs.Disk.{Disk, Super, get32}
use boss_os.Fs.Bitmap.{balloc, bitmap_block}
use boss_os.Fs.Bitmap.Alloc.{is_free}
use boss_os.Fs.Bitmap.Balloc.{BallocEnd, Taken, balloc-BallocEnd}
use boss_os.Fs.Inode.{Inode, load_addr, maxfile, ndirect, store_addr}
use boss_os.Fs.Inode.Slots.{Owns, bitmap_end, block_of}
use boss_os.Fs.Inode.Grow.{Grows}
use boss_os.Fs.Inode.Kept.{Grows-Kept, Kept, Kept-refl}

-- The slot of an entry of `addrs`: the last one holds the indirect block.
abbrev pub slot : ℕ → ℕ
slot n = if n == ndirect then maxfile else n

module _ {sb : Super} {ip : Inode} {d : Disk} {x : ℕ} {d1 : Disk} (w : Owns sb ip d)
    (t : Taken sb d x d1) where
  pub x_beyond : bitmap_end sb < x
  x_beyond = w.is_map.meta x t.small t.was_free

  -- balloc leaves every other block in use alone.
  pub used_kept : (b : ℕ) → is_free sb d b ≡ false → bitmap_end sb < b → d1.blocks b ≡ d.blocks b
  used_kept b used far =
      t.kept b (λ q. false-true used (ap (is_free sb d) q ∙ t.was_free)) (λ q. near q)
    where
      false-true : {b : Bool} → b ≡ false → b ≡ true → ⊥
      false-true a b = cc

      near : b ≡ bitmap_block sb x → ⊥
      near q = let lt = t.small in omega arith

  pub slot_kept :
      (s : ℕ)
      → s ≤ maxfile
      → block_of ip d s ≢ 0
      → d1.blocks (block_of ip d s) ≡ d.blocks (block_of ip d s)
  slot_kept s le ne = used_kept (block_of ip d s) (w.used s le ne) (w.beyond s le ne)

  -- The entry of the indirect block is still there.
  pub entry_kept :
      (o : ℕ)
      → get_or ip.addrs ndirect 0 ≢ 0
      → get32 (d1.blocks (get_or ip.addrs ndirect 0)) o
        ≡ get32 (d.blocks (get_or ip.addrs ndirect 0)) o
  entry_kept o ne = ap (λ f. get32 f o) (slot_kept maxfile (omega arith) ne)

  -- A direct block: `addrs[n]` is set.
  direct_slots :
      (n s : ℕ)
      → n < ndirect
      → s ≤ maxfile
      → block_of (record ip { addrs = set ip.addrs n x }) d1 s
        ≡ (if s == n then x else block_of ip d s)
  direct_slots n s n_lt le =
      let at_n : get_or (set ip.addrs n x) n 0 ≡ x = get_or-set_self ip.addrs n x 0 (omega arith) in
      let at_12 : get_or (set ip.addrs n x) ndirect 0 ≡ get_or ip.addrs ndirect 0 =
        get_or-set_ne ip.addrs n ndirect x 0 (omega arith) in
      elim (dec_lt s ndirect) [
        | yes lt ↦ elim (ℕ_discrete s n) [
          | yes e ↦ ground (arith, ap (λ k. get_or (set ip.addrs n x) k 0) e)
          | no ne ↦ ground (arith, get_or-set_ne ip.addrs n s x 0 (λ q. ne (sym q)))
        ]
        | no ge ↦ elim (ℕ_discrete (get_or ip.addrs ndirect 0) 0) [
          | yes z ↦ ground arith
          | no nz ↦ ground (arith, entry_kept (4 * (s - ndirect)) nz)
        ]
      ]

  -- The indirect block: its entries are zeros.
  indirect_slots :
      (s : ℕ)
      → s ≤ maxfile
      → get_or ip.addrs ndirect 0 ≡ 0
      → block_of (record ip { addrs = set ip.addrs ndirect x }) d1 s
        ≡ (if s == maxfile then x else block_of ip d s)
  indirect_slots s le z =
      let at_12 : get_or (set ip.addrs ndirect x) ndirect 0 ≡ x =
        get_or-set_self ip.addrs ndirect x 0 (omega (arith, w.thirteen)) in
      let blank : get32 (d1.blocks x) (4 * (s - ndirect)) ≡ 0 = omega (
        arith,
        t.zeroed (4 * (s - ndirect)),
        t.zeroed (4 * (s - ndirect) + 1),
        t.zeroed (4 * (s - ndirect) + 2),
        t.zeroed (4 * (s - ndirect) + 3),
      ) in
      elim (dec_lt s ndirect) [
        | yes lt ↦ ground (arith, get_or-set_ne ip.addrs ndirect s x 0 (omega arith))
        | no ge ↦ elim (ℕ_discrete s maxfile) [ yes e ↦ ground arith | no ne ↦ ground arith ]
      ]

  store_addr-Grows :
      (n : ℕ)
      → n ≤ ndirect
      → get_or ip.addrs n 0 ≡ 0
      → Grows sb ip d (slot n) x (record ip { addrs = set ip.addrs n x }) d1
  store_addr-Grows n le z = record {
    small = t.small;
    was_free = t.was_free;
    bits = t.bits;
    is_map = t.keeps_map;
    thirteen = length-set ip.addrs n x ∙ w.thirteen;
    slots = λ s ls. by_slot s ls;
    was_empty = empty_slot;
    content = λ s ls ne nz. slot_kept s (omega arith) nz;
    zeroed = λ lt i. t.zeroed i;
  }
    where
      by_slot :
          (s : ℕ)
          → s ≤ maxfile
          → block_of (record ip { addrs = set ip.addrs n x }) d1 s
            ≡ (if s == slot n then x else block_of ip d s)
      by_slot s ls = elim (ℕ_discrete n ndirect) [
        | yes e ↦
            let last : (n == ndirect) ≡ true = ground arith in
            rw (last, e) (indirect_slots s ls (ap (λ k. get_or ip.addrs k 0) (sym e) ∙ z))
        | no ne ↦
            let direct : (n == ndirect) ≡ false = ground arith in
            rw direct (direct_slots n s (omega arith) ls)
      ]

      empty_slot : block_of ip d (slot n) ≡ 0
      empty_slot = elim (ℕ_discrete n ndirect) [
        | yes e ↦
            let last : (n == ndirect) ≡ true = ground arith in
            rw last (ap (λ k. get_or ip.addrs k 0) (sym e) ∙ z)
        | no ne ↦ ground arith
      ]

-- No block is free, or all of the blocks that are free are one block.
abbrev pub AtMostOneFree : Super → Disk → Type 0
AtMostOneFree sb d =
    (x y : ℕ) → x < sb.size → y < sb.size → is_free sb d x ≡ true → is_free sb d y ≡ true → x ≡ y

abbrev pub NoneFree : Super → Disk → Type 0
NoneFree sb d = (y : ℕ) → y < sb.size → is_free sb d y ≡ false

false-true : {b : Bool} → b ≡ false → b ≡ true → ⊥
false-true a b = cc

pub NoneFree-one : (sb : Super) (d : Disk) → NoneFree sb d → AtMostOneFree sb d
NoneFree-one sb d h x y lx ly fx fy = absurd (false-true (h x lx) fx)

-- After one block was taken.
pub Taken-one :
    {sb : Super} {d : Disk} {x : ℕ} {d1 : Disk}
    → Taken sb d x d1
    → NoneFree sb d1
    → AtMostOneFree sb d
Taken-one {sb} {d} {x} {d1} t h y z ly lz fy fz = is_x y ly fy ∙ sym (is_x z lz fz)
  where
    is_x : (y : ℕ) → y < sb.size → is_free sb d y ≡ true → y ≡ x
    is_x y ly fy = elim (ℕ_discrete y x) [
      | yes e ↦ e
      | no ne ↦
          let away : (y == x) ≡ false = ground arith in
          absurd (false-true (h y ly) (t.bits y ly ∙ rw away fy))
    ]

pub record Loaded (sb : Super) (ip : Inode) (d : Disk) (n a : ℕ) (ip' : Inode) (d' : Disk)
    : Type 0 where
  pub kept : Kept sb ip d ip' d'
  pub present : a ≢ 0
  pub here : get_or ip'.addrs n 0 ≡ a
  pub one : NoneFree sb d' → AtMostOneFree sb d

pub data LoadEnd (sb : Super) (ip : Inode) (d : Disk) (n : ℕ)
    : Option (ℕ × Inode × Disk) → Type 0 where
  full : NoneFree sb d → LoadEnd sb ip d n none
  loaded :
      {a : ℕ} {ip' : Inode} {d' : Disk}
      → Loaded sb ip d n a ip' d'
      → LoadEnd sb ip d n (some (a, ip', d'))

pub load_addr-LoadEnd :
    (sb : Super) (ip : Inode) (n : ℕ) (d : Disk)
    → n ≤ ndirect
    → Owns sb ip d
    → LoadEnd sb ip d n (load_addr sb ip n d)
unfolding load_addr store_addr
load_addr-LoadEnd sb ip n d le w = elim (Bool-cases (get_or ip.addrs n 0 == 0)) [
  | inl z ↦ rw z (from (ground arith) (balloc sb d) (balloc-BallocEnd sb d w.is_map))
  | inr nz ↦ rw nz (
      loaded (record {
        kept = Kept-refl w;
        present = ground arith;
        here = refl;
        one = NoneFree-one sb d;
      }))
]
  where
    from :
        get_or ip.addrs n 0 ≡ 0
        → (r : Option (ℕ × Disk)) → BallocEnd sb d r
        → LoadEnd sb ip d n (store_addr ip n r)
    from z none (BallocEnd.full h) = full h
    from z (some (x, d1)) (BallocEnd.taken t) = loaded (record {
      kept =
          Grows-Kept w (store_addr-Grows w t n le z) refl (λ b f. used_kept w t b f.used f.beyond);
      present = λ q. absurd (omega (arith, x_beyond w t));
      here = get_or-set_self ip.addrs n x 0 (omega (arith, w.thirteen));
      one = Taken-one t;
    })
