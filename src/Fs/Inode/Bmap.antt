-- ===== src/Fs/Inode/Bmap.antt =====
-- bmap finds the block of the content, or adds one.
use boss_os.Base.{
  Bool, Bool-cases, Option, ap, arith, dec_lt, false, get_or, if◌then◌else◌, inl, inr, ltb, none,
  refl, some, subst, sym, true, u32_mod, update_ne, update_self, ℕ, ℕ_discrete, ◌%◌, ◌*◌, ◌+◌, ◌-◌,
  ◌<◌, ◌==◌, ◌∙◌, ◌≡◌, ◌≢◌, ◌≤◌,
}
use boss_os.Fs.Disk.{Block, Disk, Super, get32, put_block, set32}
use boss_os.Fs.Disk.Words.{get32-set32_ne, get32-set32_self}
use boss_os.Fs.Bitmap.{balloc, bitmap_block, bits_per_block, is_clear}
use boss_os.Fs.Bitmap.Bits.{IsBytes}
use boss_os.Fs.Bitmap.Alloc.{is_free}
use boss_os.Fs.Bitmap.Balloc.{BallocEnd, Taken, balloc-BallocEnd}
use boss_os.Fs.Inode.{Inode, bmap, load_addr, load_entry, maxfile, ndirect, nindirect, store_entry}
use boss_os.Fs.Inode.Slots.{Owns, addr_of, bitmap_end, block_of}
use boss_os.Fs.Inode.Grow.{Grows}
use boss_os.Fs.Inode.Kept.{Grows-Kept, Kept, Kept-trans}
use boss_os.Fs.Inode.Entry.{
  AtMostOneFree, LoadEnd, NoneFree-one, full, load_addr-LoadEnd, loaded, slot_kept, used_kept,
  x_beyond,
}

pub set32-IsBytes : (f : Block) (o v : ℕ) → IsBytes f → IsBytes (set32 f o v)
unfolding set32
set32-IsBytes f o v h i = ground (arith, h i)

module _ {sb : Super} {ip : Inode} {d : Disk} {x : ℕ} {d1 : Disk} (w : Owns sb ip d)
    (t : Taken sb d x d1) (n : ℕ) (n_lt : n < nindirect) (table : ℕ)
    (is_table : get_or ip.addrs ndirect 0 ≡ table) (present : table ≢ 0)
    (empty : get32 (d.blocks table) (4 * n) ≡ 0) where
  abbrev entry : Block
  entry = set32 (d1.blocks table) (4 * n) x

  abbrev linked : Disk
  linked = put_block table entry d1

  table_slot : block_of ip d maxfile ≡ table
  table_slot = is_table

  table_ne : block_of ip d maxfile ≢ 0
  table_ne q = present (sym is_table ∙ q)

  table_beyond : bitmap_end sb < table
  table_beyond = omega (arith, w.beyond maxfile (omega arith) table_ne, is_table)

  x_ne_table : x ≢ table
  x_ne_table q = absurd (
      false-true (w.used maxfile (omega arith) table_ne)
        (ap (is_free sb d) (is_table ∙ sym q) ∙ t.was_free))
    where
      false-true : {b : Bool} → b ≡ false → b ≡ true → ⊥
      false-true a b = cc

  table_kept : d1.blocks table ≡ d.blocks table
  table_kept =
      subst (λ b. d1.blocks b ≡ d.blocks b) is_table (slot_kept w t maxfile (omega arith) table_ne)

  is_free-entry : (y : ℕ) → y < sb.size → is_free sb linked y ≡ is_free sb d1 y
  is_free-entry y lt =
      ap (λ f. is_clear f (y % bits_per_block))
        (update_ne d1.blocks table (bitmap_block sb y) entry (λ q. far q))
    where
      far : bitmap_block sb y ≡ table → ⊥
      far q = let b = table_beyond in omega arith

  at_table : linked.blocks table ≡ entry
  at_table = update_self d1.blocks table entry

  small_word : x < u32_mod
  small_word = omega (arith, t.small, w.is_map.fits)

  word :
      (m : ℕ)
      → get32 (linked.blocks table) (4 * m) ≡ (if m == n then x else get32 (d.blocks table) (4 * m))
  word m = elim (ℕ_discrete m n) [
    | yes e ↦
        let here : (m == n) ≡ true = ground arith in
        rw here (
          ap (λ k. get32 (linked.blocks table) (4 * k)) e
          ∙ ap (λ f. get32 f (4 * n)) at_table
          ∙ get32-set32_self (d1.blocks table) (4 * n) x small_word)
    | no ne ↦
        let away : (m == n) ≡ false = ground arith in
        rw away (
          ap (λ f. get32 f (4 * m)) at_table
          ∙ get32-set32_ne (d1.blocks table) (4 * n) (4 * m) x (omega arith)
          ∙ ap (λ f. get32 f (4 * m)) table_kept)
  ]

  entry_slots :
      (s : ℕ)
      → s ≤ maxfile
      → block_of ip linked s ≡ (if s == n + ndirect then x else block_of ip d s)
  entry_slots s le = elim (dec_lt s ndirect) [
    | yes lt ↦ ground arith
    | no ge ↦ elim (ℕ_discrete s maxfile) [
      | yes e ↦ ground arith
      | no ne ↦
          let there : (table == 0) ≡ false = ground arith in
          let at_word = word (s - ndirect) in rw (is_table, there) (ground arith)
    ]
  ]

  entry-IsBytes : IsBytes entry
  entry-IsBytes = set32-IsBytes (d1.blocks table) (4 * n) x (t.keeps_map.bytes table)

  other_block : (b : ℕ) → b ≢ table → linked.blocks b ≡ d1.blocks b
  other_block b ne = update_ne d1.blocks table b entry ne

  linked-Grows : Grows sb ip d (n + ndirect) x ip linked
  linked-Grows = record {
    small = t.small;
    was_free = t.was_free;
    bits = λ y lt. is_free-entry y lt ∙ t.bits y lt;
    is_map = record {
      bytes = λ b. bytes_at b;
      fits = t.keeps_map.fits;
      meta = λ y lt h. t.keeps_map.meta y lt (sym (is_free-entry y lt) ∙ h);
    };
    thirteen = w.thirteen;
    slots = λ s ls. entry_slots s ls;
    was_empty = empty_slot;
    content = λ s ls ne nz.
        other_block (block_of ip d s) (λ q. away (single_table s ls nz q) ls)
        ∙ slot_kept w t s (omega arith) nz;
    zeroed = λ lt i. ap (λ f. f i) (other_block x x_ne_table) ∙ t.zeroed i;
  }
    where
      away : {s : ℕ} → s ≡ maxfile → s < maxfile → ⊥
      away q lt = omega arith

      single_table :
          (s : ℕ) → s < maxfile → block_of ip d s ≢ 0 → block_of ip d s ≡ table → s ≡ maxfile
      single_table s ls nz q =
          w.single s maxfile (omega arith) (omega arith) nz (q ∙ sym table_slot)

      empty_slot : block_of ip d (n + ndirect) ≡ 0
      empty_slot =
          let there : (table == 0) ≡ false = ground arith in
          let index : n + ndirect - ndirect ≡ n = omega arith in
          rw (is_table, there, index) (ground arith)

      bytes_at : (b : ℕ) → IsBytes (linked.blocks b)
      bytes_at b = elim (ℕ_discrete b table) [
        | yes e ↦ subst IsBytes (sym (ap linked.blocks e ∙ at_table)) entry-IsBytes
        | no ne ↦ subst IsBytes (sym (other_block b ne)) (t.keeps_map.bytes b)
      ]

  entry_there : get32 (linked.blocks table) (4 * n) ≡ x
  entry_there = let here : (n == n) ≡ true = ground arith in word n ∙ rw here refl

  linked-Kept : Kept sb ip d ip linked
  linked-Kept = Grows-Kept w linked-Grows refl (λ b f.
      other_block b (λ q. f.not_mine maxfile (omega arith) (table_slot ∙ sym q))
      ∙ used_kept w t b f.used f.beyond)

pub record Mapped (sb : Super) (ip : Inode) (d : Disk) (bn a : ℕ) (ip' : Inode) (d' : Disk)
    : Type 0 where
  pub kept : Kept sb ip d ip' d'
  pub present : a ≢ 0
  pub here : addr_of ip' d' bn ≡ a

-- How bmap ends.
pub data BmapEnd (sb : Super) (ip : Inode) (d : Disk) (bn : ℕ)
    : Option (ℕ × Inode × Disk) → Type 0 where
  spent : AtMostOneFree sb d → BmapEnd sb ip d bn none
  mapped :
      {a : ℕ} {ip' : Inode} {d' : Disk}
      → Mapped sb ip d bn a ip' d'
      → BmapEnd sb ip d bn (some (a, ip', d'))

entry_here :
    (n : ℕ) (ip' : Inode) (d' : Disk) (table : ℕ)
    → get_or ip'.addrs ndirect 0 ≡ table
    → table ≢ 0
    → addr_of ip' d' (n + ndirect) ≡ get32 (d'.blocks table) (4 * n)
entry_here n ip' d' table q ne =
    let there : (table == 0) ≡ false = ground arith in
    let index : n + ndirect - ndirect ≡ n = omega arith in
    let far : ltb (n + ndirect) ndirect ≡ false = ground arith in rw (far, q, there, index) refl

module _ {sb : Super} {ip : Inode} {d : Disk} (n : ℕ) (n_lt : n < nindirect) where
  load_entry-BmapEnd :
      (r : Option (ℕ × Inode × Disk))
      → LoadEnd sb ip d ndirect r
      → BmapEnd sb ip d (n + ndirect) (load_entry sb n r)
  unfolding load_entry store_entry
  load_entry-BmapEnd none (full h) = spent (NoneFree-one sb d h)
  load_entry-BmapEnd (some (table, ip1, d1)) (loaded l) =
      elim (Bool-cases (get32 (d1.blocks table) (4 * n) == 0)) [
        | inl z ↦
            rw z (
              from (ground arith) (balloc sb d1) (balloc-BallocEnd sb d1 l.kept.around.owns.is_map))
        | inr nz ↦ rw nz (
            mapped (record {
              kept = l.kept;
              present = ground arith;
              here = entry_here n ip1 d1 table l.here l.present;
            }))
      ]
    where
      from :
          get32 (d1.blocks table) (4 * n) ≡ 0
          → (r : Option (ℕ × Disk)) → BallocEnd sb d1 r
          → BmapEnd sb ip d (n + ndirect) (store_entry table n ip1 r)
      from z none (BallocEnd.full h) = spent (l.one h)
      from z (some (x, d2)) (BallocEnd.taken t) =
          let k = linked-Kept l.kept.around.owns t n n_lt table l.here l.present z in
          mapped (record {
            kept = Kept-trans l.kept k;
            present = λ q. absurd (omega (arith, x_beyond l.kept.around.owns t));
            here =
                entry_here n ip1 (linked l.kept.around.owns t n n_lt table l.here l.present z) table
                  l.here l.present
                ∙ entry_there l.kept.around.owns t n n_lt table l.here l.present z;
          })

-- For an inode that owns its blocks, and a block number below MAXFILE, bmap gives a block that is the
-- one of this number from then on. The inode still owns its blocks, the content is as it was, no
-- block is given back and the data blocks of others are untouched. It panics only when at most one
-- block of the disk is free.
pub bmap-BmapEnd :
    (sb : Super) (ip : Inode) (bn : ℕ) (d : Disk)
    → bn < maxfile
    → Owns sb ip d
    → BmapEnd sb ip d bn (bmap sb ip bn d)
unfolding bmap
bmap-BmapEnd sb ip bn d lt w = elim (Bool-cases (ltb bn ndirect)) [
  | inl direct ↦
      rw direct (from direct (load_addr sb ip bn d) (load_addr-LoadEnd sb ip bn d (ground arith) w))
  | inr far ↦
      let fits : ltb (bn - ndirect) nindirect ≡ true = ground arith in
      let back : bn - ndirect + ndirect ≡ bn = ground arith in
      rw (far, fits)
        (subst (λ k. BmapEnd sb ip d k (load_entry sb (bn - ndirect) (load_addr sb ip ndirect d)))
          back
          (load_entry-BmapEnd (bn - ndirect) (ground arith) (load_addr sb ip ndirect d)
            (load_addr-LoadEnd sb ip ndirect d (omega arith) w)))
]
  where
    from :
        ltb bn ndirect ≡ true
        → (r : Option (ℕ × Inode × Disk)) → LoadEnd sb ip d bn r
        → BmapEnd sb ip d bn r
    from direct none (full h) = spent (NoneFree-one sb d h)
    from direct (some (a, ip', d')) (loaded l) =
        mapped (record { kept = l.kept; present = l.present; here = rw direct l.here })
