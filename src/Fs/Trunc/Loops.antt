-- ===== src/Fs/Trunc/Loops.antt =====
-- The loops of itrunc.
use boss_os.Base.{
  Bool, List, Option, ap, arith, false, get_or, get_or-set_ne, get_or-set_self, length, length-set,
  ltb, none, refl, set, some, subst, suc, sym, true, zero, ℕ, ℕ_discrete, ◌*◌, ◌+◌, ◌-◌, ◌<◌, ◌==◌,
  ◌∙◌, ◌≡◌, ◌≢◌, ◌≤◌,
}
use boss_os.Fs.Disk.{Disk, Super, get32}
use boss_os.Fs.Bitmap.{bfree}
use boss_os.Fs.Bitmap.Balloc.{BfreeEnd, bfree-BfreeEnd, freed, panics}
use boss_os.Fs.Inode.{Inode, maxfile, ndirect, nindirect}
use boss_os.Fs.Inode.Slots.{Owns, bitmap_end, block_of}
use boss_os.Fs.Trunc.{free_block, free_direct, free_entries, free_last, free_next, free_next_entry}
use boss_os.Fs.Trunc.Freeing.{Freeing, Freeing-skip, Freeing-step, still_used}

pub data Frees (sb : Super) (ip : Inode) (d : Disk) (i : ℕ) : Option Disk → Type 0 where
  frees : {d1 : Disk} → Freeing sb ip d i d1 → Frees sb ip d i (some d1)

-- The first `i` entries of `addrs` are cleared.
pub record Cut (ip : Inode) (i : ℕ) (ip1 : Inode) : Type 0 where
  pub same : ip1 ≡ record ip { addrs = ip1.addrs }
  pub cleared : (s : ℕ) → s < i → get_or ip1.addrs s 0 ≡ 0
  pub left : (s : ℕ) → i ≤ s → get_or ip1.addrs s 0 ≡ get_or ip.addrs s 0
  pub thirteen : length ip1.addrs ≡ 13

pub data Directs (sb : Super) (ip : Inode) (d : Disk) (i : ℕ) : Option (Inode × Disk) → Type 0 where
  directs :
      {ip1 : Inode} {d1 : Disk}
      → Cut ip i ip1
      → Freeing sb ip d i d1
      → Directs sb ip d i (some (ip1, d1))

abbrev readdressed : List ℕ → Inode → Inode
readdressed as_ ip = record ip { addrs = as_ }

pub Cut-set :
    {ip ip1 : Inode} (i : ℕ)
    → i < 13
    → Cut ip i ip1
    → Cut ip (i + 1) (record ip1 { addrs = set ip1.addrs i 0 })
Cut-set {ip} {ip1} i lt c = record {
  same = ap (readdressed (set ip1.addrs i 0)) c.same;
  cleared = λ s ls. elim (ℕ_discrete s i) [
    | yes e ↦
        ap (λ k. get_or (set ip1.addrs i 0) k 0) e
        ∙ get_or-set_self ip1.addrs i 0 0 (omega (arith, c.thirteen))
    | no o ↦ get_or-set_ne ip1.addrs i s 0 0 (λ q. o (sym q)) ∙ c.cleared s (omega arith)
  ];
  left = λ s ls. get_or-set_ne ip1.addrs i s 0 0 (omega arith) ∙ c.left s (omega arith);
  thirteen = length-set ip1.addrs i 0 ∙ c.thirteen;
}

pub Cut-skip :
    {ip ip1 : Inode} (i : ℕ) → get_or ip1.addrs i 0 ≡ 0 → Cut ip i ip1 → Cut ip (i + 1) ip1
Cut-skip {ip} {ip1} i z c = record {
  same = c.same;
  cleared = λ s ls. elim (ℕ_discrete s i) [
    | yes e ↦ ap (λ k. get_or ip1.addrs k 0) e ∙ z
    | no o ↦ c.cleared s (omega arith)
  ];
  left = λ s ls. c.left s (omega arith);
  thirteen = c.thirteen;
}

module _ {sb : Super} {ip : Inode} {d : Disk} (w : Owns sb ip d) where
  bfree-Frees :
      {d1 : Disk} (i a : ℕ)
      → i ≤ maxfile
      → block_of ip d i ≡ a
      → a ≢ 0
      → Freeing sb ip d i d1
      → Frees sb ip d (i + 1) (bfree sb a d1)
  bfree-Frees {d1} i a le q ne p =
      let here : block_of ip d i ≢ 0 = λ z. ne (sym q ∙ z) in
      subst (λ b. Frees sb ip d (i + 1) (bfree sb b d1)) q
        (from here (bfree sb (block_of ip d i) d1) (bfree-BfreeEnd sb (block_of ip d i) d1 p.bytes))
    where
      false-true : {b : Bool} → b ≡ false → b ≡ true → ⊥
      false-true a b = cc

      from :
          block_of ip d i ≢ 0
          → (r : Option Disk) → BfreeEnd sb d1 (block_of ip d i) r
          → Frees sb ip d (i + 1) r
      from here none (panics free) = absurd (false-true (still_used w i le p here) free)
      from here (some d2) (freed f) = frees (Freeing-step w i le p here f)

  free_block-Frees :
      {d1 : Disk} (i a : ℕ)
      → i ≤ maxfile
      → block_of ip d i ≡ a
      → Freeing sb ip d i d1
      → Frees sb ip d (i + 1) (free_block sb a d1)
  unfolding free_block
  free_block-Frees i a le q p = elim (ℕ_discrete a 0) [
    | yes z ↦
        let test : (a == 0) ≡ true = ground arith in rw test (frees (Freeing-skip i (q ∙ z) p))
    | no ne ↦ let test : (a == 0) ≡ false = ground arith in rw test (bfree-Frees i a le q ne p)
  ]

  direct_slot : (i : ℕ) → i < ndirect → block_of ip d i ≡ get_or ip.addrs i 0
  direct_slot i lt =
      let last : (i == maxfile) ≡ false = ground arith in
      let low : ltb i ndirect ≡ true = ground arith in rw (last, low) refl

  pub free_direct-Directs :
      (n i : ℕ) (ip1 : Inode) (d1 : Disk)
      → n + i ≡ ndirect
      → Cut ip i ip1
      → Freeing sb ip d i d1
      → Directs sb ip d ndirect (free_direct sb n i ip1 d1)
  unfolding free_direct free_next
  free_direct-Directs zero i ip1 d1 q c p =
      let end : i ≡ ndirect = omega arith in
      subst (λ k. Directs sb ip d k (some (ip1, d1))) end (directs c p)
  free_direct-Directs (suc n) i ip1 d1 q c p = elim (ℕ_discrete (get_or ip1.addrs i 0) 0) [
    | yes z ↦
        let test : (get_or ip1.addrs i 0 == 0) ≡ true = ground arith in
        rw test (
          free_direct-Directs n (i + 1) ip1 d1 (omega arith) (Cut-skip i z c)
            (Freeing-skip i (direct_slot i (omega arith) ∙ sym (c.left i (omega arith)) ∙ z) p))
    | no ne ↦
        let test : (get_or ip1.addrs i 0 == 0) ≡ false = ground arith in
        rw test (
          from (bfree sb (get_or ip1.addrs i 0) d1)
            (bfree-Frees i (get_or ip1.addrs i 0) (omega arith)
              (direct_slot i (omega arith) ∙ sym (c.left i (omega arith))) ne p)
            (λ d2 p2.
              free_direct-Directs n (i + 1) (record ip1 { addrs = set ip1.addrs i 0 }) d2
                (omega arith) (Cut-set i (omega arith) c) p2))
  ]
    where
      from :
          (r : Option Disk)
          → Frees sb ip d (i + 1) r
          → ((d2 : Disk)
              → Freeing sb ip d (i + 1) d2
              → Directs sb ip d ndirect
                  (free_direct sb n (i + 1) (record ip1 { addrs = set ip1.addrs i 0 }) d2))
          → Directs sb ip d ndirect (free_next (free_direct sb n) i ip1 r)
      from none e k = elim e [ ]
      from (some d2) (frees p2) k = k d2 p2

  module _ (table : ℕ) (is_table : get_or ip.addrs ndirect 0 ≡ table) (present : table ≢ 0) where
    entry_slot :
        (j : ℕ) → j < nindirect → block_of ip d (j + ndirect) ≡ get32 (d.blocks table) (4 * j)
    entry_slot j lt =
        let last : (j + ndirect == maxfile) ≡ false = ground arith in
        let far : ltb (j + ndirect) ndirect ≡ false = ground arith in
        let there : (table == 0) ≡ false = ground arith in
        let index : j + ndirect - ndirect ≡ j = omega arith in
        rw (last, far, is_table, there, index) refl

    table_far : bitmap_end sb < table
    table_far =
        omega (arith, w.beyond maxfile (omega arith) (λ z. present (sym is_table ∙ z)), is_table)

    pub free_entries-Frees :
        (n j : ℕ) (d1 : Disk)
        → n + j ≡ nindirect
        → Freeing sb ip d (j + ndirect) d1
        → Frees sb ip d maxfile (free_entries sb table n j d1)
    unfolding free_entries free_next_entry
    free_entries-Frees zero j d1 q p =
        let end : j + ndirect ≡ maxfile = omega arith in
        subst (λ k. Frees sb ip d k (some d1)) end (frees p)
    free_entries-Frees (suc n) j d1 q p =
        let word : get32 (d1.blocks table) (4 * j) ≡ get32 (d.blocks table) (4 * j) =
          ap (λ f. get32 f (4 * j)) (p.kept table table_far) in
        from (free_block sb (get32 (d1.blocks table) (4 * j)) d1)
          (free_block-Frees (j + ndirect) (get32 (d1.blocks table) (4 * j)) (omega arith)
            (entry_slot j (omega arith) ∙ sym word) p)
          (λ d2 p2. free_entries-Frees n (j + 1) d2 (omega arith) p2)
      where
        from :
            (r : Option Disk)
            → Frees sb ip d (j + ndirect + 1) r
            → ((d2 : Disk)
                → Freeing sb ip d (j + 1 + ndirect) d2
                → Frees sb ip d maxfile (free_entries sb table n (j + 1) d2))
            → Frees sb ip d maxfile (free_next_entry (free_entries sb table n) j r)
        from none e k = elim e [ ]
        from (some d2) (frees p2) k =
            let same : j + ndirect + 1 ≡ j + 1 + ndirect = omega arith in
            k d2 (subst (λ i. Freeing sb ip d i d2) same p2)

    pub free_last-Frees :
        (r : Option Disk)
        → Frees sb ip d maxfile r
        → Frees sb ip d (maxfile + 1) (free_last sb table r)
    unfolding free_last
    free_last-Frees none e = elim e [ ]
    free_last-Frees (some d2) (frees p) = bfree-Frees maxfile table (omega arith) is_table present p
