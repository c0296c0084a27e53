-- ===== src/Fs/Inode/Kept.antt =====
-- What an operation on the blocks of an inode leaves alone.
use boss_os.Base.{
  Bool, Bool-cases, List, ap, arith, false, inl, inr, refl, subst, sym, true, ℕ, ◌/◌, ◌<◌, ◌==◌,
  ◌∙◌, ◌≡◌, ◌≢◌, ◌≤◌, ◌⊎◌,
}
use boss_os.Fs.Disk.{Disk, Super, bsize}
use boss_os.Fs.Bitmap.Alloc.{is_free}
use boss_os.Fs.Bitmap.Balloc.{IsMap}
use boss_os.Fs.Inode.{Inode, maxfile}
use boss_os.Fs.Inode.Slots.{Owns, bitmap_end, block_of, file_byte}
use boss_os.Fs.Inode.Grow.{Grows, Grows-Owns, Grows-file_byte}

-- Block `b` is a data block in use, and of no slot of the inode.
pub record Foreign (sb : Super) (ip : Inode) (d : Disk) (b : ℕ) : Type 0 where
  pub small : b < sb.size
  pub used : is_free sb d b ≡ false
  pub beyond : bitmap_end sb < b
  pub not_mine : (s : ℕ) → s ≤ maxfile → block_of ip d s ≢ b

abbrev pub NewBlock : Super → Disk → ℕ → Type 0
NewBlock sb d b = (b < sb.size) × (is_free sb d b ≡ true)

-- The inode still owns its blocks; no block was given back, and the blocks of others are untouched.
pub record Around (sb : Super) (ip : Inode) (d : Disk) (ip' : Inode) (d' : Disk) : Type 0 where
  pub owns : Owns sb ip' d'
  pub same : ip' ≡ record ip { addrs = ip'.addrs }
  pub free_before : (y : ℕ) → y < sb.size → is_free sb d' y ≡ true → is_free sb d y ≡ true
  pub foreign : (b : ℕ) → Foreign sb ip d b → d'.blocks b ≡ d.blocks b
  pub origin :
      (s : ℕ)
      → s ≤ maxfile
      → (block_of ip' d' s ≡ block_of ip d s) ⊎ NewBlock sb d (block_of ip' d' s)

-- The content is as it was, too.
pub record Kept (sb : Super) (ip : Inode) (d : Disk) (ip' : Inode) (d' : Disk) : Type 0 where
  pub around : Around sb ip d ip' d'
  pub bytes : (k : ℕ) → k / bsize < maxfile → file_byte ip' d' k ≡ file_byte ip d k

pub Around-refl : {sb : Super} {ip : Inode} {d : Disk} → Owns sb ip d → Around sb ip d ip d
Around-refl w = record {
  owns = w;
  same = refl;
  free_before = λ y lt h. h;
  foreign = λ b f. refl;
  origin = λ s le. inl refl;
}

pub Kept-refl : {sb : Super} {ip : Inode} {d : Disk} → Owns sb ip d → Kept sb ip d ip d
Kept-refl w = record { around = Around-refl w; bytes = λ k lt. refl }

false-true : {b : Bool} → b ≡ false → b ≡ true → ⊥
false-true a b = cc

pub Foreign-Around :
    {sb : Super} {ip : Inode} {d : Disk} {ip' : Inode} {d' : Disk} (b : ℕ)
    → Around sb ip d ip' d'
    → Foreign sb ip d b
    → Foreign sb ip' d' b
Foreign-Around {sb} {ip} {d} {ip'} {d'} b k f = record {
  small = f.small;
  used = elim (Bool-cases (is_free sb d' b)) [
    | inl h ↦ absurd (false-true f.used (k.free_before b f.small h))
    | inr h ↦ h
  ];
  beyond = f.beyond;
  not_mine = λ s le q. elim (k.origin s le) [
    | inl e ↦ f.not_mine s le (sym e ∙ q)
    | inr (lt, h) ↦ false-true f.used (ap (is_free sb d) (sym q) ∙ h)
  ];
}

abbrev readdressed : List ℕ → Inode → Inode
readdressed as_ ip = record ip { addrs = as_ }

pub Around-trans :
    {sb : Super} {ip : Inode} {d : Disk} {ip1 : Inode} {d1 : Disk} {ip2 : Inode} {d2 : Disk}
    → Around sb ip d ip1 d1
    → Around sb ip1 d1 ip2 d2
    → Around sb ip d ip2 d2
Around-trans {sb} {ip} {d} {ip1} {d1} {ip2} {d2} k l = record {
  owns = l.owns;
  same = l.same ∙ ap (readdressed ip2.addrs) k.same;
  free_before = λ y lt h. k.free_before y lt (l.free_before y lt h);
  foreign = λ b f. l.foreign b (Foreign-Around b k f) ∙ k.foreign b f;
  origin = λ s le. joined s le (l.origin s le) (k.origin s le);
}
  where
    joined :
        (s : ℕ)
        → s ≤ maxfile
        → (block_of ip2 d2 s ≡ block_of ip1 d1 s) ⊎ NewBlock sb d1 (block_of ip2 d2 s)
        → (block_of ip1 d1 s ≡ block_of ip d s) ⊎ NewBlock sb d (block_of ip1 d1 s)
        → (block_of ip2 d2 s ≡ block_of ip d s) ⊎ NewBlock sb d (block_of ip2 d2 s)
    joined s le (inl e) (inl e') = inl (e ∙ e')
    joined s le (inl e) (inr h) = inr (subst (NewBlock sb d) (sym e) h)
    joined s le (inr (lt, h)) _ = inr (lt, k.free_before (block_of ip2 d2 s) lt h)

pub Kept-trans :
    {sb : Super} {ip : Inode} {d : Disk} {ip1 : Inode} {d1 : Disk} {ip2 : Inode} {d2 : Disk}
    → Kept sb ip d ip1 d1
    → Kept sb ip1 d1 ip2 d2
    → Kept sb ip d ip2 d2
Kept-trans k l = record {
  around = Around-trans k.around l.around;
  bytes = λ j lt. l.bytes j lt ∙ k.bytes j lt;
}

-- A grown inode.
pub Grows-Kept :
    {sb : Super} {ip : Inode} {d : Disk} {s x : ℕ} {ip' : Inode} {d' : Disk}
    → Owns sb ip d
    → Grows sb ip d s x ip' d'
    → ip' ≡ record ip { addrs = ip'.addrs }
    → ((b : ℕ) → Foreign sb ip d b → d'.blocks b ≡ d.blocks b)
    → Kept sb ip d ip' d'
Grows-Kept {sb} {ip} {d} {s} {x} {ip'} {d'} w g same foreign = record {
  around = record {
    owns = Grows-Owns w g;
    same = same;
    free_before = λ y lt h. before y lt h;
    foreign = foreign;
    origin = λ t le. from t le;
  };
  bytes = Grows-file_byte w g;
}
  where
    before : (y : ℕ) → y < sb.size → is_free sb d' y ≡ true → is_free sb d y ≡ true
    before y lt h = elim (Bool-cases (y == x)) [
      | inl e ↦ absurd (false-true (g.bits y lt ∙ rw e refl) h)
      | inr e ↦ sym (rw e at (g.bits y lt)) ∙ h
    ]

    from :
        (t : ℕ)
        → t ≤ maxfile
        → (block_of ip' d' t ≡ block_of ip d t) ⊎ NewBlock sb d (block_of ip' d' t)
    from t le = elim (Bool-cases (t == s)) [
      | inl e ↦ inr (subst (NewBlock sb d) (sym (rw e at (g.slots t le))) (g.small, g.was_free))
      | inr e ↦ inl (rw e at (g.slots t le))
    ]

-- A slot that has a block keeps having one.
pub Around-there :
    {sb : Super} {ip : Inode} {d : Disk} {ip' : Inode} {d' : Disk} (s : ℕ)
    → IsMap sb d
    → Around sb ip d ip' d'
    → s ≤ maxfile
    → block_of ip d s ≢ 0
    → block_of ip' d' s ≢ 0
Around-there {sb} {ip} {d} {ip'} {d'} s m a le ne z = elim (a.origin s le) [
  | inl same ↦ ne (sym same ∙ z)
  | inr (lt, free) ↦ absurd (omega (arith, m.meta (block_of ip' d' s) lt free))
]
