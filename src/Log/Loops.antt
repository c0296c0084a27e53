-- ===== src/Log/Loops.antt =====
-- What the three copying loops of log.c leave on the disk when the power may fail in between.
use boss_os.Base.{
  All, Bool-cases, List, [], ap, ap₂, arith, elem, false, inl, inr, length, refl, true, update,
  update_self, ℕ, ◌+◌, ◌-◌, ◌<◌, ◌==◌, ◌∙◌, ◌∷◌, ◌≡◌, ◌≢◌, ◌≤◌, ◌⊎◌,
}
use boss_os.Log.{install_from, read_blocks, write_blocks, write_head, write_log_from}
use boss_os.Log.Disk.{Block, Store, bwrite}

-- The blocks `k`, `k + 1`, … of `d` hold what `new` says of the blocks `bs`.
abbrev pub Slots : (d new : ℕ → Block) → ℕ → List ℕ → Type 0
Slots d new k [] = Unit {0}
Slots d new k (b ∷ bs) = (d k ≡ new b) × Slots d new (k + 1) bs

-- The block lies outside the `n` blocks of the log that begin at `start`.
abbrev pub Home : (start n : ℕ) → ℕ → Type 0
Home start n a = (a < start) ⊎ (start + n ≤ a)

pub Slots-frame :
    (d d' new : ℕ → Block) (k : ℕ) (bs : List ℕ)
    → ((a : ℕ) → k ≤ a → a < k + length bs → d' a ≡ d a)
    → Slots d new k bs
    → Slots d' new k bs
Slots-frame d d' new k [] same h = tt
Slots-frame d d' new k (b ∷ bs) same (h, hs) = (
  same k (omega arith) (omega arith) ∙ h,
  Slots-frame d d' new (k + 1) bs (λ a p q. same a (omega arith) (omega arith)) hs,
)

pub Slots-new :
    (d new new' : ℕ → Block) (k : ℕ) (bs : List ℕ)
    → ((b : ℕ) → elem b bs ≡ true → new b ≡ new' b)
    → Slots d new k bs
    → Slots d new' k bs
Slots-new d new new' k [] same h = tt
Slots-new d new new' k (b ∷ bs) same (h, hs) =
    (h ∙ same b (ground arith), Slots-new d new new' (k + 1) bs (λ c p. same c (ground arith)) hs)

-- A predicate of every listed block, at a member.
pub Home-elem :
    (start n a : ℕ) (bs : List ℕ) → All (Home start n) bs → elem a bs ≡ true → Home start n a
Home-elem start n a [] h e = cc
Home-elem start n a (b ∷ bs) (h, hs) e = elim (Bool-cases (b == a)) [
  | inl hit ↦ let same : b ≡ a = ground arith in rw (← same) h
  | inr miss ↦ Home-elem start n a bs hs (ground arith)
]

pub elem-false :
    (start n a : ℕ) (bs : List ℕ)
    → All (Home start n) bs
    → start ≤ a
    → a < start + n
    → elem a bs ≡ false
elem-false start n a bs h p q = elim (Bool-cases (elem a bs)) [
  | inl e ↦ absurd (omega (arith, Home-elem start n a bs h e))
  | inr e ↦ e
]

-- write_log writes the slots only, and in the cache it fills each of them.
pub record Logged (k : ℕ) (bs : List ℕ) (s s' : Store) : Type 0 where
  pub mem_same : (a : ℕ) → (a < k) ⊎ (k + length bs ≤ a) → s'.mem a ≡ s.mem a
  pub disk_same : (a : ℕ) → (a < k) ⊎ (k + length bs ≤ a) → s'.disk a ≡ s.disk a
  pub mem_slots : Slots s'.mem s.mem k bs
  pub disk_slots : 0 < s'.power → Slots s'.disk s.mem k bs
  pub spent : s'.power ≡ s.power - length bs

bwrite-mem : (s : Store) (k a : ℕ) (x : Block) → a ≢ k → (bwrite s k x).mem a ≡ s.mem a
unfolding bwrite
bwrite-mem s k a x h = ground arith

bwrite-disk : (s : Store) (k a : ℕ) (x : Block) → a ≢ k → (bwrite s k x).disk a ≡ s.disk a
unfolding bwrite
bwrite-disk s k a x h = ground arith

bwrite_self :
    (s : Store) (k : ℕ) (x : Block)
    → ((bwrite s k x).mem k ≡ x)
      × (0 < s.power → (bwrite s k x).disk k ≡ x)
      × ((bwrite s k x).power ≡ s.power - 1)
unfolding bwrite
bwrite_self s k x = (ground arith, λ h. ground arith, refl)

bwrite_off : (s : Store) (k : ℕ) (x : Block) → s.power ≡ 0 → (bwrite s k x).disk k ≡ s.disk k
unfolding bwrite
bwrite_off s k x h = rw h

pub write_log_from-Logged :
    (start n t k : ℕ) (bs : List ℕ) (s : Store)
    → k ≡ start + t + 1
    → k + length bs ≤ start + n
    → All (Home start n) bs
    → Logged k bs s (write_log_from start t bs s)
unfolding write_log_from
write_log_from-Logged start n t k [] s e fits h = record {
  mem_same = λ a p. refl;
  disk_same = λ a p. refl;
  mem_slots = tt;
  disk_slots = λ p. tt;
  spent = omega arith;
}
write_log_from-Logged start n t k (b ∷ bs) s e fits (hb, hs) =
    let s1 = bwrite s (start + t + 1) (s.mem b) in
    let self = bwrite_self s (start + t + 1) (s.mem b) in
    let ih = write_log_from-Logged start n (t + 1) (k + 1) bs s1 (omega arith) (omega arith) hs in
    let keep : (c : ℕ) → elem c bs ≡ true → s1.mem c ≡ s.mem c = λ c m.
      bwrite-mem s (start + t + 1) c (s.mem b) (omega (arith, Home-elem start n c bs hs m)) in
    record {
      mem_same = λ a p.
          ih.mem_same a (omega arith) ∙ bwrite-mem s (start + t + 1) a (s.mem b) (omega arith);
      disk_same = λ a p.
          ih.disk_same a (omega arith) ∙ bwrite-disk s (start + t + 1) a (s.mem b) (omega arith);
      mem_slots = (
        ih.mem_same k (omega arith) ∙ rw e self.0,
        Slots-new _ s1.mem s.mem (k + 1) bs keep ih.mem_slots,
      );
      disk_slots = λ on. (
        ih.disk_same k (omega arith) ∙ rw e (self.1 (omega (arith, ih.spent, self.2))),
        Slots-new _ s1.mem s.mem (k + 1) bs keep (ih.disk_slots on),
      );
      spent = omega (arith, ih.spent, self.2);
    }

-- install_trans writes the listed blocks only, and all of them if the power lasts.
pub record Installed (new : ℕ → Block) (bs : List ℕ) (s s' : Store) : Type 0 where
  pub mem_same : (a : ℕ) → elem a bs ≡ false → s'.mem a ≡ s.mem a
  pub disk_same : (a : ℕ) → elem a bs ≡ false → s'.disk a ≡ s.disk a
  pub mem_new : (a : ℕ) → elem a bs ≡ true → s'.mem a ≡ new a
  pub disk_new : 0 < s'.power → (a : ℕ) → elem a bs ≡ true → s'.disk a ≡ new a
  pub spent : s'.power ≡ s.power - length bs

pub install_from-Installed :
    (new : ℕ → Block) (start n t k : ℕ) (bs : List ℕ) (s : Store)
    → k ≡ start + t + 1
    → k + length bs ≤ start + n
    → All (Home start n) bs
    → Slots s.mem new k bs
    → Installed new bs s (install_from start t bs s)
unfolding install_from
install_from-Installed new start n t k [] s e fits h sl = record {
  mem_same = λ a p. refl;
  disk_same = λ a p. refl;
  mem_new = λ a p. cc;
  disk_new = λ on a p. cc;
  spent = omega arith;
}
install_from-Installed new start n t k (b ∷ bs) s e fits (hb, hs) (hk, sl) =
    let x = s.mem (start + t + 1) in
    let s1 = bwrite s b x in
    let is_new : x ≡ new b = rw (← e) hk in
    let self = bwrite_self s b x in
    let keep : (a : ℕ) → k + 1 ≤ a → a < k + 1 + length bs → s1.mem a ≡ s.mem a =
      λ a p q. bwrite-mem s b a x (omega arith) in
    let ih =
      install_from-Installed new start n (t + 1) (k + 1) bs s1 (omega arith) (omega arith) hs
        (Slots-frame s.mem s1.mem new (k + 1) bs keep sl) in
    record {
      mem_same = λ a p. ih.mem_same a (ground arith) ∙ bwrite-mem s b a x (ground arith);
      disk_same = λ a p. ih.disk_same a (ground arith) ∙ bwrite-disk s b a x (ground arith);
      mem_new = λ a p. elim (Bool-cases (elem a bs)) [
        | inl m ↦ ih.mem_new a m
        | inr m ↦ let same : b ≡ a = ground arith in ih.mem_same a m ∙ rw (← same) (self.0 ∙ is_new)
      ];
      disk_new = λ on a p. elim (Bool-cases (elem a bs)) [
        | inl m ↦ ih.disk_new on a m
        | inr m ↦
            let same : b ≡ a = ground arith in
            ih.disk_same a m ∙ rw (← same) (self.1 (omega (arith, ih.spent, self.2)) ∙ is_new)
      ];
      spent = omega (arith, ih.spent, self.2);
    }

write_blocks_below : (i w : ℕ) (bs : List ℕ) (hb : Block) → w ≤ i → write_blocks i bs hb w ≡ hb w
unfolding write_blocks
write_blocks_below i w [] hb h = refl
write_blocks_below i w (b ∷ bs) hb h =
    write_blocks_below (i + 1) w bs (update hb (i + 1) b) (omega arith) ∙ ground arith

read_blocks-write_blocks :
    (i : ℕ) (bs : List ℕ) (hb : Block) → read_blocks (length bs) i (write_blocks i bs hb) ≡ bs
unfolding read_blocks write_blocks
read_blocks-write_blocks i [] hb = refl
read_blocks-write_blocks i (b ∷ bs) hb =
    ap₂ ◌∷◌
      (write_blocks_below (i + 1) (i + 1) bs (update hb (i + 1) b) (omega arith)
        ∙ update_self hb (i + 1) b)
      (read_blocks-write_blocks (i + 1) bs (update hb (i + 1) b))

-- What a header block says.
abbrev pub header : Block → List ℕ
header hb = read_blocks (hb 0) 0 hb

header_of_write :
    (bs : List ℕ) (hb : Block) → header (write_blocks 0 bs (update hb 0 (length bs))) ≡ bs
header_of_write bs hb =
    let e =
      write_blocks_below 0 0 bs (update hb 0 (length bs)) (omega arith)
      ∙ update_self hb 0 (length bs) in
    ap (λ n. read_blocks n 0 (write_blocks 0 bs (update hb 0 (length bs)))) e
    ∙ read_blocks-write_blocks 0 bs (update hb 0 (length bs))

pub record Headed (start : ℕ) (bs : List ℕ) (s s' : Store) : Type 0 where
  pub mem_same : (a : ℕ) → a ≢ start → s'.mem a ≡ s.mem a
  pub disk_same : (a : ℕ) → a ≢ start → s'.disk a ≡ s.disk a
  pub mem_head : header (s'.mem start) ≡ bs
  pub disk_head : 0 < s.power → header (s'.disk start) ≡ bs
  pub disk_off : s.power ≡ 0 → s'.disk start ≡ s.disk start
  pub spent : s'.power ≡ s.power - 1

pub write_head-Headed :
    (start : ℕ) (bs : List ℕ) (s : Store) → Headed start bs s (write_head start bs s)
unfolding write_head
write_head-Headed start bs s =
    let x = write_blocks 0 bs (update (s.mem start) 0 (length bs)) in
    let self = bwrite_self s start x in
    record {
      mem_same = λ a p. bwrite-mem s start a x p;
      disk_same = λ a p. bwrite-disk s start a x p;
      mem_head = rw self.0 (header_of_write bs (s.mem start));
      disk_head = λ on. rw (self.1 on) (header_of_write bs (s.mem start));
      disk_off = λ off. bwrite_off s start x off;
      spent = self.2;
    }

-- With the power gone, nothing more reaches the disk.
abbrev pub Off : (s s' : Store) → Type 0
Off s s' = (s'.disk ≡ s.disk) × (s'.power ≡ 0)

bwrite-Off : (s : Store) (k : ℕ) (x : Block) → s.power ≡ 0 → Off s (bwrite s k x)
unfolding bwrite
bwrite-Off s k x h = (rw h, omega arith)

pub write_head-Off :
    (start : ℕ) (bs : List ℕ) (s : Store) → s.power ≡ 0 → Off s (write_head start bs s)
unfolding write_head
write_head-Off start bs s h = bwrite-Off s start _ h

pub install_from-Off :
    (start t : ℕ) (bs : List ℕ) (s : Store) → s.power ≡ 0 → Off s (install_from start t bs s)
unfolding install_from
install_from-Off start t [] s h = (refl, h)
install_from-Off start t (b ∷ bs) s h =
    let now = bwrite-Off s b (s.mem (start + t + 1)) h in
    let rest = install_from-Off start (t + 1) bs (bwrite s b (s.mem (start + t + 1))) now.1 in
    (rest.0 ∙ now.0, rest.1)
