-- ===== src/Fs/Inode/WriteLoop.antt =====
-- The rounds of writei, one after the other.
use boss_os.Base.{
  Bool-cases, List, Option, [], ap, arith, dec_lt, drop, get_or, get_or-drop, if◌then◌else◌, inl,
  inr, leb, length, length-drop, ltb, none, some, subst, suc, sym, zero, ℕ, ◌%◌, ◌&&◌, ◌*◌, ◌+◌,
  ◌-◌, ◌/◌, ◌<◌, ◌==◌, ◌∙◌, ◌∷◌, ◌≡◌, ◌≢◌, ◌≤◌,
}
use boss_os.Fs.Disk.{Disk, Super, bsize, put_block}
use boss_os.Fs.Inode.{Inode, bmap, chunk, maxfile, paste, write_from, write_round}
use boss_os.Fs.Inode.Slots.{Owns, addr_of, block_of-addr, file_byte}
use boss_os.Fs.Inode.Kept.{Around-there, Around-trans}
use boss_os.Fs.Inode.Entry.{AtMostOneFree}
use boss_os.Fs.Inode.Bmap.{BmapEnd, bmap-BmapEnd, mapped, spent}
use boss_os.Fs.Inode.Write.{Wrote, Wrote-none, round_Wrote}

-- Two writes, the second one where the first one ends.
Wrote-trans :
    {sb : Super} {ip : Inode} {d : Disk} {ip1 : Inode} {d1 : Disk} {ip2 : Inode} {d2 : Disk}
    (off m n : ℕ) (src : List ℕ)
    → Wrote sb ip d off m src ip1 d1
    → Wrote sb ip1 d1 (off + m) n (drop m src) ip2 d2
    → Wrote sb ip d off (m + n) src ip2 d2
Wrote-trans {ip = ip} {d} {ip1} {d1} {ip2} {d2} off m n src v u = record {
  around = Around-trans v.around u.around;
  bytes = λ k lt. u.bytes k lt ∙ join k lt;
  there = λ k lt lo hi. elim (dec_lt k (off + m)) [
    | yes before ↦ kept_there k lt (v.there k lt lo before)
    | no past ↦ u.there k lt (omega arith) (omega arith)
  ];
}
  where
    kept_there :
        (k : ℕ)
        → k / bsize < maxfile
        → addr_of ip1 d1 (k / bsize) ≢ 0
        → addr_of ip2 d2 (k / bsize) ≢ 0
    kept_there k lt ne z =
        Around-there (k / bsize) v.around.owns.is_map u.around (omega arith)
          (λ q. ne (sym (block_of-addr ip1 d1 (k / bsize) lt) ∙ q))
          (block_of-addr ip2 d2 (k / bsize) lt ∙ z)

    join :
        (k : ℕ)
        → k / bsize < maxfile
        → (if leb (off + m) k && ltb k (off + m + n)
            then get_or (drop m src) (k - (off + m)) 0
            else file_byte ip1 d1 k)
          ≡ (if leb off k && ltb k (off + (m + n))
              then get_or src (k - off) 0
              else file_byte ip d k)
    join k lt = elim (Bool-cases (leb (off + m) k)) [
      | inl past ↦
          let index : m + (k - (off + m)) ≡ k - off = ground arith in
          let byte = get_or-drop m (k - (off + m)) src 0 ∙ ap (λ j. get_or src j 0) index in
          let old = v.bytes k lt in ground arith
      | inr before ↦ let old = v.bytes k lt in ground arith
    ]

-- How the loop ends: all of `src` is written, or bmap panicked after the first `m` bytes.
pub data WriteEnd (sb : Super) (ip : Inode) (d : Disk) (off : ℕ) (src : List ℕ)
    : Option (Inode × Disk) → Type 0 where
  stopped :
      {n : ℕ} {ip1 : Inode} {d1 : Disk}
      → n < length src
      → Wrote sb ip d off n src ip1 d1
      → AtMostOneFree sb d1
      → WriteEnd sb ip d off src none
  wrote :
      {ip' : Inode} {d' : Disk}
      → Wrote sb ip d off (length src) src ip' d'
      → WriteEnd sb ip d off src (some (ip', d'))

WriteEnd-after :
    {sb : Super} {ip : Inode} {d : Disk} {ip1 : Inode} {d1 : Disk} {r : Option (Inode × Disk)}
    (off m : ℕ) (src : List ℕ)
    → m ≤ length src
    → Wrote sb ip d off m src ip1 d1
    → WriteEnd sb ip1 d1 (off + m) (drop m src) r
    → WriteEnd sb ip d off src r
WriteEnd-after off m src le v (stopped {n} lt u few) =
    stopped (omega (arith, length-drop m src)) (Wrote-trans off m n src v u) few
WriteEnd-after {sb} {ip} {d} off m src le v (wrote {ip'} {d'} u) =
    let all : m + length (drop m src) ≡ length src = omega (arith, length-drop m src) in
    wrote (
      subst (λ n. Wrote sb ip d off n src ip' d') all
        (Wrote-trans off m (length (drop m src)) src v u))

-- One round, and the rounds that follow it.
round-WriteEnd :
    (go : ℕ → List ℕ → Inode → Disk → Option (Inode × Disk)) {sb : Super} {ip : Inode} {d : Disk}
    (off : ℕ) (src : List ℕ) (r : Option (ℕ × Inode × Disk))
    → 0 < length src
    → off + length src ≤ maxfile * bsize
    → ((i : ℕ) → get_or src i 0 < 256)
    → Owns sb ip d
    → BmapEnd sb ip d (off / bsize) r
    → ((m : ℕ) (ip1 : Inode) (d1 : Disk)
        → 0 < m
        → m ≤ length src
        → Owns sb ip1 d1
        → WriteEnd sb ip1 d1 (off + m) (drop m src) (go (off + m) (drop m src) ip1 d1))
    → WriteEnd sb ip d off src (write_round go off src r)
unfolding write_round
round-WriteEnd go off src none more small bs w (spent few) ih =
    stopped more (Wrote-none off src w) few
round-WriteEnd go {sb} {ip} {d} off src (some (a, ip1, d1)) more small bs w (mapped mp) ih =
    WriteEnd-after off m src (omega arith) now (
      ih m ip1 (put_block a (paste (d1.blocks a) (off % bsize) m src) d1) (omega arith)
        (omega arith) now.around.owns)
  where
    m : ℕ
    m = chunk off (length src)

    now : Wrote sb ip d off m src ip1 (put_block a (paste (d1.blocks a) (off % bsize) m src) d1)
    now = round_Wrote off m src (omega arith) (omega arith) bs mp

pub write_from-WriteEnd :
    (k : ℕ) (sb : Super) (off : ℕ) (src : List ℕ) (ip : Inode) (d : Disk)
    → length src ≤ k
    → off + length src ≤ maxfile * bsize
    → ((i : ℕ) → get_or src i 0 < 256)
    → Owns sb ip d
    → WriteEnd sb ip d off src (write_from k sb off src ip d)
unfolding write_from
write_from-WriteEnd zero sb off [] ip d le small bs w = wrote (Wrote-none off [] w)
write_from-WriteEnd zero sb off (x ∷ src) ip d le small bs w = absurd (omega arith)
write_from-WriteEnd (suc k) sb off src ip d le small bs w = elim (Bool-cases (length src == 0)) [
  | inl z ↦
      let none_left : length src ≡ 0 = ground arith in
      rw z
        (wrote (subst (λ n. Wrote sb ip d off n src ip d) (sym none_left) (Wrote-none off src w)))
  | inr more ↦
      let lt : 0 < length src = ground arith in
      rw more (
        round-WriteEnd (write_from k sb) off src (bmap sb ip (off / bsize) d) lt small bs w
          (bmap-BmapEnd sb ip (off / bsize) d (omega arith) w)
          (λ m ip1 d1 pos at_most w1.
            write_from-WriteEnd k sb (off + m) (drop m src) ip1 d1
              (omega (arith, length-drop m src)) (omega (arith, length-drop m src))
              (λ i. omega (arith, get_or-drop m i src 0, bs (m + i))) w1))
]
