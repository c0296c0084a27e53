-- ===== src/Fs/Inode/Read.antt =====
-- The loop of readi returns the bytes of the content.
use boss_os.Base.{
  Bool-cases, List, [], ap, arith, false, get_or, inl, inr, ltb, refl, some, suc, sym, true, zero,
  ℕ, ◌%◌, ◌*◌, ◌++◌, ◌+◌, ◌-◌, ◌/◌, ◌<◌, ◌==◌, ◌∙◌, ◌∷◌, ◌≡◌, ◌≢◌, ◌≤◌,
}
use boss_os.Fs.Disk.{Disk, Super, bsize, get32}
use boss_os.Fs.Inode.{
  Inode, add_bytes, bmap, chunk, load_addr, load_entry, maxfile, ndirect, nindirect, read_from,
  read_round, slice,
}
use boss_os.Fs.Inode.Slots.{addr_of, file_byte}

-- Bytes `off ..` of the content, `n` of them.
unfoldable pub content : Inode → Disk → (off n : ℕ) → List ℕ
content ip d off zero = []
content ip d off (suc n) = file_byte ip d off ∷ content ip d (off + 1) n

-- The blocks of the bytes from `off` to `off + n` are there.
abbrev pub Present : Inode → Disk → (off n : ℕ) → Type 0
Present ip d off n = (k : ℕ) → off ≤ k → k < off + n → addr_of ip d (k / bsize) ≢ 0

-- A block that is there is found, and nothing changes.
pub bmap_present :
    (sb : Super) (ip : Inode) (bn : ℕ) (d : Disk)
    → bn < maxfile
    → addr_of ip d bn ≢ 0
    → bmap sb ip bn d ≡ some (addr_of ip d bn, ip, d)
unfolding bmap load_addr load_entry
bmap_present sb ip bn d lt ne = elim (Bool-cases (ltb bn ndirect)) [
  | inl direct ↦
      let there : (get_or ip.addrs bn 0 == 0) ≡ false = ground arith in rw (direct, there) refl
  | inr far ↦ elim (Bool-cases (get_or ip.addrs ndirect 0 == 0)) [
    | inl z ↦ absurd (ne (rw (far, z) refl))
    | inr nz ↦
        let fits : ltb (bn - ndirect) nindirect ≡ true = ground arith in
        let there : (get32 (d.blocks (get_or ip.addrs ndirect 0)) (4 * (bn - ndirect)) == 0)
            ≡ false =
          ground arith in
        rw (far, fits, nz, there) refl
  ]
]

content_at :
    (ip : Inode) (d : Disk) (off off' n : ℕ) → off ≡ off' → content ip d off n ≡ content ip d off' n
content_at ip d off off' n q = ap (λ o. content ip d o n) q

content-append :
    (ip : Inode) (d : Disk) (off m n : ℕ)
    → content ip d off (m + n) ≡ content ip d off m ++ content ip d (off + m) n
unfolding content
content-append ip d off zero n =
    let q : 0 + n ≡ n = omega arith in
    ap (content ip d off) q ∙ content_at ip d off (off + 0) n (omega arith)
content-append ip d off (suc m) n =
    let q : off + 1 + m ≡ off + suc m = omega arith in
    let l : suc m + n ≡ suc (m + n) = omega arith in
    ap (content ip d off) l
    ∙ (ap (λ bs. file_byte ip d off ∷ bs)
        (content-append ip d (off + 1) m n
          ∙ ap (λ bs. content ip d (off + 1) m ++ bs)
              (content_at ip d (off + 1 + m) (off + suc m) n q)))

-- Within block `bn`.
slice_lem :
    (ip : Inode) (d : Disk) (bn off o m : ℕ)
    → off ≡ bn * bsize + o
    → o + m ≤ bsize
    → addr_of ip d bn ≢ 0
    → slice (d.blocks (addr_of ip d bn)) o m ≡ content ip d off m
unfolding slice content
slice_lem ip d bn off o zero q le ne = refl
slice_lem ip d bn off o (suc m) q le ne =
    let block : off / bsize ≡ bn = omega arith in
    let byte : off % bsize ≡ o = omega arith in
    let there : (addr_of ip d bn == 0) ≡ false = ground arith in
    rw (block, byte, there)
      (ap (λ bs. d.blocks (addr_of ip d bn) o ∷ bs)
        (slice_lem ip d bn (off + 1) (o + 1) m (omega arith) (omega arith) ne))

pub read_from_lem :
    (k : ℕ) (sb : Super) (off left : ℕ) (ip : Inode) (d : Disk)
    → left ≤ k
    → off + left ≤ maxfile * bsize
    → Present ip d off left
    → read_from k sb off left ip d ≡ some (content ip d off left, ip, d)
unfolding read_from read_round content
read_from_lem zero sb off left ip d le small p =
    let none_left : left ≡ 0 = omega arith in rw none_left refl
read_from_lem (suc k) sb off left ip d le small p = elim (Bool-cases (left == 0)) [
  | inl z ↦ let none_left : left ≡ 0 = ground arith in rw (z, none_left) refl
  | inr more ↦
      let m = chunk off left in
      let there : addr_of ip d (off / bsize) ≢ 0 = p off (omega arith) (ground arith) in
      rw more (
        ap (read_round (read_from k sb) off left)
          (bmap_present sb ip (off / bsize) d (ground arith) there)
        ∙ ap (add_bytes (slice (d.blocks (addr_of ip d (off / bsize))) (off % bsize) m)) (
            read_from_lem k sb (off + m) (left - m) ip d (ground arith) (ground arith)
              (λ j a b. p j (ground arith) (ground arith)))
        ∙ ap (λ bs. some (bs, ip, d))
            (ap (λ bs. bs ++ content ip d (off + m) (left - m))
                (slice_lem ip d (off / bsize) off (off % bsize) m (omega arith) (omega arith) there)
              ∙ sym (content-append ip d off m (left - m))
              ∙ ap (content ip d off) (omega arith)))
]
