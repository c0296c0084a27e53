-- ===== src/Fs/Dinode/Fields.antt =====
-- What iupdate stores, ilock reads back.
use boss_os.Base.{
  List, Option, [], ap, arith, false, get_or, if◌then◌else◌, length, none, refl, some, suc, sym,
  true, u32_mod, update_ne, update_self, zero, ℕ, ℕ_discrete, ◌*◌, ◌+◌, ◌<◌, ◌==◌, ◌^◌, ◌∙◌, ◌∷◌,
  ◌≡◌, ◌≢◌, ◌≤◌, ◌⊎◌,
}
use boss_os.Fs.Disk.{Block, Disk, Super, get16, get32, set16, set32}
use boss_os.Fs.Disk.Words.{get32-set32_self, set16_outside, set32_outside}
use boss_os.Fs.Inode.{Inode}
use boss_os.Fs.Dinode.{
  dinode_at, get_dinode, get_words, iblock, iupdate, read_inode, set_dinode, set_words,
}

set_words_outside :
    (vs : List ℕ) (o i : ℕ) (f : Block)
    → (i < o) ⊎ (o + 4 * length vs ≤ i)
    → set_words vs o f i ≡ f i
unfolding set_words
set_words_outside [] o i f out = refl
set_words_outside (v ∷ vs) o i f out =
    set_words_outside vs (o + 4) i (set32 f o v) (ground (arith, out))
    ∙ set32_outside f o v i (ground (arith, out))

get16-set_words :
    (vs : List ℕ) (o p : ℕ) (f : Block) → p + 2 ≤ o → get16 (set_words vs o f) p ≡ get16 f p
get16-set_words vs o p f le = omega (
  arith,
  set_words_outside vs o p f (omega arith),
  set_words_outside vs o (p + 1) f (omega arith),
)

get32-set_words :
    (vs : List ℕ) (o p : ℕ) (f : Block) → p + 4 ≤ o → get32 (set_words vs o f) p ≡ get32 f p
get32-set_words vs o p f le = omega (
  arith,
  set_words_outside vs o p f (omega arith),
  set_words_outside vs o (p + 1) f (omega arith),
  set_words_outside vs o (p + 2) f (omega arith),
  set_words_outside vs o (p + 3) f (omega arith),
)

abbrev pub AreWords : List ℕ → Type 0
AreWords vs = (i : ℕ) → get_or vs i 0 < u32_mod

get_words-set_words :
    (vs : List ℕ) (o : ℕ) (f : Block)
    → AreWords vs
    → get_words (length vs) o (set_words vs o f) ≡ vs
unfolding get_words set_words
get_words-set_words [] o f h = refl
get_words-set_words (v ∷ vs) o f h =
    let first : get32 (set_words vs (o + 4) (set32 f o v)) o ≡ v =
      get32-set_words vs (o + 4) o (set32 f o v) (omega arith) ∙ get32-set32_self f o v (h 0) in
    rw first (
      ap (λ ws. v ∷ ws)
        (get_words-set_words vs (o + 4) (set32 f o v) (λ i. omega (arith, h (suc i)))))

-- The fields of the inode fit in those of the dinode.
pub record Fits (ip : Inode) : Type 0 where
  pub type : ip.type < 2 ^ 16
  pub major : ip.major < 2 ^ 16
  pub minor : ip.minor < 2 ^ 16
  pub nlink : ip.nlink < 2 ^ 16
  pub size : ip.size < u32_mod
  pub addrs : AreWords ip.addrs
  pub thirteen : length ip.addrs ≡ 13

-- The fields before `addrs`.
abbrev head : Inode → ℕ → Block → Block
head ip o f =
    set32
      (set16 (set16 (set16 (set16 f o ip.type) (o + 2) ip.major) (o + 4) ip.minor) (o + 6) ip.nlink)
      (o + 8) ip.size

module _ (ip : Inode) (o : ℕ) (f : Block) (h : Fits ip) where
  abbrev stored : Block
  stored = set_dinode ip o f

  pub get-type : get16 stored o ≡ ip.type
  unfolding set_dinode set32 set16
  get-type = get16-set_words ip.addrs (o + 12) o (head ip o f) (omega arith) ∙ ground arith

  get-major : get16 stored (o + 2) ≡ ip.major
  unfolding set_dinode set32 set16
  get-major = get16-set_words ip.addrs (o + 12) (o + 2) (head ip o f) (omega arith) ∙ ground arith

  get-minor : get16 stored (o + 4) ≡ ip.minor
  unfolding set_dinode set32 set16
  get-minor = get16-set_words ip.addrs (o + 12) (o + 4) (head ip o f) (omega arith) ∙ ground arith

  get-nlink : get16 stored (o + 6) ≡ ip.nlink
  unfolding set_dinode set32 set16
  get-nlink = get16-set_words ip.addrs (o + 12) (o + 6) (head ip o f) (omega arith) ∙ ground arith

  get-size : get32 stored (o + 8) ≡ ip.size
  unfolding set_dinode
  get-size =
      get32-set_words ip.addrs (o + 12) (o + 8) (head ip o f) (omega arith)
      ∙ get32-set32_self _ (o + 8) ip.size h.size

  get-addrs : get_words 13 (o + 12) stored ≡ ip.addrs
  unfolding set_dinode
  get-addrs =
      ap (λ n. get_words n (o + 12) stored) (sym h.thirteen)
      ∙ get_words-set_words ip.addrs (o + 12) (head ip o f) h.addrs

-- The dinode that iupdate stored is the one that ilock reads.
get_dinode-set_dinode :
    (ip jp : Inode) (o : ℕ) (f : Block)
    → Fits ip
    → get_dinode (set_dinode ip o f) o jp ≡ record jp {
      type = ip.type;
      major = ip.major;
      minor = ip.minor;
      nlink = ip.nlink;
      size = ip.size;
      addrs = ip.addrs;
    }
unfolding get_dinode
get_dinode-set_dinode ip jp o f h =
    rw
      (
        get-type ip o f h,
        get-major ip o f h,
        get-minor ip o f h,
        get-nlink ip o f h,
        get-size ip o f h,
        get-addrs ip o f h,
      )
      refl

set_dinode_outside :
    (ip : Inode) (o i : ℕ) (f : Block)
    → length ip.addrs ≡ 13
    → (i < o) ⊎ (o + 64 ≤ i)
    → set_dinode ip o f i ≡ f i
unfolding set_dinode
set_dinode_outside ip o i f l out =
    set_words_outside ip.addrs (o + 12) i (head ip o f) (ground (arith, out))
    ∙ set32_outside
        (set16 (set16 (set16 (set16 f o ip.type) (o + 2) ip.major) (o + 4) ip.minor) (o + 6)
          ip.nlink)
        (o + 8) ip.size i (ground (arith, out))
    ∙ set16_outside (set16 (set16 (set16 f o ip.type) (o + 2) ip.major) (o + 4) ip.minor) (o + 6)
        ip.nlink i (ground (arith, out))
    ∙ set16_outside (set16 (set16 f o ip.type) (o + 2) ip.major) (o + 4) ip.minor i
        (ground (arith, out))
    ∙ set16_outside (set16 f o ip.type) (o + 2) ip.major i (ground (arith, out))
    ∙ set16_outside f o ip.type i (ground (arith, out))

-- A dinode is what its 64 bytes say.
abbrev pub Agree : (o m : ℕ) → (f g : Block) → Type 0
Agree o m f g = (i : ℕ) → o ≤ i → i < o + m → f i ≡ g i

get32-Agree : (o : ℕ) (f g : Block) → Agree o 4 f g → get32 f o ≡ get32 g o
get32-Agree o f g h = omega (
  arith,
  h o (omega arith) (omega arith),
  h (o + 1) (omega arith) (omega arith),
  h (o + 2) (omega arith) (omega arith),
  h (o + 3) (omega arith) (omega arith),
)

get16-Agree : (o : ℕ) (f g : Block) → Agree o 2 f g → get16 f o ≡ get16 g o
get16-Agree o f g h =
    omega (arith, h o (omega arith) (omega arith), h (o + 1) (omega arith) (omega arith))

get_words-Agree : (n o : ℕ) (f g : Block) → Agree o (4 * n) f g → get_words n o f ≡ get_words n o g
unfolding get_words
get_words-Agree zero o f g h = refl
get_words-Agree (suc n) o f g h =
    let word : get32 f o ≡ get32 g o =
      get32-Agree o f g (λ i a b. h i (omega arith) (omega arith)) in
    rw word (
      ap (λ ws. get32 g o ∷ ws)
        (get_words-Agree n (o + 4) f g (λ i a b. h i (omega arith) (omega arith))))

pub get_dinode-Agree :
    (o : ℕ) (f g : Block) (jp : Inode) → Agree o 64 f g → get_dinode f o jp ≡ get_dinode g o jp
unfolding get_dinode
get_dinode-Agree o f g jp h =
    let type : get16 f o ≡ get16 g o =
      get16-Agree o f g (λ i a b. h i (omega arith) (omega arith)) in
    let major : get16 f (o + 2) ≡ get16 g (o + 2) =
      get16-Agree (o + 2) f g (λ i a b. h i (omega arith) (omega arith)) in
    let minor : get16 f (o + 4) ≡ get16 g (o + 4) =
      get16-Agree (o + 4) f g (λ i a b. h i (omega arith) (omega arith)) in
    let nlink : get16 f (o + 6) ≡ get16 g (o + 6) =
      get16-Agree (o + 6) f g (λ i a b. h i (omega arith) (omega arith)) in
    let size : get32 f (o + 8) ≡ get32 g (o + 8) =
      get32-Agree (o + 8) f g (λ i a b. h i (omega arith) (omega arith)) in
    let addrs : get_words 13 (o + 12) f ≡ get_words 13 (o + 12) g =
      get_words-Agree 13 (o + 12) f g (λ i a b. h i (omega arith) (omega arith)) in
    rw (type, major, minor, nlink, size, addrs) refl

-- The block of another dinode agrees on it.
iupdate_other :
    (sb : Super) (ip jp : Inode) (d : Disk)
    → length ip.addrs ≡ 13
    → ip.inum ≢ jp.inum
    → Agree
        (dinode_at jp.inum)
        64
        ((iupdate sb ip d).blocks (iblock sb jp.inum))
        (d.blocks (iblock sb jp.inum))
unfolding iupdate
iupdate_other sb ip jp d l ne i from_ to =
    elim (ℕ_discrete (iblock sb jp.inum) (iblock sb ip.inum)) [
      | yes e ↦
          ap (λ b. (iupdate sb ip d).blocks b i) e
          ∙ ap (λ f. f i)
              (update_self d.blocks (iblock sb ip.inum)
                (set_dinode ip (dinode_at ip.inum) (d.blocks (iblock sb ip.inum))))
          ∙ set_dinode_outside ip (dinode_at ip.inum) i (d.blocks (iblock sb ip.inum)) l
              (ground arith)
          ∙ ap (λ b. d.blocks b i) (sym e)
      | no far ↦ ap (λ f. f i) (update_ne d.blocks (iblock sb ip.inum) (iblock sb jp.inum) _ far)
    ]

-- The inode as iupdate stored it, in the place of `jp`.
abbrev pub copied : (ip jp : Inode) → Inode
copied ip jp = record jp {
  valid = true;
  type = ip.type;
  major = ip.major;
  minor = ip.minor;
  nlink = ip.nlink;
  size = ip.size;
  addrs = ip.addrs;
}

-- After iupdate of an inode whose fields fit in a dinode and whose type is not 0, ilock reads these
-- fields from the dinode of this inode, and from any other dinode what it read before.
pub read_inode-iupdate :
    (sb : Super) (ip jp : Inode) (d : Disk)
    → Fits ip
    → ip.type ≢ 0
    → read_inode sb jp (iupdate sb ip d)
      ≡ (if jp.inum == ip.inum then some (copied ip jp) else read_inode sb jp d)
unfolding read_inode iupdate
read_inode-iupdate sb ip jp d h live = elim (ℕ_discrete jp.inum ip.inum) [
  | yes e ↦
      let here : (jp.inum == ip.inum) ≡ true = ground arith in
      let some_type : (ip.type == 0) ≡ false = ground arith in
      rw here (
        ap checked (
          ap (λ i. get_dinode ((iupdate sb ip d).blocks (iblock sb i)) (dinode_at i) jp) e
          ∙ ap (λ f. get_dinode f (dinode_at ip.inum) jp)
              (update_self d.blocks (iblock sb ip.inum)
                (set_dinode ip (dinode_at ip.inum) (d.blocks (iblock sb ip.inum))))
          ∙ get_dinode-set_dinode ip jp (dinode_at ip.inum) (d.blocks (iblock sb ip.inum)) h)
        ∙ rw some_type refl)
  | no ne ↦
      let away : (jp.inum == ip.inum) ≡ false = ground arith in
      rw away (
        ap checked (
          get_dinode-Agree (dinode_at jp.inum) ((iupdate sb ip d).blocks (iblock sb jp.inum))
            (d.blocks (iblock sb jp.inum)) jp
            (iupdate_other sb ip jp d h.thirteen (λ q. ne (sym q)))))
]
  where
    checked : Inode → Option Inode
    checked read = if read.type == 0 then none else some (record read { valid = true })
