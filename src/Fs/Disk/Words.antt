-- ===== src/Fs/Disk/Words.antt =====
-- Words written to a block are read back, and nothing else changes.
use boss_os.Base.{arith, u32_mod, ℕ, ◌+◌, ◌<◌, ◌^◌, ◌≡◌, ◌≤◌, ◌⊎◌}
use boss_os.Fs.Disk.{Block, get16, get32, set16, set32}

pub get32-set32_self : (f : Block) (o v : ℕ) → v < u32_mod → get32 (set32 f o v) o ≡ v
unfolding set32
get32-set32_self f o v small = ground arith

pub set32_outside : (f : Block) (o v i : ℕ) → (i < o) ⊎ (o + 4 ≤ i) → set32 f o v i ≡ f i
unfolding set32
set32_outside f o v i out = ground arith

pub get32-set32_ne :
    (f : Block) (o p v : ℕ) → (p + 4 ≤ o) ⊎ (o + 4 ≤ p) → get32 (set32 f o v) p ≡ get32 f p
get32-set32_ne f o p v out = omega (
  arith,
  set32_outside f o v p (omega arith),
  set32_outside f o v (p + 1) (omega arith),
  set32_outside f o v (p + 2) (omega arith),
  set32_outside f o v (p + 3) (omega arith),
)

pub get16-set16_self : (f : Block) (o v : ℕ) → v < 2 ^ 16 → get16 (set16 f o v) o ≡ v
unfolding set16
get16-set16_self f o v small = ground arith

pub set16_outside : (f : Block) (o v i : ℕ) → (i < o) ⊎ (o + 2 ≤ i) → set16 f o v i ≡ f i
unfolding set16
set16_outside f o v i out = ground arith

pub get16-set16_ne :
    (f : Block) (o p v : ℕ) → (p + 2 ≤ o) ⊎ (o + 2 ≤ p) → get16 (set16 f o v) p ≡ get16 f p
get16-set16_ne f o p v out =
    omega (arith, set16_outside f o v p (omega arith), set16_outside f o v (p + 1) (omega arith))
