-- ===== src/Fs/Dir/Scan.antt =====
-- The loop over the entries of a directory.
use boss_os.Base.{
  Bool, Bool-cases, List, Option, ap, arith, false, inl, inr, leb, length, ltb, min, none, refl,
  some, subst, suc, sym, true, u32_mod, zero, ℕ, ℕ_discrete, ◌%◌, ◌&&◌, ◌*◌, ◌+◌, ◌-◌, ◌<◌, ◌==◌,
  ◌∙◌, ◌≡◌, ◌≤◌,
}
use boss_os.Fs.Disk.{Disk, Super, bsize}
use boss_os.Fs.Inode.{Inode, maxfile}
use boss_os.Fs.Inode.Read.{Present, content}
use boss_os.Fs.Rdwr.{Devsw, ReadiResult, readi}
use boss_os.Fs.Rdwr.Reading.{readi_lem}
use boss_os.Fs.Dir.{Scanned, dirent_size, scan_dir, scan_round, t_dir, whole_entry}

-- The bytes of the entry at `off`.
abbrev pub entry_at : Inode → Disk → ℕ → List ℕ
entry_at dp d off = content dp d off dirent_size

-- A directory of whole entries, with its blocks there.
pub record IsDir (dp : Inode) (d : Disk) : Type 0 where
  pub type : dp.type ≡ t_dir
  pub entries : dp.size % dirent_size ≡ 0
  pub small : dp.size ≤ maxfile * bsize
  pub present : Present dp d 0 dp.size

-- The first entry from `from_` on that `stops`, or the end of the directory.
pub data ScanEnd (dp : Inode) (d : Disk) (stops : List ℕ → Bool) (from_ : ℕ)
    : Option Scanned → Type 0 where
  past :
      ((o : ℕ) → from_ ≤ o → o < dp.size → o % dirent_size ≡ 0 → stops (entry_at dp d o) ≡ false)
      → ScanEnd dp d stops from_ (some (none, dp.size, dp, d))
  stopped :
      {off : ℕ}
      → from_ ≤ off
      → off < dp.size
      → off % dirent_size ≡ 0
      → stops (entry_at dp d off) ≡ true
      → ((o : ℕ) → from_ ≤ o → o < off → o % dirent_size ≡ 0 → stops (entry_at dp d o) ≡ false)
      → ScanEnd dp d stops from_ (some (some (entry_at dp d off), off, dp, d))

length-content : (ip : Inode) (d : Disk) (off n : ℕ) → length (content ip d off n) ≡ n
unfolding content
length-content ip d off zero = refl
length-content ip d off (suc n) = omega (arith, length-content ip d (off + 1) n)

module _ {A : Type 0} (devsw : Devsw A) (sb : Super) (dp : Inode) (d : Disk) (w : IsDir dp d) where
  whole_entry-readi :
      (off : ℕ)
      → off < dp.size
      → off % dirent_size ≡ 0
      → whole_entry (readi devsw sb dp off dirent_size d) ≡ some (entry_at dp d off, dp, d)
  unfolding whole_entry
  whole_entry-readi off lt al =
      let good : (leb off dp.size && ltb (off + dirent_size) u32_mod) ≡ true =
        ground (arith, w.small) in
      let count : min dirent_size (dp.size - off) ≡ dirent_size = omega (arith, w.entries) in
      let whole : (length (entry_at dp d off) == dirent_size) ≡ true =
        ground (arith, length-content dp d off dirent_size) in
      let step : readi devsw sb dp off dirent_size d
          ≡ some (ReadiResult.got (entry_at dp d off) dp d) =
        readi_lem devsw sb dp off dirent_size d (λ q. absurd (omega (arith, w.type)))
          (omega (arith, w.small)) (omega arith) w.small w.present
        ∙ rw (good, count) refl in
      ap whole_entry step ∙ rw whole refl

  pub scan_dir-ScanEnd :
      (k : ℕ) (stops : List ℕ → Bool) (off : ℕ)
      → dp.size ≤ k + off
      → off ≤ dp.size
      → off % dirent_size ≡ 0
      → ScanEnd dp d stops off (scan_dir k devsw sb stops off dp d)
  unfolding scan_dir scan_round
  scan_dir-ScanEnd zero stops off enough le al = at_end (omega arith)
    where
      at_end : off ≡ dp.size → ScanEnd dp d stops off (some (none, off, dp, d))
      at_end q =
          subst (λ o. ScanEnd dp d stops off (some (none, o, dp, d))) (sym q)
            (past (λ o lo hi a. absurd (omega arith)))
  scan_dir-ScanEnd (suc k) stops off enough le al = elim (Bool-cases (ltb off dp.size)) [
    | inl more ↦
        rw (more, whole_entry-readi off (ground arith) al)
          (elim (Bool-cases (stops (entry_at dp d off))) [
            | inl here ↦
                rw here
                  (stopped (omega arith) (ground arith) al here (λ o lo hi a. absurd (omega arith)))
            | inr other ↦ rw other (
                later other (scan_dir k devsw sb stops (off + dirent_size) dp d) (
                  scan_dir-ScanEnd k stops (off + dirent_size) (omega arith)
                    (ground (arith, w.entries)) (omega arith)))
          ])
    | inr over ↦ rw over (at_end (ground arith))
  ]
    where
      at_end : off ≡ dp.size → ScanEnd dp d stops off (some (none, off, dp, d))
      at_end q =
          subst (λ o. ScanEnd dp d stops off (some (none, o, dp, d))) (sym q)
            (past (λ o lo hi a. absurd (omega arith)))

      here_or :
          stops (entry_at dp d off) ≡ false
          → (o : ℕ) → (off + dirent_size ≤ o → stops (entry_at dp d o) ≡ false)
          → off ≤ o
          → o % dirent_size ≡ 0
          → stops (entry_at dp d o) ≡ false
      here_or other o h lo a = elim (ℕ_discrete o off) [
        | yes e ↦ ap (λ m. stops (entry_at dp d m)) e ∙ other
        | no ne ↦ h (omega arith)
      ]

      later :
          stops (entry_at dp d off) ≡ false
          → (r : Option Scanned) → ScanEnd dp d stops (off + dirent_size) r
          → ScanEnd dp d stops off r
      later other _ (past h) = past (λ o lo hi a. here_or other o (λ lo'. h o lo' hi a) lo a)
      later other _ (stopped lo hi a s h) =
          stopped (omega arith) hi a s (λ o l u b. here_or other o (λ l'. h o l' u b) l b)
