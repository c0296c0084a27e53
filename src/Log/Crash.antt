-- ===== src/Log/Crash.antt =====
-- Crash safety of the redo log: the power may fail at any write of a commit and of any number of
-- recoveries, and a transaction is on the disk whole or not at all.
use boss_os.Base.{
  All, Bool-cases, List, [], ap, arith, dec_lt, elem, false, inl, inr, length, subst, sym, ℕ, ◌+◌,
  ◌<◌, ◌∙◌, ◌∷◌, ◌≡◌, ◌≤◌, ◌⊎◌,
}
use boss_os.Log.Disk.{Block, Store, reboot}
use boss_os.Log.{install_from, install_trans, read_head, recover_from_log, write_head}
use boss_os.Log.Loops.{
  Headed, Home, Installed, Slots, Slots-frame, header, install_from-Installed, elem-false,
  write_head-Headed,
}

module _ (start n : ℕ) (new : ℕ → Block) where
  -- The log is empty, and outside it the disk is `new`.
  pub record IsClean (d : ℕ → Block) : Type 0 where
    pub head : header (d start) ≡ []
    pub home : (a : ℕ) → Home start n a → d a ≡ new a

  -- The log holds the transaction `bs`, and outside it the disk is `new` but for these blocks.
  pub record IsCommitted (bs : List ℕ) (d : ℕ → Block) : Type 0 where
    pub head : header (d start) ≡ bs
    pub slots : Slots d new (start + 1) bs
    pub home : (a : ℕ) → Home start n a → elem a bs ≡ false → d a ≡ new a
    pub fits : length bs < n
    pub away : All (Home start n) bs

  abbrev pub Durable : (ℕ → Block) → Type 0
  Durable d = IsClean d ⊎ ((bs : List ℕ) × IsCommitted bs d)

-- A boot on the disk `d` with `power` writes to go, and the disk that it leaves.
abbrev pub boot : (start power : ℕ) → (ℕ → Block) → ℕ → Block
boot start power d = (recover_from_log start (reboot power d)).disk

-- Boots one after another.
pub boots : (start : ℕ) → List ℕ → (ℕ → Block) → ℕ → Block
boots start [] d = d
boots start (k ∷ ks) d = boots start ks (boot start k d)

module _ (start n : ℕ) (new : ℕ → Block) where
  -- What installing leaves alone: the header, the slots, and the blocks not listed.
  Installed-IsCommitted :
      {bs : List ℕ} {s s1 : Store}
      → IsCommitted start n new bs s.disk
      → Installed new bs s s1
      → IsCommitted start n new bs s1.disk
  Installed-IsCommitted {bs} {s} {s1} c i =
      let same : (a : ℕ) → start ≤ a → a < start + n → s1.disk a ≡ s.disk a =
        λ a p q. i.disk_same a (elem-false start n a bs c.away p q) in
      record {
        head = ap header (same start (omega arith) (omega (arith, c.fits))) ∙ c.head;
        slots =
            Slots-frame s.disk s1.disk new (start + 1) bs
              (λ a p q. same a (omega arith) (omega (arith, c.fits))) c.slots;
        home = λ a h m. i.disk_same a m ∙ c.home a h m;
        fits = c.fits;
        away = c.away;
      }

  -- With everything installed, the cleared header ends the transaction.
  Headed-IsClean :
      {bs : List ℕ} {s s1 s2 : Store}
      → IsCommitted start n new bs s.disk
      → Installed new bs s s1
      → Headed start [] s1 s2
      → 0 < s1.power
      → IsClean start n new s2.disk
  Headed-IsClean {bs} c i w on = record {
    head = w.disk_head on;
    home = λ a h. w.disk_same a (omega (arith, c.fits)) ∙ (elim (Bool-cases (elem a bs)) [
      | inl m ↦ i.disk_new on a m
      | inr m ↦ i.disk_same a m ∙ c.home a h m
    ]);
  }

  -- If the power failed before, the disk still holds the committed transaction.
  Headed-off :
      {bs : List ℕ} {s1 s2 : Store} {cs : List ℕ}
      → IsCommitted start n new bs s1.disk
      → Headed start cs s1 s2
      → s1.power ≡ 0
      → IsCommitted start n new bs s2.disk
  Headed-off {bs} {s1} {s2} c w off = record {
    head = ap header (w.disk_off off) ∙ c.head;
    slots =
        Slots-frame s1.disk s2.disk new (start + 1) bs (λ a p q. w.disk_same a (omega arith))
          c.slots;
    home = λ a h m. w.disk_same a (omega (arith, c.fits)) ∙ c.home a h m;
    fits = c.fits;
    away = c.away;
  }

  -- install_trans and the header that clears the log, from a cache that holds the transaction.
  pub finish :
      (bs : List ℕ) (s : Store)
      → IsCommitted start n new bs s.disk
      → Slots s.mem new (start + 1) bs
      → let s' = write_head start [] (install_trans start bs s) in
        Durable start n new s'.disk × (length bs < s.power → IsClean start n new s'.disk)
  unfolding install_trans
  finish bs s c sl =
      let s1 : Store = install_from start 0 bs s in
      let i : Installed new bs s s1 =
        install_from-Installed new start n 0 (start + 1) bs s (omega arith) (omega (arith, c.fits))
          c.away sl in
      let w = write_head-Headed start [] s1 in
      (
        elim (dec_lt 0 s1.power) [
          | yes on ↦ inl (Headed-IsClean c i w on)
          | no off ↦ inr (bs, Headed-off (Installed-IsCommitted c i) w (omega arith))
        ],
        λ p. Headed-IsClean c i w (omega (arith, i.spent)),
      )

  boot-committed :
      (k : ℕ) (d : ℕ → Block) (bs : List ℕ)
      → IsCommitted start n new bs d
      → Durable start n new (boot start k d) × (n ≤ k → IsClean start n new (boot start k d))
  unfolding recover_from_log read_head
  boot-committed k d bs c =
      let f = finish bs (reboot k d) c c.slots in
      let e : boot start k d ≡ (write_head start [] (install_trans start bs (reboot k d))).disk =
        ap (λ h. (write_head start [] (install_trans start h (reboot k d))).disk) c.head in
      (
        subst (λ x. Durable start n new x) (sym e) f.0,
        λ p. subst (λ x. IsClean start n new x) (sym e) (f.1 (omega (arith, c.fits))),
      )

  -- A boot keeps a durable disk durable; with enough power it leaves it clean.
  pub boot-Durable :
      (k : ℕ) (d : ℕ → Block)
      → 0 < n
      → Durable start n new d
      → Durable start n new (boot start k d) × (n ≤ k → IsClean start n new (boot start k d))
  boot-Durable k d pos (inl c) =
      boot-committed k d []
        (record { head = c.head; slots = tt; home = λ a h m. c.home a h; fits = pos; away = tt })
  boot-Durable k d pos (inr (bs, c)) = boot-committed k d bs c

  pub boots-Durable :
      (ks : List ℕ) (d : ℕ → Block)
      → 0 < n
      → Durable start n new d
      → Durable start n new (boots start ks d)
  unfolding boots
  boots-Durable [] d pos h = h
  boots-Durable (k ∷ ks) d pos h = boots-Durable ks (boot start k d) pos (boot-Durable k d pos h).0
