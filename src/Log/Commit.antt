-- ===== src/Log/Commit.antt =====
-- A commit of log.c is atomic: crashed at any write and rebooted any number of times, it is on
-- the disk whole or not at all.
use boss_os.Base.{
  All, Bool-cases, List, [], ap, arith, dec_lt, elem, false, inl, inr, length, ltb, refl, subst,
  sym, ℕ, ◌*◌, ◌+◌, ◌<◌, ◌∙◌, ◌∷◌, ◌≡◌, ◌≤◌, ◌⊎◌,
}
use boss_os.Log.Disk.{Block, Store}
use boss_os.Log.{Log, commit, install_from, install_trans, write_head, write_log}
use boss_os.Log.Loops.{
  Home, Logged, Slots, Slots-frame, header, install_from-Installed, install_from-Off,
  write_head-Headed, write_head-Off, write_log_from-Logged,
}
use boss_os.Log.Crash.{
  Durable, IsClean, IsCommitted, boot, boot-Durable, boots, boots-Durable, finish,
}

-- Between transactions: the log on disk is empty, the logged blocks fit in the log and lie
-- outside it, and outside it the cache differs from the disk at logged blocks only.
pub record IsReady (l : Log) : Type 0 where
  pub head : header (l.store.disk l.start) ≡ []
  pub fits : length l.lh < l.size
  pub away : All (Home l.start l.size) l.lh
  pub agree : (a : ℕ) → Home l.start l.size a → elem a l.lh ≡ false → l.store.mem a ≡ l.store.disk a

-- The disk that commit leaves, the power failing at some write or not.
record Committing (l : Log) (d : ℕ → Block) : Type 0 where
  before_or_after : IsClean l.start l.size l.store.disk d ⊎ Durable l.start l.size l.store.mem d
  enough : 2 * length l.lh + 1 < l.store.power → IsClean l.start l.size l.store.mem d

eq_nil_of_length : (xs : List ℕ) → length xs ≡ 0 → xs ≡ []
eq_nil_of_length [] h = refl
eq_nil_of_length (x ∷ xs) h = absurd (omega arith)

module _ (l : Log) (r : IsReady l) where
  abbrev written : Store
  written = write_log l.start l.lh l.store

  abbrev headed : Store
  headed = write_head l.start l.lh written

  wrote : Logged (l.start + 1) l.lh l.store written
  unfolding write_log
  wrote =
      write_log_from-Logged l.start l.size 0 (l.start + 1) l.lh l.store (omega arith)
        (omega (arith, r.fits)) r.away

  -- With the power still on, the header write commits the transaction.
  headed-IsCommitted : 0 < written.power → IsCommitted l.start l.size l.store.mem l.lh headed.disk
  headed-IsCommitted on =
      let w = write_head-Headed l.start l.lh written in
      record {
        head = w.disk_head on;
        slots =
            Slots-frame written.disk headed.disk l.store.mem (l.start + 1) l.lh
              (λ a p q. w.disk_same a (omega arith)) (wrote.disk_slots on);
        home = λ a h m.
            w.disk_same a (omega (arith, r.fits))
            ∙ wrote.disk_same a (omega (arith, r.fits))
            ∙ sym (r.agree a h m);
        fits = r.fits;
        away = r.away;
      }

  headed-Slots : Slots headed.mem l.store.mem (l.start + 1) l.lh
  headed-Slots =
      let w = write_head-Headed l.start l.lh written in
      Slots-frame written.mem headed.mem l.store.mem (l.start + 1) l.lh
        (λ a p q. w.mem_same a (omega arith)) wrote.mem_slots

  -- The power failed while the log was being written: the disk is as before the transaction.
  off-IsClean :
      written.power ≡ 0
      → IsClean l.start l.size l.store.disk
          (write_head l.start [] (install_trans l.start l.lh headed)).disk
  unfolding install_trans
  off-IsClean off =
      let h = write_head-Off l.start l.lh written off in
      let i = install_from-Off l.start 0 l.lh headed h.1 in
      let w = write_head-Off l.start [] (install_trans l.start l.lh headed) i.1 in
      let same = w.0 ∙ i.0 ∙ h.0 in
      subst (λ d. IsClean l.start l.size l.store.disk d) (sym same)
        (record {
          head = ap header (wrote.disk_same l.start (omega arith)) ∙ r.head;
          home = λ a p. wrote.disk_same a (omega (arith, r.fits));
        })

  commit_body-Committing :
      Committing l (write_head l.start [] (install_trans l.start l.lh headed)).disk
  commit_body-Committing = elim (dec_lt 0 written.power) [
    | yes on ↦
        let f =
          finish l.start l.size l.store.mem l.lh headed (headed-IsCommitted on) headed-Slots in
        let w = write_head-Headed l.start l.lh written in
        record {
          before_or_after = inr f.0;
          enough = λ p. f.1 (omega (arith, w.spent, wrote.spent));
        }
    | no off ↦ record {
      before_or_after = inl (off-IsClean (omega arith));
      enough = λ p. absurd (omega (arith, wrote.spent));
    }
  ]

  idle-Committing : l.lh ≡ [] → Committing l l.store.disk
  idle-Committing e = record {
    before_or_after = inl (record { head = r.head; home = λ a h. refl });
    enough = λ p. record { head = r.head; home = λ a h. sym (r.agree a h (ap (λ x. elem a x) e)) };
  }

  commit-Committing : Committing l (commit l).store.disk
  unfolding commit
  commit-Committing = elim (Bool-cases (ltb 0 (length l.lh))) [
    | inl some_ ↦ rw some_ commit_body-Committing
    | inr idle ↦ rw idle (idle-Committing (eq_nil_of_length l.lh (ground arith)))
  ]

  -- The cache keeps the transaction outside the log.
  commit_body-mem :
      (a : ℕ)
      → Home l.start l.size a
      → (write_head l.start [] (install_trans l.start l.lh headed)).mem a ≡ l.store.mem a
  unfolding install_trans
  commit_body-mem a h =
      let w = write_head-Headed l.start l.lh written in
      let i =
        install_from-Installed l.store.mem l.start l.size 0 (l.start + 1) l.lh headed (omega arith)
          (omega (arith, r.fits)) r.away headed-Slots in
      let s1 = install_from l.start 0 l.lh headed in
      (write_head-Headed l.start [] s1).mem_same a (omega (arith, r.fits))
      ∙ (elim (Bool-cases (elem a l.lh)) [
        | inl m ↦ i.mem_new a m
        | inr m ↦
            i.mem_same a m
            ∙ w.mem_same a (omega (arith, r.fits))
            ∙ wrote.mem_same a (omega (arith, r.fits))
      ])

  commit-mem : (a : ℕ) → Home l.start l.size a → (commit l).store.mem a ≡ l.store.mem a
  unfolding commit
  commit-mem a h = elim (Bool-cases (ltb 0 (length l.lh))) [
    | inl some_ ↦ rw some_ (commit_body-mem a h)
    | inr idle ↦ rw idle refl
  ]

  pub commit_frame :
      ((commit l).start ≡ l.start)
      × ((commit l).size ≡ l.size)
      × ((commit l).lh ≡ [])
      × ((commit l).outstanding ≡ l.outstanding)
  unfolding commit
  commit_frame = elim (Bool-cases (ltb 0 (length l.lh))) [
    | inl some_ ↦ rw some_ (refl, refl, refl, refl)
    | inr idle ↦ rw idle (refl, refl, eq_nil_of_length l.lh (ground arith), refl)
  ]

  -- After a commit under power the next transaction may start.
  pub commit-IsReady : 2 * length l.lh + 1 < l.store.power → IsReady (commit l)
  commit-IsReady power =
      let c = commit-Committing.enough power in
      let (st, sz, lh, out) = commit_frame in
      record {
        head = rw st c.head;
        fits = rw (lh, sz) (omega (arith, r.fits));
        away = rw lh tt;
        agree = λ a h m.
            let h' : Home l.start l.size a = omega (arith, st, sz, h) in
            commit-mem a h' ∙ sym (c.home a h');
      }

  -- Let a commit start with any number of disk writes left before the power fails, let the machine
  -- boot any number of times, each boot cut short after any number of writes, and then boot once
  -- with writes enough for a recovery. Then the log on the disk is empty, and outside the log
  -- either every block is as it was on the disk before the transaction, or every block is as the
  -- transaction left it in the cache.
  pub commit-atomic :
      (ks : List ℕ) (k : ℕ)
      → l.size ≤ k
      → let d = boot l.start k (boots l.start ks (commit l).store.disk) in
        IsClean l.start l.size l.store.disk d ⊎ IsClean l.start l.size l.store.mem d
  commit-atomic ks k enough = elim commit-Committing.before_or_after [
    | inl c ↦ inl (settle l.store.disk (inl c))
    | inr c ↦ inr (settle l.store.mem c)
  ]
    where
      settle :
          (new : ℕ → Block)
          → Durable l.start l.size new (commit l).store.disk
          → IsClean l.start l.size new (boot l.start k (boots l.start ks (commit l).store.disk))
      settle new c =
          let pos : 0 < l.size = omega (arith, r.fits) in
          (boot-Durable l.start l.size new k _ pos
              (boots-Durable l.start l.size new ks (commit l).store.disk pos c)).1
            enough

  -- A commit during which the power lasts for its 2 n + 2 writes is durable: when it returns, the
  -- log is empty in memory and on the disk, and every block outside the log is on the disk as the
  -- transaction left it in the cache. After any number of boots cut short and a whole one, the
  -- disk is so again.
  pub commit-durable :
      (ks : List ℕ) (k : ℕ)
      → 2 * length l.lh + 1 < l.store.power
      → l.size ≤ k
      → ((commit l).lh ≡ [])
        × IsClean l.start l.size l.store.mem (commit l).store.disk
        × IsClean l.start l.size l.store.mem
            (boot l.start k (boots l.start ks (commit l).store.disk))
  commit-durable ks k power enough =
      let pos : 0 < l.size = omega (arith, r.fits) in
      let (st, sz, lh, out) = commit_frame in
      (
        lh,
        commit-Committing.enough power,
        (boot-Durable l.start l.size l.store.mem k _ pos (
              boots-Durable l.start l.size l.store.mem ks (commit l).store.disk pos
                (inl (commit-Committing.enough power)))).1
            enough,
      )
