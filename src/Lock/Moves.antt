-- ===== src/Lock/Moves.antt =====
-- Each step of a processor is no panic and keeps the invariant.
use boss_os.Base.{
  Bool-cases, ap, arith, false, inl, inr, refl, some, sym, true, update, ℕ, ℕ_discrete, ◌&&◌, ◌+◌,
  ◌-◌, ◌<◌, ◌==◌, ◌∙◌, ◌≡◌, ◌≢◌,
}
use boss_os.Lock.{
  Cpu, Phase, Spinlock, World, checked, holding, is_mine, move_at, popped, pushcli, with_test,
}
use boss_os.Lock.Nesting.{IsMasked, pair-Restored, popcli_lem}
use boss_os.Lock.Invariant.{
  Inv, Inv-step, Inv-still, Moves, false-true, holds, is_inside, is_outside,
}

pushcli-facts : (c : Cpu) → ((pushcli c).interrupts ≡ false) × ((pushcli c).ncli ≡ c.ncli + 1)
unfolding pushcli
pushcli-facts c = (refl, refl)

-- holding leaves the flag and the count as they are.
holding-Restored :
    (lk : Spinlock) (i : ℕ) (c : Cpu)
    → IsMasked c
    → (d : Cpu) × (holding lk i c ≡ some (is_mine lk i, d))
      × (d.interrupts ≡ c.interrupts)
      × (d.ncli ≡ c.ncli)
unfolding holding
holding-Restored lk i c masked =
    let h = pair-Restored c (some (pushcli c)) masked (record {
      after = pushcli c;
      total = refl;
      flag = refl;
      count = refl;
      nested = λ pos. refl;
    }) in
    (h.after, ap (with_test (is_mine lk i)) h.total, h.flag, h.count)

pub masked_off : (c : Cpu) → IsMasked c → 0 < c.ncli → c.interrupts ≡ false
masked_off c (inl z) pos = absurd (omega arith)
masked_off c (inr o) pos = o

pub holds-outside : (p : Phase) → holds p ≡ true → is_outside p ≡ false
holds-outside Phase.outside h = sym h
holds-outside Phase.spinning h = refl
holds-outside Phase.taken h = refl
holds-outside Phase.inside h = refl
holds-outside Phase.clearing h = refl
holds-outside Phase.leaving h = refl

-- What the invariant says of a processor at a known phase.
not_inside :
    (w : World) (i : ℕ) (p : Phase) → Inv w → w.at i ≡ p → is_inside p ≡ false → w.lk.owner ≢ i + 1
not_inside w i p h e out o = false-true (ap is_inside e ∙ out) (h.mine i o)

alone :
    (w : World) (i : ℕ) (p : Phase)
    → Inv w
    → w.at i ≡ p
    → holds p ≡ true
    → (j : ℕ) → j ≢ i
    → holds (w.at j) ≡ false
alone w i p h e on j ne = elim (Bool-cases (holds (w.at j))) [
  | inl b ↦ absurd (ne (h.one j i b (ap holds e ∙ on)))
  | inr b ↦ b
]

pub holds-inside : (p : Phase) → is_inside p ≡ true → holds p ≡ true
holds-inside Phase.inside h = refl
holds-inside Phase.outside h = absurd (false-true refl h)
holds-inside Phase.spinning h = absurd (false-true refl h)
holds-inside Phase.taken h = absurd (false-true refl h)
holds-inside Phase.clearing h = absurd (false-true refl h)
holds-inside Phase.leaving h = absurd (false-true refl h)

pub outside-Moves :
    (w : World) (i : ℕ) → w.at i ≡ Phase.outside → Inv w → Moves w (move_at Phase.outside i w)
unfolding move_at checked
outside-Moves w i e h =
    let push = pushcli-facts (w.cpus i) in
    let (d, t, flag, count) = holding-Restored w.lk i (pushcli (w.cpus i)) (inr push.0) in
    let out = not_inside w i Phase.outside h e refl in
    let free : is_mine w.lk i ≡ false = ground (arith, out) in
    record {
      after = record w { cpus = update w.cpus i d; at = update w.at i Phase.spinning };
      total = rw (t, free) refl;
      keeps = Inv-step w i Phase.spinning d w.lk h (record {
        masked = inr (flag ∙ push.0);
        off = λ o. omega (arith, count, push.1);
        alone = λ b. absurd (false-true refl b);
        held = λ b. absurd (false-true refl b);
        held_on = λ j ne b. h.held j b;
        mine = λ o. absurd (out o);
        named = λ b. absurd (false-true refl b);
        mine_on = λ j ne o. h.mine j o;
        named_on = λ j ne b. h.named j b;
      });
    }

pub spinning-Moves :
    (w : World) (i : ℕ) → w.at i ≡ Phase.spinning → Inv w → Moves w (move_at Phase.spinning i w)
unfolding move_at
spinning-Moves w i e h = elim (Bool-cases w.lk.locked) [
  | inl busy ↦ record {
    after = record {
      lk = record { locked = true; owner = w.lk.owner };
      cpus = w.cpus;
      at = update w.at i Phase.spinning;
    };
    total = rw busy refl;
    keeps =
        Inv-still w i Phase.spinning (record { locked = true; owner = w.lk.owner }) h
          (record {
            masked = h.masked i;
            off = λ o. h.off i (ap is_outside e);
            alone = λ b. absurd (false-true refl b);
            held = λ b. refl;
            held_on = λ j ne b. refl;
            mine = λ o. absurd (out o);
            named = λ b. absurd (false-true refl b);
            mine_on = λ j ne o. h.mine j o;
            named_on = λ j ne b. h.named j b;
          });
  }
  | inr free ↦ record {
    after = record {
      lk = record { locked = true; owner = w.lk.owner };
      cpus = w.cpus;
      at = update w.at i Phase.taken;
    };
    total = rw free refl;
    keeps =
        Inv-still w i Phase.taken (record { locked = true; owner = w.lk.owner }) h
          (record {
            masked = h.masked i;
            off = λ o. h.off i (ap is_outside e);
            alone = λ b j ne. nobody free j;
            held = λ b. refl;
            held_on = λ j ne b. refl;
            mine = λ o. absurd (out o);
            named = λ b. absurd (false-true refl b);
            mine_on = λ j ne o. h.mine j o;
            named_on = λ j ne b. h.named j b;
          });
  }
]
  where
    out : w.lk.owner ≢ i + 1
    out = not_inside w i Phase.spinning h e refl

    nobody : w.lk.locked ≡ false → (j : ℕ) → holds (w.at j) ≡ false
    nobody free j = elim (Bool-cases (holds (w.at j))) [
      | inl b ↦ absurd (false-true free (h.held j b))
      | inr b ↦ b
    ]

pub taken-Moves :
    (w : World) (i : ℕ) → w.at i ≡ Phase.taken → Inv w → Moves w (move_at Phase.taken i w)
unfolding move_at
taken-Moves w i e h =
    let lk : Spinlock = record { locked = w.lk.locked; owner = i + 1 } in
    record {
      after = record { lk = lk; cpus = w.cpus; at = update w.at i Phase.inside };
      total = refl;
      keeps = Inv-still w i Phase.inside lk h (record {
        masked = h.masked i;
        off = λ o. h.off i (ap is_outside e);
        alone = λ b. alone w i Phase.taken h e refl;
        held = λ b. h.held i (ap holds e);
        held_on = λ j ne b. h.held j b;
        mine = λ o. refl;
        named = λ b. refl;
        mine_on = λ j ne o. absurd (ne (omega arith));
        named_on = λ j ne b.
            absurd (false-true (alone w i Phase.taken h e refl j ne) (holds-inside (w.at j) b));
      });
    }

pub inside-Moves :
    (w : World) (i : ℕ) → w.at i ≡ Phase.inside → Inv w → Moves w (move_at Phase.inside i w)
unfolding move_at checked
inside-Moves w i e h =
    let (d, t, flag, count) = holding-Restored w.lk i (w.cpus i) (h.masked i) in
    let lk : Spinlock = record { locked = w.lk.locked; owner = 0 } in
    let on : w.lk.locked ≡ true = h.held i (ap holds e) in
    let named : w.lk.owner ≡ i + 1 = h.named i (ap is_inside e) in
    let yes_ : is_mine w.lk i ≡ true = ground arith in
    let open_ : 0 < (w.cpus i).ncli = h.off i (ap is_outside e) in
    record {
      after = record { lk = lk; cpus = update w.cpus i d; at = update w.at i Phase.clearing };
      total = rw (t, yes_) refl;
      keeps = Inv-step w i Phase.clearing d lk h (record {
        masked = same_mask (w.cpus i) d (h.masked i) flag count;
        off = λ o. omega (arith, count);
        alone = λ b. alone w i Phase.inside h e refl;
        held = λ b. on;
        held_on = λ j ne b. on;
        mine = λ o. absurd (omega arith);
        named = λ b. absurd (false-true refl b);
        mine_on = λ j ne o. absurd (omega arith);
        named_on = λ j ne b.
            absurd (false-true (alone w i Phase.inside h e refl j ne) (holds-inside (w.at j) b));
      });
    }
  where
    same_mask :
        (c d : Cpu) → IsMasked c → d.interrupts ≡ c.interrupts → d.ncli ≡ c.ncli → IsMasked d
    same_mask c d (inl z) flag count = inl (count ∙ z)
    same_mask c d (inr o) flag count = inr (flag ∙ o)

pub clearing-Moves :
    (w : World) (i : ℕ) → w.at i ≡ Phase.clearing → Inv w → Moves w (move_at Phase.clearing i w)
unfolding move_at
clearing-Moves w i e h =
    let lk : Spinlock = record { locked = false; owner = w.lk.owner } in
    record {
      after = record { lk = lk; cpus = w.cpus; at = update w.at i Phase.leaving };
      total = refl;
      keeps = Inv-still w i Phase.leaving lk h (record {
        masked = h.masked i;
        off = λ o. h.off i (ap is_outside e);
        alone = λ b. absurd (false-true refl b);
        held = λ b. absurd (false-true refl b);
        held_on = λ j ne b. absurd (false-true (alone w i Phase.clearing h e refl j ne) b);
        mine = λ o. absurd (not_inside w i Phase.clearing h e refl o);
        named = λ b. absurd (false-true refl b);
        mine_on = λ j ne o. h.mine j o;
        named_on = λ j ne b. h.named j b;
      });
    }

pub leaving-Moves :
    (w : World) (i : ℕ) → w.at i ≡ Phase.leaving → Inv w → Moves w (move_at Phase.leaving i w)
unfolding move_at popped
leaving-Moves w i e h =
    let open_ : 0 < (w.cpus i).ncli = h.off i (ap is_outside e) in
    let off = masked_off (w.cpus i) (h.masked i) open_ in
    let d : Cpu = record (w.cpus i) {
      interrupts = ((w.cpus i).ncli == 1) && (w.cpus i).intena;
      ncli = (w.cpus i).ncli - 1;
    } in
    record {
      after = record w { cpus = update w.cpus i d; at = update w.at i Phase.outside };
      total = rw (popcli_lem (w.cpus i) off open_) refl;
      keeps = Inv-step w i Phase.outside d w.lk h (record {
        masked = again (w.cpus i) open_;
        off = λ o. absurd (false-true o refl);
        alone = λ b. absurd (false-true refl b);
        held = λ b. absurd (false-true refl b);
        held_on = λ j ne b. h.held j b;
        mine = λ o. absurd (not_inside w i Phase.leaving h e refl o);
        named = λ b. absurd (false-true refl b);
        mine_on = λ j ne o. h.mine j o;
        named_on = λ j ne b. h.named j b;
      });
    }
  where
    again :
        (c : Cpu)
        → 0 < c.ncli
        → IsMasked (record c { interrupts = (c.ncli == 1) && c.intena; ncli = c.ncli - 1 })
    again c pos = elim (ℕ_discrete c.ncli 1) [
      | yes one ↦ inl (omega arith)
      | no more ↦ inr (ground arith)
    ]
