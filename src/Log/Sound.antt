-- ===== src/Log/Sound.antt =====
-- The room that begin_op reserves is kept, and no operation is in progress during a commit.
use boss_os.Base.{
  All, Bool, List, [], ap, arith, false, get_elem?, length, length-set, ltb, refl, set, some, subst,
  suc, sym, true, update_ne, ℕ, ◌*◌, ◌+◌, ◌-◌, ◌<◌, ◌∙◌, ◌∷◌, ◌≡◌, ◌≤◌,
}
use boss_os.Log.Disk.{Block}
use boss_os.Log.{Ending, Log, absorb, begin_op, commit, leave, log_size, log_write, max_op_blocks}
use boss_os.Log.Loops.{Home}
use boss_os.Log.Budget.{
  Allowed, absorb-All, elem-absorb, get-All, length-absorb, set-All, total, total-le, total-set,
  total_of_mem, without, without-All, without_lem,
}
use boss_os.Log.Commit.{IsReady, commit-IsReady}
use boss_os.Log.Turns.{
  Phase, Reach, Running, Step, did_install, erased, modify, wrote_head, wrote_log,
}

-- During a commit no operation is in progress.
abbrev pub Shut : Log → List ℕ → Type 0
Shut l bs = (l.committing ≡ true) × (bs ≡ [])

-- The log is in the middle of the commit of a log that was ready.
pub record Amid (f : Log → Log) (l : Log) : Type 0 where
  was : Log
  ready : IsReady was
  some_ : 0 < length was.lh
  power : 2 * length was.lh + 1 < was.store.power
  is : l ≡ f was

abbrev pub PhaseOk : Phase → Log → List ℕ → Type 0
PhaseOk Phase.open_ l bs = (l.committing ≡ false) × IsReady l
PhaseOk Phase.to_commit l bs = Shut l bs × IsReady l × (2 * length l.lh + 1 < l.store.power)
PhaseOk Phase.log_written l bs = Shut l bs × Amid wrote_log l
PhaseOk Phase.head_written l bs = Shut l bs × Amid (λ x. wrote_head (wrote_log x)) l
PhaseOk Phase.installed l bs = Shut l bs × Amid (λ x. did_install (wrote_head (wrote_log x))) l
PhaseOk Phase.committed l bs = Shut l bs × IsReady l

pub record IsSound (s : Running) : Type 0 where
  pub phase_ok : PhaseOk s.phase s.log s.budgets
  pub counted : s.log.outstanding ≡ length s.budgets
  pub reserved : length s.log.lh + total s.budgets ≤ log_size
  pub small : All Allowed s.budgets
  pub room : log_size < s.log.size

-- Outside a commit the log is ready.
PhaseOk-open :
    (ph : Phase) (l : Log) (bs : List ℕ)
    → PhaseOk ph l bs
    → (bs ≡ [] → l.committing ≡ true → ⊥)
    → (l.committing ≡ false) × IsReady l × (ph ≡ Phase.open_)
PhaseOk-open Phase.open_ l bs (c, r) h = (c, r, refl)
PhaseOk-open Phase.to_commit l bs ((c, e), r, p) h = absurd (h e c)
PhaseOk-open Phase.log_written l bs ((c, e), r) h = absurd (h e c)
PhaseOk-open Phase.head_written l bs ((c, e), r) h = absurd (h e c)
PhaseOk-open Phase.installed l bs ((c, e), r) h = absurd (h e c)
PhaseOk-open Phase.committed l bs ((c, e), r) h = absurd (h e c)

-- An operation is in progress.
pub busy :
    {s : Running} (i k : ℕ)
    → get_elem? s.budgets i ≡ some k
    → IsSound s
    → (s.log.committing ≡ false) × IsReady s.log × (s.phase ≡ Phase.open_)
busy {s} i k e v =
    PhaseOk-open s.phase s.log s.budgets v.phase_ok
      (λ n c. let some_ = total_of_mem s.budgets i k e in absurd (omega (arith, ap length n)))

begin_op-inv :
    (l l' : Log)
    → begin_op l ≡ some l'
    → (l' ≡ record l { outstanding = l.outstanding + 1 })
      × (length l.lh + (l.outstanding + 1) * max_op_blocks ≤ log_size)
      × (l.committing ≡ false)
unfolding begin_op
begin_op-inv l l' h = ground arith

log_write-inv :
    (b : ℕ) (l l' : Log) → log_write b l ≡ some l' → l' ≡ record l { lh = absorb b l.lh }
unfolding log_write
log_write-inv b l l' h = ground arith

abbrev closing : Log → Log
closing l = record l { outstanding = 0; committing = true }

others-inv :
    (l l' : Log)
    → leave l ≡ Ending.others l'
    → (1 < l.outstanding) × (l' ≡ record l { outstanding = l.outstanding - 1 })
unfolding leave
others-inv l l' h = ground arith

last-inv : (l l' : Log) → leave l ≡ Ending.last l' → (l.outstanding ≡ 1) × (l' ≡ closing l)
unfolding leave
last-inv l l' h = ground arith

-- The two counters are no part of what a ready log is.
recounted-IsReady :
    (l : Log) (n : ℕ) (c : Bool)
    → IsReady l
    → IsReady (record l { outstanding = n; committing = c })
recounted-IsReady l n c r = record { head = r.head; fits = r.fits; away = r.away; agree = r.agree }

PhaseOk-at : {ph qh : Phase} (l : Log) (bs : List ℕ) → ph ≡ qh → PhaseOk ph l bs → PhaseOk qh l bs
PhaseOk-at l bs q h = subst (λ p. PhaseOk p l bs) q h

pub opened :
    {ph : Phase} (l : Log) (bs : List ℕ)
    → ph ≡ Phase.open_
    → l.committing ≡ false
    → IsReady l
    → PhaseOk ph l bs
opened l bs q c r = PhaseOk-at l bs (sym q) (c, r)

begin-IsSound :
    {s : Running} {l : Log}
    → begin_op s.log ≡ some l
    → IsSound s
    → IsSound (record s { log = l; budgets = max_op_blocks ∷ s.budgets })
unfolding total
begin-IsSound {s} {l} e v =
    let (is, room, quiet) = begin_op-inv s.log l e in
    let (c, r, ph) = PhaseOk-open s.phase s.log s.budgets v.phase_ok (λ n c. cc) in
    rw is (record {
      phase_ok =
          opened _ _ ph c (recounted-IsReady s.log (s.log.outstanding + 1) s.log.committing r);
      counted = omega (arith, v.counted);
      reserved = omega (arith, total-le s.budgets v.small, v.counted);
      small = (omega arith, v.small);
      room = v.room;
    })

logged-IsReady :
    (s : Running) (b : ℕ) (x : Block)
    → IsReady s.log
    → Home s.log.start s.log.size b
    → length (absorb b s.log.lh) < s.log.size
    → IsReady (record (modify b x s.log) { lh = absorb b s.log.lh })
logged-IsReady s b x v h fits = record {
  head = v.head;
  fits = fits;
  away = absorb-All s.log.start s.log.size b s.log.lh h v.away;
  agree = λ a p m.
      let (ne, out) = elem-absorb a b s.log.lh m in
      update_ne s.log.store.mem b a x ne ∙ v.agree a p out;
}

write-IsSound :
    {s : Running} {l : Log} (i k b : ℕ) (x : Block)
    → get_elem? s.budgets i ≡ some (suc k)
    → Home s.log.start s.log.size b
    → log_write b (modify b x s.log) ≡ some l
    → IsSound s
    → IsSound (record s { log = l; budgets = set s.budgets i k })
write-IsSound {s} {l} i k b x e h w v =
    let longer = length-absorb b s.log.lh in
    let paid = total-set s.budgets i k e in
    let cap = get-All s.budgets i (suc k) e v.small in
    let (c, r, ph) = busy i (suc k) e v in
    rw (log_write-inv b (modify b x s.log) l w) (record {
      phase_ok = opened _ _ ph c (logged-IsReady s b x r h (omega (arith, v.reserved, v.room)));
      counted = v.counted ∙ sym (length-set s.budgets i k);
      reserved = omega (arith, v.reserved);
      small = set-All s.budgets i k (omega arith) v.small;
      room = v.room;
    })

leaves-IsSound :
    {s : Running} {l : Log} (i k : ℕ)
    → get_elem? s.budgets i ≡ some k
    → leave s.log ≡ Ending.others l
    → IsSound s
    → IsSound (record s { log = l; budgets = without s.budgets i })
leaves-IsSound {s} {l} i k e w v =
    let (less, one) = without_lem s.budgets i k e in
    let (c, r, ph) = busy i k e v in
    let (many, is) = others-inv s.log l w in
    rw is (record {
      phase_ok =
          opened _ _ ph c (recounted-IsReady s.log (s.log.outstanding - 1) s.log.committing r);
      counted = omega (arith, v.counted);
      reserved = omega (arith, v.reserved);
      small = without-All s.budgets i v.small;
      room = v.room;
    })

nothing_left : (bs : List ℕ) → length bs ≡ 0 → bs ≡ []
nothing_left [] h = refl
nothing_left (b ∷ bs) h = absurd (omega arith)

leaves_last-IsSound :
    {s : Running} {l : Log} (i k : ℕ)
    → get_elem? s.budgets i ≡ some k
    → 2 * length s.log.lh + 1 < s.log.store.power
    → leave s.log ≡ Ending.last l
    → IsSound s
    → IsSound (record { log = l; budgets = without s.budgets i; phase = Phase.to_commit })
leaves_last-IsSound {s} {l} i k e power w v =
    let (less, one) = without_lem s.budgets i k e in
    let (c, r, ph) = busy i k e v in
    let (last, is) = last-inv s.log l w in
    rw is (record {
      phase_ok = (
        (refl, nothing_left (without s.budgets i) (omega (arith, v.counted))),
        recounted-IsReady s.log 0 true r,
        power,
      );
      counted = omega (arith, v.counted);
      reserved = omega (arith, v.reserved);
      small = without-All s.budgets i v.small;
      room = v.room;
    })

-- The stages of commit, one after the other, are commit.
commit-stages :
    (l : Log) → 0 < length l.lh → commit l ≡ erased (did_install (wrote_head (wrote_log l)))
unfolding commit
commit-stages l h = let test : ltb 0 (length l.lh) ≡ true = ground arith in rw test refl

erased-IsReady :
    {l : Log} → Amid (λ x. did_install (wrote_head (wrote_log x))) l → IsReady (erased l)
erased-IsReady a =
    rw a.is (subst IsReady (commit-stages a.was a.some_) (commit-IsReady a.was a.ready a.power))

-- One stage more.
onward : {f : Log → Log} {l : Log} (g : Log → Log) → Amid f l → Amid (λ x. g (f x)) (g l)
onward g a = record {
  was = a.was;
  ready = a.ready;
  some_ = a.some_;
  power = a.power;
  is = ap g a.is;
}

Step-IsSound : {s t : Running} → Step s t → IsSound s → IsSound t
Step-IsSound (Step.begin e) v = begin-IsSound e v
Step-IsSound (Step.write i k b x e h w) v = write-IsSound i k b x e h w v
Step-IsSound (Step.leaves i k e w) v = leaves-IsSound i k e w v
Step-IsSound (Step.leaves_last i k e power w) v = leaves_last-IsSound i k e power w v
Step-IsSound {s} (Step.skips q none_) v =
    let (shut, r, power) = PhaseOk-at s.log s.budgets q v.phase_ok in
    record {
      phase_ok = (shut, r);
      counted = v.counted;
      reserved = v.reserved;
      small = v.small;
      room = v.room;
    }
Step-IsSound {s} (Step.writes_log q some_) v =
    let (shut, r, power) = PhaseOk-at s.log s.budgets q v.phase_ok in
    record {
      phase_ok = (shut, record { was = s.log; ready = r; some_ = some_; power = power; is = refl });
      counted = v.counted;
      reserved = v.reserved;
      small = v.small;
      room = v.room;
    }
Step-IsSound {s} (Step.writes_head q) v =
    let (shut, a) = PhaseOk-at s.log s.budgets q v.phase_ok in
    record {
      phase_ok = (shut, onward wrote_head a);
      counted = v.counted;
      reserved = v.reserved;
      small = v.small;
      room = v.room;
    }
Step-IsSound {s} (Step.installs q) v =
    let (shut, a) = PhaseOk-at s.log s.budgets q v.phase_ok in
    record {
      phase_ok = (shut, onward did_install a);
      counted = v.counted;
      reserved = v.reserved;
      small = v.small;
      room = v.room;
    }
Step-IsSound {s} (Step.erases q) v =
    let (shut, a) = PhaseOk-at s.log s.budgets q v.phase_ok in
    record {
      phase_ok = (shut, erased-IsReady a);
      counted = v.counted;
      reserved = omega (arith, v.reserved);
      small = v.small;
      room = v.room;
    }
Step-IsSound {s} (Step.reopens q) v =
    let (shut, r) = PhaseOk-at s.log s.budgets q v.phase_ok in
    record {
      phase_ok = (refl, recounted-IsReady s.log s.log.outstanding false r);
      counted = v.counted;
      reserved = v.reserved;
      small = v.small;
      room = v.room;
    }

pub Reach-IsSound : {s t : Running} → Reach s t → IsSound s → IsSound t
Reach-IsSound Reach.here v = v
Reach-IsSound (Reach.next r st) v = Step-IsSound st (Reach-IsSound r v)
