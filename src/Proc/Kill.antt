-- ===== src/Proc/Kill.antt =====
-- kill: the slot that it marks, and a pid that no process has.
use boss_os.Base.{
  Bool, Bool-cases, List, Option, [], ap, arith, false, get_elem?, inl, inr, none, refl, some,
  subst, suc, true, zero, ℕ, ◌+◌, ◌<◌, ◌==◌, ◌∙◌, ◌∷◌, ◌≡◌, ◌≢◌,
}
use boss_os.Proc.{Proc, Ptable, fork}
use boss_os.Proc.Table.{get_elem?-modify, get_elem?-modify_self, modify}
use boss_os.Proc.Life.{doomed, find_pid, kill, kill_on}
use boss_os.Proc.Fork.{fork-ForkSpec}

-- How kill ends on a table.
pub data KillEnd (pid : ℕ) (t : Ptable) (r : Bool × Ptable) : Type 0 where
  missed :
      ((j : ℕ) (q : Proc) → get_elem? t.procs j ≡ some q → q.pid ≢ pid)
      → r ≡ (false, t)
      → KillEnd pid t r
  hit :
      (i : ℕ) (p : Proc)
      → get_elem? t.procs i ≡ some p
      → p.pid ≡ pid
      → ((j : ℕ) (q : Proc) → get_elem? t.procs j ≡ some q → j < i → q.pid ≢ pid)
      → r.0 ≡ true
      → get_elem? r.1.procs i ≡ some (doomed p)
      → ((j : ℕ) (q : Proc) → get_elem? t.procs j ≡ some q → i ≢ j → get_elem? r.1.procs j ≡ some q)
      → KillEnd pid t r

find_pid-none :
    (pid : ℕ) (ps : List Proc) (b : ℕ)
    → find_pid pid ps b ≡ none
    → (j : ℕ) (q : Proc) → get_elem? ps j ≡ some q
    → q.pid ≢ pid
unfolding find_pid
find_pid-none pid [] b h j q g = cc
find_pid-none pid (p ∷ ps) b h zero q g = ground arith
find_pid-none pid (p ∷ ps) b h (suc j) q g = elim (Bool-cases (p.pid == pid)) [
  | inl e ↦ ground arith
  | inr e ↦ find_pid-none pid ps (b + 1) (rw e at h) j q g
]

find_pid-some :
    (pid : ℕ) (ps : List Proc) (b i : ℕ)
    → find_pid pid ps b ≡ some i
    → (k : ℕ) × (p : Proc) × (i ≡ b + k)
      × (get_elem? ps k ≡ some p)
      × (p.pid ≡ pid)
      × ((j : ℕ) (q : Proc) → get_elem? ps j ≡ some q → j < k → q.pid ≢ pid)
unfolding find_pid
find_pid-some pid [] b i h = cc
find_pid-some pid (p ∷ ps) b i h = elim (Bool-cases (p.pid == pid)) [
  | inl e ↦ (0, p, ground arith, refl, ground arith, λ j q g lt. absurd (omega arith))
  | inr e ↦
      let (k, q, is, g, same, before) = find_pid-some pid ps (b + 1) i (rw e at h) in
      (suc k, q, omega arith, g, same, earlier pid p ps k (ground arith) before)
]
  where
    earlier :
        (pid : ℕ) (p : Proc) (ps : List Proc) (k : ℕ)
        → p.pid ≢ pid
        → ((j : ℕ) (q : Proc) → get_elem? ps j ≡ some q → j < k → q.pid ≢ pid)
        → (j : ℕ) (q : Proc) → get_elem? (p ∷ ps) j ≡ some q
        → j < suc k
        → q.pid ≢ pid
    earlier pid p ps k ne before zero q g lt = ground arith
    earlier pid p ps k ne before (suc j) q g lt = before j q g (omega arith)

module _ (pid : ℕ) (t : Ptable) where
  kill_on-KillEnd : (o : Option ℕ) → find_pid pid t.procs 0 ≡ o → KillEnd pid t (kill_on o t)
  unfolding kill_on
  kill_on-KillEnd none h = missed (find_pid-none pid t.procs 0 h) refl
  kill_on-KillEnd (some i) h =
      let (k, p, is, g, same, before) = find_pid-some pid t.procs 0 i h in
      let e : k ≡ i = omega arith in
      hit i p (subst (λ x. get_elem? t.procs x ≡ some p) e g) same
        (λ j q gq lt. before j q gq (omega arith)) refl
        (get_elem?-modify i i doomed t.procs p (subst (λ x. get_elem? t.procs x ≡ some p) e g)
          ∙ ground arith)
        (λ j q gq ne. get_elem?-modify i j doomed t.procs q gq ∙ ground arith)

  -- kill fails, and changes nothing, if no slot has the pid. Else it succeeds: the first slot with
  -- the pid is marked killed, and made runnable if it slept, and no other slot changes.
  pub kill-KillEnd : KillEnd pid t (kill pid t)
  unfolding kill
  kill-KillEnd = kill_on-KillEnd (find_pid pid t.procs 0) refl

kill-hit :
    (pid i : ℕ) (t : Ptable)
    → find_pid pid t.procs 0 ≡ some i
    → kill pid t ≡ (true, record t { procs = modify i doomed t.procs })
unfolding kill kill_on
kill-hit pid i t h = ap (λ o. kill_on o t) h

-- kill does not ask whether a slot is in use, and a free slot has pid 0. If the first slot with
-- pid 0 is the slot `i`, kill(0) reports success, and a child that the next fork makes in slot `i`
-- is marked killed from birth.
pub kill_zero-fork :
    (me stack pgdir i pid : ℕ) (cur : Proc) (t : Ptable)
    → find_pid 0 t.procs 0 ≡ some i
    → let (ok, t') = kill 0 t in
      let r = fork me stack pgdir cur t' in
      r.child ≡ some (i, pid)
      → (ok ≡ true) × ((p : Proc) × (get_elem? r.table.procs i ≡ some p) × (p.killed ≡ true))
kill_zero-fork me stack pgdir i pid cur t found h =
    let e = kill-hit 0 i t found in
    let s = fork-ForkSpec me stack pgdir cur (kill 0 t).1 in
    let (is_pid, (p, c, g, free, g', child)) = s.child i pid h in
    let (q, is) =
      get_elem?-modify_self i doomed t.procs p (subst (λ x. get_elem? x.1.procs i ≡ some p) e g) in
    (ap (λ x. x.0) e, (c, g', ap Proc.killed child.fields ∙ ap Proc.killed is))
