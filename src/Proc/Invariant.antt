-- ===== src/Proc/Invariant.antt =====
-- What holds of the process table between any two of its operations.
use boss_os.Base.{
  All, Bool, List, [], add32, ap, ap₂, arith, elem, false, get_elem?, inr, not, refl, some, subst,
  suc, true, zero, ℕ, ◌+◌, ◌<◌, ◌^◌, ◌∙◌, ◌∷◌, ◌≡◌, ◌≢◌,
}
use boss_os.Proc.{Chan, Proc, ProcState, Ptable, ◌=s◌}
use boss_os.Proc.Table.{All-modify, All-modify_at, All-modify_change, modify}
use boss_os.Proc.Embryo.{embryo_of, embryos, embryos-modify_same, embryos-wakeup1}
use boss_os.Proc.Life.{wake, wakeup, wakeup1}
use boss_os.Proc.Pids.{distinct_live, distinct_live-set, pids, pids-modify-set, pids-modify_same}

-- A slot in use has a pid and, once it may run, a kernel stack; a free one has no stack.
abbrev pub Occupied : ProcState → (pid kstack : ℕ) → Type 0
Occupied ProcState.unused pid ks = ks ≡ 0
Occupied ProcState.embryo pid ks = 0 < pid
Occupied _ pid ks = (0 < pid) × (0 < ks)

-- Who sleeps sleeps on something.
abbrev pub OnChan : ProcState → Chan → Type 0
OnChan ProcState.sleeping c = c ≢ Chan.null
OnChan _ c = Unit {0}

pub record SlotOk (nextpid : ℕ) (p : Proc) : Type 0 where
  pub below : p.pid < nextpid
  pub occupied : Occupied p.state p.pid p.kstack
  pub on_chan : OnChan p.state p.chan

pub record IsTable (t : Ptable) : Type 0 where
  pub started : 0 < t.nextpid
  pub slots : All (SlotOk t.nextpid) t.procs
  pub unique : distinct_live (pids t.procs) ≡ true

-- A change of one slot that keeps its pid.
pub modify-IsTable :
    (i : ℕ) (f : Proc → Proc) (t : Ptable)
    → ((p : Proc) → get_elem? t.procs i ≡ some p → SlotOk t.nextpid p → SlotOk t.nextpid (f p))
    → ((p : Proc) → (f p).pid ≡ p.pid)
    → IsTable t
    → IsTable (record t { procs = modify i f t.procs })
modify-IsTable i f t keep same v = record {
  started = v.started;
  slots = All-modify_at (SlotOk t.nextpid) i f t.procs keep v.slots;
  unique = rw (pids-modify_same i f t.procs same) v.unique;
}

wake-SlotOk : (n : ℕ) (c : Chan) (p : Proc) → SlotOk n p → SlotOk n (wake c p)
wake-SlotOk n c p v = ground arith

wakeup1-slots :
    (n : ℕ) (c : Chan) (ps : List Proc) → All (SlotOk n) ps → All (SlotOk n) (wakeup1 c ps)
unfolding wakeup1
wakeup1-slots n c [] a = tt
wakeup1-slots n c (p ∷ ps) (a, as_) = (wake-SlotOk n c p a, wakeup1-slots n c ps as_)

wake-pid : (c : Chan) (p : Proc) → (wake c p).pid ≡ p.pid
wake-pid c p = ground arith

pids-wakeup1 : (c : Chan) (ps : List Proc) → pids (wakeup1 c ps) ≡ pids ps
unfolding wakeup1 pids
pids-wakeup1 c [] = refl
pids-wakeup1 c (p ∷ ps) = ap₂ ◌∷◌ (wake-pid c p) (pids-wakeup1 c ps)

pub wakeup-IsTable : (c : Chan) (t : Ptable) → IsTable t → IsTable (wakeup c t)
unfolding wakeup
wakeup-IsTable c t v = record {
  started = v.started;
  slots = wakeup1-slots t.nextpid c t.procs v.slots;
  unique = rw (pids-wakeup1 c t.procs) v.unique;
}

not_yet : (n : ℕ) (ps : List Proc) → All (SlotOk n) ps → elem n (pids ps) ≡ false
unfolding pids
not_yet n [] a = refl
not_yet n (p ∷ ps) (a, as_) = ground (arith, not_yet n ps as_, a.below)

pub claim-IsTable :
    (i : ℕ) (f : Proc → Proc) (t : Ptable)
    → ((p : Proc) → SlotOk t.nextpid p → SlotOk (t.nextpid + 1) (f p))
    → ((p : Proc) → (f p).pid ≡ t.nextpid)
    → t.nextpid + 1 < 2 ^ 31
    → IsTable t
    → IsTable (record t { procs = modify i f t.procs; nextpid = add32 t.nextpid 1 })
claim-IsTable i f t keep new low v =
    let next : t.nextpid + 1 ≡ add32 t.nextpid 1 = omega arith in
    subst (λ n. IsTable (record t { procs = modify i f t.procs; nextpid = n })) next
      (record {
        started = omega arith;
        slots =
            All-modify_change (SlotOk t.nextpid) (SlotOk (t.nextpid + 1)) i f t.procs
              (λ p a. record {
                below = omega (arith, a.below);
                occupied = a.occupied;
                on_chan = a.on_chan;
              })
              keep v.slots;
        unique = rw (pids-modify-set i t.nextpid f t.procs new) (
            distinct_live-set i t.nextpid (pids t.procs) (inr (not_yet t.nextpid t.procs v.slots))
              v.unique);
      })

-- Which slots are in use.
abbrev pub in_use : Proc → Bool
in_use p = not (p.state =s ProcState.unused)

unfoldable pub uses : List Proc → List Bool
uses [] = []
uses (p ∷ ps) = in_use p ∷ uses ps

pub uses-modify :
    (i : ℕ) (f : Proc → Proc) (ps : List Proc)
    → ((p : Proc) → in_use (f p) ≡ in_use p)
    → uses (modify i f ps) ≡ uses ps
unfolding uses
uses-modify i f [] h = refl
uses-modify zero f (p ∷ ps) h = ap (λ b. b ∷ uses ps) (h p)
uses-modify (suc i) f (p ∷ ps) h = ap (λ l. in_use p ∷ l) (uses-modify i f ps h)

wake-in_use : (c : Chan) (p : Proc) → in_use (wake c p) ≡ in_use p
wake-in_use c p = ground arith

uses-wakeup1 : (c : Chan) (ps : List Proc) → uses (wakeup1 c ps) ≡ uses ps
unfolding uses wakeup1
uses-wakeup1 c [] = refl
uses-wakeup1 c (p ∷ ps) = ap₂ ◌∷◌ (wake-in_use c p) (uses-wakeup1 c ps)

pub uses-get :
    (ps : List Proc) (i : ℕ) (p : Proc)
    → get_elem? ps i ≡ some p
    → get_elem? (uses ps) i ≡ some (in_use p)
unfolding uses
uses-get [] i p h = cc
uses-get (q ∷ ps) zero p h = ground arith
uses-get (q ∷ ps) (suc i) p h = uses-get ps i p h

-- A change of the table that keeps the slots well formed, the pids, and which slots are in use.
pub record Mild (n : ℕ) (ps qs : List Proc) : Type 0 where
  pub slots : All (SlotOk n) ps → All (SlotOk n) qs
  pub pids_same : pids qs ≡ pids ps
  pub uses_same : uses qs ≡ uses ps
  pub embryos_same : embryos qs ≡ embryos ps

pub Mild-refl : (n : ℕ) (ps : List Proc) → Mild n ps ps
Mild-refl n ps = record { slots = λ a. a; pids_same = refl; uses_same = refl; embryos_same = refl }

pub Mild-trans : (n : ℕ) {ps qs rs : List Proc} → Mild n ps qs → Mild n qs rs → Mild n ps rs
Mild-trans n a b = record {
  slots = λ h. b.slots (a.slots h);
  pids_same = b.pids_same ∙ a.pids_same;
  uses_same = b.uses_same ∙ a.uses_same;
  embryos_same = b.embryos_same ∙ a.embryos_same;
}

pub wakeup1-Mild : (n : ℕ) (c : Chan) (ps : List Proc) → Mild n ps (wakeup1 c ps)
wakeup1-Mild n c ps = record {
  slots = wakeup1-slots n c ps;
  pids_same = pids-wakeup1 c ps;
  uses_same = uses-wakeup1 c ps;
  embryos_same = embryos-wakeup1 c ps;
}

pub modify-Mild :
    (n i : ℕ) (f : Proc → Proc) (ps : List Proc)
    → ((p : Proc) → SlotOk n p → SlotOk n (f p))
    → ((p : Proc) → (f p).pid ≡ p.pid)
    → ((p : Proc) → in_use (f p) ≡ in_use p)
    → ((p : Proc) → embryo_of (f p) ≡ embryo_of p)
    → Mild n ps (modify i f ps)
modify-Mild n i f ps keep pid use_ em = record {
  slots = λ a. All-modify (SlotOk n) i f ps keep a;
  pids_same = pids-modify_same i f ps pid;
  uses_same = uses-modify i f ps use_;
  embryos_same = embryos-modify_same i f ps (λ p g. em p);
}
