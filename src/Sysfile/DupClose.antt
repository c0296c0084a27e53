-- ===== src/Sysfile/DupClose.antt =====
-- A descriptor that sys_dup gave is closed.
use boss_os.Base.{
  List, Option, [], ap, arith, false, get_or, get_or-set_self, if◌then◌else◌, leb, none, refl, set,
  some, subst, suc, sym, true, zero, ℕ, ℕ_discrete, ◌+◌, ◌-◌, ◌==◌, ◌^◌, ◌||◌, ◌∙◌, ◌∷◌, ◌≡◌,
}
use boss_os.File.{Calls, File, Ret, fileclose, release_file}
use boss_os.File.Counts.{drop_ref_lem, ref_of, ref_of-lt, ref_of-set}
use boss_os.Sysfile.{
  Files, argfd, close_of, close_ret, nofile, open_at, sys_close, sys_dup, with_fd,
}
use boss_os.Sysfile.Descriptors.{Backed, DupEnd, Duped, all_open, bad_fd, duped, sys_dup-DupEnd}

set-set : {A : Type 0} (xs : List A) (k : ℕ) (v w : A) → set (set xs k v) k w ≡ set xs k w
set-set [] k v w = refl
set-set (x ∷ xs) zero v w = refl
set-set (x ∷ xs) (suc k) v w = ap (λ ys. x ∷ ys) (set-set xs k v w)

set-get_or : {A : Type 0} (xs : List A) (k : ℕ) (d : A) → set xs k (get_or xs k d) ≡ xs
set-get_or [] k d = refl
set-get_or (x ∷ xs) zero d = refl
set-get_or (x ∷ xs) (suc k) d = ap (λ ys. x ∷ ys) (set-get_or xs k d)

-- The descriptors and the counts are those of `f`.
pub record SameRefs (f h : Files) : Type 0 where
  pub ofile : h.ofile ≡ f.ofile
  pub refs : (j : ℕ) → ref_of h.table j ≡ ref_of f.table j

-- sys_close returned 0, and nothing was released.
pub data Restored {S : Type 0} (f : Files) (s : S) : Option (Ret × Files × S) → Type 0 where
  restored : {h : Files} → SameRefs f h → Restored f s (some (Ret.ret 0, h, s))

module _ {S : Type 0} (c : Calls S) (f : Files) (w : Backed f) (i fd : ℕ) (g : Files)
    (p : Duped f i fd g) (s : S) where
  open_now : open_at g.ofile fd ≡ some i
  open_now =
      ap (λ fds. open_at fds fd) p.now
      ∙ get_or-set_self f.ofile fd (some i) none (omega (arith, p.small, w.sixteen))

  argfd-now : argfd (some fd) g.ofile ≡ some (fd, i)
  unfolding argfd
  argfd-now =
      let inside : (leb (2 ^ 31) fd || leb nofile fd) ≡ false = ground (arith, p.small) in
      rw inside (ap (with_fd fd) open_now)

  closed_fds : set g.ofile fd none ≡ f.ofile
  closed_fds =
      ap (λ fds. set fds fd none) p.now
      ∙ set-set f.ofile fd (some i) none
      ∙ ap (set f.ofile fd) (sym p.was_null)
      ∙ set-get_or f.ofile fd none

  one_more : ref_of g.table i ≡ ref_of f.table i + 1
  one_more = p.refs i ∙ ground arith

  fileclose-Restored : Restored f s (close_ret c (set g.ofile fd none) (fileclose c i g.table s))
  unfolding close_ret fileclose release_file
  fileclose-Restored =
      let (file, released, e, low, last) = drop_ref_lem g.table i (omega (arith, one_more)) in
      let nothing : released ≡ none = last.1 (omega (arith, one_more, p.held)) in
      rw (e, nothing)
        (restored (record {
          ofile = closed_fds;
          refs = λ j.
              ref_of-set g.table i j file (ref_of-lt g.table i (omega (arith, one_more)))
              ∙ old_refs file low j;
        }))
    where
      old_refs :
          (file : File)
          → file.ref ≡ ref_of g.table i - 1
          → (j : ℕ) → (if i == j then file.ref else ref_of g.table j) ≡ ref_of f.table j
      old_refs file low j = elim (ℕ_discrete i j) [
        | yes e ↦
            let test : (i == j) ≡ true = ground arith in
            rw test (omega (arith, low, one_more, ap (ref_of f.table) e))
        | no ne ↦
            let test : (i == j) ≡ false = ground arith in rw test (p.refs j ∙ rw test (omega arith))
      ]

  close-Restored : Restored f s (sys_close c (some fd) g s)
  unfolding sys_close close_of
  close-Restored = rw argfd-now fileclose-Restored

-- What holds after a sys_dup that returned a number.
abbrev AfterDup : {S : Type 0} → Calls S → Files → S → Option (Ret × Files) → Type 0
AfterDup c f s (some (Ret.ret fd, g)) = Restored f s (sys_close c (some fd) g s)
AfterDup c f s (some (Ret.minus_one, g)) = Unit
AfterDup c f s (some (Ret.panicked, g)) = Unit
AfterDup c f s none = Unit

DupEnd-AfterDup :
    {S : Type 0} (c : Calls S) (f : Files) (s : S) (arg : Option ℕ) (r : Option (Ret × Files))
    → Backed f
    → DupEnd f arg r
    → AfterDup c f s r
DupEnd-AfterDup c f s arg _ w (bad_fd a) = tt
DupEnd-AfterDup c f s arg _ w (all_open h) = tt
DupEnd-AfterDup c f s arg _ w (duped {fd} {i} {g} old a q p) = close-Restored c f w i fd g p s

-- For a process with 16 descriptors, not more of a file than it has references: when sys_dup returned a
-- descriptor, sys_close of this descriptor returns 0, releases no file, and leaves the descriptors and
-- the reference counts of all files as they were before the sys_dup.
pub sys_close-sys_dup :
    {S : Type 0} (c : Calls S) (arg : Option ℕ) (f : Files) (s : S) (fd : ℕ) (g : Files)
    → Backed f
    → sys_dup arg f ≡ some (Ret.ret fd, g)
    → Restored f s (sys_close c (some fd) g s)
sys_close-sys_dup c arg f s fd g w q =
    subst (AfterDup c f s) q (DupEnd-AfterDup c f s arg (sys_dup arg f) w (sys_dup-DupEnd arg f w))
