-- ===== src/Console/Window.antt =====
-- The counters of the console stay in order, at most a buffer apart.
use boss_os.Base.{
  Bool, Bool-cases, List, [], add32, ap, arith, dec_lt, false, get_or, if◌then◌else◌, inl, inr,
  length, length-set, ltb, not, refl, replicate, set, sub32, subst, suc, sym, true, u32_mod, zero,
  ℕ, ◌%◌, ◌&&◌, ◌+◌, ◌-◌, ◌<◌, ◌==◌, ◌||◌, ◌∙◌, ◌∷◌, ◌≡◌, ◌≢◌, ◌≤◌, ◌⊎◌,
}
use boss_os.Console.{
  Echo, Input, Read, Typed, accept, add_echo, consoleintr, consoleread, ctrl, input_buf, key,
  kill_line, read_loop,
}

-- `a` bytes of whole lines to read, `b` bytes typed, as the wrapped counters have them.
pub record InWindow (s : Input) : Type 0 where
  pub a : ℕ
  pub b : ℕ
  pub order : a ≤ b
  pub room : b ≤ input_buf
  pub small : s.r < u32_mod
  pub lines : s.w ≡ add32 s.r a
  pub typed : s.e ≡ add32 s.r b
  pub ring : length s.buf ≡ input_buf

less_e : (s : Input) → InWindow s → s.e ≢ s.w → InWindow (record s { e = sub32 s.e 1 })
less_e s h ne = record {
  a = h.a;
  b = h.b - 1;
  order = below;
  room = omega (arith, h.room);
  small = h.small;
  lines = h.lines;
  typed = omega (arith, h.typed, h.small, h.room, below, above);
  ring = h.ring;
}
  where
    apart : h.a ≢ h.b
    apart q = ne (h.typed ∙ ap (add32 s.r) (sym q) ∙ sym h.lines)

    below : h.a ≤ h.b - 1
    below = omega (arith, h.order, apart)

    above : 0 < h.b
    above = omega (arith, h.order, apart)

kill_line-InWindow : (k : ℕ) (s : Input) → InWindow s → InWindow (kill_line k s).input
unfolding kill_line
kill_line-InWindow zero s h = h
kill_line-InWindow (suc k) s h =
    elim (Bool-cases (not (s.e == s.w) && not (get_or s.buf (sub32 s.e 1 % input_buf) 0 == 10))) [
      | inl more ↦ rw more (kill_line-InWindow k _ (less_e s h (ground arith)))
      | inr stop ↦ rw stop h
    ]

-- Where ^U leaves the input: `count` bytes behind it are gone, none of them a newline.
pub record IsKilled (s : Input) (x : Typed) : Type 0 where
  pub count : ℕ
  pub within : count ≤ sub32 s.e s.w
  pub input : x.input ≡ record s { e = sub32 s.e count }
  pub echo : x.echo ≡ replicate count Echo.backspace
  pub same_line : (m : ℕ) → 0 < m → m ≤ count → get_or s.buf (sub32 s.e m % input_buf) 0 ≢ 10
  pub ends : (sub32 s.e count ≡ s.w) ⊎ (get_or s.buf (sub32 s.e (count + 1) % input_buf) 0 ≡ 10)

sub32_more : (e m : ℕ) → m < u32_mod → sub32 (sub32 e 1) m ≡ sub32 e (m + 1)
sub32_more e m lt = omega arith

one_less : (s : Input) → InWindow s → s.e ≢ s.w → sub32 (sub32 s.e 1) s.w < sub32 s.e s.w
one_less s h ne = omega (arith, h.lines, h.typed, h.small, h.order, h.room, ne)

none-IsKilled :
    (s : Input)
    → InWindow s
    → (s.e ≡ s.w) ⊎ (get_or s.buf (sub32 s.e 1 % input_buf) 0 ≡ 10)
    → IsKilled s (record { input = s; echo = []; woken = false })
none-IsKilled s h stop =
    let here : sub32 s.e 0 ≡ s.e = omega (arith, h.typed) in
    record {
      count = 0;
      within = omega arith;
      input = ap (λ e. record s { e = e }) (sym here);
      echo = refl;
      same_line = λ m pos le. absurd (omega arith);
      ends = rw here stop;
    }

add_echo-IsKilled :
    (s : Input) (x : Typed)
    → InWindow s
    → s.e ≢ s.w
    → get_or s.buf (sub32 s.e 1 % input_buf) 0 ≢ 10
    → IsKilled (record s { e = sub32 s.e 1 }) x
    → IsKilled s (add_echo Echo.backspace x)
add_echo-IsKilled s x h ne other k =
    let small : k.count < u32_mod = omega (arith, k.within) in
    let more = sub32_more s.e k.count small in
    let up : suc k.count ≡ k.count + 1 = omega arith in
    record {
      count = k.count + 1;
      within = omega (arith, k.within, one_less s h ne);
      input = k.input ∙ ap (λ e. record s { e = e }) more;
      echo = ap (λ l. Echo.backspace ∷ l) k.echo ∙ ap (λ n. replicate n Echo.backspace) up;
      same_line = earlier;
      ends = stop more (sub32_more s.e (k.count + 1) (omega (arith, k.within, one_less s h ne)));
    }
  where
    earlier : (m : ℕ) → 0 < m → m ≤ k.count + 1 → get_or s.buf (sub32 s.e m % input_buf) 0 ≢ 10
    earlier zero pos le = absurd (omega arith)
    earlier (suc zero) pos le = other
    earlier (suc (suc m)) pos le =
        subst (λ e. get_or s.buf (e % input_buf) 0 ≢ 10)
          (sub32_more s.e (suc m) (omega (arith, k.within)) ∙ ap (sub32 s.e) (omega arith))
          (k.same_line (suc m) (omega arith) (omega arith))

    stop :
        sub32 (sub32 s.e 1) k.count ≡ sub32 s.e (k.count + 1)
        → sub32 (sub32 s.e 1) (k.count + 1) ≡ sub32 s.e (k.count + 1 + 1)
        → (sub32 s.e (k.count + 1) ≡ s.w)
          ⊎ (get_or s.buf (sub32 s.e (k.count + 1 + 1) % input_buf) 0 ≡ 10)
    stop p q = elim k.ends [
      | inl e ↦ inl (sym p ∙ e)
      | inr n ↦ inr (ap (λ e. get_or s.buf (e % input_buf) 0) (sym q) ∙ n)
    ]

kill_line-IsKilled :
    (k : ℕ) (s : Input) → InWindow s → sub32 s.e s.w ≤ k → IsKilled s (kill_line k s)
unfolding kill_line
kill_line-IsKilled zero s h fuel =
    let same : s.e ≡ s.w = omega (arith, h.lines, h.typed, h.small, h.order, h.room) in
    none-IsKilled s h (inl same)
kill_line-IsKilled (suc k) s h fuel =
    elim (Bool-cases (not (s.e == s.w) && not (get_or s.buf (sub32 s.e 1 % input_buf) 0 == 10))) [
      | inl more ↦
          let ne : s.e ≢ s.w = ground arith in
          rw more (
            add_echo-IsKilled s _ h ne (ground arith) (
              kill_line-IsKilled k (record s { e = sub32 s.e 1 }) (less_e s h ne)
                (omega (arith, one_less s h ne))))
      | inr stop ↦ rw stop (none-IsKilled s h (ground arith))
    ]

-- The key ^U, when the counters are in order, takes back some of the bytes typed since the last
-- whole line, with one backspace on the screen for each; the buffer and the other counters stay.
-- None of the bytes taken back is a newline, and it stops only where nothing typed is left or the
-- byte before is a newline.
pub key-IsKilled : (s : Input) → InWindow s → IsKilled s (key (ctrl b'U') s)
unfolding key
key-IsKilled s h =
    kill_line-IsKilled input_buf s h (omega (arith, h.lines, h.typed, h.small, h.order, h.room))

accept-InWindow :
    (c : ℕ) (s : Input) → InWindow s → sub32 s.e s.r < input_buf → InWindow (accept c s).input
unfolding accept
accept-InWindow c s h lt =
    elim (Bool-cases ((c == 10) || ((c == ctrl b'D') || (add32 s.e 1 == add32 s.r input_buf)))) [
      | inl line ↦ rw line (record {
        a = h.b + 1;
        b = h.b + 1;
        order = omega arith;
        room = free;
        small = h.small;
        lines = next_e;
        typed = next_e;
        ring = kept;
      })
      | inr open_ ↦ rw open_ (record {
        a = h.a;
        b = h.b + 1;
        order = omega (arith, h.order);
        room = free;
        small = h.small;
        lines = h.lines;
        typed = next_e;
        ring = kept;
      })
    ]
  where
    free : h.b + 1 ≤ input_buf
    free = omega (arith, h.typed, h.small, h.room, lt)

    next_e : add32 s.e 1 ≡ add32 s.r (h.b + 1)
    next_e = omega (arith, h.typed, h.small, h.room)

    kept : length (set s.buf (s.e % input_buf) c) ≡ input_buf
    kept = length-set s.buf (s.e % input_buf) c ∙ h.ring

key-InWindow : (c : ℕ) (s : Input) → InWindow s → InWindow (key c s).input
unfolding key
key-InWindow c s h = elim (Bool-cases (c == ctrl b'U')) [
  | inl u ↦ rw u (kill_line-InWindow input_buf s h)
  | inr not_u ↦ elim (Bool-cases ((c == ctrl b'H') || (c == 127))) [
    | inl back ↦ elim (Bool-cases (s.e == s.w)) [
      | inl none_ ↦ rw (not_u, back, none_) h
      | inr some_ ↦ rw (not_u, back, some_) (less_e s h (ground arith))
    ]
    | inr other ↦ elim (Bool-cases (not (c == 0) && ltb (sub32 s.e s.r) input_buf)) [
      | inl fits ↦
          rw (not_u, other, fits) (accept-InWindow (if c == 13 then 10 else c) s h (ground arith))
      | inr full ↦ rw (not_u, other, full) h
    ]
  ]
]

-- What one run of consoleread gives.
pub record ReadSpec (n : ℕ) (x : Read) : Type 0 where
  pub window : InWindow x.input
  pub fits : length x.bytes ≤ n

next_byte : (s : Input) → InWindow s → s.r ≢ s.w → InWindow (record s { r = add32 s.r 1 })
next_byte s h ne = record {
  a = h.a - 1;
  b = h.b - 1;
  order = omega (arith, h.order);
  room = omega (arith, h.room);
  small = omega arith;
  lines = omega (arith, h.lines, h.small, h.order, h.room, some_);
  typed = omega (arith, h.typed, h.small, h.order, h.room, some_);
  ring = h.ring;
}
  where
    some_ : 0 < h.a
    some_ = elim (dec_lt 0 h.a) [
      | yes pos ↦ pos
      | no zero_ ↦
          let none_ : h.a ≡ 0 = omega arith in
          absurd (ne (sym (h.lines ∙ ap (add32 s.r) none_ ∙ omega (arith, h.small))))
    ]

put_back : (s : Input) → InWindow s → sub32 (add32 s.r 1) 1 ≡ s.r
put_back s h = omega (arith, h.small)

read_loop-ReadSpec :
    (killed : Bool) (n : ℕ) (started : Bool) (s : Input)
    → InWindow s
    → ReadSpec n (read_loop killed n started s)
unfolding read_loop
read_loop-ReadSpec killed zero started s h = record { window = h; fits = omega arith }
read_loop-ReadSpec killed (suc n) started s h = elim (Bool-cases (s.r == s.w)) [
  | inl empty ↦ rw empty (record { window = h; fits = omega arith })
  | inr some_ ↦ rw some_ (elim (Bool-cases (get_or s.buf (s.r % input_buf) 0 == ctrl b'D')) [
    | inl eof ↦ rw eof (record { window = at_eof some_ started; fits = omega arith })
    | inr other ↦ rw other (elim (Bool-cases (get_or s.buf (s.r % input_buf) 0 == 10)) [
      | inl line ↦ rw line (record { window = on some_; fits = omega arith })
      | inr more ↦
          let ih = read_loop-ReadSpec killed n true (record s { r = add32 s.r 1 }) (on some_) in
          rw more (record { window = ih.window; fits = omega (arith, ih.fits) })
    ])
  ])
]
  where
    on : (s.r == s.w) ≡ false → InWindow (record s { r = add32 s.r 1 })
    on ne = next_byte s h (ground arith)

    at_eof :
        (s.r == s.w) ≡ false
        → (again : Bool)
        → InWindow
            (if again then record s { r = sub32 (add32 s.r 1) 1 } else record s { r = add32 s.r 1 })
    at_eof ne true = subst (λ r. InWindow (record s { r = r })) (sym (put_back s h)) h
    at_eof ne false = on ne

consoleintr-InWindow :
    (cs : List ℕ) (dump : Bool) (s : Input) → InWindow s → InWindow (consoleintr cs dump s).0
unfolding consoleintr
consoleintr-InWindow [] dump s h = h
consoleintr-InWindow (c ∷ cs) dump s h = elim (Bool-cases (c == ctrl b'P')) [
  | inl p ↦ rw p (consoleintr-InWindow cs true s h)
  | inr other ↦ rw other (consoleintr-InWindow cs dump (key c s).input (key-InWindow c s h))
]

-- Interrupts and reads, in any order.
pub data Reach (s : Input) : Input → Type 0 where
  start : Reach s s
  interrupt :
      {t : Input} (cs : List ℕ) (dump : Bool) → Reach s t → Reach s (consoleintr cs dump t).0
  reads : {t : Input} (killed : Bool) (n : ℕ) → Reach s t → Reach s (consoleread killed n t).input

Reach-InWindow : {s t : Input} → InWindow s → Reach s t → InWindow t
unfolding consoleread
Reach-InWindow h start = h
Reach-InWindow h (interrupt {t} cs dump r) = consoleintr-InWindow cs dump t (Reach-InWindow h r)
Reach-InWindow h (reads {t} killed n r) =
    (read_loop-ReadSpec killed n false t (Reach-InWindow h r)).window

-- From a console whose counters are in order, whatever the order of interrupts, with whatever
-- keys, and of reads: the bytes of whole lines are at most the bytes typed, and these at most the
-- buffer, also when the counters wrap. A read gives at most the bytes it asks for.
pub Reach-console :
    (s t : Input) (killed : Bool) (n : ℕ)
    → InWindow s
    → Reach s t
    → (sub32 t.w t.r ≤ sub32 t.e t.r)
      × (sub32 t.e t.r ≤ input_buf)
      × (length (consoleread killed n t).bytes ≤ n)
unfolding consoleread
Reach-console s t killed n h r =
    let f = Reach-InWindow h r in
    (
      omega (arith, f.lines, f.typed, f.order, f.room, f.small),
      omega (arith, f.lines, f.typed, f.order, f.room, f.small),
      (read_loop-ReadSpec killed n false t f).fits,
    )
