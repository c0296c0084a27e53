-- ===== src/File/Write.antt =====
-- filewrite splits a write into transactions that fit the log.
use boss_os.Base.{
  Option, add32, ap, arith, dec_lt, false, inl, inr, ltb, min, none, refl, some, some-injective,
  subst, suc, sym, true, u32_mod, zero, ℕ, ◌%◌, ◌+◌, ◌-◌, ◌<◌, ◌==◌, ◌∙◌, ◌≡◌, ◌≤◌, ◌⊎◌,
}
use boss_os.File.{Calls, File, FileType, Ret, after_chunk, filewrite, write_loop}

module _ {S : Type 0} (c : Calls S) (addr n : ℕ) where
  -- The bytes of the chunk after the first `i`.
  abbrev pub chunk_size : ℕ → ℕ
  chunk_size i = min (n - i) 1536

  -- The chunk after the first `i` bytes, in a transaction of its own: its result, and the state
  -- after end_op.
  abbrev pub own_transaction : ℕ → File → S → Option ℕ × S
  own_transaction i f s =
      let w = c.writei f.ip (addr + i) f.off (chunk_size i) (c.ilock f.ip (c.begin_op s)) in
      (w.0, c.end_op (c.iunlock f.ip w.1))

  -- From the state of the first to that of the second triple, full chunks are written one after
  -- the other, each in a transaction of its own and at the offset where the last one ended. The
  -- triple holds the bytes done, the file and the state.
  pub data Chunks : ℕ → File → S → ℕ → File → S → Type 0 where
    stop : {i : ℕ} {f : File} {s : S} → Chunks i f s i f s
    chunk :
        {i j : ℕ} {f g : File} {s t : S}
        → i < n
        → (own_transaction i f s).0 ≡ some (chunk_size i)
        → Chunks
            (i + chunk_size i)
            (record f { off = add32 f.off (chunk_size i) })
            (own_transaction i f s).1
            j
            g
            t
        → Chunks i f s j g t

  -- All is written and the length returned; or the next chunk fails and -1 is returned.
  pub record WriteEnd (i : ℕ) (f : File) (s : S) (r : Ret × File × S) : Type 0 where
    pub j : ℕ
    pub g : File
    pub t : S
    pub chunks : Chunks i f s j g t
    pub moved : f.off < u32_mod → g.off ≡ (f.off + (j - i)) % u32_mod
    pub forward : i ≤ j
    pub ends :
        ((j ≡ n) × (r ≡ (Ret.ret n, g, t)))
        ⊎ ((j < n)
            × (own_transaction j g t).0 ≡ none
            × (r ≡ (Ret.minus_one, g, (own_transaction j g t).1)))

  after_chunk-some :
      (go : ℕ → File → S → Ret × File × S) (i n1 : ℕ) (f : File) (w : Option ℕ × S)
      → w.0 ≡ some n1
      → after_chunk c go i n1 f w ≡ go (i + n1) (record f { off = add32 f.off n1 }) w.1
  unfolding after_chunk
  after_chunk-some go i n1 f (none, s) e = cc
  after_chunk-some go i n1 f (some r, s) e =
      let same : r ≡ n1 = some-injective r n1 e in
      let test : (r == n1) ≡ true = ground arith in
      rw test (ap (λ m. go (i + m) (record f { off = add32 f.off m }) s) same)

  after_chunk-none :
      (go : ℕ → File → S → Ret × File × S) (i n1 : ℕ) (f : File) (w : Option ℕ × S)
      → w.0 ≡ none
      → after_chunk c go i n1 f w ≡ (Ret.minus_one, f, w.1)
  unfolding after_chunk
  after_chunk-none go i n1 f (none, s) e = refl
  after_chunk-none go i n1 f (some r, s) e = cc

  write_loop-end :
      (k i : ℕ) (f : File) (s : S) → i ≡ n → write_loop c k addr n i f s ≡ (Ret.ret n, f, s)
  unfolding write_loop
  write_loop-end zero i f s e = let test : (i == n) ≡ true = ground arith in rw test refl
  write_loop-end (suc k) i f s e =
      let test : (i == n) ≡ true = ground arith in
      let over : ltb i n ≡ false = ground arith in rw (over, test) refl

  write_loop-more :
      (k i : ℕ) (f : File) (s : S)
      → i < n
      → write_loop c (suc k) addr n i f s
        ≡ after_chunk c (write_loop c k addr n) i (chunk_size i) f (own_transaction i f s)
  unfolding write_loop
  write_loop-more k i f s lt = let test : ltb i n ≡ true = ground arith in rw test refl

  filewrite_inode :
      (f : File) (s : S)
      → f.kind ≡ FileType.fd_inode
      → f.writable ≡ true
      → filewrite c addr n f s ≡ write_loop c n addr n 0 f s
  unfolding filewrite
  filewrite_inode f s kind open_ = rw (open_, kind) refl

  module _
      (whole : (ip a off m : ℕ) (s : S)
        → ((c.writei ip a off m s).0 ≡ none) ⊎ ((c.writei ip a off m s).0 ≡ some m)) where
    write_loop-WriteEnd :
        (k i : ℕ) (f : File) (s : S)
        → i ≤ n
        → n - i ≤ k
        → WriteEnd i f s (write_loop c k addr n i f s)
    write_loop-WriteEnd zero i f s le fuel = record {
      j = i;
      g = f;
      t = s;
      chunks = stop;
      moved = λ b. omega arith;
      forward = omega arith;
      ends = inl (omega arith, write_loop-end zero i f s (omega arith));
    }
    write_loop-WriteEnd (suc k) i f s le fuel = elim (dec_lt i n) [
      | no over ↦ record {
        j = i;
        g = f;
        t = s;
        chunks = stop;
        moved = λ b. omega arith;
        forward = omega arith;
        ends = inl (omega arith, write_loop-end (suc k) i f s (omega arith));
      }
      | yes lt ↦ elim (whole f.ip (addr + i) f.off (chunk_size i) (c.ilock f.ip (c.begin_op s))) [
        | inl fails ↦ record {
          j = i;
          g = f;
          t = s;
          chunks = stop;
          moved = λ b. omega arith;
          forward = omega arith;
          ends = inr (
            lt,
            fails,
            write_loop-more k i f s lt
                ∙ after_chunk-none (write_loop c k addr n) i (chunk_size i) f
                    (own_transaction i f s) fails,
          );
        }
        | inr fits ↦
            let w = own_transaction i f s in
            let f' : File = record f { off = add32 f.off (chunk_size i) } in
            let ih = write_loop-WriteEnd k (i + chunk_size i) f' w.1 (omega arith) (omega arith) in
            record {
              j = ih.j;
              g = ih.g;
              t = ih.t;
              chunks = chunk lt fits ih.chunks;
              moved = λ b. omega (arith, ih.moved (omega arith), ih.forward);
              forward = omega (arith, ih.forward);
              ends =
                  rw
                    (write_loop-more k i f s lt
                      ∙ after_chunk-some (write_loop c k addr n) i (chunk_size i) f w fits)
                    ih.ends;
            }
      ]
    ]

    -- filewrite to an inode, where writei writes all that it is asked to or returns -1, never
    -- panics. It writes chunks of at most 1536 bytes, each in a transaction of its own and at the
    -- offset where the last one ended; the offset of the file moves by the bytes written. It
    -- returns the length when all is written, and -1 as soon as a chunk fails.
    pub filewrite-WriteEnd :
        (f : File) (s : S)
        → f.kind ≡ FileType.fd_inode
        → f.writable ≡ true
        → WriteEnd 0 f s (filewrite c addr n f s)
    filewrite-WriteEnd f s kind open_ =
        subst (WriteEnd 0 f s) (sym (filewrite_inode f s kind open_))
          (write_loop-WriteEnd n 0 f s (omega arith) (omega arith))
