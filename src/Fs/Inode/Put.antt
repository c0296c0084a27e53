-- ===== src/Fs/Inode/Put.antt =====
-- A content block of an inode is given other bytes.
use boss_os.Base.{
  ap, arith, false, get_or, if◌then◌else◌, ltb, subst, sym, true, update_ne, update_self, ℕ,
  ℕ_discrete, ◌%◌, ◌*◌, ◌-◌, ◌/◌, ◌<◌, ◌==◌, ◌∙◌, ◌≡◌, ◌≢◌, ◌≤◌,
}
use boss_os.Fs.Disk.{Block, Disk, Super, bsize, get32, put_block}
use boss_os.Fs.Bitmap.{bitmap_block, bits_per_block, is_clear}
use boss_os.Fs.Bitmap.Bits.{IsBytes}
use boss_os.Fs.Bitmap.Alloc.{is_free}
use boss_os.Fs.Inode.{Inode, maxfile, ndirect}
use boss_os.Fs.Inode.Slots.{Owns, bitmap_end, block_of, block_of-addr, byte_at, file_byte}

module _ {sb : Super} {ip : Inode} {d : Disk} (w : Owns sb ip d) (s : ℕ) (s_lt : s < maxfile)
    (a : ℕ) (is_a : block_of ip d s ≡ a) (present : a ≢ 0) (f : Block) where
  abbrev changed : Disk
  changed = put_block a f d

  pub here : changed.blocks a ≡ f
  here = update_self d.blocks a f

  pub elsewhere : (b : ℕ) → b ≢ a → changed.blocks b ≡ d.blocks b
  elsewhere b ne = update_ne d.blocks a b f ne

  -- Slots with one block are one slot.
  pub only_slot : (t : ℕ) → t ≤ maxfile → block_of ip d t ≡ a → t ≡ s
  only_slot t le q = w.single t s le (omega arith) (λ z. present (sym q ∙ z)) (q ∙ sym is_a)

  table_ne : get_or ip.addrs ndirect 0 ≢ a
  table_ne q = let e : maxfile ≡ s = only_slot maxfile (omega arith) q in omega arith

  pub block_of-put : (t : ℕ) → block_of ip changed t ≡ block_of ip d t
  block_of-put t =
      ap
        (λ g.
          if t == maxfile
          then get_or ip.addrs ndirect 0
          else (if ltb t ndirect
              then get_or ip.addrs t 0
              else (if get_or ip.addrs ndirect 0 == 0 then 0 else get32 g (4 * (t - ndirect)))))
        (elsewhere (get_or ip.addrs ndirect 0) table_ne)

  a_beyond : bitmap_end sb < a
  a_beyond = omega (arith, w.beyond s (omega arith) (λ z. present (sym is_a ∙ z)), is_a)

  pub is_free-put_same : (y : ℕ) → y < sb.size → is_free sb changed y ≡ is_free sb d y
  is_free-put_same y lt =
      ap (λ g. is_clear g (y % bits_per_block)) (elsewhere (bitmap_block sb y) (λ q. far q))
    where
      far : bitmap_block sb y ≡ a → ⊥
      far q = let b = a_beyond in omega arith

  pub put-Owns : IsBytes f → Owns sb ip changed
  put-Owns bytes = record {
    is_map = record {
      bytes = λ b. bytes_at b;
      fits = w.is_map.fits;
      meta = λ y lt h. w.is_map.meta y lt (sym (is_free-put_same y lt) ∙ h);
    };
    thirteen = w.thirteen;
    used = λ t le ne.
        is_free-put_same (block_of ip changed t) (small t le ne)
        ∙ ap (is_free sb d) (block_of-put t)
        ∙ w.used t le (λ z. ne (block_of-put t ∙ z));
    in_range = λ t le ne. small t le ne;
    beyond = λ t le ne. omega (arith, block_of-put t, w.beyond t le (λ z. ne (block_of-put t ∙ z)));
    single = λ t u lt lu ne q.
        w.single t u lt lu (λ z. ne (block_of-put t ∙ z))
          (sym (block_of-put t) ∙ q ∙ block_of-put u);
  }
    where
      small : (t : ℕ) → t ≤ maxfile → block_of ip changed t ≢ 0 → block_of ip changed t < sb.size
      small t le ne = omega (arith, block_of-put t, w.in_range t le (λ z. ne (block_of-put t ∙ z)))

      bytes_at : (b : ℕ) → IsBytes (changed.blocks b)
      bytes_at b = elim (ℕ_discrete b a) [
        | yes e ↦ subst IsBytes (sym (ap changed.blocks e ∙ here)) bytes
        | no ne ↦ subst IsBytes (sym (elsewhere b ne)) (w.is_map.bytes b)
      ]

  -- A byte of the content: one of `f`, or the old one.
  pub file_byte-put :
      (k : ℕ)
      → k / bsize < maxfile
      → file_byte ip changed k ≡ (if k / bsize == s then f (k % bsize) else file_byte ip d k)
  file_byte-put k lt =
      ap (λ b. byte_at changed b (k % bsize))
        (sym (block_of-addr ip changed (k / bsize) lt) ∙ block_of-put (k / bsize))
      ∙ by_slot
    where
      by_slot :
          byte_at changed (block_of ip d (k / bsize)) (k % bsize)
          ≡ (if k / bsize == s then f (k % bsize) else file_byte ip d k)
      by_slot = elim (ℕ_discrete (k / bsize) s) [
        | yes e ↦
            let at_s : (k / bsize == s) ≡ true = ground arith in
            let there : (a == 0) ≡ false = ground arith in
            rw at_s (
              ap (λ b. byte_at changed b (k % bsize)) (ap (block_of ip d) e ∙ is_a)
              ∙ rw there (ap (λ g. g (k % bsize)) here))
        | no ne ↦
            let away : (k / bsize == s) ≡ false = ground arith in
            rw away (
              ap (λ g. if block_of ip d (k / bsize) == 0 then 0 else g (k % bsize))
                (elsewhere (block_of ip d (k / bsize))
                  (λ q. ne (only_slot (k / bsize) (omega arith) q)))
              ∙ ap (λ b. byte_at d b (k % bsize)) (block_of-addr ip d (k / bsize) lt))
      ]
