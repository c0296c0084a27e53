-- ===== src/Fs/Inode/Meta.antt =====
-- A block below the bitmap is no block of an inode.
use boss_os.Base.{
  ap, arith, get_or, if◌then◌else◌, ltb, refl, subst, sym, update_ne, update_self, ℕ, ℕ_discrete,
  ◌%◌, ◌*◌, ◌-◌, ◌/◌, ◌<◌, ◌==◌, ◌∙◌, ◌≡◌, ◌≢◌,
}
use boss_os.Fs.Disk.{Block, Disk, Super, bsize, get32, put_block}
use boss_os.Fs.Bitmap.{bitmap_block, bits_per_block, is_clear}
use boss_os.Fs.Bitmap.Bits.{IsBytes}
use boss_os.Fs.Bitmap.Alloc.{is_free}
use boss_os.Fs.Inode.{Inode, maxfile, ndirect}
use boss_os.Fs.Inode.Slots.{Owns, block_of, block_of-addr, byte_at, file_byte}

module _ {sb : Super} {ip : Inode} {d : Disk} (w : Owns sb ip d) (b : ℕ) (low : b < sb.bmapstart)
    (f : Block) where
  abbrev changed : Disk
  changed = put_block b f d

  pub same_block : (c : ℕ) → c ≢ b → changed.blocks c ≡ d.blocks c
  same_block c ne = update_ne d.blocks b c f ne

  not_table : get_or ip.addrs ndirect 0 ≢ 0 → get_or ip.addrs ndirect 0 ≢ b
  not_table ne q = absurd (omega (arith, w.beyond maxfile (omega arith) ne))

  pub block_of-meta : (t : ℕ) → block_of ip changed t ≡ block_of ip d t
  block_of-meta t = elim (ℕ_discrete (get_or ip.addrs ndirect 0) 0) [
    | yes z ↦ rw z refl
    | no ne ↦
        ap
          (λ g.
            if t == maxfile
            then get_or ip.addrs ndirect 0
            else (if ltb t ndirect
                then get_or ip.addrs t 0
                else (if get_or ip.addrs ndirect 0 == 0 then 0 else get32 g (4 * (t - ndirect)))))
          (same_block (get_or ip.addrs ndirect 0) (not_table ne))
  ]

  pub is_free-meta : (y : ℕ) → is_free sb changed y ≡ is_free sb d y
  is_free-meta y =
      ap (λ g. is_clear g (y % bits_per_block))
        (same_block (bitmap_block sb y) (λ q. absurd (omega arith)))

  pub meta-Owns : IsBytes f → Owns sb ip changed
  meta-Owns bytes = record {
    is_map = record {
      bytes = λ c. bytes_at c;
      fits = w.is_map.fits;
      meta = λ y lt h. w.is_map.meta y lt (sym (is_free-meta y) ∙ h);
    };
    thirteen = w.thirteen;
    used = λ t le ne.
        is_free-meta (block_of ip changed t)
        ∙ ap (is_free sb d) (block_of-meta t)
        ∙ w.used t le (λ z. ne (block_of-meta t ∙ z));
    in_range =
        λ t le ne. omega (arith, block_of-meta t, w.in_range t le (λ z. ne (block_of-meta t ∙ z)));
    beyond =
        λ t le ne. omega (arith, block_of-meta t, w.beyond t le (λ z. ne (block_of-meta t ∙ z)));
    single = λ t u lt lu ne q.
        w.single t u lt lu (λ z. ne (block_of-meta t ∙ z))
          (sym (block_of-meta t) ∙ q ∙ block_of-meta u);
  }
    where
      bytes_at : (c : ℕ) → IsBytes (changed.blocks c)
      bytes_at c = elim (ℕ_discrete c b) [
        | yes e ↦ subst IsBytes (sym (ap changed.blocks e ∙ update_self d.blocks b f)) bytes
        | no ne ↦ subst IsBytes (sym (same_block c ne)) (w.is_map.bytes c)
      ]

  pub file_byte-meta : (k : ℕ) → k / bsize < maxfile → file_byte ip changed k ≡ file_byte ip d k
  file_byte-meta k lt =
      ap (λ c. byte_at changed c (k % bsize))
        (sym (block_of-addr ip changed (k / bsize) lt) ∙ block_of-meta (k / bsize))
      ∙ same (block_of ip d (k / bsize))
          (λ ne. omega (arith, w.beyond (k / bsize) (omega arith) ne))
      ∙ ap (λ c. byte_at d c (k % bsize)) (block_of-addr ip d (k / bsize) lt)
    where
      same : (c : ℕ) → (c ≢ 0 → b < c) → byte_at changed c (k % bsize) ≡ byte_at d c (k % bsize)
      same c far = elim (ℕ_discrete c 0) [
        | yes z ↦ rw z refl
        | no ne ↦
            let lt' = far ne in
            ap (λ g. if c == 0 then 0 else g (k % bsize)) (same_block c (λ q. absurd (omega arith)))
      ]
