-- ===== src/Sfs/PutBack.antt =====
-- What `sfs_itrunc` does with the indirect block.
use mathlib.Core.Path.{subst}
use cs3891_asst.Base.{
  ℕ, suc, ◌+◌, ◌<◌, ◌≤◌, ◌≡◌, ◌≢◌, inl, inr, refl, sym, ap, ◌∙◌, ◌==◌, ltb, if◌then◌else◌, Bool,
  true, false, List, [], ◌∷◌, arith, length, Bool-cases, some, Run, ret, fail, get_elem?, count,
  count-replicate,
}
use cs3891_asst.Bitmap.{Bitmap}
use cs3891_asst.Sfs.{Disk, Fs, update, sfs_bfree, sfs_readblock, sfs_writeblock, empty_block}
use cs3891_asst.Sfs.Blocks.{
  IsSteady, after, wrote, Read, read, unread, readblock-Read, Written, written, unwritten,
  writeblock-Written,
}
use cs3891_asst.Sfs.Inode.{IsFile, table, uses, number, empty_word, length-empty, indirect_used}
use cs3891_asst.Sfs.Truncate.{Scanned, put_back, trim_indirect}
use cs3891_asst.Sfs.Shrink.{Shrunk, Shrunk-self, Shrunk-trans, shrunk, bfree-ret}
use cs3891_asst.Sfs.Entries.{
  seen, table-seen, with_map, EntriesTrimmed, free_entries-EntriesTrimmed,
}

count-zeros :
    (i : ℕ) (xs : List ℕ)
    → i ≢ 0
    → ((k : ℕ) → k < length xs → get_elem? xs k ≡ some 0)
    → count i xs ≡ 0
count-zeros i [] nz all = refl
count-zeros i (x ∷ xs) nz all =
    ground (arith, all 0 (omega arith), count-zeros i xs nz (λ k lt. all (suc k) (omega arith)))

count-empty : (i : ℕ) → i ≢ 0 → count i empty_block ≡ 0
unfolding empty_block
count-empty i nz = count-replicate i 128 0 nz

-- A file with other blocks on the disk, but the same indirect block, and the same bitmap.
pub reread :
    {s : Fs} (f : IsFile s) (g : ℕ → List ℕ) (n : ℕ)
    → table (record s { blocks = g; requests = n }) ≡ table s
    → Shrunk s (record s { blocks = g; requests = n })
reread {s} f g n e =
    let same : (i : ℕ) → uses (record s { blocks = g; requests = n }) i ≡ uses s i =
      λ i. rw e (refl) in
    record {
      file = record {
        volume = record {
          bitmap = f.volume.bitmap;
          size = f.volume.size;
          beyond = f.volume.beyond;
          super = f.volume.super;
        };
        direct = f.direct;
        indirect = ap length e ∙ f.indirect;
        once = λ i nz. subst (λ u. u ≤ 1) (sym (same i)) (f.once i nz);
        used = λ i nz pos. f.used i nz (subst (λ u. 0 < u) (same i) pos);
      };
      down = λ i there. there;
      own = λ i there gone. absurd (ground arith);
      fewer = λ i nz. omega (arith, same i);
      freed = λ i nz pos gone. absurd (omega (arith, same i));
      size = refl;
      depth = refl;
    }

-- `t` keeps the words of the indirect block up to block `blocklen` of the file.
pub record IndirectTrimmed (blocklen : ℕ) (s t : Fs) : Type 0 where
  pub shrunk : Shrunk s t
  pub direct : t.sfi_direct ≡ s.sfi_direct
  pub at :
      (j : ℕ)
      → j < 128
      → number (get_elem? (table t) j)
        ≡ (if ltb blocklen (15 + j) then 0 else number (get_elem? (table s) j))

pub data Trimmed (blocklen : ℕ) (s : Fs) : Run Fs (Unit {0}) → Type 0 where
  trimmed : {t : Fs} → IndirectTrimmed blocklen s t → Trimmed blocklen s (ret tt t)
  untrimmed :
      {e : ℕ} {t : Fs}
      → (t.sfi_size ≡ s.sfi_size) × (t.depth ≡ s.depth)
      → Trimmed blocklen s (fail e t)

module _ (device : Disk) (valid : IsSteady device) (blocklen : ℕ) (s : Fs) (f : IsFile s)
    (ind : s.sfi_indirect ≢ 0) (held : 0 < s.depth) (n : ℕ) where
  abbrev buf : List ℕ
  buf = s.blocks s.sfi_indirect

  abbrev start : Scanned
  start = record { idbuf = buf; hasnonzero = false; iddirty = false }

  words : table s ≡ buf
  words = ground (arith, ind)

  seen_first : Shrunk s (seen (after s n) buf)
  seen_first =
      reread f (update s.blocks s.sfi_indirect buf) n (table-seen (after s n) buf ind ∙ sym words)

  module _ (m : Bitmap) (dirty : Bool) (d : Scanned)
      (p : EntriesTrimmed blocklen 0 (after s n) start m dirty d) where
    abbrev scanned : Fs
    scanned = with_map (after s n) m dirty

    to_seen : Shrunk s (seen scanned d.idbuf)
    to_seen = Shrunk-trans seen_first p.shrunk

    word_kept :
        (j : ℕ)
        → j < 128
        → number (get_elem? d.idbuf j)
          ≡ (if ltb blocklen (15 + j) then 0 else number (get_elem? (table s) j))
    word_kept j lt = rw words (ground (arith, p.at j lt))

    emptied :
        d.hasnonzero ≡ false
        → (c : Bitmap) × (sfs_bfree device s.sfi_indirect scanned
            ≡ ret tt (with_map scanned c true))
          × IndirectTrimmed blocklen s
              (record (with_map scanned c true) { sfi_indirect = 0; sv_dirty = true })
    emptied none_left =
        let g = to_seen.file in
        let v = g.volume in
        let now : table (seen scanned d.idbuf) ≡ d.idbuf = table-seen scanned d.idbuf ind in
        let (z, all) = p.empty none_left in
        let zeros_left : (i : ℕ) → i ≢ 0 → count i d.idbuf ≡ 0 = λ i nz.
          count-zeros i d.idbuf nz
            (λ k lt. all k (omega arith) (ground (arith, g.indirect, ap length now))) in
        let (c, freed, bitmap, same, bits) =
          bfree-ret device scanned s.sfi_indirect
            (record { bitmap = v.bitmap; size = v.size; beyond = v.beyond; super = v.super })
            (indirect_used g ind) in
        let w = record (with_map scanned c true) { sfi_indirect = 0; sv_dirty = true } in
        (
          c,
          freed,
          record {
            shrunk = Shrunk-trans to_seen (
                shrunk g s.sfi_indirect w ind bitmap same bits refl f.direct length-empty
                  (λ i nz. ground (arith, ap (count i) now, zeros_left i nz, count-empty i nz))
                  (refl, refl));
            direct = refl;
            at = λ j lt.
                ap number (empty_word j lt)
                ∙ ap number (sym (all j (omega arith) lt))
                ∙ word_kept j lt;
          },
        )

    put_back-Trimmed :
        (r : Run Fs (Unit {0}))
        → sfs_writeblock device s.sfi_indirect d.idbuf scanned ≡ r
        → Written device valid scanned s.sfi_indirect d.idbuf r
        → Trimmed blocklen s (put_back device blocklen s.sfi_indirect d scanned)
    put_back-Trimmed r eq w = elim (Bool-cases d.hasnonzero) [
      | inr none_left ↦
          let (c, freed, q) = emptied none_left in
          subst (Trimmed blocklen s) (ground (arith, none_left, freed)) (trimmed q)
      | inl some_left ↦ elim (Bool-cases d.iddirty) [
        | inr clean ↦
            let (same, _) = p.clean clean in
            let now : table scanned ≡ table (seen scanned d.idbuf) =
              words ∙ sym same ∙ sym (table-seen scanned d.idbuf ind) in
            subst (Trimmed blocklen s) (ground (arith, some_left, clean)) (
              trimmed {t = scanned} (record {
                shrunk = Shrunk-trans to_seen (reread to_seen.file s.blocks n now);
                direct = refl;
                at = λ j lt. ap (λ xs. number (get_elem? xs j)) (words ∙ sym same) ∙ word_kept j lt;
              }))
        | inl changed ↦ stored_words some_left changed r eq w
      ]
    ]
      where
        stored_words :
            d.hasnonzero ≡ true
            → d.iddirty ≡ true
            → (r : Run Fs (Unit {0})) → sfs_writeblock device s.sfi_indirect d.idbuf scanned ≡ r
            → Written device valid scanned s.sfi_indirect d.idbuf r
            → Trimmed blocklen s (put_back device blocklen s.sfi_indirect d scanned)
        stored_words some_left changed _ eq (unwritten {e} {n = n'}) =
            subst (Trimmed blocklen s) (ground (arith, some_left, changed, eq))
              (untrimmed {e = e} {t = after scanned n'} (refl, refl))
        stored_words some_left changed _ eq (written {n = n'}) =
            let t = wrote device valid scanned n' s.sfi_indirect d.idbuf in
            subst (Trimmed blocklen s) (ground (arith, some_left, changed, eq)) (
              trimmed {t = t} (record {
                shrunk =
                    Shrunk-trans to_seen
                      (reread to_seen.file (update s.blocks s.sfi_indirect d.idbuf) n' refl);
                direct = refl;
                at = λ j lt.
                    ap (λ xs. number (get_elem? xs j)) (table-seen scanned d.idbuf ind)
                    ∙ word_kept j lt;
              }))

module _ (device : Disk) (valid : IsSteady device) (blocklen : ℕ) (s : Fs) (f : IsFile s)
    (held : 0 < s.depth) where
  reloaded :
      (r : Run Fs (List ℕ))
      → s.sfi_indirect ≢ 0
      → ltb blocklen 142 ≡ true
      → sfs_readblock device s.sfi_indirect s ≡ r
      → Read device valid s s.sfi_indirect r
      → Trimmed blocklen s (trim_indirect device blocklen s)
  reloaded _ ind short eq (unread {e} {n}) =
      subst (Trimmed blocklen s) (ground (arith, eq, short, ind))
        (untrimmed {e = e} {t = after s n} (refl, refl))
  reloaded _ ind short eq (read {n}) =
      let (m, dirty, d, ran, p) =
        free_entries-EntriesTrimmed device blocklen 128 0 (after s n)
          (start device valid blocklen s f ind held n)
          (seen_first device valid blocklen s f ind held n).file ind (omega arith) in
      let there : (s.sfi_indirect == 0) ≡ false = ground (arith, ind) in
      rw (short, there, eq, ran)
        (put_back-Trimmed device valid blocklen s f ind held n m dirty d p
          (sfs_writeblock device s.sfi_indirect d.idbuf (with_map (after s n) m dirty)) refl
          (writeblock-Written device valid (with_map (after s n) m dirty) s.sfi_indirect d.idbuf
            held))

  pub trim_indirect-Trimmed : Trimmed blocklen s (trim_indirect device blocklen s)
  trim_indirect-Trimmed = elim (Bool-cases (s.sfi_indirect == 0)) [
    | inl z ↦
        let empty : table s ≡ empty_block = ground (arith, z) in
        subst (Trimmed blocklen s) (ground (arith, z)) (
          trimmed {t = s} (record {
            shrunk = Shrunk-self f;
            direct = refl;
            at = λ j lt. rw empty (ground (arith, empty_word j lt));
          }))
    | inr nz ↦ elim (Bool-cases (ltb blocklen 142)) [
      | inl short ↦
          reloaded (sfs_readblock device s.sfi_indirect s) (ground arith) short refl
            (readblock-Read device valid s s.sfi_indirect held)
      | inr long ↦ subst (Trimmed blocklen s) (ground (arith, long)) (
          trimmed {t = s}
            (record { shrunk = Shrunk-self f; direct = refl; at = λ j lt. ground (arith, long) }))
    ]
  ]
