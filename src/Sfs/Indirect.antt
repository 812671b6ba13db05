-- ===== src/Sfs/Indirect.antt =====
-- The blocks of a file that its indirect block has, and `sfs_bmap` as a whole.
use mathlib.Core.Path.{subst}
use cs3891_asst.Base.{
  ℕ, ◌+◌, ◌/◌, ◌%◌, ◌<◌, ◌≡◌, ◌≢◌, inl, inr, refl, sym, ap, ◌∙◌, ◌==◌, leb, Bool, true, false, ◌||◌,
  ◌&&◌, List, arith, some, Run, ret, get_elem?, set, length, get_elem?-set_self, count-pos,
  length-set, Bool-cases,
}
use cs3891_asst.Bitmap.{Bitmap}
use cs3891_asst.Bitmap.Spec.{bit, IsBitmap}
use cs3891_asst.Sfs.{
  Disk, Fs, sfs_nindirect, empty_block, sfs_balloc, sfs_readblock, sfs_writeblock, indirect_entry,
  indirect_block, hand_back,
}
use cs3891_asst.Sfs.Blocks.{
  IsSteady, after, wrote, fresh, Read, read, unread, Written, written, unwritten,
  writeblock-Written, Balloc, got, got_none, balloc-Balloc,
}
use cs3891_asst.Sfs.Inode.{
  IsFile, table, block_at, block_at-table, block_at-entry, block_in-set, empty_word, length-empty,
  number, not_used, table_at, table_used, hand_back-ret,
}
use cs3891_asst.Sfs.Grow.{after-IsFile, count-set_le, marks, marked, table-fresh, grown}
use cs3891_asst.Sfs.Bmap.{
  Kept, Bmapped, mapped, unmapped, Kept-self, unmapped_refused, Bound-old, Bound-new, new_bit,
}

module _ (device : Disk) (valid : IsSteady device) (s : Fs) (f : IsFile s) (n0 j : ℕ) (lt : j < 128)
    (nz : s.sfi_indirect ≢ 0) (held : 0 < s.depth) where
  abbrev entry : List ℕ → Bool → Run Fs ℕ
  entry buf doalloc = indirect_entry device s.sfi_indirect j doalloc buf (after s n0)

  stored_entry :
      (b n : ℕ) (c : Bitmap)
      → get_elem? (table s) j ≡ some 0
      → b < s.sb_nblocks
      → bit s.freemap b ≡ false
      → IsBitmap c
      → c.nbits ≡ s.freemap.nbits
      → ((i : ℕ) → bit c i ≡ (i == b || bit s.freemap i))
      → sfs_balloc device (after s n0) ≡ ret b (fresh s b c n)
      → (r : Run Fs (Unit {0}))
      → sfs_writeblock device s.sfi_indirect (set (table s) j b) (fresh s b c n) ≡ r
      → Written device valid (fresh s b c n) s.sfi_indirect (set (table s) j b) r
      → Bmapped s (j + 15) true (entry (table s) true)
  stored_entry b n c at inside clear m same bits eq _ weq (unwritten {e} {n = n'}) =
      let t = after (fresh s b c n) n' in
      let table_same : table t ≡ table s = table-fresh f b n c inside clear m same bits in
      let file : IsFile t =
        grown f b n c inside clear m same bits t refl refl f.direct
          (ap length table_same ∙ f.indirect) (λ i _. rw table_same (omega arith)) in
      subst (Bmapped s (j + 15) true) (ground (arith, at, eq, weq)) (
        unmapped {e = e} {t = t}
          (record {
            file = file;
            contents = λ i there ne. ground arith;
            marks = marks f b n c inside clear m same bits;
            size = refl;
            depth = refl;
            indirect = λ _. refl;
          })
          (λ i. block_at-table t (table s) i table_same))
  stored_entry b n c at inside clear m same bits eq _ weq (written {n = n'}) =
      let t = wrote device valid (fresh s b c n) n' s.sfi_indirect (set (table s) j b) in
      let table_set : table t ≡ set (table s) j b = ground (arith, nz) in
      let file : IsFile t =
        grown f b n c inside clear m same bits t refl refl f.direct
          (ap length table_set ∙ length-set (table s) j b ∙ f.indirect)
          (λ i inz. rw table_set (omega (arith, count-set_le i (table s) j b 0 inz at))) in
      let now : get_elem? (set (table s) j b) j ≡ some b =
        get_elem?-set_self (table s) j b (omega (arith, f.indirect)) in
      let handed : hand_back device b t ≡ ret b t =
        hand_back-ret device t b file.volume
          (λ _. (inside, marked f b n c inside clear m same bits)) in
      subst (Bmapped s (j + 15) true) (ground (arith, at, eq, weq, handed)) (
        mapped {d = b} {t = t} (
          Bound-new f b n c inside clear m same bits (j + 15) t file refl
            (λ i there ne. ground (arith, not_used f b clear)) (refl, refl, λ _. refl)
            (block_at-entry s.sfi_direct (table s) j ∙ ap number at)
            (block_at-table t (set (table s) j b) (j + 15) table_set
              ∙ block_at-entry s.sfi_direct (set (table s) j b) j
              ∙ ap number now)
            (λ k ne.
              block_at-table t (set (table s) j b) k table_set
              ∙ block_in-set s.sfi_direct (table s) j k b ne)
            (λ i there was. rw table_set (
              ground (
                arith,
                new_bit f b n c inside clear m same bits i there was,
                count-pos (set (table s) j b) j b now,
              )))))

  new_entry :
      (r : Run Fs ℕ)
      → get_elem? (table s) j ≡ some 0
      → sfs_balloc device (after s n0) ≡ r
      → Balloc (after s n0) r
      → Bmapped s (j + 15) true (entry (table s) true)
  new_entry _ at eq (got_none {e} {n} {c} {d} m same bits) =
      subst (Bmapped s (j + 15) true) (ground (arith, at, eq))
        (unmapped_refused f e c d n m same bits)
  new_entry _ at eq (got {b} {n} {c} inside clear m same bits) =
      stored_entry b n c at inside clear m same bits eq
        (sfs_writeblock device s.sfi_indirect (set (table s) j b) (fresh s b c n)) refl
        (writeblock-Written device valid (fresh s b c n) s.sfi_indirect (set (table s) j b) held)

  entry-Bmapped : (doalloc : Bool) → Bmapped s (j + 15) doalloc (entry (table s) doalloc)
  entry-Bmapped doalloc =
      let (b, at) = table_at f j lt in
      elim (Bool-cases (b == 0 && doalloc)) [
        | inr off ↦
            let t = after s n0 in
            let handed : hand_back device b t ≡ ret b t =
              hand_back-ret device t b (after-IsFile n0 f).volume (table_used f j b at) in
            subst (Bmapped s (j + 15) doalloc) (ground (arith, at, off, handed)) (
              mapped (
                Bound-old (j + 15) b n0 f (block_at-entry s.sfi_direct (table s) j ∙ ap number at)
                  off))
        | inl on ↦
            let alloc : true ≡ doalloc = ground (arith, on) in
            subst (λ a. Bmapped s (j + 15) a (entry (table s) a)) alloc
              (new_entry (sfs_balloc device (after s n0)) (ground (arith, at, on)) refl
                (balloc-Balloc device valid (after s n0) (after-IsFile n0 f).volume held))
      ]

module _ (device : Disk) (valid : IsSteady device) (s : Fs) (f : IsFile s) (j : ℕ) (lt : j < 128)
    (held : 0 < s.depth) where
  -- the indirect block is on the disk
  pub loaded :
      (doalloc : Bool) (r : Run Fs (List ℕ))
      → s.sfi_indirect ≢ 0
      → sfs_readblock device s.sfi_indirect s ≡ r
      → Read device valid s s.sfi_indirect r
      → Bmapped s (j + 15) doalloc (indirect_block device j doalloc s)
  loaded doalloc _ nz eq (unread {e} {n}) =
      let first_one : j / 128 ≡ 0 = omega arith in
      subst (Bmapped s (j + 15) doalloc) (ground (arith, eq, first_one))
        (unmapped {e = e} {t = after s n} (Kept-self n f) (λ k. refl))
  loaded doalloc _ nz eq (read {n}) =
      let first_one : j / 128 ≡ 0 = omega arith in
      let inside : j % 128 ≡ j = omega arith in
      let near : leb sfs_nindirect (j / 128) ≡ false = ground arith in
      let there : (s.sfi_indirect == 0) ≡ false = ground (arith, nz) in
      let step : indirect_block device j doalloc s
          ≡ indirect_entry device s.sfi_indirect j doalloc (table s) (after s n) =
        rw (near, there, inside, eq) (refl) in
      subst (Bmapped s (j + 15) doalloc) (sym step)
        (entry-Bmapped device valid s f n j lt nz held doalloc)

  module _ (b n : ℕ) (c : Bitmap) (z : s.sfi_indirect ≡ 0) (inside : b < s.sb_nblocks)
      (clear : bit s.freemap b ≡ false) (m : IsBitmap c) (same : c.nbits ≡ s.freemap.nbits)
      (bits : (i : ℕ) → bit c i ≡ (i == b || bit s.freemap i)) where
    -- the state with `b` as the indirect block
    abbrev with_indirect : Fs
    with_indirect = record (fresh s b c n) { sfi_indirect = b; sv_dirty = true }

    old_table : table s ≡ empty_block
    old_table = ground (arith, z)

    new_table : table with_indirect ≡ empty_block
    new_table = ground (arith, not_used f b clear)

    with_indirect-IsFile : IsFile with_indirect
    with_indirect-IsFile =
        grown f b n c inside clear m same bits with_indirect refl refl f.direct
          (ap length new_table ∙ length-empty)
          (λ i nz. rw (new_table, old_table, z) (ground (arith, nz)))

    same_blocks : (i : ℕ) → block_at with_indirect i ≡ block_at s i
    same_blocks i =
        block_at-table with_indirect empty_block i new_table
        ∙ sym (block_at-table s empty_block i old_table)

    Kept-extended : {t : Fs} → Kept with_indirect t → Kept s t
    Kept-extended {t} k = record {
      file = k.file;
      contents = λ i there ne.
          let other : i ≢ b = λ e. ground arith in
          k.contents i (marks f b n c inside clear m same bits i there) other ∙ ground arith;
      marks = λ i there. k.marks i (marks f b n c inside clear m same bits i there);
      size = k.size;
      depth = k.depth;
      indirect = λ nz. absurd (nz z);
    }

    extended : (r : Run Fs ℕ) → Bmapped with_indirect (j + 15) true r → Bmapped s (j + 15) true r
    extended _ (unmapped {e} {t} k same_at) =
        unmapped (Kept-extended k) (λ i. same_at i ∙ same_blocks i)
    extended _ (mapped {d} {t} p) = mapped (record {
      kept = Kept-extended p.kept;
      here = p.here;
      others = λ i ne. p.others i ne ∙ same_blocks i;
      old = λ nz. absurd (
          nz (
            block_at-table s empty_block (j + 15) old_table
            ∙ block_at-entry s.sfi_direct empty_block j
            ∙ ap number (empty_word j lt)));
      hole = λ e. absurd (ground arith);
      new = p.new;
      owned = λ i there was. elim (Bool-cases (bit c i)) [
        | inr off ↦ p.owned i there off
        | inl on ↦
            let e : i ≡ b = ground (arith, bits i) in
            let still : t.sfi_indirect ≡ b = p.kept.indirect (not_used f b clear).0 in ground arith
      ];
    })

  pub new_indirect :
      (r : Run Fs ℕ)
      → s.sfi_indirect ≡ 0
      → sfs_balloc device s ≡ r
      → Balloc s r
      → Bmapped s (j + 15) true (indirect_block device j true s)
  new_indirect _ z eq (got_none {e} {n} {c} {d} m same bits) =
      let near : leb sfs_nindirect (j / 128) ≡ false = ground arith in
      let there : (s.sfi_indirect == 0) ≡ true = ground (arith, z) in
      rw (near, there, eq) (unmapped_refused f e c d n m same bits)
  new_indirect _ z eq (got {b} {n} {c} inside clear m same bits) =
      let near : leb sfs_nindirect (j / 128) ≡ false = ground arith in
      let there : (s.sfi_indirect == 0) ≡ true = ground (arith, z) in
      let idoff : j % 128 ≡ j = omega arith in
      let u = with_indirect b n c z inside clear m same bits in
      let went : Bmapped u (j + 15) true (indirect_entry device b j true empty_block u) =
        subst (λ ys. Bmapped u (j + 15) true (indirect_entry device b j true ys u))
          (new_table b n c z inside clear m same bits)
          (entry-Bmapped device valid u (with_indirect-IsFile b n c z inside clear m same bits) n j
            lt (not_used f b clear).0 held true) in
      rw (near, there, eq, idoff)
        (extended b n c z inside clear m same bits (indirect_entry device b j true empty_block u)
          went)
