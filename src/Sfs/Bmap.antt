-- ===== src/Sfs/Bmap.antt =====
-- `sfs_bmap`: from a block of a file to a block of the disk.
use mathlib.Core.Path.{subst}
use cs3891_asst.Base.{
  ℕ, ◌<◌, ◌≡◌, ◌≢◌, inl, inr, refl, sym, ap, ◌∙◌, ◌==◌, Bool, true, false, ◌||◌, ◌&&◌, arith, some,
  Run, ret, fail, get_elem?, set, length, get_elem?-set_self, get_elem?-set_ne, count-pos,
  length-set, Bool-cases,
}
use cs3891_asst.Bitmap.{Bitmap}
use cs3891_asst.Bitmap.Spec.{bit, IsBitmap}
use cs3891_asst.Sfs.{Disk, Fs, sfs_balloc, direct_block, hand_back}
use cs3891_asst.Sfs.Blocks.{IsSteady, after, fresh, refused, Balloc, got, got_none, balloc-Balloc}
use cs3891_asst.Sfs.Inode.{
  IsFile, table, block_at, block_at-table, uses, not_used, direct_at, direct_used, hand_back-ret,
}
use cs3891_asst.Sfs.Grow.{
  after-IsFile, refused-IsFile, count-set_le, marks, marked, table-fresh, grown,
}

-- What a call leaves alone: the blocks in use, other than the indirect block, and all that is not about
-- blocks.
pub record Kept (s t : Fs) : Type 0 where
  pub file : IsFile t
  pub contents : (i : ℕ) → bit s.freemap i ≡ true → i ≢ s.sfi_indirect → t.blocks i ≡ s.blocks i
  pub marks : (i : ℕ) → bit s.freemap i ≡ true → bit t.freemap i ≡ true
  pub size : t.sfi_size ≡ s.sfi_size
  pub depth : t.depth ≡ s.depth
  pub indirect : s.sfi_indirect ≢ 0 → t.sfi_indirect ≡ s.sfi_indirect

-- `d` is the disk block that the file had at `k`, or a new one for a file that had none, and the other
-- blocks are the same. Every block newly marked is used by the file.
pub record Bound (s t : Fs) (k d : ℕ) (doalloc : Bool) : Type 0 where
  pub kept : Kept s t
  pub here : block_at t k ≡ d
  pub others : (j : ℕ) → j ≢ k → block_at t j ≡ block_at s j
  pub old : block_at s k ≢ 0 → d ≡ block_at s k
  pub hole : doalloc ≡ false → (d ≡ block_at s k) × ((i : ℕ) → bit t.freemap i ≡ bit s.freemap i)
  pub new : doalloc ≡ true → d ≢ 0
  pub owned : (i : ℕ) → bit t.freemap i ≡ true → bit s.freemap i ≡ false → 0 < uses t i

pub data Bmapped (s : Fs) (k : ℕ) (doalloc : Bool) : Run Fs ℕ → Type 0 where
  mapped : {d : ℕ} {t : Fs} → Bound s t k d doalloc → Bmapped s k doalloc (ret d t)
  unmapped :
      {e : ℕ} {t : Fs}
      → Kept s t
      → ((j : ℕ) → block_at t j ≡ block_at s j)
      → Bmapped s k doalloc (fail e t)

pub Kept-self : {s : Fs} (n : ℕ) → IsFile s → Kept s (after s n)
Kept-self n f = record {
  file = after-IsFile n f;
  contents = λ i there ne. refl;
  marks = λ i there. there;
  size = refl;
  depth = refl;
  indirect = λ nz. refl;
}

pub unmapped_refused :
    {s : Fs} {k : ℕ} {doalloc : Bool} (f : IsFile s) (e : ℕ) (c : Bitmap) (d : Bool) (n : ℕ)
    → IsBitmap c
    → c.nbits ≡ s.freemap.nbits
    → ((j : ℕ) → bit c j ≡ bit s.freemap j)
    → Bmapped s k doalloc (fail e (refused s c d n))
unmapped_refused f e c d n m same bits =
    unmapped
      (record {
        file = refused-IsFile c d n f m same bits;
        contents = λ i there ne. refl;
        marks = λ i there. bits i ∙ there;
        size = refl;
        depth = refl;
        indirect = λ nz. refl;
      })
      (λ j. refl)

-- without a new block
pub Bound-old :
    {s : Fs} {doalloc : Bool} (k d n : ℕ)
    → IsFile s
    → block_at s k ≡ d
    → (d == 0 && doalloc) ≡ false
    → Bound s (after s n) k d doalloc
Bound-old k d n f at off = record {
  kept = Kept-self n f;
  here = at;
  others = λ j ne. refl;
  old = λ nz. sym at;
  hole = λ no_alloc. (sym at, λ i. refl);
  new = λ alloc. ground (arith, off);
  owned = λ i there clear. absurd (ground arith);
}

module _ {s : Fs} (f : IsFile s) (b n : ℕ) (c : Bitmap) (inside : b < s.sb_nblocks)
    (clear : bit s.freemap b ≡ false) (m : IsBitmap c) (same : c.nbits ≡ s.freemap.nbits)
    (bits : (j : ℕ) → bit c j ≡ (j == b || bit s.freemap j)) where
  -- with new block `b`
  pub Bound-new :
      (k : ℕ) (t : Fs)
      → IsFile t
      → t.freemap ≡ c
      → ((i : ℕ) → bit s.freemap i ≡ true → i ≢ s.sfi_indirect → t.blocks i ≡ s.blocks i)
      → (t.sfi_size ≡ s.sfi_size)
        × (t.depth ≡ s.depth)
        × (s.sfi_indirect ≢ 0 → t.sfi_indirect ≡ s.sfi_indirect)
      → block_at s k ≡ 0
      → block_at t k ≡ b
      → ((j : ℕ) → j ≢ k → block_at t j ≡ block_at s j)
      → ((i : ℕ) → bit t.freemap i ≡ true → bit s.freemap i ≡ false → 0 < uses t i)
      → Bound s t k b true
  Bound-new k t file map_same contents (size, depth, indirect) hole here others owned = record {
    kept = record {
      file = file;
      contents = contents;
      marks =
          λ i there. ap (λ x. bit x i) map_same ∙ marks f b n c inside clear m same bits i there;
      size = size;
      depth = depth;
      indirect = indirect;
    };
    here = here;
    others = others;
    old = λ nz. absurd (nz hole);
    hole = λ e. absurd (ground arith);
    new = λ e. (not_used f b clear).0;
    owned = owned;
  }

  -- the one bit that is new
  pub new_bit : (i : ℕ) → bit c i ≡ true → bit s.freemap i ≡ false → i ≡ b
  new_bit i there was = ground (arith, bits i)

module _ (device : Disk) (valid : IsSteady device) (s : Fs) (f : IsFile s) where
  direct_new :
      (k : ℕ) (r : Run Fs ℕ)
      → k < 15
      → get_elem? s.sfi_direct k ≡ some 0
      → sfs_balloc device s ≡ r
      → Balloc s r
      → Bmapped s k true (direct_block device k true s)
  direct_new k _ lt at eq (got_none {e} {n} {c} {d} m same bits) =
      subst (Bmapped s k true) (ground (arith, at, eq)) (unmapped_refused f e c d n m same bits)
  direct_new k _ lt at eq (got {b} {n} {c} inside clear m same bits) =
      let t = record (fresh s b c n) { sfi_direct = set s.sfi_direct k b; sv_dirty = true } in
      let table_same : table t ≡ table s = table-fresh f b n c inside clear m same bits in
      let file : IsFile t =
        grown f b n c inside clear m same bits t refl refl (length-set s.sfi_direct k b ∙ f.direct)
          (ap length table_same ∙ f.indirect)
          (λ i nz. rw table_same (omega (arith, count-set_le i s.sfi_direct k b 0 nz at))) in
      let now : get_elem? (set s.sfi_direct k b) k ≡ some b =
        get_elem?-set_self s.sfi_direct k b (omega (arith, f.direct)) in
      let handed : hand_back device b t ≡ ret b t =
        hand_back-ret device t b file.volume
          (λ nz. (inside, marked f b n c inside clear m same bits)) in
      subst (Bmapped s k true) (ground (arith, at, eq, handed)) (
        mapped {d = b} {t = t} (
          Bound-new f b n c inside clear m same bits k t file refl (λ i there ne. ground arith)
            (refl, refl, λ nz. refl) (ground (arith, at)) (ground (arith, now))
            (λ j ne.
              block_at-table t (table s) j table_same
              ∙ ground (arith, get_elem?-set_ne s.sfi_direct k j b))
            (λ i there was. ground (
              arith,
              new_bit f b n c inside clear m same bits i there was,
              count-pos (set s.sfi_direct k b) k b now,
            ))))

  pub direct-Bmapped :
      (k : ℕ) (doalloc : Bool)
      → k < 15
      → 0 < s.depth
      → Bmapped s k doalloc (direct_block device k doalloc s)
  direct-Bmapped k doalloc lt held =
      let (b, at) = direct_at f k lt in
      elim (Bool-cases (b == 0 && doalloc)) [
        | inr off ↦
            let handed : hand_back device b s ≡ ret b s =
              hand_back-ret device s b f.volume (direct_used f k b at) in
            subst (Bmapped s k doalloc) (ground (arith, at, off, handed))
              (mapped (Bound-old k b s.requests f (ground (arith, at)) off))
        | inl on ↦
            let alloc : true ≡ doalloc = ground (arith, on) in
            subst (λ a. Bmapped s k a (direct_block device k a s)) alloc
              (direct_new k (sfs_balloc device s) lt (ground (arith, at, on)) refl
                (balloc-Balloc device valid s f.volume held))
      ]
