-- ===== src/Sfs/Shrink.antt =====
-- A file that gives blocks back keeps its invariant.
use mathlib.Core.Path.{subst}
use native.Mathlib.Decide.{ℕ_discrete}
use cs3891_asst.Base.{
  ℕ, ◌+◌, ◌<◌, ◌≤◌, ◌≡◌, ◌≢◌, inl, inr, refl, sym, ◌∙◌, ◌==◌, if◌then◌else◌, true, false, not, ◌&&◌,
  arith, length, Bool-cases, ret,
}
use cs3891_asst.Bitmap.{Bitmap}
use cs3891_asst.Bitmap.Spec.{bit, IsBitmap}
use cs3891_asst.Bitmap.Mark.{bitmap_unmark-bit}
use cs3891_asst.Sfs.{Disk, Fs, sfs_ndirect, sfs_dbperidb, sfs_bfree}
use cs3891_asst.Sfs.Blocks.{IsVolume}
use cs3891_asst.Sfs.Inode.{IsFile, table, uses}

-- From `s` to `t`, the file lost some of its blocks; those, and only those, are free again.
pub record Shrunk (s t : Fs) : Type 0 where
  pub file : IsFile t
  pub down : (i : ℕ) → bit t.freemap i ≡ true → bit s.freemap i ≡ true
  pub own : (i : ℕ) → bit s.freemap i ≡ true → bit t.freemap i ≡ false → 0 < uses s i
  pub fewer : (i : ℕ) → i ≢ 0 → uses t i ≤ uses s i
  pub freed : (i : ℕ) → i ≢ 0 → 0 < uses s i → uses t i ≡ 0 → bit t.freemap i ≡ false
  pub size : t.sfi_size ≡ s.sfi_size
  pub depth : t.depth ≡ s.depth

pub Shrunk-self : {s : Fs} → IsFile s → Shrunk s s
Shrunk-self f = record {
  file = f;
  down = λ i there. there;
  own = λ i there gone. absurd (ground arith);
  fewer = λ i nz. omega arith;
  freed = λ i nz pos gone. absurd (ground arith);
  size = refl;
  depth = refl;
}

pub Shrunk-trans : {s t u : Fs} → Shrunk s t → Shrunk t u → Shrunk s u
Shrunk-trans {s} {t} {u} p q = record {
  file = q.file;
  down = λ i there. p.down i (q.down i there);
  own = λ i there gone. elim (Bool-cases (bit t.freemap i)) [
    | inr off ↦ p.own i there off
    | inl on ↦
        let nz : i ≢ 0 = λ e. ground (arith, q.file.volume.super) in
        omega (arith, q.own i on gone, p.fewer i nz)
  ];
  fewer = λ i nz. omega (arith, p.fewer i nz, q.fewer i nz);
  freed = λ i nz pos gone. elim (ℕ_discrete (uses t i) 0) [
    | no some_use ↦ q.freed i nz (omega arith) gone
    | yes e ↦
        let off : bit t.freemap i ≡ false = p.freed i nz pos e in
        elim (Bool-cases (bit u.freemap i)) [
          | inr still_off ↦ still_off
          | inl on ↦ absurd (ground (arith, q.down i on))
        ]
  ];
  size = q.size ∙ p.size;
  depth = q.depth ∙ p.depth;
}

-- `t` has one use of block `b` less, which is free again.
pub shrunk :
    {s : Fs} (f : IsFile s) (b : ℕ) (t : Fs)
    → b ≢ 0
    → IsBitmap t.freemap
    → t.freemap.nbits ≡ s.freemap.nbits
    → ((j : ℕ) → bit t.freemap j ≡ (not (j == b) && bit s.freemap j))
    → t.sb_nblocks ≡ s.sb_nblocks
    → length t.sfi_direct ≡ sfs_ndirect
    → length (table t) ≡ sfs_dbperidb
    → ((i : ℕ) → i ≢ 0 → uses t i + (if b == i then 1 else 0) ≡ uses s i)
    → (t.sfi_size ≡ s.sfi_size) × (t.depth ≡ s.depth)
    → Shrunk s t
shrunk {s} f b t nz m same bits blocks_same direct indirect count_eq (size, depth) =
    let pos : 0 < uses s b = ground (arith, count_eq b nz) in
    let (inside, there) = f.used b nz pos in
    record {
      file = record {
        volume = record {
          bitmap = m;
          size = omega (arith, f.volume.size, same, blocks_same);
          beyond = λ i above lt. ground (arith, bits i, f.volume.beyond i, same, blocks_same);
          super = ground (arith, bits 0, f.volume.super);
        };
        direct = direct;
        indirect = indirect;
        once = λ i inz. omega (arith, f.once i inz, count_eq i inz);
        used = λ i inz some_use.
            let (lt, on) = f.used i inz (omega (arith, count_eq i inz)) in
            let other : i ≢ b = λ e. ground (arith, count_eq i inz, f.once i inz) in
            (omega (arith, blocks_same), ground (arith, bits i));
      };
      down = λ i on. ground (arith, bits i);
      own = λ i on gone. elim (ℕ_discrete i b) [
        | yes e ↦ subst (λ k. 0 < uses s k) (sym e) pos
        | no ne ↦ absurd (ground (arith, bits i))
      ];
      fewer = λ i inz. omega (arith, count_eq i inz);
      freed = λ i inz some_use gone. elim (ℕ_discrete i b) [
        | yes e ↦ ground (arith, bits i)
        | no ne ↦ absurd (ground (arith, count_eq i inz))
      ];
      size = size;
      depth = depth;
    }

-- `sfs_bfree` of a block of the file
pub bfree-ret :
    (device : Disk) (s : Fs) (b : ℕ)
    → IsVolume s
    → (b < s.sb_nblocks) × (bit s.freemap b ≡ true)
    → (c : Bitmap) × (sfs_bfree device b s ≡ ret tt (record s { freemap = c; freemapdirty = true }))
      × IsBitmap c
      × (c.nbits ≡ s.freemap.nbits)
      × ((j : ℕ) → bit c j ≡ (not (j == b) && bit s.freemap j))
unfolding sfs_bfree
bfree-ret device s b v (inside, there) =
    let (c, undone, m, same, bits) =
      bitmap_unmark-bit s.freemap b v.bitmap (omega (arith, v.size)) there in
    (c, ground (arith, undone), m, same, bits)
