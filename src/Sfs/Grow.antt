-- ===== src/Sfs/Grow.antt =====
-- A file that takes a new block keeps its invariant.
use mathlib.Core.Path.{subst}
use native.Mathlib.Decide.{ℕ_discrete}
use cs3891_asst.Base.{
  ℕ, ◌+◌, ◌<◌, ◌≤◌, ◌≡◌, ◌≢◌, inl, inr, sym, ap, ◌∙◌, ◌==◌, if◌then◌else◌, Bool, true, false, ◌||◌,
  List, arith, some, get_elem?, set, length, count, count-set, Bool-cases,
}
use cs3891_asst.Bitmap.{Bitmap}
use cs3891_asst.Bitmap.Spec.{bit, IsBitmap}
use cs3891_asst.Sfs.{Fs, sfs_ndirect, sfs_dbperidb}
use cs3891_asst.Sfs.Blocks.{IsVolume, after, fresh, refused}
use cs3891_asst.Sfs.Inode.{IsFile, table, uses, not_used, indirect_used}

pub after-IsFile : {s : Fs} (n : ℕ) → IsFile s → IsFile (after s n)
after-IsFile n f = record {
  volume = record {
    bitmap = f.volume.bitmap;
    size = f.volume.size;
    beyond = f.volume.beyond;
    super = f.volume.super;
  };
  direct = f.direct;
  indirect = f.indirect;
  once = f.once;
  used = f.used;
}

pub refused-IsFile :
    {s : Fs} (c : Bitmap) (d : Bool) (n : ℕ)
    → IsFile s
    → IsBitmap c
    → c.nbits ≡ s.freemap.nbits
    → ((j : ℕ) → bit c j ≡ bit s.freemap j)
    → IsFile (refused s c d n)
refused-IsFile c d n f m same bits = record {
  volume = record {
    bitmap = m;
    size = omega (arith, f.volume.size, same);
    beyond = λ i le lt. bits i ∙ f.volume.beyond i le (omega (arith, same));
    super = bits 0 ∙ f.volume.super;
  };
  direct = f.direct;
  indirect = f.indirect;
  once = f.once;
  used = λ i nz pos. let (inside, there) = f.used i nz pos in (inside, bits i ∙ there);
}

pub count-set_le :
    (i : ℕ) (xs : List ℕ) (k v old : ℕ)
    → i ≢ 0
    → get_elem? xs k ≡ some old
    → count i (set xs k v) ≤ count i xs + (if v == i then 1 else 0)
count-set_le i xs k v old nz at = omega (arith, count-set i xs k v old at)

module _ {s : Fs} (f : IsFile s) (b n : ℕ) (c : Bitmap) (inside : b < s.sb_nblocks)
    (clear : bit s.freemap b ≡ false) (m : IsBitmap c) (same : c.nbits ≡ s.freemap.nbits)
    (bits : (j : ℕ) → bit c j ≡ (j == b || bit s.freemap j)) where
  pub marks : (i : ℕ) → bit s.freemap i ≡ true → bit c i ≡ true
  marks i there = ground (arith, bits i)

  pub marked : bit c b ≡ true
  marked = ground (arith, bits b)

  fresh-IsVolume : IsVolume (fresh s b c n)
  fresh-IsVolume = record {
    bitmap = m;
    size = omega (arith, f.volume.size, same);
    beyond = λ i le lt. marks i (f.volume.beyond i le (omega (arith, same)));
    super = marks 0 f.volume.super;
  }

  pub not_indirect : s.sfi_indirect ≢ 0 → s.sfi_indirect ≢ b
  not_indirect nz e = ground (arith, indirect_used f nz)

  pub table-fresh : table (fresh s b c n) ≡ table s
  table-fresh = elim (Bool-cases (s.sfi_indirect == 0)) [
    | inl z ↦ ground arith
    | inr nz ↦ let other = not_indirect (ground arith) in ground arith
  ]

  -- A state with the new bitmap and one use more of `b` at most.
  pub grown :
      (t : Fs)
      → t.freemap ≡ c
      → t.sb_nblocks ≡ s.sb_nblocks
      → length t.sfi_direct ≡ sfs_ndirect
      → length (table t) ≡ sfs_dbperidb
      → ((i : ℕ) → i ≢ 0 → uses t i ≤ uses s i + (if b == i then 1 else 0))
      → IsFile t
  grown t map_same blocks_same direct indirect le = record {
    volume = record {
      bitmap = subst IsBitmap (sym map_same) m;
      size = ground (arith, f.volume.size, same, map_same);
      beyond = λ i above lt.
          ap (λ x. bit x i) map_same
          ∙ marks i
              (f.volume.beyond i (omega (arith, blocks_same)) (ground (arith, same, map_same)));
      super = ap (λ x. bit x 0) map_same ∙ marks 0 f.volume.super;
    };
    direct = direct;
    indirect = indirect;
    once = λ i nz. elim (ℕ_discrete b i) [
      | yes e ↦ ground (arith, le i nz, not_used f b clear)
      | no ne ↦ ground (arith, le i nz, f.once i nz)
    ];
    used = λ i nz pos. elim (ℕ_discrete b i) [
      | yes e ↦ (ground arith, ap (λ x. bit x i) map_same ∙ ap (bit c) (sym e) ∙ marked)
      | no ne ↦
          let (lt, there) = f.used i nz (ground (arith, le i nz)) in
          (ground (arith, blocks_same), ap (λ x. bit x i) map_same ∙ marks i there)
    ];
  }
