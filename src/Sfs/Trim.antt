-- ===== src/Sfs/Trim.antt =====
-- The loop of `sfs_itrunc` over the direct blocks.
use mathlib.Core.Path.{subst}
use native.Mathlib.Decide.{ℕ_discrete}
use cs3891_asst.Base.{
  ℕ, zero, suc, ◌+◌, ◌<◌, ◌≡◌, ◌≢◌, inl, inr, refl, sym, ◌∙◌, ◌==◌, leb, if◌then◌else◌, true, not,
  ◌&&◌, arith, Bool-cases, some, ret, get_elem?, set, count-set, get_elem?-set, length-set,
}
use cs3891_asst.Bitmap.{Bitmap}
use cs3891_asst.Sfs.{Disk, Fs, sfs_bfree}
use cs3891_asst.Sfs.Inode.{IsFile, direct_at, direct_used}
use cs3891_asst.Sfs.Truncate.{free_direct}
use cs3891_asst.Sfs.Shrink.{Shrunk, Shrunk-self, Shrunk-trans, shrunk, bfree-ret}

-- after the direct blocks from `i` on
pub record DirectTrimmed (blocklen i : ℕ) (s t : Fs) : Type 0 where
  pub shrunk : Shrunk s t
  pub indirect : t.sfi_indirect ≡ s.sfi_indirect
  pub blocks : t.blocks ≡ s.blocks
  pub at :
      (k : ℕ)
      → k < 15
      → get_elem? t.sfi_direct k
        ≡ (if leb i k && leb blocklen k then some 0 else get_elem? s.sfi_direct k)

module _ (device : Disk) (blocklen : ℕ) where
  free_one :
      (s : Fs) (i b : ℕ)
      → IsFile s
      → i < 15
      → get_elem? s.sfi_direct i ≡ some b
      → b ≢ 0
      → (c : Bitmap) × (sfs_bfree device b s
          ≡ ret tt (record s { freemap = c; freemapdirty = true }))
        × Shrunk s (record s {
          freemap = c;
          freemapdirty = true;
          sfi_direct = set s.sfi_direct i 0;
          sv_dirty = true;
        })
  free_one s i b f lt at nz =
      let (c, freed, m, same, bits) = bfree-ret device s b f.volume (direct_used f i b at nz) in
      let t = record s {
        freemap = c;
        freemapdirty = true;
        sfi_direct = set s.sfi_direct i 0;
        sv_dirty = true;
      } in
      (
        c,
        freed,
        shrunk f b t nz m same bits refl (length-set s.sfi_direct i 0 ∙ f.direct) f.indirect
            (λ k knz. ground (arith, count-set k s.sfi_direct i 0 b at)) (refl, refl),
      )

  pub free_direct-DirectTrimmed :
      (n i : ℕ) (s : Fs)
      → IsFile s
      → i + n ≡ 15
      → (t : Fs) × (free_direct device blocklen n i s ≡ ret tt t) × DirectTrimmed blocklen i s t
  unfolding free_direct
  free_direct-DirectTrimmed zero i s f e = (
    s,
    refl,
    record { shrunk = Shrunk-self f; indirect = refl; blocks = refl; at = λ k lt. ground arith },
  )
  free_direct-DirectTrimmed (suc n) i s f e =
      let (b, at) = direct_at f i (omega arith) in
      elim (Bool-cases (leb blocklen i && not (b == 0))) [
        | inr keep ↦
            let (t, ran, d) = free_direct-DirectTrimmed n (i + 1) s f (omega arith) in
            (
              t,
              ground (arith, at, keep, ran),
              record {
                shrunk = d.shrunk;
                indirect = d.indirect;
                blocks = d.blocks;
                at = λ k lt. elim (ℕ_discrete k i) [
                  | yes same ↦
                      subst
                        (λ j. get_elem? t.sfi_direct j ≡ (
                          if leb i j && leb blocklen j then some 0 else get_elem? s.sfi_direct j))
                        (sym same) (ground (arith, d.at i, at))
                  | no ne ↦ ground (arith, d.at k lt)
                ];
              },
            )
        | inl drop_it ↦
            let (c, freed, p) = free_one s i b f (omega arith) at (ground arith) in
            let u = record s {
              freemap = c;
              freemapdirty = true;
              sfi_direct = set s.sfi_direct i 0;
              sv_dirty = true;
            } in
            let (t, ran, d) = free_direct-DirectTrimmed n (i + 1) u p.file (omega arith) in
            (
              t,
              ground (arith, at, drop_it, freed, ran),
              record {
                shrunk = Shrunk-trans p d.shrunk;
                indirect = d.indirect;
                blocks = d.blocks;
                at = λ k lt.
                    ground (
                      arith,
                      d.at k lt,
                      get_elem?-set s.sfi_direct i k 0 (omega (arith, f.direct)),
                    );
              },
            )
      ]
