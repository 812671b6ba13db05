-- ===== src/Sfs/Entries.antt =====
-- The loop of `sfs_itrunc` over the words of the indirect block.
use mathlib.Core.Path.{subst}
use native.Mathlib.Decide.{ℕ_discrete}
use cs3891_asst.Base.{
  ℕ, zero, suc, ◌+◌, ◌<◌, ◌≤◌, ◌≡◌, ◌≢◌, inl, inr, refl, sym, ap, ◌∙◌, ◌==◌, ltb, leb,
  if◌then◌else◌, Bool, true, false, not, ◌&&◌, ◌||◌, List, arith, length, Bool-cases, some, ret,
  get_elem?, set, count, count-set, get_elem?-set, get_elem?-lt, length-set,
}
use cs3891_asst.Bitmap.{Bitmap}
use cs3891_asst.Sfs.{Disk, Fs, update, sfs_bfree}
use cs3891_asst.Sfs.Inode.{IsFile, table, table_at, table_used}
use cs3891_asst.Sfs.Truncate.{free_entries, Scanned}
use cs3891_asst.Sfs.Shrink.{Shrunk, Shrunk-self, Shrunk-trans, shrunk, bfree-ret}

-- `s`, had the indirect block the words `buf`
abbrev pub seen : Fs → List ℕ → Fs
seen s buf = record s { blocks = update s.blocks s.sfi_indirect buf }

abbrev pub with_map : Fs → Bitmap → Bool → Fs
with_map s m dirty = record s { freemap = m; freemapdirty = dirty }

-- after the words from `j` on
pub record EntriesTrimmed (blocklen j : ℕ) (s : Fs) (c : Scanned) (m : Bitmap) (dirty : Bool)
    (d : Scanned) : Type 0 where
  pub shrunk : Shrunk (seen s c.idbuf) (seen (with_map s m dirty) d.idbuf)
  pub at :
      (k : ℕ)
      → k < 128
      → get_elem? d.idbuf k
        ≡ (if leb j k && ltb blocklen (15 + k) then some 0 else get_elem? c.idbuf k)
  pub empty :
      d.hasnonzero ≡ false
      → (c.hasnonzero ≡ false) × ((k : ℕ) → j ≤ k → k < 128 → get_elem? d.idbuf k ≡ some 0)
  pub clean : d.iddirty ≡ false → (d.idbuf ≡ c.idbuf) × (c.iddirty ≡ false)

pub table-seen : (s : Fs) (buf : List ℕ) → s.sfi_indirect ≢ 0 → table (seen s buf) ≡ buf
table-seen s buf nz = ground (arith, nz)

module _ (device : Disk) (blocklen : ℕ) where
  free_word :
      (s : Fs) (buf : List ℕ) (j b : ℕ)
      → IsFile (seen s buf)
      → s.sfi_indirect ≢ 0
      → get_elem? buf j ≡ some b
      → b ≢ 0
      → (c : Bitmap) × (sfs_bfree device b s
          ≡ ret tt (record s { freemap = c; freemapdirty = true }))
        × Shrunk (seen s buf) (seen (record s { freemap = c; freemapdirty = true }) (set buf j 0))
  free_word s buf j b f ind at nz =
      let used = table_used f j b (ap (λ xs. get_elem? xs j) (table-seen s buf ind) ∙ at) nz in
      let v = f.volume in
      let (c, freed, m, same, bits) =
        bfree-ret device s b
          (record { bitmap = v.bitmap; size = v.size; beyond = v.beyond; super = v.super }) used in
      let t = record s { freemap = c; freemapdirty = true } in
      let before : table (seen s buf) ≡ buf = table-seen s buf ind in
      let now : table (seen t (set buf j 0)) ≡ set buf j 0 = table-seen t (set buf j 0) ind in
      (
        c,
        freed,
        shrunk f b (seen t (set buf j 0)) nz m same bits refl f.direct
            (ap length now ∙ length-set buf j 0 ∙ ap length (sym before) ∙ f.indirect)
            (λ k knz.
              ground (arith, ap (count k) before, ap (count k) now, count-set k buf j 0 b at))
            (refl, refl),
      )

  pub free_entries-EntriesTrimmed :
      (n j : ℕ) (s : Fs) (c : Scanned)
      → IsFile (seen s c.idbuf)
      → s.sfi_indirect ≢ 0
      → j + n ≡ 128
      → (m : Bitmap) × (dirty : Bool) × (d : Scanned) × (free_entries device blocklen n j c s
          ≡ ret d (with_map s m dirty))
        × EntriesTrimmed blocklen j s c m dirty d
  unfolding free_entries
  free_entries-EntriesTrimmed zero j s c f ind e = (
    s.freemap,
    s.freemapdirty,
    c,
    refl,
    record {
      shrunk = Shrunk-self f;
      at = λ k lt. ground arith;
      empty = λ z. (z, λ k le lt. absurd (omega arith));
      clean = λ z. (refl, z);
    },
  )
  free_entries-EntriesTrimmed (suc n) j s c f ind e =
      let (b, was) = table_at f j (omega arith) in
      let at : get_elem? c.idbuf j ≡ some b =
        ap (λ xs. get_elem? xs j) (sym (table-seen s c.idbuf ind)) ∙ was in
      elim (Bool-cases (ltb blocklen (15 + j) && not (b == 0))) [
        | inr keep ↦
            let c1 = record c { hasnonzero = c.hasnonzero || not (b == 0) } in
            let (m', dirty, d, ran, p) =
              free_entries-EntriesTrimmed n (j + 1) s c1 f ind (omega arith) in
            (
              m',
              dirty,
              d,
              ground (arith, at, keep, ran),
              record {
                shrunk = p.shrunk;
                at = λ k lt. elim (ℕ_discrete k j) [
                  | yes same ↦
                      subst
                        (λ i. get_elem? d.idbuf i ≡ (
                          if leb j i && ltb blocklen (15 + i) then some 0 else get_elem? c.idbuf i))
                        (sym same) (ground (arith, p.at j (omega arith), at))
                  | no ne ↦ ground (arith, p.at k lt)
                ];
                empty = λ z.
                    let (none_before, rest) = p.empty z in
                    (
                      ground arith,
                      λ k le lt. elim (ℕ_discrete k j) [
                        | yes same ↦
                            subst (λ i. get_elem? d.idbuf i ≡ some 0) (sym same)
                              (ground (arith, p.at j (omega arith), at, none_before))
                        | no ne ↦ rest k (omega arith) lt
                      ],
                    );
                clean = p.clean;
              },
            )
        | inl drop_it ↦
            let (m, freed, q) = free_word s c.idbuf j b f ind at (ground arith) in
            let c1 = record c { idbuf = set c.idbuf j 0; iddirty = true } in
            let (m', dirty, d, ran, p) =
              free_entries-EntriesTrimmed n (j + 1) (with_map s m true) c1 q.file ind
                (omega arith) in
            (
              m',
              dirty,
              d,
              ground (arith, at, drop_it, freed, ran),
              record {
                shrunk = Shrunk-trans q p.shrunk;
                at = λ k lt.
                    ground
                      (arith, p.at k lt, get_elem?-set c.idbuf j k 0 (get_elem?-lt c.idbuf j b at));
                empty = λ z.
                    let (none_before, rest) = p.empty z in
                    (
                      none_before,
                      λ k le lt. elim (ℕ_discrete k j) [
                        | yes same ↦
                            subst (λ i. get_elem? d.idbuf i ≡ some 0) (sym same)
                              (ground (
                                arith,
                                p.at j (omega arith),
                                get_elem?-set c.idbuf j j 0 (get_elem?-lt c.idbuf j b at),
                              ))
                        | no ne ↦ rest k (omega arith) lt
                      ],
                    );
                clean = λ z. absurd (ground (arith, p.clean z));
              },
            )
      ]
