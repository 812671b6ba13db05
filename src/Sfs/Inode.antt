-- ===== src/Sfs/Inode.antt =====
-- The blocks that an inode uses, and what is required of them.
use cs3891_asst.Base.{
  ℕ, ◌+◌, ◌-◌, ◌<◌, ◌≤◌, ◌≡◌, ◌≢◌, inl, inr, refl, ap, ◌==◌, ltb, if◌then◌else◌, true, false, List,
  arith, Option, none, some, ret, Bool-cases, get_elem?, set, length, count, count-pos,
  get_elem?-set_ne, ltb→le, get_elem?-some, get_elem?-replicate, length-replicate,
}
use cs3891_asst.Bitmap.Spec.{bit}
use cs3891_asst.Bitmap.Mark.{bitmap_isset-bit}
use cs3891_asst.Sfs.{Disk, Fs, sfs_ndirect, sfs_dbperidb, empty_block, hand_back, sfs_bused}
use cs3891_asst.Sfs.Blocks.{IsVolume}

abbrev pub number : Option ℕ → ℕ
number none = 0
number (some n) = n

-- The words of the indirect block; without one, all are 0.
abbrev pub table : Fs → List ℕ
table s = if s.sfi_indirect == 0 then empty_block else s.blocks s.sfi_indirect

-- The disk block of block `k` of the file, or 0 if it has none.
abbrev pub block_at : Fs → ℕ → ℕ
block_at s k =
    if ltb k sfs_ndirect
    then number (get_elem? s.sfi_direct k)
    else number (get_elem? (table s) (k - sfs_ndirect))

pub empty_word : (j : ℕ) → j < 128 → get_elem? empty_block j ≡ some 0
unfolding empty_block
empty_word j lt = get_elem?-replicate {A = ℕ} 128 j 0 lt

pub length-empty : length empty_block ≡ 128
unfolding empty_block
length-empty = length-replicate {A = ℕ} 128 0

abbrev pub block_in : List ℕ → List ℕ → ℕ → ℕ
block_in direct xs k =
    if ltb k sfs_ndirect
    then number (get_elem? direct k)
    else number (get_elem? xs (k - sfs_ndirect))

pub block_at-table :
    (t : Fs) (xs : List ℕ) (k : ℕ) → table t ≡ xs → block_at t k ≡ block_in t.sfi_direct xs k
block_at-table t xs k e = ap (λ ys. block_in t.sfi_direct ys k) e

pub block_at-entry :
    (direct xs : List ℕ) (j : ℕ) → block_in direct xs (j + 15) ≡ number (get_elem? xs j)
block_at-entry direct xs j =
    let e : j + 15 - 15 ≡ j = omega arith in
    let off : ltb (j + 15) 15 ≡ false = ground arith in rw (off, e) (refl)

-- Word `j` of the indirect block is block `j + 15`.
pub block_in-set :
    (direct xs : List ℕ) (j k b : ℕ)
    → k ≢ j + 15
    → block_in direct (set xs j b) k ≡ block_in direct xs k
block_in-set direct xs j k b ne = elim (Bool-cases (ltb k 15)) [
  | inl lt ↦ rw lt (refl)
  | inr ge ↦ rw ge (ap number (get_elem?-set_ne xs j (k - 15) b (omega (arith, ltb→le k 15 ge))))
]

-- How often the file uses disk block `i`.
abbrev pub uses : Fs → ℕ → ℕ
uses s i = (if s.sfi_indirect == i then 1 else 0) + count i s.sfi_direct + count i (table s)

-- Each block of the file is in the volume, marked in the bitmap, and used once.
pub record IsFile (s : Fs) : Type 0 where
  pub volume : IsVolume s
  pub direct : length s.sfi_direct ≡ sfs_ndirect
  pub indirect : length (table s) ≡ sfs_dbperidb
  pub once : (i : ℕ) → i ≢ 0 → uses s i ≤ 1
  pub used : (i : ℕ) → i ≢ 0 → 0 < uses s i → (i < s.sb_nblocks) × (bit s.freemap i ≡ true)

-- A block in use is handed back, without a change.
pub hand_back-ret :
    (device : Disk) (s : Fs) (block : ℕ)
    → IsVolume s
    → (block ≢ 0 → (block < s.sb_nblocks) × (bit s.freemap block ≡ true))
    → hand_back device block s ≡ ret block s
unfolding sfs_bused
hand_back-ret device s block v marked = elim (Bool-cases (block == 0)) [
  | inl z ↦ ground arith
  | inr nz ↦
      let (inside, there) = marked (ground arith) in
      let (w, asked, eq) = bitmap_isset-bit s.freemap block v.bitmap (omega (arith, v.size)) in
      ground (arith, asked, eq, there)
]

module _ {s : Fs} (f : IsFile s) where
  pub direct_at : (k : ℕ) → k < 15 → (b : ℕ) × (get_elem? s.sfi_direct k ≡ some b)
  direct_at k lt = get_elem?-some s.sfi_direct k (omega (arith, f.direct))

  pub table_at : (j : ℕ) → j < 128 → (b : ℕ) × (get_elem? (table s) j ≡ some b)
  table_at j lt = get_elem?-some (table s) j (omega (arith, f.indirect))

  pub direct_used :
      (k b : ℕ)
      → get_elem? s.sfi_direct k ≡ some b
      → b ≢ 0
      → (b < s.sb_nblocks) × (bit s.freemap b ≡ true)
  direct_used k b at nz = f.used b nz (omega (arith, count-pos s.sfi_direct k b at))

  pub table_used :
      (j b : ℕ)
      → get_elem? (table s) j ≡ some b
      → b ≢ 0
      → (b < s.sb_nblocks) × (bit s.freemap b ≡ true)
  table_used j b at nz = f.used b nz (omega (arith, count-pos (table s) j b at))

  pub indirect_used :
      s.sfi_indirect ≢ 0 → (s.sfi_indirect < s.sb_nblocks) × (bit s.freemap s.sfi_indirect ≡ true)
  indirect_used nz = f.used s.sfi_indirect nz (ground arith)

  -- A clear bit is not that of a block of the file.
  pub not_used : (b : ℕ) → bit s.freemap b ≡ false → (b ≢ 0) × (uses s b ≡ 0)
  not_used b clear =
      let nz : b ≢ 0 = λ e. ground (arith, f.volume.super) in
      (
        nz,
        elim (Bool-cases (ltb 0 (uses s b))) [
          | inl some_use ↦ absurd (ground (arith, f.used b nz))
          | inr no_use ↦ ground arith
        ],
      )
