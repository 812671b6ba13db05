-- ===== src/Sfs/Blocks.antt =====
-- Requests to the disk, and the blocks that `sfs_balloc` gives.
use mathlib.Core.Path.{subst}
use native.Mathlib.Decide.{dec_lt}
use cs3891_asst.Base.{
  ℕ, zero, suc, ◌+◌, ◌<◌, ◌≤◌, ◌≡◌, ◌≢◌, inl, inr, refl, sym, ◌∙◌, ◌==◌, Bool, true, false, ◌||◌,
  List, arith, Run, ret, fail, K, Bool-cases, einval, eio, enospc,
}
use cs3891_asst.Bitmap.{Bitmap, bitmap_alloc}
use cs3891_asst.Bitmap.Spec.{bit, IsBitmap}
use cs3891_asst.Bitmap.Alloc.{Allocated, allocated, no_space, bitmap_alloc-Allocated}
use cs3891_asst.Bitmap.Mark.{bitmap_unmark-bit}
use cs3891_asst.Sfs.{
  Disk, Fs, update, request, attempts, retries, sfs_rwblock, sfs_readblock, sfs_writeblock,
  sfs_clearblock, sfs_balloc, empty_block,
}

-- The device never finds a request invalid, and a call that fails with EIO leaves the uio as it was.
pub record IsSteady (device : Disk) : Type 0 where
  pub in_range : (n : ℕ) → device.code n ≢ einval
  pub intact : (n : ℕ) → device.code n ≡ eio → device.used_up n ≡ false

abbrev pub after : Fs → ℕ → Fs
after s n = record s { requests = n }

pub data Tried (s : Fs) : Run Fs Bool → Type 0 where
  done : {n : ℕ} → Tried s (ret true (after s n))
  failed : {e n : ℕ} → Tried s (fail e (after s n))

Tried-after : {s : Fs} {n : ℕ} {r : Run Fs Bool} → Tried (after s n) r → Tried s r
Tried-after (done {n}) = done {n = n}
Tried-after (failed {e} {n}) = failed {e = e} {n = n}

module _ (device : Disk) (valid : IsSteady device) where
  request-Tried :
      (again : Bool → K Fs Bool) (s : Fs)
      → ((n : ℕ) → Tried s (again true (after s n)))
      → Tried s (request device again true s)
  request-Tried again s retry = elim (Bool-cases (device.code s.requests == eio)) [
    | inl e ↦
        let same : request device again true s ≡ again true (after s (s.requests + 1)) =
          ground (arith, valid.in_range s.requests, valid.intact s.requests) in
        subst (Tried s) (sym same) (retry (s.requests + 1))
    | inr ne ↦ elim (Bool-cases (device.code s.requests == 0)) [
      | inl z ↦
          subst (Tried s) (ground (arith, valid.in_range s.requests)) (done {n = s.requests + 1})
      | inr nz ↦
          subst (Tried s) (ground (arith, valid.in_range s.requests))
            (failed {e = device.code s.requests} {n = s.requests + 1})
    ]
  ]

  attempts-Tried : (n : ℕ) (s : Fs) → Tried s (attempts device n true s)
  unfolding attempts
  attempts-Tried zero s = request-Tried (λ left t. fail eio t) s (λ n. failed {e = eio} {n = n})
  attempts-Tried (suc n) s =
      request-Tried (attempts device n) s (λ k. Tried-after (attempts-Tried n (after s k)))

  pub rwblock-Tried : (s : Fs) → 0 < s.depth → Tried s (sfs_rwblock device s)
  unfolding sfs_rwblock
  rwblock-Tried s held = subst (Tried s) (ground arith) (attempts-Tried retries s)

  pub data Read (s : Fs) (block : ℕ) : Run Fs (List ℕ) → Type 0 where
    read : {n : ℕ} → Read s block (ret (s.blocks block) (after s n))
    unread : {e n : ℕ} → Read s block (fail e (after s n))

  abbrev pub wrote : Fs → ℕ → ℕ → List ℕ → Fs
  wrote s n block data_ = record s { requests = n; blocks = update s.blocks block data_ }

  pub data Written (s : Fs) (block : ℕ) (data_ : List ℕ) : Run Fs (Unit {0}) → Type 0 where
    written : {n : ℕ} → Written s block data_ (ret tt (wrote s n block data_))
    unwritten : {e n : ℕ} → Written s block data_ (fail e (after s n))

  loaded_block :
      (s : Fs) (block : ℕ) (r : Run Fs Bool)
      → sfs_rwblock device s ≡ r
      → Tried s r
      → Read s block (sfs_readblock device block s)
  unfolding sfs_readblock
  loaded_block s block _ eq (done {n}) = subst (Read s block) (ground (arith, eq)) (read {n = n})
  loaded_block s block _ eq (failed {e} {n}) =
      subst (Read s block) (ground (arith, eq)) (unread {e = e} {n = n})

  pub readblock-Read :
      (s : Fs) (block : ℕ) → 0 < s.depth → Read s block (sfs_readblock device block s)
  readblock-Read s block held =
      loaded_block s block (sfs_rwblock device s) refl (rwblock-Tried s held)

  stored_block :
      (s : Fs) (block : ℕ) (data_ : List ℕ) (r : Run Fs Bool)
      → sfs_rwblock device s ≡ r
      → Tried s r
      → Written s block data_ (sfs_writeblock device block data_ s)
  unfolding sfs_writeblock
  stored_block s block data_ _ eq (done {n}) =
      subst (Written s block data_) (ground (arith, eq)) (written {n = n})
  stored_block s block data_ _ eq (failed {e} {n}) =
      subst (Written s block data_) (ground (arith, eq)) (unwritten {e = e} {n = n})

  pub writeblock-Written :
      (s : Fs) (block : ℕ) (data_ : List ℕ)
      → 0 < s.depth
      → Written s block data_ (sfs_writeblock device block data_ s)
  writeblock-Written s block data_ held =
      stored_block s block data_ (sfs_rwblock device s) refl (rwblock-Tried s held)

-- The bitmap of free blocks covers the volume. The superblock is in use, and so is what lies beyond the
-- volume.
pub record IsVolume (s : Fs) : Type 0 where
  pub bitmap : IsBitmap s.freemap
  pub size : s.sb_nblocks ≤ s.freemap.nbits
  pub beyond : (i : ℕ) → s.sb_nblocks ≤ i → i < s.freemap.nbits → bit s.freemap i ≡ true
  pub super : bit s.freemap 0 ≡ true

-- the state after block `b` was allocated and cleared
abbrev pub fresh : Fs → ℕ → Bitmap → ℕ → Fs
fresh s b c n = record s {
  freemap = c;
  freemapdirty = true;
  requests = n;
  blocks = update s.blocks b empty_block;
}

abbrev pub refused : Fs → Bitmap → Bool → ℕ → Fs
refused s c d n = record s { freemap = c; freemapdirty = d; requests = n }

pub data Balloc (s : Fs) : Run Fs ℕ → Type 0 where
  got :
      {b n : ℕ} {c : Bitmap}
      → b < s.sb_nblocks
      → bit s.freemap b ≡ false
      → IsBitmap c
      → c.nbits ≡ s.freemap.nbits
      → ((j : ℕ) → bit c j ≡ (j == b || bit s.freemap j))
      → Balloc s (ret b (fresh s b c n))
  got_none :
      {e n : ℕ} {c : Bitmap} {d : Bool}
      → IsBitmap c
      → c.nbits ≡ s.freemap.nbits
      → ((j : ℕ) → bit c j ≡ bit s.freemap j)
      → Balloc s (fail e (refused s c d n))

module _ (device : Disk) (valid : IsSteady device) (s : Fs) (v : IsVolume s) where
  cleared_from :
      (b : ℕ) (c : Bitmap) (r : Run Fs (Unit {0}))
      → bitmap_alloc s.freemap ≡ ret b c
      → b < s.sb_nblocks
      → bit s.freemap b ≡ false
      → IsBitmap c
      → c.nbits ≡ s.freemap.nbits
      → ((j : ℕ) → bit c j ≡ (j == b || bit s.freemap j))
      → sfs_writeblock device b empty_block (record s { freemap = c; freemapdirty = true }) ≡ r
      → Written device valid (record s { freemap = c; freemapdirty = true }) b empty_block r
      → Balloc s (sfs_balloc device s)
  unfolding sfs_balloc sfs_clearblock
  cleared_from b c _ alloc inside clear m same bits eq (written {n}) =
      subst (Balloc s) (ground (arith, alloc, eq)) (got {n = n} inside clear m same bits)
  cleared_from b c _ alloc inside clear m same bits eq (unwritten {e} {n}) =
      let (c', undone, m', same', bits') =
        bitmap_unmark-bit c b m (omega (arith, same, v.size)) (ground (arith, bits b)) in
      subst (Balloc s) (ground (arith, alloc, eq, undone)) (
        got_none {e = e} {n = n} {c = c'} {d = true} m' (same' ∙ same)
          (λ j. ground (arith, bits j, bits' j, clear)))

  alloc_from :
      (r : Run Bitmap ℕ)
      → 0 < s.depth
      → bitmap_alloc s.freemap ≡ r
      → Allocated s.freemap r
      → Balloc s (sfs_balloc device s)
  unfolding sfs_balloc
  alloc_from _ held eq (no_space full) = subst (Balloc s) (ground (arith, eq)) (
      got_none {e = enospc} {n = s.requests} {c = s.freemap} {d = s.freemapdirty} v.bitmap refl
        (λ j. refl))
  alloc_from _ held eq (allocated {i} {c} lt clear before m same bits) =
      elim (dec_lt i s.sb_nblocks) [
        | no out ↦ absurd (ground (arith, v.beyond i))
        | yes inside ↦
            cleared_from i c
              (sfs_writeblock device i empty_block (record s { freemap = c; freemapdirty = true }))
              eq inside clear m same bits refl
              (writeblock-Written device valid (record s { freemap = c; freemapdirty = true }) i
                empty_block held)
      ]

  pub balloc-Balloc : 0 < s.depth → Balloc s (sfs_balloc device s)
  balloc-Balloc held =
      alloc_from (bitmap_alloc s.freemap) held refl (bitmap_alloc-Allocated s.freemap v.bitmap)
