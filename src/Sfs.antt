-- ===== src/Sfs.antt =====
-- kern/fs/sfs/sfs_balloc.c, kern/fs/sfs/sfs_bmap.c and the block reads and writes of kern/fs/sfs/sfs_io.c:
-- the blocks of one file of a simple file system.
pub mod Blocks
pub mod Inode
pub mod Grow
pub mod Bmap
pub mod Indirect
pub mod Mapping
pub mod Truncate
pub mod Shrink
pub mod Trim
pub mod Entries
pub mod PutBack
pub mod Truncated
use cs3891_asst.Base.{
  ℕ, zero, suc, ◌+◌, ◌-◌, ◌/◌, ◌%◌, ◌==◌, ltb, leb, if◌then◌else◌, Bool, true, false, not, ◌&&◌,
  ◌||◌, Option, none, some, List, [], ◌∷◌, Run, ret, fail, panic, fault, K, pure, throw, ◌>>=◌,
  ◌>>◌, and_then, kassert, deref, get_elem?, set, replicate, on_fail, einval, eio, efbig,
}
use cs3891_asst.Bitmap.{Bitmap, bitmap_alloc, bitmap_unmark, bitmap_isset}

abbrev pub sfs_ndirect : ℕ
sfs_ndirect = 15

abbrev pub sfs_nindirect : ℕ
sfs_nindirect = 1

abbrev pub sfs_dbperidb : ℕ
sfs_dbperidb = 128

abbrev pub sfs_blocksize : ℕ
sfs_blocksize = 512

-- The volume, the blocks of its disk in words, how many requests the device has had, the file's inode,
-- and how deep the thread holds the big lock.
pub record Fs : Type 0 where
  pub freemap : Bitmap
  pub freemapdirty : Bool
  pub sb_nblocks : ℕ
  pub blocks : ℕ → List ℕ
  pub requests : ℕ
  pub sfi_direct : List ℕ
  pub sfi_indirect : ℕ
  pub sfi_size : ℕ
  pub sv_dirty : Bool
  pub depth : ℕ

abbrev pub update : (ℕ → List ℕ) → ℕ → List ℕ → ℕ → List ℕ
update f b x i = if i == b then x else f i

-- a call on the bitmap of free blocks
abbrev pub on_freemap : {A : Type 0} → K Bitmap A → K Fs A
on_freemap m s = elim (m s.freemap) [
  | ret a b ↦ ret a (record s { freemap = b })
  | fail e b ↦ fail e (record s { freemap = b })
  | panic ↦ panic
  | fault ↦ fault
]

unfoldable pub empty_block : List ℕ
empty_block = replicate sfs_dbperidb 0

-- how often a request is made again after EIO
abbrev pub retries : ℕ
retries = 10

-- What the device does at the n-th call of DEVOP_IO: the result, 0 or an error code; whether a call that
-- fails has advanced the uio past its block, as a driver does that copies the data of a write
-- before it starts the disk; and what is in the caller's buffer after the n-th call if no read has filled
-- it. A write that fails leaves the block on the disk as it was.
pub record Disk : Type 0 where
  pub code : ℕ → ℕ
  pub used_up : ℕ → Bool
  pub buffer : ℕ → List ℕ

module _ (device : Disk) where
  -- One call of DEVOP_IO. `left` says whether the uio still has its block to move, and `again` is the
  -- retry after EIO, with the same uio. The result is whether the block was moved: a call with
  -- nothing left in the uio returns 0 and moves nothing.
  abbrev pub request : (Bool → K Fs Bool) → Bool → K Fs Bool
  request again left s =
      let t = record s { requests = s.requests + 1 } in
      let r = device.code s.requests in
      if r == einval
      then panic
      else if r == eio
      then again (left && not (device.used_up s.requests)) t
      else if r == 0
      then ret left t
      else fail r t

  -- with `n` retries left
  unfoldable pub attempts : ℕ → Bool → K Fs Bool
  attempts zero = request (λ left. throw eio)
  attempts (suc n) = request (attempts n)

  unfoldable pub sfs_rwblock : K Fs Bool
  sfs_rwblock = do λ s. kassert (ltb 0 s.depth) s; attempts retries true

  unfoldable pub sfs_readblock : ℕ → K Fs (List ℕ)
  sfs_readblock block = do
    moved ← sfs_rwblock
    λ s. ret (if moved then s.blocks block else device.buffer s.requests) s

  unfoldable pub sfs_writeblock : ℕ → List ℕ → K Fs (Unit {0})
  sfs_writeblock block data_ = do
    moved ← sfs_rwblock
    λ s. ret tt (if moved then record s { blocks = update s.blocks block data_ } else s)

  unfoldable pub sfs_clearblock : ℕ → K Fs (Unit {0})
  sfs_clearblock block = sfs_writeblock block empty_block

  unfoldable pub sfs_balloc : K Fs ℕ
  sfs_balloc = do
    diskblock ← on_freemap bitmap_alloc
    λ s. kassert (ltb diskblock s.sb_nblocks) (record s { freemapdirty = true })
    on_fail (sfs_clearblock diskblock) (on_freemap (bitmap_unmark diskblock))
    pure diskblock

  unfoldable pub sfs_bfree : ℕ → K Fs (Unit {0})
  sfs_bfree diskblock = do
    on_freemap (bitmap_unmark diskblock)
    λ s. ret tt (record s { freemapdirty = true })

  unfoldable pub sfs_bused : ℕ → K Fs Bool
  sfs_bused diskblock = do
    λ s. kassert (ltb diskblock s.sb_nblocks) s
    w ← on_freemap (bitmap_isset diskblock)
    pure (not (w == 0))

  -- the last lines of both halves of `sfs_bmap`
  abbrev pub hand_back : ℕ → K Fs ℕ
  hand_back block =
      if block == 0 then pure block else (do used ← sfs_bused block; kassert used; pure block)

  abbrev pub set_direct : ℕ → ℕ → K Fs (Unit {0})
  set_direct i block s =
      ret tt (record s { sfi_direct = set s.sfi_direct i block; sv_dirty = true })

  abbrev pub set_indirect : ℕ → K Fs (Unit {0})
  set_indirect block s = ret tt (record s { sfi_indirect = block; sv_dirty = true })

  abbrev pub direct_block : ℕ → Bool → K Fs ℕ
  direct_block fileblock doalloc = do
    block ← λ s. deref (get_elem? s.sfi_direct fileblock) s
    if block == 0 && doalloc
        then (do block ← sfs_balloc; set_direct fileblock block; hand_back block)
        else hand_back block

  -- the block at `idoff` of the indirect block `idblock`, which is in `idbuf`
  abbrev pub indirect_entry : ℕ → ℕ → Bool → List ℕ → K Fs ℕ
  indirect_entry idblock idoff doalloc idbuf = do
    block ← deref (get_elem? idbuf idoff)
    if block == 0 && doalloc
        then (do
          block ← sfs_balloc
          sfs_writeblock idblock (set idbuf idoff block)
          hand_back block)
        else hand_back block

  -- `fileblock` counts from the first block that is not direct.
  abbrev pub indirect_block : ℕ → Bool → K Fs ℕ
  indirect_block fileblock doalloc s =
      if leb sfs_nindirect (fileblock / sfs_dbperidb)
      then fail efbig s
      else if s.sfi_indirect == 0
      then if doalloc
        then (do
          idblock ← sfs_balloc
          set_indirect idblock
          indirect_entry idblock (fileblock % sfs_dbperidb) doalloc empty_block)
            s
        else ret 0 s
      else (do
        idbuf ← sfs_readblock s.sfi_indirect
        indirect_entry s.sfi_indirect (fileblock % sfs_dbperidb) doalloc idbuf)
          s

  unfoldable pub sfs_bmap : ℕ → Bool → K Fs ℕ
  sfs_bmap fileblock doalloc = do
    λ s. kassert (ltb 0 s.depth) s
    if ltb fileblock sfs_ndirect
        then direct_block fileblock doalloc
        else indirect_block (fileblock - sfs_ndirect) doalloc
