-- ===== src/Sfs/Truncate.antt =====
-- `sfs_itrunc` of kern/fs/sfs/sfs_bmap.c.
use cs3891_asst.Base.{
  ℕ, zero, suc, ◌+◌, ◌-◌, ◌/◌, ◌%◌, ◌^◌, ◌==◌, ltb, leb, if◌then◌else◌, Bool, true, false, not,
  ◌&&◌, ◌||◌, List, ret, K, pure, ◌>>=◌, ◌>>◌, deref, get_elem?, set, on_fail, kassert,
}
use cs3891_asst.Sfs.{
  Disk, Fs, sfs_blocksize, sfs_ndirect, sfs_dbperidb, sfs_bfree, sfs_readblock, sfs_writeblock,
  set_direct, set_indirect,
}

-- `DIVROUNDUP(len, SFS_BLOCKSIZE)`, kept in 32 bits
abbrev pub blocks_for : ℕ → ℕ
blocks_for len = (len + (sfs_blocksize - 1)) / sfs_blocksize % 2 ^ 32

abbrev pub biglock_acquire : K Fs (Unit {0})
biglock_acquire s = ret tt (record s { depth = s.depth + 1 })

abbrev pub biglock_release : K Fs (Unit {0})
biglock_release = do λ s. kassert (ltb 0 s.depth) s; λ s. ret tt (record s { depth = s.depth - 1 })

-- the words of the indirect block, and whether it has a block left, and whether it was changed
pub record Scanned : Type 0 where
  pub idbuf : List ℕ
  pub hasnonzero : Bool
  pub iddirty : Bool

module _ (device : Disk) (blocklen : ℕ) where
  -- `n` rounds from direct block `i` on
  unfoldable pub free_direct : ℕ → ℕ → K Fs (Unit {0})
  free_direct zero i = pure tt
  free_direct (suc n) i = do
    block ← λ s. deref (get_elem? s.sfi_direct i) s
    if leb blocklen i && not (block == 0)
        then (do sfs_bfree device block; set_direct device i 0)
        else pure tt
    free_direct n (i + 1)

  -- `n` rounds from word `j` on
  unfoldable pub free_entries : ℕ → ℕ → Scanned → K Fs Scanned
  free_entries zero j c = pure c
  free_entries (suc n) j c = do
    block ← deref (get_elem? c.idbuf j)
    if ltb blocklen (sfs_ndirect + j) && not (block == 0)
        then (do
          sfs_bfree device block
          free_entries n (j + 1) (record c { idbuf = set c.idbuf j 0; iddirty = true }))
        else free_entries n (j + 1) (record c { hasnonzero = c.hasnonzero || not (block == 0) })

  abbrev pub put_back : ℕ → Scanned → K Fs (Unit {0})
  put_back idblock c =
      if not c.hasnonzero
      then (do sfs_bfree device idblock; set_indirect device 0)
      else if c.iddirty
      then sfs_writeblock device idblock c.idbuf
      else pure tt

  abbrev pub trim_indirect : K Fs (Unit {0})
  trim_indirect s =
      if ltb blocklen (sfs_ndirect + sfs_dbperidb - 1) && not (s.sfi_indirect == 0)
      then (do
        idbuf ← sfs_readblock device s.sfi_indirect
        c ←
            free_entries sfs_dbperidb 0
              (record { idbuf = idbuf; hasnonzero = false; iddirty = false })
        put_back s.sfi_indirect c)
          s
      else ret tt s

-- `sfi_size` is a uint32_t.
abbrev pub set_size : ℕ → K Fs (Unit {0})
set_size len s = ret tt (record s { sfi_size = len % 2 ^ 32; sv_dirty = true })

module _ (device : Disk) where
  unfoldable pub sfs_itrunc : ℕ → K Fs (Unit {0})
  sfs_itrunc len = do
    biglock_acquire
    free_direct device (blocks_for len) sfs_ndirect 0
    on_fail (trim_indirect device (blocks_for len)) biglock_release
    set_size len
    biglock_release
