-- ===== src/Vfs.antt =====
-- The VFS layer as the open file table calls it (kern/include/vfs.h, kern/include/vnode.h):
-- a record of operations over the state `W` of file systems, devices and user memory. A vnode is an
-- address. The vnode operations are called through a table of function pointers, one for each
-- kind of file system, so they are left open here.
use cs3891_asst.Base.{ℕ, ◌+◌, ◌≤◌, ◌≡◌, List, Result, ok}

-- UIO_READ and UIO_WRITE
pub data Direction : Type 0 where
  reading : Direction
  writing : Direction

-- `struct uio` over one user buffer, and the direction of the transfer
pub record Uio : Type 0 where
  pub base : ℕ
  pub offset : ℕ
  pub resid : ℕ
  pub rw : Direction

pub record Vfs (W : Type 0) : Type 0 where
  -- path, flags, mode
  pub vfs_open : List ℕ → ℕ → ℕ → W → Result ℕ × W
  pub vfs_close : ℕ → W → W
  -- the transfer returns the uio as it left it
  pub vop_read : ℕ → Uio → W → Result Uio × W
  pub vop_write : ℕ → Uio → W → Result Uio × W
  pub vop_isseekable : ℕ → W → ℕ
  -- the `st_size` of VOP_STAT
  pub vop_stat : ℕ → W → Result ℕ × W

-- What vnode.h documents of a transfer: it moves the offset on by the number of bytes by which
-- it reduces the residual count, and never moves more than was asked for.
pub record Transfers {W : Type 0} (op : ℕ → Uio → W → Result Uio × W) : Type 0 where
  pub moves :
      (vn : ℕ) (u u' : Uio) (w w' : W)
      → op vn u w ≡ (ok u', w')
      → (u'.resid ≤ u.resid) × (u'.offset + u'.resid ≡ u.offset + u.resid)
