-- ===== src/FileSyscalls.antt =====
-- kern/syscall/file_syscalls.c: the file system calls over the open file table, and the part of
-- `sys_fork` (kern/syscall/proc_syscalls.c) that shares the open files with the child.
pub mod Dup
pub mod Seek
pub mod Share
pub mod Safety
pub mod Reach
use cs3891_asst.Base.{
  ℕ, zero, suc, ◌+◌, Bool, true, false, ◌||◌, ◌&&◌, not, Option, none, some, List, Result, Run, ret,
  fail, K, pure, throw, ◌>>=◌, ◌>>◌, deref, on_fail, ignore, get_elem?, ◌==◌, if◌then◌else◌, neg64,
  add32, add64, ebadf, einval, espipe,
}
use cs3891_asst.Vfs.{Vfs}
use cs3891_asst.FileTable.{
  OpenFile, FdTable, Files, open_max, bad_index, is_closed, lock_acquire, lock_release, fd_entry,
  set_fd, open_file, set_file, call, file_open, file_read, file_write, file_close,
}

abbrev pub seek_set : ℕ
seek_set = 0

abbrev pub seek_cur : ℕ
seek_cur = 1

abbrev pub seek_end : ℕ
seek_end = 2

module _ {W : Type 0} (v : Vfs W) where
  -- `copyinstr` brings the path in; it fails with the code that it gives.
  unfoldable pub sys_open : (ℕ → W → Result (List ℕ) × W) → Bool → ℕ → ℕ → ℕ → K (Files W) ℕ
  sys_open copyinstr alloc filename flags mode = do
    fn ← call (copyinstr filename)
    file_open v alloc fn flags mode

  unfoldable pub sys_write : ℕ → ℕ → ℕ → K (Files W) ℕ
  sys_write fd buf nbytes = if bad_index fd then throw ebadf else file_write v fd buf nbytes

  unfoldable pub sys_read : ℕ → ℕ → ℕ → K (Files W) ℕ
  sys_read fd buf buflen = if bad_index fd then throw ebadf else file_read v fd buf buflen

  unfoldable pub sys_dup2 : ℕ → ℕ → K (Files W) ℕ
  sys_dup2 oldfd newfd =
      if bad_index oldfd || bad_index newfd
      then throw ebadf
      else if oldfd == newfd
      then pure newfd
      else do
        lock_acquire
        old_of ← fd_entry oldfd
        new_of ← fd_entry newfd
        if is_closed old_of then (do lock_release; throw ebadf) else do
          slot ← open_file old_of
          of ← deref slot
          set_file old_of (some (record of { rc = add32 of.rc 1 }))
          if is_closed new_of then pure tt else ignore (file_close v newfd)
          lock_release
          e ← fd_entry oldfd
          set_fd newfd e
          pure newfd

  unfoldable pub sys_close : ℕ → K (Files W) (Unit {0})
  sys_close = file_close v

  -- the new offset, before the check of its sign
  unfoldable pub seek_target : OpenFile → ℕ → ℕ → K (Files W) ℕ
  seek_target of pos whence =
      if whence == seek_set
      then pure pos
      else if whence == seek_cur
      then pure (add64 of.os pos)
      else do size ← on_fail (call (v.vop_stat of.vn)) lock_release; pure (add64 pos size)

  unfoldable pub sys_lseek : ℕ → ℕ → ℕ → K (Files W) ℕ
  unfolding seek_target
  sys_lseek fd pos whence =
      if bad_index fd
      then throw ebadf
      else if not (whence == seek_set || whence == seek_cur || whence == seek_end)
      then throw einval
      else do
        of_index ← fd_entry fd
        if is_closed of_index then throw ebadf else do
          lock_acquire
          slot ← open_file of_index
          of ← deref slot
          seekable ← (λ s. ret (v.vop_isseekable of.vn s.world) s)
          if seekable == 0 then (do lock_release; throw espipe) else do
            os ← seek_target of pos whence
            set_file of_index (some (record of { os = os }))
            if neg64 os
                then (do set_file of_index (some of); lock_release; throw einval)
                else do lock_release; pure os

-- `sys_fork` after it has copied the descriptor table: one more reference for every entry that is
-- not closed. `fd_t` is the child's table, and `n` rounds are left from descriptor `i` on.
module _ {W : Type 0} where
  unfoldable pub share_entry : ℕ → K (Files W) (Unit {0})
  share_entry ofd = if is_closed ofd then pure tt else do
    lock_acquire
    slot ← open_file ofd
    of ← deref slot
    set_file ofd (some (record of { rc = add32 of.rc 1 }))
    lock_release

  unfoldable pub share_from : FdTable → ℕ → ℕ → K (Files W) (Unit {0})
  share_from fd_t zero i = pure tt
  share_from fd_t (suc n) i = do
    ofd ← deref (get_elem? fd_t i)
    share_entry ofd
    share_from fd_t n (i + 1)
