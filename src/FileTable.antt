-- ===== src/FileTable.antt =====
-- kern/syscall/file.c and kern/include/file.h: the descriptor table of each process and the
-- open file table that all processes share. A syscall runs to its end before another one starts:
-- what precedes `lock_acquire` touches only the table of the calling process, and all else runs
-- under the lock. `kmalloc` succeeds or not by the argument `alloc`.
pub mod Init
pub mod Refs
pub mod Close
pub mod Open
pub mod Transfer
pub mod Destroy
use cs3891_asst.Base.{
  ℕ, zero, suc, ◌+◌, ◌≡◌, Bool, true, false, not, ◌||◌, Option, none, some, List, [], ◌∷◌, Result,
  ok, err, Run, ret, fail, panic, fault, K, pure, throw, ◌>>=◌, ◌>>◌, kassert, deref, on_fail,
  ignore, bit_and, get_elem?, set, replicate, ◌==◌, leb, if◌then◌else◌, neg32, add32, sub32, sub64,
  minus_one, u32_mod, ◌%◌, enomem, emfile, ebadf,
}
use cs3891_asst.Base.Scan.{scan}
use cs3891_asst.Vfs.{Vfs, Uio, Direction, reading, writing}

abbrev pub open_max : ℕ
open_max = 32

abbrev pub pid_max : ℕ
pid_max = 32767

abbrev pub file_closed : ℕ
file_closed = minus_one

abbrev pub o_rdonly : ℕ
o_rdonly = 0

abbrev pub o_wronly : ℕ
o_wronly = 1

abbrev pub o_accmode : ℕ
o_accmode = 3

-- `struct open_file`: vnode, access mode, reference count and offset
pub record OpenFile : Type 0 where
  pub vn : ℕ
  pub am : ℕ
  pub rc : ℕ
  pub os : ℕ

-- `fd_entries` of a `struct fd_table`
abbrev pub FdTable : Type 0
FdTable = List ℕ

-- What the calling process sees: its descriptors, the open files, whether its thread holds `oft_l`,
-- and the world behind the VFS. An `open_file` has one slot for its whole life, so it stands there.
pub record Files (W : Type 0) : Type 0 where
  pub fd_t : FdTable
  pub openfiles : List (Option OpenFile)
  pub held : Bool
  pub world : W

module _ {W : Type 0} where
  abbrev pub lock_do_i_hold : K (Files W) Bool
  lock_do_i_hold s = ret s.held s

  abbrev pub lock_acquire : K (Files W) (Unit {0})
  lock_acquire s = if s.held then panic else ret tt (record s { held = true })

  abbrev pub lock_release : K (Files W) (Unit {0})
  lock_release s = if s.held then ret tt (record s { held = false }) else panic

  -- `fd_entries[fd]`
  abbrev pub fd_entry : ℕ → K (Files W) ℕ
  fd_entry fd s = deref (get_elem? s.fd_t fd) s

  abbrev pub set_fd : ℕ → ℕ → K (Files W) (Unit {0})
  set_fd fd e s = ret tt (record s { fd_t = set s.fd_t fd e })

  -- `openfiles[i]`, which may be NULL
  abbrev pub open_file : ℕ → K (Files W) (Option OpenFile)
  open_file i s = deref (get_elem? s.openfiles i) s

  abbrev pub set_file : ℕ → Option OpenFile → K (Files W) (Unit {0})
  set_file i f s = ret tt (record s { openfiles = set s.openfiles i f })

  -- A call across the VFS interface: its value or error, and the world after it.
  abbrev pub call : {A : Type 0} → (W → Result A × W) → K (Files W) A
  call op s =
      let (r, w) = op s.world in
      elim r [ ok a ↦ ret a (record s { world = w }) | err e ↦ fail e (record s { world = w }) ]

-- `of_entry < 0 || of_entry >= OPEN_MAX`, on an `int`
abbrev pub bad_index : ℕ → Bool
bad_index e = neg32 e || leb open_max e

abbrev pub is_closed : ℕ → Bool
is_closed e = e == file_closed

abbrev pub is_null : Option OpenFile → Bool
is_null none = true
is_null (some f) = false

module _ {W : Type 0} where
  -- The common part of `file_read` and `file_write`, which differ in the vnode operation, in the
  -- direction of the uio, and in the mode that they refuse. The result is the count that goes through `sz`, an `int`.
  unfoldable pub transfer :
      (ℕ → Uio → W → Result Uio × W) → Direction → ℕ → ℕ → ℕ → ℕ → K (Files W) ℕ
  transfer op rw refused fd buf len = do
    of_entry ← fd_entry fd
    if bad_index of_entry then throw ebadf else do
      lock_acquire
      slot ← open_file of_entry
      elim slot [
        | none ↦ do lock_release; throw ebadf
        | some of ↦
            if bit_and of.am o_accmode == refused then (do lock_release; throw ebadf) else do
              uio ←
                  on_fail
                    (call (op of.vn (record { base = buf; offset = of.os; resid = len; rw = rw })))
                    lock_release
              set_file of_entry (some (record of { os = uio.offset }))
              lock_release
              pure (sub64 uio.offset of.os % u32_mod)
      ]

module _ {W : Type 0} (v : Vfs W) where
  abbrev close_vnode : ℕ → K (Files W) (Unit {0})
  close_vnode vn s = ret tt (record s { world = v.vfs_close vn s.world })

  -- `file_open` from the check for a full table on
  unfoldable pub install : Bool → ℕ → ℕ → ℕ → ℕ → K (Files W) ℕ
  install alloc vn flags fd of =
      if fd == minus_one || of == minus_one
      then (do close_vnode vn; lock_release; throw emfile)
      else if not alloc
      then (do close_vnode vn; lock_release; throw enomem)
      else do
        set_fd fd of
        set_file of (some (record { vn = vn; am = flags; rc = 1; os = 0 }))
        lock_release
        pure fd

  -- The result is the descriptor that goes through `fd_ret`.
  unfoldable pub file_open : Bool → List ℕ → ℕ → ℕ → K (Files W) ℕ
  file_open alloc filename flags mode = do
    vn ← call (v.vfs_open filename flags mode)
    lock_acquire
    fd ← (λ s. deref (scan is_closed open_max 0 s.fd_t) s)
    of ← (λ s. deref (scan is_null open_max 0 s.openfiles) s)
    install alloc vn flags fd of

  unfoldable pub file_read : ℕ → ℕ → ℕ → K (Files W) ℕ
  unfolding transfer
  file_read = transfer v.vop_read reading o_wronly

  unfoldable pub file_write : ℕ → ℕ → ℕ → K (Files W) ℕ
  unfolding transfer
  file_write = transfer v.vop_write writing o_rdonly

  -- the last reference, or one of several
  unfoldable pub drop_reference : ℕ → OpenFile → K (Files W) (Unit {0})
  drop_reference i of =
      if of.rc == 1
      then (do close_vnode of.vn; set_file i none)
      else set_file i (some (record of { rc = sub32 of.rc 1 }))

  unfoldable pub file_close : ℕ → K (Files W) (Unit {0})
  unfolding drop_reference
  file_close fd = if bad_index fd then throw ebadf else do
    of_entry ← fd_entry fd
    if bad_index of_entry then throw ebadf else do
      sys_called ← lock_do_i_hold
      if sys_called then pure tt else lock_acquire
      slot ← open_file of_entry
      elim slot [
        | none ↦ do lock_release; throw ebadf
        | some of ↦ do
          set_fd fd file_closed
          drop_reference of_entry of
          if sys_called then pure tt else lock_release
      ]

  -- `n` rounds of the loop of `file_table_destroy`, from descriptor `i` on
  unfoldable pub close_from : ℕ → ℕ → K (Files W) (Unit {0})
  close_from zero i = pure tt
  close_from (suc n) i = do
    e ← fd_entry i
    if is_closed e then pure tt else ignore (file_close i)
    close_from n (i + 1)

  unfoldable pub file_table_destroy : K (Files W) (Unit {0})
  file_table_destroy = close_from pid_max 0
