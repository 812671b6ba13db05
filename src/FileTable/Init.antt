-- ===== src/FileTable/Init.antt =====
-- `file_table_init` of kern/syscall/file.c, which gives the calling process its three standard
-- descriptors. `made` says whether `of_t` is other than NULL, and `alloc i` whether the i-th
-- allocation of the call succeeds.
use cs3891_asst.Base.{
  ℕ, Bool, false, not, none, List, [], ret, K, pure, throw, ◌>>◌, on_fail, replicate, if◌then◌else◌,
  enomem,
}
use cs3891_asst.Vfs.{Vfs}
use cs3891_asst.FileTable.{FdTable, Files, open_max, file_closed, o_rdonly, o_wronly, file_open}

module _ {W : Type 0} (v : Vfs W) (alloc : ℕ → Bool) where
  -- The global table, empty. Where its lock cannot be made, the C leaves a table without contents;
  -- here the old one stays.
  abbrev make_table : Bool → K (Files W) (Unit {0})
  make_table made =
      if made
      then pure tt
      else if not (alloc 0)
      then throw enomem
      else if not (alloc 1)
      then throw enomem
      else λ s. ret tt (record s { openfiles = replicate open_max none; held = false })

  abbrev set_table : FdTable → K (Files W) (Unit {0})
  set_table t s = ret tt (record s { fd_t = t })

  -- On an error `fd_t` is freed, and the pointer to it stays.
  abbrev open_standard : Bool → List ℕ → ℕ → K (Files W) ℕ
  open_standard a path flags = on_fail (file_open v a path flags 0) (set_table [])

  unfoldable pub file_table_init : Bool → List ℕ → List ℕ → List ℕ → K (Files W) (Unit {0})
  file_table_init made stdin_path stdout_path stderr_path = do
    make_table made
    set_table []
    if not (alloc 2) then throw enomem else do
      set_table (replicate open_max file_closed)
      open_standard (alloc 3) stdin_path o_rdonly
      open_standard (alloc 4) stdout_path o_wronly
      open_standard (alloc 5) stderr_path o_wronly
      pure tt
