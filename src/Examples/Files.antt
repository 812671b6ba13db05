-- ===== src/Examples/Files.antt =====
-- The open file table over a device that moves at most five bytes at a time.
use Prim.Native.Nat.{min}
use cs3891_asst.Base.{
  ℕ, ◌+◌, ◌-◌, ◌^◌, ◌<◌, ◌≡◌, refl, true, false, none, some, List, [], ◌∷◌, arith, get_elem?, set,
  Result, ok, ret, fault, count,
}
use cs3891_asst.Base.Scan.{Found, scan}
use cs3891_asst.Vfs.{Vfs, Uio, reading, writing, Transfers}
use cs3891_asst.FileTable
use cs3891_asst.FileTable.{
  OpenFile, FdTable, open_max, file_closed, is_closed, is_null, file_open, install, file_close,
  transfer, file_read, close_from, file_table_destroy, drop_reference,
}
use cs3891_asst.FileTable.Refs.{IsValid, refs}
use cs3891_asst.FileTable.Close.{closed_state, file_close-open}
use cs3891_asst.FileTable.Open.{opened_state, opened-IsValid, Opened, file_open-Opened}
use cs3891_asst.FileTable.Transfer.{
  moved_state, Transferred, file_io, operation, refused_mode, file_io-Transferred, file_io-advances,
}
use cs3891_asst.FileTable.Destroy.{close_from-closes, file_table_destroy-fault}
use cs3891_asst.FileSyscalls.{sys_open, sys_dup2, sys_lseek, share_from}
use cs3891_asst.FileSyscalls.Dup.{sys_dup2-shares}
use cs3891_asst.FileSyscalls.Seek.{Sought, sys_lseek-Sought}
use cs3891_asst.FileSyscalls.Share.{share_from-copy}
use cs3891_asst.FileSyscalls.Safety.{Call, dup2s, Safe, perform, perform-Safe}
use cs3891_asst.FileSyscalls.Reach.{
  empty_files, empty_files-IsValid, Reach, start, later, calls, Inv, Reach-Inv,
}

abbrev Table : Type 0
Table = FileTable.Files (Unit {0})

abbrev five_bytes : ℕ → Uio → Unit {0} → Result Uio × Unit {0}
five_bytes vn u w =
    (ok (record u { offset = u.offset + min 5 u.resid; resid = u.resid - min 5 u.resid }), w)

abbrev device : Vfs (Unit {0})
device = record {
  vfs_open = λ path flags mode w. (ok 7, w);
  vfs_close = λ vn w. w;
  vop_read = five_bytes;
  vop_write = five_bytes;
  vop_isseekable = λ vn w. 1;
  vop_stat = λ vn w. (ok 100, w);
}

abbrev read_path : ℕ → Unit {0} → Result (List ℕ) × Unit {0}
read_path addr w = (ok [], w)

five_bytes-Transfers : Transfers five_bytes
five_bytes-Transfers = record { moves = λ vn u u' w w' e. ground arith }

first_fd : Found is_closed (empty_files tt).fd_t 0 open_max 0
first_fd = record {
  above = omega arith;
  below = omega arith;
  slot = file_closed;
  at = refl;
  is_free = refl;
  before = λ k a h lt _. absurd (omega arith);
}

first_slot : Found is_null (empty_files tt).openfiles 0 open_max 0
first_slot = record {
  above = omega arith;
  below = omega arith;
  slot = none;
  at = refl;
  is_free = refl;
  before = λ k a h lt _. absurd (omega arith);
}

-- Descriptor 0 is open for reading and writing, at offset 0.
abbrev one_file : Table
one_file = opened_state (empty_files tt) tt 7 2 0 0

one_file-IsValid : IsValid [] one_file
one_file-IsValid = opened-IsValid (empty_files-IsValid tt) tt 7 2 0 0 first_fd first_slot

abbrev the_file : OpenFile
the_file = record { vn = 7; am = 2; rc = 1; os = 0 }

reads_five : file_read device 0 4096 100 one_file ≡ ret 5 (moved_state one_file 0 the_file 5 tt)
unfolding file_read transfer
reads_five = refl

file_open-Opened_example :
    Opened device [] (empty_files tt) tt true 7 2 (file_open device true [] 2 0 (empty_files tt))
file_open-Opened_example =
    file_open-Opened device [] (empty_files tt) true [] 2 0 7 tt (empty_files-IsValid tt) refl refl

file_close-open_example :
    (f : OpenFile) × (get_elem? one_file.openfiles 0 ≡ some (some f))
    × (f.rc ≡ count 0 one_file.fd_t + refs 0 [])
    × (file_close device 0 one_file ≡ ret tt (closed_state device one_file 0 0 f))
    × IsValid [] (closed_state device one_file 0 0 f)
file_close-open_example = file_close-open device [] one_file 0 0 one_file-IsValid refl (omega arith)

file_io-advances_example :
    (n : ℕ) × (n + 95 ≡ 100)
    × (file_io device reading 0 4096 100 one_file
        ≡ ret n (moved_state one_file 0 the_file (0 + n) tt))
    × IsValid [] (moved_state one_file 0 the_file (0 + n) tt)
file_io-advances_example =
    file_io-advances device reading [] one_file 0 0 4096 100 the_file
      (record { base = 4096; offset = 5; resid = 95; rw = reading }) tt one_file-IsValid refl
      five_bytes-Transfers refl (omega arith) refl (omega arith) (omega arith) (omega arith) refl

file_io-Transferred_example :
    Transferred [] one_file
      (operation device writing)
      writing
      (refused_mode writing)
      0
      4096
      100
      (file_io device writing 0 4096 100 one_file)
file_io-Transferred_example =
    file_io-Transferred device writing [] one_file 0 0 4096 100 one_file-IsValid refl refl

close_from-closes_example :
    (t : Table) × (close_from device open_max 0 one_file ≡ ret tt t)
    × IsValid [] t
    × (t.held ≡ false)
    × ((j : ℕ) → j < open_max → get_elem? t.fd_t j ≡ some file_closed)
close_from-closes_example = close_from-closes device [] one_file one_file-IsValid refl

file_table_destroy-fault_example : file_table_destroy device one_file ≡ fault
file_table_destroy-fault_example = file_table_destroy-fault device [] one_file one_file-IsValid refl

no_others : (j : ℕ) → refs j [] + 64 < 2 ^ 30
no_others j = omega arith

sys_dup2-shares_example :
    (t : Table) × (sys_dup2 device 0 4 one_file ≡ ret 4 t)
    × IsValid [] t
    × (t.held ≡ false)
    × (t.fd_t ≡ set one_file.fd_t 4 0)
sys_dup2-shares_example =
    sys_dup2-shares device [] one_file 0 4 0 one_file-IsValid refl (omega arith) (omega arith)
      (omega arith) refl (omega arith) (omega arith)

sys_lseek-Sought_example : Sought device [] one_file 0 20 2 (sys_lseek device 0 20 2 one_file)
sys_lseek-Sought_example =
    sys_lseek-Sought device [] one_file 0 0 20 2 one_file-IsValid refl (omega arith) refl

share_from-copy_example :
    (t : Table) × (share_from one_file.fd_t open_max 0 one_file ≡ ret tt t)
    × IsValid (one_file.fd_t ∷ []) t
    × (t.held ≡ false)
    × (t.fd_t ≡ one_file.fd_t)
share_from-copy_example = share_from-copy [] one_file one_file-IsValid refl no_others

no_refs : (e : ℕ) → refs e [] < 2 ^ 30
no_refs e = omega arith

perform-Safe_example : Safe [] (perform device read_path (dup2s 0 1) one_file)
perform-Safe_example =
    perform-Safe device read_path [] one_file (dup2s 0 1) one_file-IsValid refl no_refs

-- After one `open` of a process that starts with empty tables.
open_reached : Reach device read_path tt (record { others = []; files = one_file })
unfolding perform sys_open file_open install scan
open_reached = later start (calls (Call.opens true 0 2 0) refl)

Reach-Inv_example : Inv (record { others = []; files = one_file })
Reach-Inv_example = Reach-Inv device read_path open_reached
