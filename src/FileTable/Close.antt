-- ===== src/FileTable/Close.antt =====
-- `file_close`: a descriptor goes, and with the last one the file.
use cs3891_asst.Base.{
  ℕ, ◌+◌, ◌≡◌, ◌≢◌, inl, inr, Option, none, some, List, arith, get_elem?, set, length-set,
  get_elem?-set, get_elem?-lt, count, count-set, ◌==◌, if◌then◌else◌, ret, fail, ebadf, sub32, ◌⊎◌,
  get_elem?-none,
}
use cs3891_asst.Vfs.{Vfs}
use cs3891_asst.FileTable.{OpenFile, FdTable, Files, file_closed, file_close}
use cs3891_asst.FileTable.Refs.{IsValid, Refers, refers, rc_at-set, rc_at-get_elem?, refs}

-- the slot of a file that has lost a reference
abbrev pub dropped : OpenFile → Option OpenFile
dropped f = if f.rc == 1 then none else some (record f { rc = sub32 f.rc 1 })

-- the state when descriptor `fd`, which refers to `f` in slot `e`, is closed
abbrev pub closed_state : {W : Type 0} → Vfs W → Files W → ℕ → ℕ → OpenFile → Files W
closed_state v s fd e f = record s {
  fd_t = set s.fd_t fd file_closed;
  openfiles = set s.openfiles e (dropped f);
  world = if f.rc == 1 then v.vfs_close f.vn s.world else s.world;
}

module _ {W : Type 0} (v : Vfs W) {others : List FdTable} {s : Files W}
    (valid : IsValid others s) where
  pub file_close-ret :
      (fd e : ℕ) (f : OpenFile)
      → get_elem? s.fd_t fd ≡ some e
      → Refers others s e f
      → file_close v fd s ≡ ret tt (closed_state v s fd e f)
  unfolding file_close
  file_close-ret fd e f at r = ground (arith, get_elem?-lt s.fd_t fd e at, valid.fd_size)

  pub closed-IsValid :
      (fd e : ℕ) (f : OpenFile)
      → get_elem? s.fd_t fd ≡ some e
      → e ≢ file_closed
      → Refers others s e f
      → IsValid others (closed_state v s fd e f)
  closed-IsValid fd e f at ne r = record {
    fd_size = omega (arith, length-set s.fd_t fd file_closed, valid.fd_size);
    of_size = omega (arith, length-set s.openfiles e (dropped f), valid.of_size);
    few = valid.few;
    counted = λ i used. ground (
      arith,
      valid.counted i used,
      r.rc,
      rc_at-get_elem? s.openfiles e (some f) r.at,
      rc_at-set s.openfiles e i (dropped f) (omega (arith, r.index, valid.of_size)),
      count-set i s.fd_t fd file_closed e at,
    );
    live = λ i g slot. ground (
      arith,
      valid.live i g,
      r.pos,
      r.small,
      get_elem?-set s.openfiles e i (dropped f) (omega (arith, r.index, valid.of_size)),
    );
  }

-- In a valid table, `file_close` of an open descriptor returns 0; the descriptor is closed, the file
-- it referred to has lost that one reference, the vnode is closed exactly when it was the
-- last one, and the table is valid again. It takes and gives back the lock, unless its caller holds it.
pub file_close-open :
    {W : Type 0} (v : Vfs W) (others : List FdTable) (s : Files W) (fd e : ℕ)
    → IsValid others s
    → get_elem? s.fd_t fd ≡ some e
    → e ≢ file_closed
    → (f : OpenFile) × (get_elem? s.openfiles e ≡ some (some f))
      × (f.rc ≡ count e s.fd_t + refs e others)
      × (file_close v fd s ≡ ret tt (closed_state v s fd e f))
      × IsValid others (closed_state v s fd e f)
file_close-open v others s fd e valid at ne =
    let (f, r) = refers valid fd e at ne in
    (f, r.at, r.rc, file_close-ret v valid fd e f at r, closed-IsValid v valid fd e f at ne r)

-- In a valid table, `file_close` of a number that is no descriptor, or of a closed descriptor,
-- returns EBADF and changes nothing.
pub file_close-ebadf :
    {W : Type 0} (v : Vfs W) (others : List FdTable) (s : Files W) (fd : ℕ)
    → IsValid others s
    → (get_elem? s.fd_t fd ≡ none) ⊎ (get_elem? s.fd_t fd ≡ some file_closed)
    → file_close v fd s ≡ fail ebadf s
unfolding file_close
file_close-ebadf v others s fd valid (inl none_there) =
    ground (arith, get_elem?-none s.fd_t fd none_there, valid.fd_size)
file_close-ebadf v others s fd valid (inr closed) =
    ground (arith, get_elem?-lt s.fd_t fd file_closed closed, valid.fd_size)
