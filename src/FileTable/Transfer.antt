-- ===== src/FileTable/Transfer.antt =====
-- `file_read` and `file_write`: what moves the offset of a file, and what does not.
use mathlib.Core.Path.{subst}
use cs3891_asst.Base.{
  ℕ, ◌+◌, ◌-◌, ◌%◌, sub64, u32_mod, ◌^◌, ◌<◌, ◌≡◌, ◌≢◌, refl, false, some, List, arith, get_elem?,
  set, length-set, get_elem?-set, ret, fail, Run, ok, err, ebadf, K, bit_and, Result,
}
use native.Mathlib.Decide.{ℕ_discrete}
use cs3891_asst.Vfs.{Vfs, Uio, Direction, reading, writing, Transfers}
use cs3891_asst.FileTable.{
  OpenFile, FdTable, Files, file_closed, o_accmode, o_rdonly, o_wronly, transfer, file_read,
  file_write,
}
use cs3891_asst.FileTable.Refs.{IsValid, Refers, refers, rc_at-set}

abbrev pub uio_of : Direction → OpenFile → ℕ → ℕ → Uio
uio_of rw f buf len = record { base = buf; offset = f.os; resid = len; rw = rw }

-- the state in which file `f` of slot `e` has offset `os`
abbrev pub moved_state : {W : Type 0} → Files W → ℕ → OpenFile → ℕ → W → Files W
moved_state s e f os w = record s {
  openfiles = set s.openfiles e (some (record f { os = os }));
  world = w;
}

module _ {W : Type 0} {others : List FdTable} {s : Files W} (valid : IsValid others s) where
  pub moved-IsValid :
      (e : ℕ) (f : OpenFile) (os : ℕ) (w : W)
      → Refers others s e f
      → IsValid others (moved_state s e f os w)
  moved-IsValid e f os w r = record {
    fd_size = valid.fd_size;
    of_size = omega (arith, length-set s.openfiles e (some (record f { os = os })), valid.of_size);
    few = valid.few;
    counted = λ j used. ground (
      arith,
      valid.counted j used,
      r.rc,
      rc_at-set s.openfiles e j (some (record f { os = os }))
          (omega (arith, r.index, valid.of_size)),
    );
    live = λ j g slot. ground (
      arith,
      valid.live j g,
      r.pos,
      get_elem?-set s.openfiles e j (some (record f { os = os }))
          (omega (arith, r.index, valid.of_size)),
    );
  }

transfer-advances :
    {W : Type 0} (others : List FdTable) (s : Files W) (op : ℕ → Uio → W → Result Uio × W)
    (rw : Direction) (refused fd e buf len : ℕ) (f : OpenFile) (u : Uio) (w : W)
    → IsValid others s
    → s.held ≡ false
    → Transfers op
    → get_elem? s.fd_t fd ≡ some e
    → e ≢ file_closed
    → get_elem? s.openfiles e ≡ some (some f)
    → bit_and f.am o_accmode ≢ refused
    → f.os + len < 2 ^ 63
    → len < 2 ^ 31
    → op f.vn (uio_of rw f buf len) s.world ≡ (ok u, w)
    → (n : ℕ) × (n + u.resid ≡ len)
      × (transfer op rw refused fd buf len s ≡ ret n (moved_state s e f (f.os + n) w))
      × IsValid others (moved_state s e f (f.os + n) w)
unfolding transfer
transfer-advances others s op rw refused fd e buf len f u w valid free law at ne slot allowed small
      short run =
    let (g, r) = refers valid fd e at ne in
    let m = law.moves f.vn (uio_of rw f buf len) u s.world w run in
    let same : g ≡ f = ground (arith, r.at) in
    let moved : u.offset ≡ f.os + (len - u.resid) = omega arith in
    (
      len - u.resid,
      omega arith,
      ground (arith, r.index),
      moved-IsValid valid e f (f.os + (len - u.resid)) w (subst (Refers others s e) same r),
    )

-- The outcomes of a transfer on descriptor `fd`, whose entry is `e`.
pub data Transferred {W : Type 0} (others : List FdTable) (s : Files W)
    (op : ℕ → Uio → W → Result Uio × W) (rw : Direction) (refused e buf len : ℕ)
    : Run (Files W) ℕ → Type 0 where
  closed_fd : e ≡ file_closed → Transferred others s op rw refused e buf len (fail ebadf s)
  wrong_mode :
      (f : OpenFile)
      → get_elem? s.openfiles e ≡ some (some f)
      → bit_and f.am o_accmode ≡ refused
      → Transferred others s op rw refused e buf len (fail ebadf s)
  op_failed :
      (f : OpenFile) (code : ℕ) (w : W)
      → get_elem? s.openfiles e ≡ some (some f)
      → bit_and f.am o_accmode ≢ refused
      → op f.vn (uio_of rw f buf len) s.world ≡ (err code, w)
      → Transferred others s op rw refused e buf len (fail code (record s { world = w }))
  transferred :
      (f : OpenFile) (u : Uio) (w : W)
      → get_elem? s.openfiles e ≡ some (some f)
      → bit_and f.am o_accmode ≢ refused
      → op f.vn (uio_of rw f buf len) s.world ≡ (ok u, w)
      → IsValid others (moved_state s e f u.offset w)
      → Transferred others s op rw refused e buf len
          (ret (sub64 u.offset f.os % u32_mod) (moved_state s e f u.offset w))

module _ {W : Type 0} {others : List FdTable} {s : Files W} (valid : IsValid others s)
    (op : ℕ → Uio → W → Result Uio × W) (rw : Direction) (refused fd e buf len : ℕ)
    (free : s.held ≡ false) (at : get_elem? s.fd_t fd ≡ some e) where
  allowed-Transferred :
      (f : OpenFile) (res : Result Uio) (w : W)
      → Refers others s e f
      → bit_and f.am o_accmode ≢ refused
      → op f.vn (uio_of rw f buf len) s.world ≡ (res, w)
      → Transferred others s op rw refused e buf len (transfer op rw refused fd buf len s)
  unfolding transfer
  allowed-Transferred f (ok u) w r ne run =
      subst (Transferred others s op rw refused e buf len) (ground (arith, r.index, r.at))
        (transferred f u w r.at ne run (moved-IsValid valid e f u.offset w r))
  allowed-Transferred f (err code) w r ne run =
      subst (Transferred others s op rw refused e buf len) (ground (arith, r.index, r.at))
        (op_failed f code w r.at ne run)

  open-Transferred :
      e ≢ file_closed
      → Transferred others s op rw refused e buf len (transfer op rw refused fd buf len s)
  unfolding transfer
  open-Transferred ne =
      let (f, r) = refers valid fd e at ne in
      elim (ℕ_discrete (bit_and f.am o_accmode) refused) [
        | yes same ↦
            subst (Transferred others s op rw refused e buf len) (ground (arith, r.index, r.at))
              (wrong_mode f r.at same)
        | no differs ↦
            let out = op f.vn (uio_of rw f buf len) s.world in
            allowed-Transferred f out.0 out.1 r differs refl
      ]

transfer-Transferred :
    {W : Type 0} (others : List FdTable) (s : Files W) (op : ℕ → Uio → W → Result Uio × W)
    (rw : Direction) (refused fd e buf len : ℕ)
    → IsValid others s
    → s.held ≡ false
    → get_elem? s.fd_t fd ≡ some e
    → Transferred others s op rw refused e buf len (transfer op rw refused fd buf len s)
unfolding transfer
transfer-Transferred others s op rw refused fd e buf len valid free at =
    elim (ℕ_discrete e file_closed) [
      | yes closed ↦
          subst (Transferred others s op rw refused e buf len) (ground arith) (closed_fd closed)
      | no ne ↦ open-Transferred valid op rw refused fd e buf len free at ne
    ]

-- The call, the vnode operation and the access mode of each direction.
module _ {W : Type 0} (v : Vfs W) where
  abbrev pub file_io : Direction → ℕ → ℕ → ℕ → K (Files W) ℕ
  file_io reading = file_read v
  file_io writing = file_write v

  abbrev pub operation : Direction → ℕ → Uio → W → Result Uio × W
  operation reading = v.vop_read
  operation writing = v.vop_write

abbrev pub refused_mode : Direction → ℕ
refused_mode reading = o_wronly
refused_mode writing = o_rdonly

-- In a valid table whose lock is free, `file_read` and `file_write` on a descriptor each have one of four
-- outcomes, where the operation is VOP_READ for `file_read` and VOP_WRITE for `file_write`, on a uio of
-- that direction: EBADF and no change, if the descriptor is closed or if its file is open only for
-- the other direction; the error of the operation, the offset unchanged; or the
-- difference of the offsets as the count, the new offset stored, and a valid table. It never
-- panics or faults, and gives back the lock.
pub file_io-Transferred :
    {W : Type 0} (v : Vfs W) (rw : Direction) (others : List FdTable) (s : Files W)
    (fd e buf len : ℕ)
    → IsValid others s
    → s.held ≡ false
    → get_elem? s.fd_t fd ≡ some e
    → Transferred others s
        (operation v rw)
        rw
        (refused_mode rw)
        e
        buf
        len
        (file_io v rw fd buf len s)
unfolding file_read file_write
file_io-Transferred v reading others s fd e buf len valid free at =
    transfer-Transferred others s v.vop_read reading o_wronly fd e buf len valid free at
file_io-Transferred v writing others s fd e buf len valid free at =
    transfer-Transferred others s v.vop_write writing o_rdonly fd e buf len valid free at

-- In a valid table whose lock is free, `file_read` (or `file_write`) on a file that is not open only for the
-- other direction, where VOP_READ (or VOP_WRITE) succeeds as vnode.h documents it and the
-- offset stays below 2^63: the result is the number of bytes moved, at most the length asked for, which
-- is below 2^31; the offset grows by it; the table is valid.
pub file_io-advances :
    {W : Type 0} (v : Vfs W) (rw : Direction) (others : List FdTable) (s : Files W)
    (fd e buf len : ℕ) (f : OpenFile) (u : Uio) (w : W)
    → IsValid others s
    → s.held ≡ false
    → Transfers (operation v rw)
    → get_elem? s.fd_t fd ≡ some e
    → e ≢ file_closed
    → get_elem? s.openfiles e ≡ some (some f)
    → bit_and f.am o_accmode ≢ refused_mode rw
    → f.os + len < 2 ^ 63
    → len < 2 ^ 31
    → operation v rw f.vn (uio_of rw f buf len) s.world ≡ (ok u, w)
    → (n : ℕ) × (n + u.resid ≡ len)
      × (file_io v rw fd buf len s ≡ ret n (moved_state s e f (f.os + n) w))
      × IsValid others (moved_state s e f (f.os + n) w)
unfolding file_read file_write
file_io-advances v reading others s = transfer-advances others s v.vop_read reading o_wronly
file_io-advances v writing others s = transfer-advances others s v.vop_write writing o_rdonly
