-- ===== src/FileSyscalls/Safety.antt =====
-- Any file system call, with any arguments: it returns, and leaves a valid table with a free lock.
use mathlib.Core.Path.{subst}
use native.Mathlib.Decide.{ℕ_discrete, dec_lt}
use cs3891_asst.Base.{
  ℕ, ◌^◌, ◌<◌, ◌≡◌, ◌≢◌, refl, sym, ap, ◌∙◌, inl, inr, Bool, false, some, List, arith, get_elem?,
  get_elem?-some, Result, ok, err, ret, fail, Run, K, pure, and_then, Option-cases, ◌>>◌,
  Bool-cases, ebadf, einval,
}
use cs3891_asst.Vfs.{Vfs, Uio, Direction, reading, writing}
use cs3891_asst.FileTable.{FdTable, Files, open_max, file_closed, bad_index, file_open}
use cs3891_asst.FileTable.Refs.{IsValid, refs}
use cs3891_asst.FileTable.Close.{file_close-open, file_close-ebadf}
use cs3891_asst.FileTable.Open.{Opened, file_open-Opened}
use cs3891_asst.FileTable.Transfer.{Transferred, file_io-Transferred, file_io}
use cs3891_asst.FileSyscalls.{sys_open, sys_read, sys_write, sys_close, sys_dup2, sys_lseek}
use cs3891_asst.FileSyscalls.Dup.{sys_dup2-shares, sys_dup2-ebadf}
use cs3891_asst.FileSyscalls.Seek.{Sought, sys_lseek-Sought}

-- The arguments of each system call, and what `kmalloc` says to `open`.
pub data Call : Type 0 where
  opens : (alloc : Bool) (filename flags mode : ℕ) → Call
  reads writes : (fd buf len : ℕ) → Call
  closes : (fd : ℕ) → Call
  dup2s : (oldfd newfd : ℕ) → Call
  lseeks : (fd pos whence : ℕ) → Call

module _ {W : Type 0} (v : Vfs W) (copyinstr : ℕ → W → Result (List ℕ) × W) where
  unfoldable pub perform : Call → K (Files W) ℕ
  perform (opens alloc filename flags mode) = sys_open v copyinstr alloc filename flags mode
  perform (reads fd buf len) = sys_read v fd buf len
  perform (writes fd buf len) = sys_write v fd buf len
  perform (closes fd) = do sys_close v fd; pure 0
  perform (dup2s oldfd newfd) = sys_dup2 v oldfd newfd
  perform (lseeks fd pos whence) = sys_lseek v fd pos whence

-- The call returned, with a value or an error, and left a valid table with a free lock.
pub data Safe {W A : Type 0} (others : List FdTable) : Run (Files W) A → Type 0 where
  returns : {a : A} {t : Files W} → IsValid others t → t.held ≡ false → Safe others (ret a t)
  fails : {code : ℕ} {t : Files W} → IsValid others t → t.held ≡ false → Safe others (fail code t)

module _ {W : Type 0} {others : List FdTable} {s : Files W} (valid : IsValid others s)
    (free : s.held ≡ false) where
  -- Neither the world nor the lock matters to the counts.
  world-IsValid : (w : W) (b : Bool) → IsValid others (record s { world = w; held = b })
  world-IsValid w b = record {
    fd_size = valid.fd_size;
    of_size = valid.of_size;
    few = valid.few;
    counted = valid.counted;
    live = valid.live;
  }

  in_range : (fd : ℕ) → bad_index fd ≡ false → (e : ℕ) × (get_elem? s.fd_t fd ≡ some e)
  in_range fd good = get_elem?-some s.fd_t fd (ground (arith, valid.fd_size))

  Opened-Safe :
      (v : Vfs W) (w : W) (alloc : Bool) (vn flags : ℕ) {r : Run (Files W) ℕ}
      → Opened v others s w alloc vn flags r
      → Safe others r
  Opened-Safe v w alloc vn flags (Opened.opened _ _ _ valid') = returns valid' free
  Opened-Safe v w alloc vn flags (Opened.no_memory _) =
      fails (world-IsValid (v.vfs_close vn w) s.held) free
  Opened-Safe v w alloc vn flags (Opened.no_slot _) =
      fails (world-IsValid (v.vfs_close vn w) s.held) free

  Transferred-Safe :
      {op : ℕ → Uio → W → Result Uio × W} {rw : Direction} {refused e buf len : ℕ}
      {r : Run (Files W) ℕ}
      → Transferred others s op rw refused e buf len r
      → Safe others r
  Transferred-Safe (Transferred.closed_fd _) = fails valid free
  Transferred-Safe (Transferred.wrong_mode _ _ _) = fails valid free
  Transferred-Safe (Transferred.op_failed _ code w _ _ _) = fails (world-IsValid w s.held) free
  Transferred-Safe (Transferred.transferred _ _ _ _ _ _ valid') = returns valid' free

  Sought-Safe :
      {v : Vfs W} {e pos whence : ℕ} {r : Run (Files W) ℕ}
      → Sought v others s e pos whence r
      → Safe others r
  Sought-Safe (Sought.closed_fd _) = fails valid free
  Sought-Safe (Sought.is_device _ _ _) = fails valid free
  Sought-Safe (Sought.no_size _ code w _ _) = fails (world-IsValid w s.held) free
  Sought-Safe (Sought.negative _ os w _ _ _) = fails (world-IsValid w s.held) free
  Sought-Safe (Sought.sought _ _ _ _ _ _ valid') = returns valid' free

  file_open-Safe :
      (v : Vfs W) (alloc : Bool) (path : List ℕ) (flags mode : ℕ) (r : Result ℕ) (w : W)
      → v.vfs_open path flags mode s.world ≡ (r, w)
      → Safe others (file_open v alloc path flags mode s)
  unfolding file_open
  file_open-Safe v alloc path flags mode (ok vn) w e =
      Opened-Safe v w alloc vn flags
        (file_open-Opened v others s alloc path flags mode vn w valid free e)
  file_open-Safe v alloc path flags mode (err code) w e =
      subst (Safe others) (ground arith) (fails {code = code} (world-IsValid w s.held) free)

  file_io-Safe :
      (v : Vfs W) (rw : Direction) (fd buf len : ℕ)
      → bad_index fd ≡ false
      → Safe others (file_io v rw fd buf len s)
  file_io-Safe v rw fd buf len good =
      let (e, at) = in_range fd good in
      Transferred-Safe (file_io-Transferred v rw others s fd e buf len valid free at)

  sys_close-Safe : (v : Vfs W) (fd : ℕ) → Safe others (sys_close v fd s)
  unfolding sys_close
  sys_close-Safe v fd = elim (Option-cases (get_elem? s.fd_t fd)) [
    | inl nothing ↦
        subst (Safe others) (sym (file_close-ebadf v others s fd valid (inl nothing)))
          (fails valid free)
    | inr (e, at) ↦ elim (ℕ_discrete e file_closed) [
      | yes closed ↦
          subst (Safe others)
            (sym (file_close-ebadf v others s fd valid (inr (at ∙ ap some closed))))
            (fails valid free)
      | no ne ↦
          let (f, slot, rc, run, valid') = file_close-open v others s fd e valid at ne in
          subst (Safe others) (sym run) (returns valid' free)
    ]
  ]

  sys_lseek-Safe : (v : Vfs W) (fd pos whence : ℕ) → Safe others (sys_lseek v fd pos whence s)
  unfolding sys_lseek
  sys_lseek-Safe v fd pos whence = elim (Bool-cases (bad_index fd)) [
    | inl bad ↦ subst (Safe others) (ground arith) (fails {code = ebadf} valid free)
    | inr good ↦ elim (dec_lt whence 3) [
      | yes defined ↦
          let (e, at) = in_range fd good in
          Sought-Safe (sys_lseek-Sought v others s fd e pos whence valid free defined at)
      | no undefined ↦ subst (Safe others) (ground arith) (fails {code = einval} valid free)
    ]
  ]

  dup2_distinct-Safe :
      (v : Vfs W) (oldfd newfd : ℕ)
      → oldfd < open_max
      → newfd < open_max
      → oldfd ≢ newfd
      → ((e : ℕ) → refs e others < 2 ^ 30)
      → Safe others (sys_dup2 v oldfd newfd s)
  dup2_distinct-Safe v oldfd newfd old_in new_in differ room =
      let (e, at) = get_elem?-some s.fd_t oldfd (omega (arith, valid.fd_size)) in
      elim (ℕ_discrete e file_closed) [
        | yes closed ↦
            subst (Safe others)
              (sym (sys_dup2-ebadf v others s oldfd newfd valid free differ (at ∙ ap some closed)))
              (fails valid free)
        | no ne ↦
            let (t, run, valid', free', _) =
              sys_dup2-shares v others s oldfd newfd e valid free old_in new_in differ at ne
                (room e) in
            subst (Safe others) (sym run) (returns valid' free')
      ]

  sys_dup2-Safe :
      (v : Vfs W) (oldfd newfd : ℕ)
      → ((e : ℕ) → refs e others < 2 ^ 30)
      → Safe others (sys_dup2 v oldfd newfd s)
  unfolding sys_dup2
  sys_dup2-Safe v oldfd newfd room = elim (dec_lt oldfd open_max) [
    | no beyond ↦ subst (Safe others) (ground arith) (fails {code = ebadf} valid free)
    | yes old_in ↦ elim (dec_lt newfd open_max) [
      | no beyond ↦ subst (Safe others) (ground arith) (fails {code = ebadf} valid free)
      | yes new_in ↦ elim (ℕ_discrete oldfd newfd) [
        | yes same ↦ subst (Safe others) (ground arith) (returns {a = newfd} valid free)
        | no differ ↦ dup2_distinct-Safe v oldfd newfd old_in new_in differ room
      ]
    ]
  ]

module _ {W : Type 0} (v : Vfs W) (copyinstr : ℕ → W → Result (List ℕ) × W)
    {others : List FdTable} where
  sys_open-Safe :
      (s : Files W) (alloc : Bool) (filename flags mode : ℕ) (r : Result (List ℕ)) (w : W)
      → IsValid others s
      → s.held ≡ false
      → copyinstr filename s.world ≡ (r, w)
      → Safe others (sys_open v copyinstr alloc filename flags mode s)
  unfolding sys_open
  sys_open-Safe s alloc filename flags mode (err code) w valid free e =
      subst (Safe others) (ground arith)
        (fails {code = code} (world-IsValid valid free w s.held) free)
  sys_open-Safe s alloc filename flags mode (ok path) w valid free e =
      let out = v.vfs_open path flags mode w in
      subst (Safe others) (ground arith) (
        file_open-Safe (world-IsValid valid free w s.held) free v alloc path flags mode out.0 out.1
          refl)

  returns_zero :
      {r : Run (Files W) (Unit {0})}
      → Safe others r
      → Safe others (and_then r (λ _. pure {A = ℕ} 0))
  returns_zero (returns valid free) = returns valid free
  returns_zero (fails valid free) = fails valid free

-- Every file system call, whatever its arguments, run in a valid table whose lock is free, returns a
-- value or an error code; it never panics and never accesses anything out of range or through
-- NULL; and it leaves a valid table, with the lock free. (Fewer than 2^30 references to each
-- file are held by other processes.)
pub perform-Safe :
    {W : Type 0} (v : Vfs W) (copyinstr : ℕ → W → Result (List ℕ) × W) (others : List FdTable)
    (s : Files W) (c : Call)
    → IsValid others s
    → s.held ≡ false
    → ((e : ℕ) → refs e others < 2 ^ 30)
    → Safe others (perform v copyinstr c s)
unfolding perform sys_read sys_write
perform-Safe v copyinstr others s (opens alloc filename flags mode) valid free room =
    let out = copyinstr filename s.world in
    sys_open-Safe v copyinstr s alloc filename flags mode out.0 out.1 valid free refl
perform-Safe v copyinstr others s (reads fd buf len) valid free room =
    elim (Bool-cases (bad_index fd)) [
      | inl bad ↦ subst (Safe others) (ground arith) (fails {code = ebadf} valid free)
      | inr good ↦
          subst (Safe others) (ground arith) (file_io-Safe valid free v reading fd buf len good)
    ]
perform-Safe v copyinstr others s (writes fd buf len) valid free room =
    elim (Bool-cases (bad_index fd)) [
      | inl bad ↦ subst (Safe others) (ground arith) (fails {code = ebadf} valid free)
      | inr good ↦
          subst (Safe others) (ground arith) (file_io-Safe valid free v writing fd buf len good)
    ]
perform-Safe v copyinstr others s (closes fd) valid free room =
    returns_zero v copyinstr (sys_close-Safe valid free v fd)
perform-Safe v copyinstr others s (dup2s oldfd newfd) valid free room =
    sys_dup2-Safe valid free v oldfd newfd room
perform-Safe v copyinstr others s (lseeks fd pos whence) valid free room =
    sys_lseek-Safe valid free v fd pos whence
