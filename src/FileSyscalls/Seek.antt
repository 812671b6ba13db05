-- ===== src/FileSyscalls/Seek.antt =====
-- `sys_lseek`: where the offset goes, and that it never becomes negative.
use mathlib.Core.Path.{subst}
use native.Mathlib.Decide.{ℕ_discrete, dec_lt}
use cs3891_asst.Base.{
  ℕ, ◌^◌, ◌≤◌, ◌<◌, ◌≡◌, ◌≢◌, refl, false, some, List, arith, get_elem?, set-set, set-get_elem?,
  get_elem?-lt, ◌==◌, if◌then◌else◌, ret, fail, Run, Result, ok, err, ebadf, einval, espipe, add64,
}
use cs3891_asst.Vfs.{Vfs}
use cs3891_asst.FileTable.{OpenFile, FdTable, Files, file_closed}
use cs3891_asst.FileTable.Refs.{IsValid, Refers, refers}
use cs3891_asst.FileTable.Transfer.{moved_state, moved-IsValid}
use cs3891_asst.FileSyscalls.{sys_lseek, seek_set, seek_cur}

-- `base + pos`, where the base may be an error
abbrev plus : ℕ → Result ℕ → Result ℕ
plus pos (ok base) = ok (add64 pos base)
plus pos (err code) = err code

-- What `lseek` documents: from the start, from the offset, from the size of the file.
abbrev pub destination : {W : Type 0} → Vfs W → OpenFile → ℕ → ℕ → W → Result ℕ × W
destination v f pos whence w =
    if whence == seek_set
    then (ok pos, w)
    else if whence == seek_cur
    then (ok (add64 f.os pos), w)
    else (plus pos (v.vop_stat f.vn w).0, (v.vop_stat f.vn w).1)

-- The outcomes of a seek on descriptor `fd`, whose entry is `e`.
pub data Sought {W : Type 0} (v : Vfs W) (others : List FdTable) (s : Files W) (e pos whence : ℕ)
    : Run (Files W) ℕ → Type 0 where
  closed_fd : e ≡ file_closed → Sought v others s e pos whence (fail ebadf s)
  is_device :
      (f : OpenFile)
      → get_elem? s.openfiles e ≡ some (some f)
      → v.vop_isseekable f.vn s.world ≡ 0
      → Sought v others s e pos whence (fail espipe s)
  no_size :
      (f : OpenFile) (code : ℕ) (w : W)
      → get_elem? s.openfiles e ≡ some (some f)
      → destination v f pos whence s.world ≡ (err code, w)
      → Sought v others s e pos whence (fail code (record s { world = w }))
  negative :
      (f : OpenFile) (os : ℕ) (w : W)
      → get_elem? s.openfiles e ≡ some (some f)
      → destination v f pos whence s.world ≡ (ok os, w)
      → 2 ^ 63 ≤ os
      → Sought v others s e pos whence (fail einval (record s { world = w }))
  sought :
      (f : OpenFile) (os : ℕ) (w : W)
      → get_elem? s.openfiles e ≡ some (some f)
      → destination v f pos whence s.world ≡ (ok os, w)
      → os < 2 ^ 63
      → IsValid others (moved_state s e f os w)
      → Sought v others s e pos whence (ret os (moved_state s e f os w))

module _ {W : Type 0} (v : Vfs W) {others : List FdTable} {s : Files W} (valid : IsValid others s)
    (fd e pos whence : ℕ) (free : s.held ≡ false) (good : whence < 3)
    (at : get_elem? s.fd_t fd ≡ some e) (ne : e ≢ file_closed) where
  to-Sought :
      (f : OpenFile) (dest : Result ℕ) (w : W)
      → Refers others s e f
      → v.vop_isseekable f.vn s.world ≢ 0
      → destination v f pos whence s.world ≡ (dest, w)
      → Sought v others s e pos whence (sys_lseek v fd pos whence s)
  unfolding sys_lseek
  to-Sought f (err code) w r seekable run =
      subst (Sought v others s e pos whence)
        (ground (arith, get_elem?-lt s.fd_t fd e at, valid.fd_size, r.at))
        (no_size f code w r.at run)
  to-Sought f (ok os) w r seekable run = elim (dec_lt os (2 ^ 63)) [
    | yes small ↦
        subst (Sought v others s e pos whence)
          (ground (arith, get_elem?-lt s.fd_t fd e at, valid.fd_size, r.at))
          (sought f os w r.at run small (moved-IsValid valid e f os w r))
    | no big ↦
        subst (Sought v others s e pos whence)
          (ground (
            arith,
            get_elem?-lt s.fd_t fd e at,
            valid.fd_size,
            r.at,
            set-set s.openfiles e (some (record f { os = os })) (some f),
            set-get_elem? s.openfiles e (some f) r.at,
          ))
          (negative f os w r.at run (omega arith))
  ]

  open-Sought : Sought v others s e pos whence (sys_lseek v fd pos whence s)
  unfolding sys_lseek
  open-Sought =
      let (f, r) = refers valid fd e at ne in
      elim (ℕ_discrete (v.vop_isseekable f.vn s.world) 0) [
        | yes fixed ↦
            subst (Sought v others s e pos whence)
              (ground (arith, get_elem?-lt s.fd_t fd e at, valid.fd_size, r.at))
              (is_device f r.at fixed)
        | no seekable ↦
            let out = destination v f pos whence s.world in to-Sought f out.0 out.1 r seekable refl
      ]

-- In a valid table whose lock is free, `sys_lseek` on a descriptor with one of the three defined
-- values of `whence` has one of five outcomes: EBADF if the descriptor is closed, ESPIPE if its file
-- cannot seek, the error of VOP_STAT, EINVAL if the destination is negative, each with the offset
-- unchanged; or the destination, below 2^63, is returned and stored, and the table is valid.
-- It never panics or faults, and gives back the lock.
pub sys_lseek-Sought :
    {W : Type 0} (v : Vfs W) (others : List FdTable) (s : Files W) (fd e pos whence : ℕ)
    → IsValid others s
    → s.held ≡ false
    → whence < 3
    → get_elem? s.fd_t fd ≡ some e
    → Sought v others s e pos whence (sys_lseek v fd pos whence s)
unfolding sys_lseek
sys_lseek-Sought v others s fd e pos whence valid free good at = elim (ℕ_discrete e file_closed) [
  | yes closed ↦
      subst (Sought v others s e pos whence)
        (ground (arith, get_elem?-lt s.fd_t fd e at, valid.fd_size)) (closed_fd closed)
  | no ne ↦ open-Sought v valid fd e pos whence free good at ne
]
