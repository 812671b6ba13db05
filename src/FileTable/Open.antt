-- ===== src/FileTable/Open.antt =====
-- `file_open`: the lowest free descriptor for the lowest free slot, and every way to fail.
use cs3891_asst.Base.{
  ℕ, ◌≡◌, refl, sym, inl, inr, ◌⊎◌, Bool, true, false, Option, some, List, arith, set, length-set,
  get_elem?-set, count-set, ret, fail, Run, ok, emfile, enomem,
}
use mathlib.Core.Path.{subst}
use cs3891_asst.Base.Scan.{scan, Found, AllTaken, Scanned, full, found, scan-Scanned, Scanned-some}
use cs3891_asst.Vfs.{Vfs}
use cs3891_asst.FileTable.{
  OpenFile, FdTable, Files, open_max, is_closed, is_null, install, file_open,
}
use cs3891_asst.FileTable.Refs.{IsValid, rc_at-set, rc_at-get_elem?}

abbrev pub new_file : ℕ → ℕ → OpenFile
new_file vn flags = record { vn = vn; am = flags; rc = 1; os = 0 }

-- the state after a successful open: descriptor `fd` refers to the new file, in slot `i`
abbrev pub opened_state : {W : Type 0} → Files W → W → ℕ → ℕ → ℕ → ℕ → Files W
opened_state s w vn flags fd i = record s {
  fd_t = set s.fd_t fd i;
  openfiles = set s.openfiles i (some (new_file vn flags));
  world = w;
}

-- the state after an open that failed behind `vfs_open`
abbrev pub unopened_state : {W : Type 0} → Vfs W → Files W → W → ℕ → Files W
unopened_state v s w vn = record s { world = v.vfs_close vn w }

-- The outcomes of `file_open` when `vfs_open` has given a vnode.
pub data Opened {W : Type 0} (v : Vfs W) (others : List FdTable) (s : Files W) (w : W)
    (alloc : Bool) (vn flags : ℕ) : Run (Files W) ℕ → Type 0 where
  opened :
      {fd i : ℕ}
      → alloc ≡ true
      → Found is_closed s.fd_t 0 open_max fd
      → Found is_null s.openfiles 0 open_max i
      → IsValid others (opened_state s w vn flags fd i)
      → Opened v others s w alloc vn flags (ret fd (opened_state s w vn flags fd i))
  no_memory :
      alloc ≡ false → Opened v others s w alloc vn flags (fail enomem (unopened_state v s w vn))
  no_slot :
      AllTaken is_closed s.fd_t 0 open_max ⊎ AllTaken is_null s.openfiles 0 open_max
      → Opened v others s w alloc vn flags (fail emfile (unopened_state v s w vn))

module _ {W : Type 0} {others : List FdTable} {s : Files W} (valid : IsValid others s) where
  pub opened-IsValid :
      (w : W) (vn flags fd i : ℕ)
      → Found is_closed s.fd_t 0 open_max fd
      → Found is_null s.openfiles 0 open_max i
      → IsValid others (opened_state s w vn flags fd i)
  opened-IsValid w vn flags fd i d f = record {
    fd_size = omega (arith, length-set s.fd_t fd i, valid.fd_size);
    of_size = omega (arith, length-set s.openfiles i (some (new_file vn flags)), valid.of_size);
    few = valid.few;
    counted = λ j used. ground (
      arith,
      valid.counted j used,
      d.at,
      d.is_free,
      f.at,
      f.is_free,
      rc_at-get_elem? s.openfiles i f.slot f.at,
      rc_at-set s.openfiles i j (some (new_file vn flags)) (omega (arith, f.below, valid.of_size)),
      count-set j s.fd_t fd i d.slot d.at,
    );
    live = λ j g slot. ground (
      arith,
      valid.live j g,
      get_elem?-set s.openfiles i j (some (new_file vn flags))
          (omega (arith, f.below, valid.of_size)),
    );
  }

  -- from the two searches on
  install-Opened :
      (v : Vfs W) (w : W) (alloc : Bool) (vn flags fd i : ℕ) {a b : Option ℕ}
      → s.held ≡ false
      → a ≡ some fd
      → b ≡ some i
      → Scanned is_closed s.fd_t 0 open_max a
      → Scanned is_null s.openfiles 0 open_max b
      → Opened v others s w alloc vn flags
          (install v alloc vn flags fd i (record s { world = w; held = true }))
  unfolding install
  install-Opened v w alloc vn flags fd i free p q (full t) y =
      subst (Opened v others s w alloc vn flags) (ground arith) (no_slot (inl t))
  install-Opened v w alloc vn flags fd i free p q (found d) (full t) =
      subst (Opened v others s w alloc vn flags) (ground arith) (no_slot (inr t))
  install-Opened v w false vn flags fd i free p q (found d) (found f) =
      subst (Opened v others s w false vn flags) (ground (arith, d.below, f.below)) (no_memory refl)
  install-Opened v w true vn flags fd i free p q (found {r = fd'} d) (found {r = i'} f) =
      subst (Opened v others s w true vn flags) (ground (arith, d.below, f.below))
        (opened refl d f (opened-IsValid w vn flags fd' i' d f))

file_open-install :
    {W : Type 0} (v : Vfs W) (s : Files W) (alloc : Bool) (path : List ℕ) (flags mode vn : ℕ)
    (w : W) (fd i : ℕ)
    → s.held ≡ false
    → v.vfs_open path flags mode s.world ≡ (ok vn, w)
    → scan is_closed open_max 0 s.fd_t ≡ some fd
    → scan is_null open_max 0 s.openfiles ≡ some i
    → file_open v alloc path flags mode s
      ≡ install v alloc vn flags fd i (record s { world = w; held = true })
unfolding file_open
file_open-install v s alloc path flags mode vn w fd i free e p q = ground arith

-- In a valid table whose lock is free, when `vfs_open` gives a vnode: `file_open` returns the lowest
-- closed descriptor, now referring to a new file with one reference and offset 0 in the lowest
-- free slot, and the table is valid; or it returns ENOMEM if `kmalloc` fails, or EMFILE if no
-- descriptor or no slot is free, and then it has closed the vnode and both tables are unchanged.
-- It never panics or faults, and gives back the lock.
pub file_open-Opened :
    {W : Type 0} (v : Vfs W) (others : List FdTable) (s : Files W) (alloc : Bool) (path : List ℕ)
    (flags mode vn : ℕ) (w : W)
    → IsValid others s
    → s.held ≡ false
    → v.vfs_open path flags mode s.world ≡ (ok vn, w)
    → Opened v others s w alloc vn flags (file_open v alloc path flags mode s)
file_open-Opened v others s alloc path flags mode vn w valid free e =
    let x =
      scan-Scanned is_closed open_max 0 open_max s.fd_t (omega arith)
        (omega (arith, valid.fd_size)) in
    let y =
      scan-Scanned is_null open_max 0 open_max s.openfiles (omega arith)
        (omega (arith, valid.of_size)) in
    let (fd, p) = Scanned-some is_closed x in
    let (i, q) = Scanned-some is_null y in
    subst (Opened v others s w alloc vn flags)
      (sym (file_open-install v s alloc path flags mode vn w fd i free e p q))
      (install-Opened valid v w alloc vn flags fd i free p q x y)
