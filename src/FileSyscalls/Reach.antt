-- ===== src/FileSyscalls/Reach.antt =====
-- Processes over one open file table: system calls, forks and context switches in any order.
use mathlib.Core.Path.{subst}
use cs3891_asst.Base.{
  ℕ, zero, suc, ◌+◌, ◌*◌, ◌^◌, ◌≤◌, ◌<◌, ◌≡◌, refl, ap, ◌∙◌, false, none, some, List, [], ◌∷◌, ◌++◌,
  arith, length, length-append, get_elem?, count-replicate, replicate, Result, ret, fail, Run,
  count, count-le-length,
}
use cs3891_asst.Vfs.{Vfs}
use cs3891_asst.FileTable.{OpenFile, FdTable, Files, open_max, pid_max, file_closed}
use cs3891_asst.FileTable.Refs.{IsValid, refs, rc_at}
use cs3891_asst.FileSyscalls.{share_from}
use cs3891_asst.FileSyscalls.Share.{share_from-copy}
use cs3891_asst.FileSyscalls.Safety.{Call, perform, Safe, returns, fails, perform-Safe}

-- The running process is in `files`; `others` are the tables of the processes that are not running.
pub record Processes (W : Type 0) : Type 0 where
  pub others : List FdTable
  pub files : Files W

abbrev pub empty_files : {W : Type 0} → W → Files W
empty_files w = record {
  fd_t = replicate open_max file_closed;
  openfiles = replicate open_max none;
  held = false;
  world = w;
}

-- One process, all tables empty.
abbrev pub boot : {W : Type 0} → W → Processes W
boot w = record { others = []; files = empty_files w }

module _ {W : Type 0} (v : Vfs W) (copyinstr : ℕ → W → Result (List ℕ) × W) where
  -- `forks` is `sys_fork` on the open files, while there are process ids left.
  pub data Step (p : Processes W) : Processes W → Type 0 where
    calls :
        (c : Call) {a : ℕ} {t : Files W}
        → perform v copyinstr c p.files ≡ ret a t
        → Step p (record p { files = t })
    call_fails :
        (c : Call) {code : ℕ} {t : Files W}
        → perform v copyinstr c p.files ≡ fail code t
        → Step p (record p { files = t })
    forks :
        {t : Files W}
        → length p.others < pid_max
        → share_from p.files.fd_t open_max 0 p.files ≡ ret tt t
        → Step p (record { others = p.files.fd_t ∷ p.others; files = t })
    switches :
        (xs ys : List FdTable) (u : FdTable)
        → p.others ≡ xs ++ (u ∷ ys)
        → Step p
            (record { others = p.files.fd_t ∷ (xs ++ ys); files = record (p.files) { fd_t = u } })

  pub data Reach (w : W) : Processes W → Type 0 where
    start : Reach w (boot w)
    later : {p q : Processes W} → Reach w p → Step p q → Reach w q

abbrev pub Sized : List FdTable → Type 0
Sized [] = Unit {0}
Sized (t ∷ ts) = (length t ≡ open_max) × Sized ts

pub record Inv {W : Type 0} (p : Processes W) : Type 0 where
  pub valid : IsValid p.others p.files
  pub free : p.files.held ≡ false
  pub sized : Sized p.others
  pub few : length p.others ≤ pid_max

refs-le : (i : ℕ) (ts : List FdTable) → Sized ts → refs i ts ≤ open_max * length ts
refs-le i [] h = omega arith
refs-le i (t ∷ ts) h = omega (arith, refs-le i ts h.1, count-le-length i t, h.0)

refs-middle :
    (i : ℕ) (xs ys : List FdTable) (u : FdTable)
    → refs i (xs ++ (u ∷ ys)) ≡ count i u + refs i (xs ++ ys)
refs-middle i [] ys u = refl
refs-middle i (x ∷ xs) ys u = omega (arith, refs-middle i xs ys u)

Sized-middle :
    (xs ys : List FdTable) (u : FdTable)
    → Sized (xs ++ (u ∷ ys))
    → (length u ≡ open_max) × Sized (xs ++ ys)
Sized-middle [] ys u h = h
Sized-middle (x ∷ xs) ys u h = let (a, b) = Sized-middle xs ys u h.1 in (a, (h.0, b))

rc_at-empty : (n i : ℕ) → rc_at (replicate n none) i ≡ 0
rc_at-empty zero i = refl
rc_at-empty (suc n) zero = refl
rc_at-empty (suc n) (suc i) = rc_at-empty n i

no_file : (n i : ℕ) (f : OpenFile) → get_elem? (replicate n none) i ≡ some (some f) → 0 < f.rc
no_file zero i f h = ground arith
no_file (suc n) zero f h = ground arith
no_file (suc n) (suc i) f h = no_file n i f h

pub empty_files-IsValid : {W : Type 0} (w : W) → IsValid [] (empty_files w)
empty_files-IsValid w = record {
  fd_size = refl;
  of_size = refl;
  few = λ i. omega arith;
  counted =
      λ i used. omega (arith, rc_at-empty open_max i, count-replicate i open_max file_closed used);
  live = λ i f h. no_file open_max i f h;
}

boot-Inv : {W : Type 0} (w : W) → Inv (boot w)
boot-Inv w = record { valid = empty_files-IsValid w; free = refl; sized = tt; few = omega arith }

module _ {W : Type 0} {p : Processes W} (inv : Inv p) where
  room : (i : ℕ) → refs i p.others + 64 < 2 ^ 30
  room i = omega (arith, refs-le i p.others inv.sized, inv.few)

  Safe-ret-Inv :
      {a : ℕ} {t : Files W} {r : Run (Files W) ℕ}
      → Safe p.others r
      → r ≡ ret a t
      → Inv (record p { files = t })
  Safe-ret-Inv {t} (returns {t = u} valid free) e =
      let same : u ≡ t = cc in
      subst (λ x. Inv (record p { files = x })) same
        (record { valid = valid; free = free; sized = inv.sized; few = inv.few })
  Safe-ret-Inv (fails valid free) e = cc

  Safe-fail-Inv :
      {code : ℕ} {t : Files W} {r : Run (Files W) ℕ}
      → Safe p.others r
      → r ≡ fail code t
      → Inv (record p { files = t })
  Safe-fail-Inv {t} (fails {t = u} valid free) e =
      let same : u ≡ t = cc in
      subst (λ x. Inv (record p { files = x })) same
        (record { valid = valid; free = free; sized = inv.sized; few = inv.few })
  Safe-fail-Inv (returns valid free) e = cc

  switch-Inv :
      (xs ys : List FdTable) (u : FdTable)
      → p.others ≡ xs ++ (u ∷ ys)
      → Inv (record { others = p.files.fd_t ∷ (xs ++ ys); files = record (p.files) { fd_t = u } })
  switch-Inv xs ys u e =
      let sized : Sized (xs ++ (u ∷ ys)) = subst Sized e inv.sized in
      let (size_u, rest) = Sized-middle xs ys u sized in
      let moved : (i : ℕ) → refs i p.others ≡ count i u + refs i (xs ++ ys) =
        λ i. ap (refs i) e ∙ refs-middle i xs ys u in
      record {
        valid = record {
          fd_size = size_u;
          of_size = inv.valid.of_size;
          few = λ i.
              omega (arith, moved i, room i, count-le-length i p.files.fd_t, inv.valid.fd_size);
          counted = λ i used. omega (arith, moved i, inv.valid.counted i used);
          live = inv.valid.live;
        };
        free = inv.free;
        sized = (inv.valid.fd_size, rest);
        few = omega (arith, inv.few, ap length e, length-append xs (u ∷ ys), length-append xs ys);
      }

module _ {W : Type 0} (v : Vfs W) (copyinstr : ℕ → W → Result (List ℕ) × W) where
  pub Step-Inv : {p q : Processes W} → Step v copyinstr p q → Inv p → Inv q
  Step-Inv {p} (calls c run) inv =
      Safe-ret-Inv inv
        (perform-Safe v copyinstr p.others p.files c inv.valid inv.free
          (λ i. omega (arith, room inv i)))
        run
  Step-Inv {p} (call_fails c run) inv =
      Safe-fail-Inv inv
        (perform-Safe v copyinstr p.others p.files c inv.valid inv.free
          (λ i. omega (arith, room inv i)))
        run
  Step-Inv {p} (forks {t} lt run) inv =
      let (u, run', valid, free, _) =
        share_from-copy p.others p.files inv.valid inv.free (room inv) in
      let same : u ≡ t = cc in
      subst (λ x. Inv (record { others = p.files.fd_t ∷ p.others; files = x })) same
        (record {
          valid = valid;
          free = free;
          sized = (inv.valid.fd_size, inv.sized);
          few = omega arith;
        })
  Step-Inv (switches xs ys u e) inv = switch-Inv inv xs ys u e

-- From empty tables, after any sequence of file system calls with any arguments, forks and context
-- switches: each open file counts exactly the descriptors that refer to it, in all processes
-- together; every descriptor that is not closed refers to an open file; no slot holds a file
-- without references; and the lock is free.
pub Reach-Inv :
    {W : Type 0} (v : Vfs W) (copyinstr : ℕ → W → Result (List ℕ) × W) {w : W} {p : Processes W}
    → Reach v copyinstr w p
    → Inv p
Reach-Inv v copyinstr {w} start = boot-Inv w
Reach-Inv v copyinstr (later r st) = Step-Inv v copyinstr st (Reach-Inv v copyinstr r)
