-- ===== src/FileSyscalls/Dup.antt =====
-- `sys_dup2`: the new descriptor takes over the file of the old one.
use native.Mathlib.Decide.{ℕ_discrete, dec_lt}
use cs3891_asst.Base.{
  ℕ, ◌+◌, ◌^◌, ◌<◌, ◌≡◌, ◌≢◌, refl, ap, ◌∙◌, Bool, true, false, some, List, [], ◌∷◌, arith,
  get_elem?, set, length-set, set-set, get_elem?-set, get_elem?-some, ret, fail, ebadf, count-set,
}
use cs3891_asst.Vfs.{Vfs}
use cs3891_asst.FileTable.{OpenFile, FdTable, Files, open_max, file_closed}
use cs3891_asst.FileTable.Refs.{IsValid, Refers, refers, rc_at-set, refs, rc_at-get_elem?}
use cs3891_asst.FileTable.Close.{closed_state, file_close-ret, closed-IsValid}
use cs3891_asst.FileSyscalls.{sys_dup2}

-- the state with one more reference to file `f` of slot `e`
abbrev pub referred_state : {W : Type 0} → Files W → ℕ → OpenFile → Files W
referred_state s e f = record s {
  openfiles = set s.openfiles e (some (record f { rc = f.rc + 1 }));
}

-- A reference that is counted and not yet in a descriptor table is one more table, `e ∷ []`.
module _ {W : Type 0} {others : List FdTable} {s : Files W} where
  pub referred-IsValid :
      (e : ℕ) (f : OpenFile)
      → IsValid others s
      → Refers others s e f
      → refs e others < 2 ^ 30
      → IsValid ((e ∷ []) ∷ others) (referred_state s e f)
  referred-IsValid e f valid r room = record {
    fd_size = valid.fd_size;
    of_size =
        omega (arith, length-set s.openfiles e (some (record f { rc = f.rc + 1 })), valid.of_size);
    few = λ i. ground (arith, valid.few i);
    counted = λ i used. ground (
      arith,
      valid.counted i used,
      rc_at-get_elem? s.openfiles e (some f) r.at,
      rc_at-set s.openfiles e i (some (record f { rc = f.rc + 1 }))
          (omega (arith, r.index, valid.of_size)),
    );
    live = λ i g slot. ground (
      arith,
      valid.live i g,
      get_elem?-set s.openfiles e i (some (record f { rc = f.rc + 1 }))
          (omega (arith, r.index, valid.of_size)),
    );
  }

  pub attached-IsValid :
      (fd e : ℕ) (b : Bool)
      → IsValid ((e ∷ []) ∷ others) s
      → get_elem? s.fd_t fd ≡ some file_closed
      → e ≢ file_closed
      → IsValid others (record s { fd_t = set s.fd_t fd e; held = b })
  attached-IsValid fd e b valid at ne = record {
    fd_size = omega (arith, length-set s.fd_t fd e, valid.fd_size);
    of_size = valid.of_size;
    few = λ i. ground (arith, valid.few i);
    counted =
        λ i used. ground (arith, valid.counted i used, count-set i s.fd_t fd e file_closed at);
    live = valid.live;
  }

-- Before the new descriptor is closed: the lock is held, and the file has its reference.
abbrev pub dup_state : {W : Type 0} → Files W → ℕ → OpenFile → Files W
dup_state s e f = record (referred_state s e f) { held = true }

-- The state after `sys_dup2`, from the one in which `newfd` is closed.
abbrev pub dup_end : {W : Type 0} → Files W → ℕ → ℕ → Files W
dup_end s newfd e = record s { fd_t = set s.fd_t newfd e; held = false }

module _ {W : Type 0} (v : Vfs W) {others : List FdTable} {s : Files W} (valid : IsValid others s)
    {oldfd newfd e : ℕ} {f : OpenFile} (free : s.held ≡ false) (old_in : oldfd < open_max)
    (new_in : newfd < open_max) (differ : oldfd ≢ newfd) (old_at : get_elem? s.fd_t oldfd ≡ some e)
    (ne : e ≢ file_closed) (r : Refers others s e f) (room : refs e others < 2 ^ 30) where
  dup_state-IsValid : IsValid ((e ∷ []) ∷ others) (dup_state s e f)
  dup_state-IsValid = record {
    fd_size = valid'.fd_size;
    of_size = valid'.of_size;
    few = valid'.few;
    counted = valid'.counted;
    live = valid'.live;
  }
    where
      valid' : IsValid ((e ∷ []) ∷ others) (referred_state s e f)
      valid' = referred-IsValid e f valid r room

  dup_closed :
      get_elem? s.fd_t newfd ≡ some file_closed
      → (sys_dup2 v oldfd newfd s ≡ ret newfd (dup_end (dup_state s e f) newfd e))
        × IsValid others (dup_end (dup_state s e f) newfd e)
  unfolding sys_dup2
  dup_closed at =
      (ground (arith, r.at, r.small), attached-IsValid newfd e false dup_state-IsValid at ne)

  dup_open :
      (c : ℕ) (g : OpenFile)
      → get_elem? s.fd_t newfd ≡ some c
      → c ≢ file_closed
      → Refers ((e ∷ []) ∷ others) (dup_state s e f) c g
      → let t = closed_state v (dup_state s e f) newfd c g in
        (sys_dup2 v oldfd newfd s ≡ ret newfd (dup_end t newfd e))
        × IsValid others (dup_end t newfd e)
  unfolding sys_dup2
  dup_open c g at open_new rg =
      let in_range = valid.fd_size in
      (
        ground (
          arith,
          r.at,
          r.small,
          file_close-ret v dup_state-IsValid newfd c g at rg,
          get_elem?-set s.fd_t newfd oldfd file_closed (omega arith),
        ),
        attached-IsValid newfd e false (closed-IsValid v dup_state-IsValid newfd c g at open_new rg)
            (ground (arith, get_elem?-set s.fd_t newfd newfd file_closed (omega arith))) ne,
      )

-- In a valid table whose lock is free, `sys_dup2` of an open descriptor to another number below
-- OPEN_MAX returns the new number, which now refers to the same file; what the new descriptor
-- referred to before has lost that reference; no other descriptor changes; the table is valid and
-- the lock free. (Fewer than 2^30 references are held by other processes.)
pub sys_dup2-shares :
    {W : Type 0} (v : Vfs W) (others : List FdTable) (s : Files W) (oldfd newfd e : ℕ)
    → IsValid others s
    → s.held ≡ false
    → oldfd < open_max
    → newfd < open_max
    → oldfd ≢ newfd
    → get_elem? s.fd_t oldfd ≡ some e
    → e ≢ file_closed
    → refs e others < 2 ^ 30
    → (t : Files W) × (sys_dup2 v oldfd newfd s ≡ ret newfd t)
      × IsValid others t
      × (t.held ≡ false)
      × (t.fd_t ≡ set s.fd_t newfd e)
sys_dup2-shares v others s oldfd newfd e valid free old_in new_in differ old_at ne room =
    let (f, r) = refers valid oldfd e old_at ne in
    let (c, at) = get_elem?-some s.fd_t newfd (omega (arith, valid.fd_size)) in
    elim (ℕ_discrete c file_closed) [
      | yes closed ↦
          let (run, ok_t) =
            dup_closed v valid free old_in new_in differ old_at ne r room (at ∙ ap some closed) in
          (dup_end (dup_state s e f) newfd e, run, ok_t, refl, refl)
      | no used ↦
          let pending = dup_state-IsValid v valid free old_in new_in differ old_at ne r room in
          let (g, rg) = refers pending newfd c at used in
          let (run, ok_t) =
            dup_open v valid free old_in new_in differ old_at ne r room c g at used rg in
          (
            dup_end (closed_state v (dup_state s e f) newfd c g) newfd e,
            run,
            ok_t,
            refl,
            set-set s.fd_t newfd file_closed e,
          )
    ]

-- In a valid table whose lock is free, `sys_dup2` between two different numbers fails with EBADF and
-- changes nothing if the old descriptor is closed.
pub sys_dup2-ebadf :
    {W : Type 0} (v : Vfs W) (others : List FdTable) (s : Files W) (oldfd newfd : ℕ)
    → IsValid others s
    → s.held ≡ false
    → oldfd ≢ newfd
    → get_elem? s.fd_t oldfd ≡ some file_closed
    → sys_dup2 v oldfd newfd s ≡ fail ebadf s
unfolding sys_dup2
sys_dup2-ebadf v others s oldfd newfd valid free differ at = elim (dec_lt newfd open_max) [
  | yes inside ↦
      let (c, new_at) = get_elem?-some s.fd_t newfd (omega (arith, valid.fd_size)) in ground arith
  | no outside ↦ ground arith
]

-- `sys_dup2` of a descriptor below OPEN_MAX to itself returns it and changes nothing, whether it is
-- open or not: a closed descriptor is not refused.
pub sys_dup2-same :
    {W : Type 0} (v : Vfs W) (s : Files W) (fd : ℕ) → fd < open_max → sys_dup2 v fd fd s ≡ ret fd s
unfolding sys_dup2
sys_dup2-same v s fd lt = ground arith
