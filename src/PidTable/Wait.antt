-- ===== src/PidTable/Wait.antt =====
-- `pid_exit` leaves a status, and `pid_wait` collects it.
use mathlib.Core.Path.{subst}
use native.Mathlib.Decide.{ℕ_discrete}
use cs3891_asst.Base.{
  ℕ, ◌+◌, ◌≤◌, ◌<◌, ◌≡◌, ◌≢◌, true, false, Option, none, some, arith, get_elem?, get_elem?-set_self,
  get_elem?-lt, get_elem?-some, set-set, ret, fail, Run, esrch, echild,
}
use cs3891_asst.PidTable.{
  pid_max, pid_invalid, ProcPid, Pids, reap, Waited, reaped, asleep, pid_wait, pid_wait_woken,
  pid_exit_locked,
}
use cs3891_asst.PidTable.Table.{IsTable, with_entry, with_entry-IsTable}

abbrev pub exited : ProcPid → ℕ → ProcPid
exited pp status = record pp { pid_exited = 1; pid_estatus = status }

module _ {s : Pids} (t : IsTable s) (pid : ℕ) {pp : ProcPid}
    (at : get_elem? s.pid_table pid ≡ some (some pp)) where
  in_table : pid < pid_max + 1
  in_table = omega (arith, get_elem?-lt s.pid_table pid (some pp) at, t.size)

  pub reap-ret : reap pid pp (record s { held = true }) ≡ ret pp.pid_estatus (with_entry s pid none)
  unfolding reap
  reap-ret =
      let e : pp.pid_id ≡ pid = t.ids pid pp at in
      rw e (
        ground (
          arith,
          set-set s.pid_table pid (some (record pp { ppid_id = pid_invalid })) none,
          t.free,
        ))

  pub pid_wait-reaped :
      pp.pid_exited ≢ 0
      → pid_wait pid pp.ppid_id s ≡ ret (reaped pp.pid_estatus) (with_entry s pid none)
  unfolding pid_wait
  pid_wait-reaped done = ground (arith, reap-ret, t.free)

  pub pid_wait_woken-ret : pid_wait_woken pid s ≡ ret pp.pid_estatus (with_entry s pid none)
  unfolding pid_wait_woken
  pid_wait_woken-ret = ground (arith, reap-ret, t.free)

  pub reaped-IsTable : IsTable (with_entry s pid none)
  reaped-IsTable = with_entry-IsTable s pid none t in_table tt

  pub pid_exit_locked-ret :
      (status : ℕ)
      → pid_exit_locked pid status s ≡ ret tt (with_entry s pid (some (exited pp status)))
  unfolding pid_exit_locked
  pid_exit_locked-ret status = ground (arith, t.free)

  pub exited-IsTable : (status : ℕ) → IsTable (with_entry s pid (some (exited pp status)))
  exited-IsTable status =
      with_entry-IsTable s pid (some (exited pp status)) t in_table
        (t.ids pid pp at, t.low pid pp at)

-- The outcomes of `pid_wait` for the caller `ppid`.
pub data Awaited (s : Pids) (pid ppid : ℕ) : Run Pids Waited → Type 0 where
  no_process : get_elem? s.pid_table pid ≡ some none → Awaited s pid ppid (fail esrch s)
  no_child :
      (pp : ProcPid)
      → get_elem? s.pid_table pid ≡ some (some pp)
      → pp.ppid_id ≢ ppid
      → Awaited s pid ppid (fail echild s)
  sleeps :
      (pp : ProcPid)
      → get_elem? s.pid_table pid ≡ some (some pp)
      → pp.ppid_id ≡ ppid
      → pp.pid_exited ≡ 0
      → Awaited s pid ppid (ret asleep s)
  collects :
      (pp : ProcPid)
      → get_elem? s.pid_table pid ≡ some (some pp)
      → pp.ppid_id ≡ ppid
      → pp.pid_exited ≢ 0
      → IsTable (with_entry s pid none)
      → Awaited s pid ppid (ret (reaped pp.pid_estatus) (with_entry s pid none))

module _ {s : Pids} (t : IsTable s) (pid ppid : ℕ) where
  Awaited-some :
      (pp : ProcPid)
      → get_elem? s.pid_table pid ≡ some (some pp)
      → Awaited s pid ppid (pid_wait pid ppid s)
  unfolding pid_wait
  Awaited-some pp at = elim (ℕ_discrete pp.ppid_id ppid) [
    | no other ↦ subst (Awaited s pid ppid) (ground (arith, t.free)) (no_child pp at other)
    | yes mine ↦ elim (ℕ_discrete pp.pid_exited 0) [
      | yes alive ↦ subst (Awaited s pid ppid) (ground (arith, t.free)) (sleeps pp at mine alive)
      | no done ↦
          subst (Awaited s pid ppid) (ground (arith, pid_wait-reaped t pid at done, t.free))
            (collects pp at mine done (reaped-IsTable t pid at))
    ]
  ]

  Awaited-slot :
      (c : Option ProcPid)
      → get_elem? s.pid_table pid ≡ some c
      → Awaited s pid ppid (pid_wait pid ppid s)
  unfolding pid_wait
  Awaited-slot none at = subst (Awaited s pid ppid) (ground (arith, t.free)) (no_process at)
  Awaited-slot (some pp) at = Awaited-some pp at

-- In a well-formed table, `pid_wait` on an id up to PID_MAX has one of four outcomes: ESRCH if no such
-- process is known, ECHILD if it is not the caller's child, sleep if it has not exited, each
-- without a change; or its exit status, and then its entry is free and the table well-formed.
-- It never panics or faults.
pub pid_wait-Awaited :
    (s : Pids) (pid ppid : ℕ) → IsTable s → pid ≤ pid_max → Awaited s pid ppid (pid_wait pid ppid s)
pid_wait-Awaited s pid ppid t le =
    let (c, at) = get_elem?-some s.pid_table pid (omega (arith, t.size)) in
    Awaited-slot t pid ppid c at

pid_wait-missing :
    (s : Pids) (pid ppid : ℕ)
    → s.held ≡ false
    → get_elem? s.pid_table pid ≡ some none
    → pid_wait pid ppid s ≡ fail esrch s
unfolding pid_wait
pid_wait-missing s pid ppid free at = ground arith

-- A child with an entry in a well-formed table exits with a status before its parent waits: the part of
-- `pid_exit` that holds `pt_lock` gets to its end, the parent's `pid_wait` then returns that status at
-- once, and a second one fails with ESRCH, which leaves the table well-formed and the child's entry
-- free.
pub pid_wait-pid_exit_locked :
    (s : Pids) (pid status : ℕ) (pp : ProcPid)
    → IsTable s
    → get_elem? s.pid_table pid ≡ some (some pp)
    → (t u : Pids) × (pid_exit_locked pid status s ≡ ret tt t)
      × (pid_wait pid pp.ppid_id t ≡ ret (reaped status) u)
      × (pid_wait pid pp.ppid_id u ≡ fail esrch u)
      × (get_elem? u.pid_table pid ≡ some none)
      × IsTable u
pid_wait-pid_exit_locked s pid status pp t at =
    let s1 = with_entry s pid (some (exited pp status)) in
    let t1 : IsTable s1 = exited-IsTable t pid at status in
    let at1 : get_elem? s1.pid_table pid ≡ some (some (exited pp status)) =
      get_elem?-set_self s.pid_table pid (some (exited pp status))
        (get_elem?-lt s.pid_table pid (some pp) at) in
    let s2 = with_entry s1 pid none in
    let at2 : get_elem? s2.pid_table pid ≡ some none =
      get_elem?-set_self s1.pid_table pid none
        (get_elem?-lt s1.pid_table pid (some (exited pp status)) at1) in
    (
      s1,
      s2,
      pid_exit_locked-ret t pid at status,
      pid_wait-reaped t1 pid at1 (omega arith),
      pid_wait-missing s2 pid pp.ppid_id t.free at2,
      at2,
      reaped-IsTable t1 pid at1,
    )
