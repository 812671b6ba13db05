-- ===== src/PidTable/Steps.antt =====
-- Every step of a process keeps the invariant of the processes.
use mathlib.Core.Path.{subst, subst₂}
use cs3891_asst.Base.{
  ℕ, ◌≡◌, ◌≢◌, refl, sym, inl, inr, ◌⊎◌, false, none, some, arith, ret, fail, Run, minus_one,
}
use cs3891_asst.PidTable.{
  Pids, new_pid, Waited, reaped, asleep, pid_wait_woken, pid_exit_locked, sys_waitpid,
}
use cs3891_asst.PidTable.Table.{with_entry, Created, full_table, created, pid_create-Created}
use cs3891_asst.PidTable.Wait.{
  exited, Awaited, pid_wait-Awaited, pid_exit_locked-ret, pid_wait_woken-ret,
}
use cs3891_asst.PidTable.Processes.{
  Mode, absent, running, unborn, waiting, woken, Processes, update, broadcast, kernel_pid, Step,
  forks, fork_fails, runs_without_id, exits, sleeps, collects, refused, resumes, Inv,
}
use cs3891_asst.PidTable.Wakeups.{
  new_process, exit_process, collect, fall_asleep, sys_waitpid-ret, sys_waitpid-fail,
}

-- What a fork, a wait and a refused wait did to the processes.
module _ {s : Processes} (inv : Inv s) (i : ℕ) where
  fork-Inv :
      {pid : ℕ} {t : Pids} {r : Run Pids ℕ} (x : Mode)
      → (x ≡ running) ⊎ (x ≡ unborn)
      → Created s.pids i r
      → r ≡ ret pid t
      → pid ≢ minus_one
      → Inv (record s { pids = t; mode = update s.mode pid x })
  fork-Inv x fresh (full_table _) e ne = ground arith
  fork-Inv {pid} {t} x fresh (created {pid = n} f unused table) e ne =
      let new = new_process inv i n x fresh unused f.below f.above table in
      let same_pid : n ≡ pid = ground arith in
      let same_t : with_entry s.pids n (some (new_pid n i)) ≡ t = ground arith in
      subst₂ (λ k p. Inv (record s { pids = p; mode = update s.mode k x })) same_pid same_t new

  asleep-Inv :
      {pid : ℕ} {t : Pids} {r : Run Pids Waited}
      → s.mode i ≡ running
      → Awaited s.pids pid i r
      → r ≡ ret asleep t
      → Inv (record s { pids = t; mode = update s.mode i (waiting pid) })
  asleep-Inv {pid} {t} was (Awaited.sleeps pp here mine alive) e =
      let same : s.pids ≡ t = ground arith in
      subst (λ p. Inv (record s { pids = p; mode = update s.mode i (waiting pid) })) same
        (fall_asleep inv i pid pp was here mine alive)
  asleep-Inv was (Awaited.collects pp here mine done table) e = ground arith
  asleep-Inv was (Awaited.no_process _) e = ground arith
  asleep-Inv was (Awaited.no_child _ _ _) e = ground arith

  reaped-Inv :
      {pid code : ℕ} {t : Pids} {r : Run Pids Waited}
      → s.mode i ≡ running
      → Awaited s.pids pid i r
      → r ≡ ret (reaped code) t
      → Inv (record s { pids = t; mode = update s.mode i running })
  reaped-Inv {pid} {t} was (Awaited.collects pp here mine done table) e =
      let same : with_entry s.pids pid none ≡ t = ground arith in
      subst (λ p. Inv (record s { pids = p; mode = update s.mode i running })) same
        (collect inv i pid pp (inl was) here mine done)
  reaped-Inv was (Awaited.sleeps pp here mine alive) e = ground arith
  reaped-Inv was (Awaited.no_process _) e = ground arith
  reaped-Inv was (Awaited.no_child _ _ _) e = ground arith

  failed_same :
      {pid code : ℕ} {t : Pids} {r : Run Pids Waited}
      → Awaited s.pids pid i r
      → r ≡ fail code t
      → t ≡ s.pids
  failed_same (Awaited.no_process _) e = ground arith
  failed_same (Awaited.no_child _ _ _) e = ground arith
  failed_same (Awaited.sleeps _ _ _ _) e = ground arith
  failed_same (Awaited.collects _ _ _ _ _) e = ground arith

  refused-Inv :
      (pid status options : ℕ) {code : ℕ} {t : Pids}
      → sys_waitpid i pid status options s.pids ≡ fail code t
      → Inv (record s { pids = t })
  refused-Inv pid status options {t} e =
      let same : t ≡ s.pids = elim (sys_waitpid-fail i pid status options s.pids e) [
        | inl same ↦ same
        | inr (run, le) ↦ failed_same (pid_wait-Awaited s.pids pid i inv.table le) run
      ] in
      subst (λ p. Inv (record s { pids = p })) (sym same) inv

exit-Inv :
    {s : Processes} (inv : Inv s) (i status : ℕ) {t : Pids}
    → s.mode i ≡ running
    → i ≢ kernel_pid
    → pid_exit_locked i status s.pids ≡ ret tt t
    → Inv (record s { pids = t; mode = broadcast i (update s.mode i absent) })
exit-Inv {s} inv i status {t} was ne run =
    let l = inv.live i ne (ground arith) in
    let done = pid_exit_locked-ret inv.table i l.at status in
    let same : with_entry s.pids i (some (exited l.entry status)) ≡ t = ground arith in
    subst (λ p. Inv (record s { pids = p; mode = broadcast i (update s.mode i absent) })) same
      (exit_process inv i status l.entry ne was l.at l.alive)

resume-Inv :
    {s : Processes} (inv : Inv s) (i pid : ℕ) {code : ℕ} {t : Pids}
    → s.mode i ≡ woken pid
    → pid_wait_woken pid s.pids ≡ ret code t
    → Inv (record s { pids = t; mode = update s.mode i running })
resume-Inv {s} inv i pid {t} was run =
    let (pp, here, mine, done) = inv.wakened i pid was in
    let woke = pid_wait_woken-ret inv.table pid here in
    let same : with_entry s.pids pid none ≡ t = ground arith in
    subst (λ p. Inv (record s { pids = p; mode = update s.mode i running })) same
      (collect inv i pid pp (inr was) here mine done)

-- Every step of a process that has an id keeps the invariant: each process but the kernel's, unborn or
-- not, has an entry that has not exited, and each such entry a process; a process that sleeps
-- in `pid_wait` sleeps on a child that has yet to exit; and one that has been woken finds its
-- exited child in the table.
pub Step-Inv : {s t : Processes} → Step s t → t.unnumbered ≡ false → Inv s → Inv t
Step-Inv {s} (forks i {pid} was run ne) numbered inv =
    fork-Inv inv i running (inl refl) (pid_create-Created s.pids i inv.table) run ne
Step-Inv {s} (fork_fails i {pid} was run ne) numbered inv =
    fork-Inv inv i unborn (inr refl) (pid_create-Created s.pids i inv.table) run ne
Step-Inv (runs_without_id i was run) numbered inv = absurd (ground arith)
Step-Inv (exits i status was ne run) numbered inv = exit-Inv inv i status was ne run
Step-Inv {s} (sleeps i pid status options was run) numbered inv =
    let (wait, le) = sys_waitpid-ret i pid status options s.pids run in
    asleep-Inv inv i was (pid_wait-Awaited s.pids pid i inv.table le) wait
Step-Inv {s} (collects i pid status options was run) numbered inv =
    let (wait, le) = sys_waitpid-ret i pid status options s.pids run in
    reaped-Inv inv i was (pid_wait-Awaited s.pids pid i inv.table le) wait
Step-Inv (refused i pid status options was run) numbered inv =
    refused-Inv inv i pid status options run
Step-Inv (resumes i pid was run) numbered inv = resume-Inv inv i pid was run
