-- ===== src/Examples/Pids.antt =====
-- The table of process ids after the kernel's process has forked.
use cs3891_asst.Base.{
  false, ◌+◌, ◌≡◌, ◌⊎◌, refl, true, none, some, arith, ret, fail, length, get_elem?, esrch,
}
use cs3891_asst.Base.Scan.{scan}
use cs3891_asst.PidTable.{
  pid_next, sys_waitpid, ProcPid, Pids, pid_max, new_pid, pid_create, pid_wait, pid_wait_woken,
  pid_exit_locked, reaped, asleep, pidtable_init,
}
use cs3891_asst.PidTable.Table.{
  IsTable, Created, with_entry, with_entry-IsTable, pid_create-Created,
}
use cs3891_asst.PidTable.Wait.{
  Awaited, pid_wait-Awaited, pid_wait-pid_exit_locked, exited, pid_exit_locked-ret,
}
use cs3891_asst.PidTable.Processes.{
  forks, exits, sleeps, update, broadcast, Processes, running, unborn, waiting, absent, is_process,
  fork_fails, Reach, start, later, boot, Entry,
}
use cs3891_asst.PidTable.Reached.{pidtable_init-IsEmpty, Reach-Inv, no_lost_wakeup, woken_collects}

abbrev empty : Pids
empty = pidtable_init none

empty-IsTable : IsTable empty
empty-IsTable = (Reach-Inv empty pidtable_init-IsEmpty start refl).table

empty-length : length empty.pid_table ≡ pid_max + 1
empty-length = empty-IsTable.size

-- Process 2 is a child of the kernel's process.
abbrev child : ProcPid
child = new_pid 2 1

abbrev one_child : Pids
one_child = with_entry empty 2 (some child)

one_child-IsTable : IsTable one_child
one_child-IsTable =
    with_entry-IsTable empty 2 (some child) empty-IsTable (omega arith) (refl, omega arith)

child_at : get_elem? one_child.pid_table 2 ≡ some (some child)
unfolding pidtable_init
child_at = refl

pid_create-Created_example : Created empty 1 (pid_create true 1 empty)
pid_create-Created_example = pid_create-Created empty 1 empty-IsTable

pid_wait-Awaited_example : Awaited one_child 2 1 (pid_wait 2 1 one_child)
pid_wait-Awaited_example = pid_wait-Awaited one_child 2 1 one_child-IsTable (omega arith)

pid_wait-pid_exit_locked_example :
    (t u : Pids) × (pid_exit_locked 2 9 one_child ≡ ret tt t)
    × (pid_wait 2 1 t ≡ ret (reaped 9) u)
    × (pid_wait 2 1 u ≡ fail esrch u)
    × (get_elem? u.pid_table 2 ≡ some none)
    × IsTable u
pid_wait-pid_exit_locked_example =
    pid_wait-pid_exit_locked one_child 2 9 child one_child-IsTable child_at

creates : pid_create true 1 empty ≡ ret 2 one_child
unfolding pid_create pid_next scan pidtable_init
creates = refl

abbrev forked : Processes
forked = record { pids = one_child; mode = update (boot empty).mode 2 running; unnumbered = false }

forked_reached : Reach empty forked
forked_reached = later start (forks 1 refl creates (omega arith))

waits : sys_waitpid 1 2 4096 0 one_child ≡ ret asleep one_child
unfolding sys_waitpid pid_wait pidtable_init
waits = refl

abbrev one_asleep : Processes
one_asleep = record {
  pids = one_child;
  mode = update forked.mode 1 (waiting 2);
  unnumbered = false;
}

asleep_reached : Reach empty one_asleep
asleep_reached = later forked_reached (sleeps 1 2 4096 0 refl waits)

no_lost_wakeup_example :
    (pp : ProcPid) × Entry one_asleep 2 pp
    × (pp.ppid_id ≡ 1)
    × (pp.pid_exited ≡ 0)
    × ((is_process (one_asleep.mode 2) ≡ true) ⊎ (one_asleep.mode 2 ≡ unborn))
no_lost_wakeup_example = no_lost_wakeup empty 1 2 pidtable_init-IsEmpty asleep_reached refl refl

abbrev child_exited : Pids
child_exited = with_entry one_child 2 (some (exited child 9))

leaves : pid_exit_locked 2 9 one_child ≡ ret tt child_exited
leaves = pid_exit_locked-ret one_child-IsTable 2 child_at 9

abbrev one_woken : Processes
one_woken = record {
  pids = child_exited;
  mode = broadcast 2 (update one_asleep.mode 2 absent);
  unnumbered = false;
}

woken_reached : Reach empty one_woken
woken_reached = later asleep_reached (exits 2 9 refl (omega arith) leaves)

woken_collects_example :
    (pp : ProcPid) × Entry one_woken 2 pp
    × (pp.ppid_id ≡ 1)
    × (pid_wait_woken 2 one_woken.pids ≡ ret pp.pid_estatus (with_entry one_woken.pids 2 none))
woken_collects_example = woken_collects empty 1 2 pidtable_init-IsEmpty woken_reached refl refl

-- When `thread_fork` fails, the entry stays, and the parent can sleep on it.
abbrev fork_failed : Processes
fork_failed = record {
  pids = one_child;
  mode = update (boot empty).mode 2 unborn;
  unnumbered = false;
}

abbrev asleep_on_unborn : Processes
asleep_on_unborn = record fork_failed { mode = update fork_failed.mode 1 (waiting 2) }

unborn_reached : Reach empty asleep_on_unborn
unborn_reached =
    later (later start (fork_fails 1 refl creates (omega arith))) (sleeps 1 2 4096 0 refl waits)
