-- ===== src/PidTable/Processes.antt =====
-- Processes that fork, exit and wait, interleaved in any order; allocations succeed. A process is named by its id; the
-- kernel's own process has id 1 and no entry in the table.
use cs3891_asst.Base.{
  ℕ, ◌≡◌, ◌≢◌, Bool, true, false, some, get_elem?, ◌==◌, if◌then◌else◌, ret, fail, minus_one,
}
use cs3891_asst.PidTable.{
  ProcPid, Pids, pid_create, reaped, asleep, pid_wait_woken, pid_exit_locked, sys_waitpid,
}
use cs3891_asst.PidTable.Table.{IsTable}

-- What a process does: `waiting` sleeps in `cv_wait` on the entry of the child, and `woken` has been
-- woken there and has yet to take the lock. The id of a process that was made and has no thread, since
-- `thread_fork` failed, is `unborn`; that of a process which has left `pt_lock` in `pid_exit`, and
-- does not come back to the table, is `absent`.
pub data Mode : Type 0 where
  absent : Mode
  running : Mode
  unborn : Mode
  waiting : (child : ℕ) → Mode
  woken : (child : ℕ) → Mode

pub record Processes : Type 0 where
  pub pids : Pids
  pub mode : ℕ → Mode
  -- A process runs that was made when every id was taken: it has id -1, as do all others made so. What
  -- such processes do is not modelled.
  pub unnumbered : Bool

abbrev pub update : (ℕ → Mode) → ℕ → Mode → ℕ → Mode
update m i x j = if j == i then x else m j

-- one sleeper, when the sleepers on the entry of `c` are woken
abbrev pub wake_one : ℕ → Mode → Mode
wake_one c (waiting d) = if d == c then woken d else waiting d
wake_one c absent = absent
wake_one c running = running
wake_one c unborn = unborn
wake_one c (woken d) = woken d

-- `cv_broadcast` on the entry of `c`
abbrev pub broadcast : ℕ → (ℕ → Mode) → ℕ → Mode
broadcast c m j = wake_one c (m j)

abbrev pub kernel_pid : ℕ
kernel_pid = 1

-- Before the first program is run. The table is that of `pidtable_init` on cleared memory.
abbrev pub boot : Pids → Processes
boot t = record { pids = t; mode = update (λ _. absent) kernel_pid running; unnumbered = false }

pub data Step (s : Processes) : Processes → Type 0 where
  forks :
      (i : ℕ) {pid : ℕ} {t : Pids}
      → s.mode i ≡ running
      → pid_create true i s.pids ≡ ret pid t
      → pid ≢ minus_one
      → Step s (record s { pids = t; mode = update s.mode pid running })
  -- `thread_fork` fails after `pid_create`: the entry stays.
  fork_fails :
      (i : ℕ) {pid : ℕ} {t : Pids}
      → s.mode i ≡ running
      → pid_create true i s.pids ≡ ret pid t
      → pid ≢ minus_one
      → Step s (record s { pids = t; mode = update s.mode pid unborn })
  -- The result of `pid_create` is not tested.
  runs_without_id :
      (i : ℕ) {t : Pids}
      → s.mode i ≡ running
      → pid_create true i s.pids ≡ ret minus_one t
      → Step s (record s { pids = t; unnumbered = true })
  exits :
      (i status : ℕ) {t : Pids}
      → s.mode i ≡ running
      → i ≢ kernel_pid
      → pid_exit_locked i status s.pids ≡ ret tt t
      → Step s (record s { pids = t; mode = broadcast i (update s.mode i absent) })
  sleeps :
      (i pid status options : ℕ) {t : Pids}
      → s.mode i ≡ running
      → sys_waitpid i pid status options s.pids ≡ ret asleep t
      → Step s (record s { pids = t; mode = update s.mode i (waiting pid) })
  collects :
      (i pid status options : ℕ) {code : ℕ} {t : Pids}
      → s.mode i ≡ running
      → sys_waitpid i pid status options s.pids ≡ ret (reaped code) t
      → Step s (record s { pids = t; mode = update s.mode i running })
  refused :
      (i pid status options : ℕ) {code : ℕ} {t : Pids}
      → s.mode i ≡ running
      → sys_waitpid i pid status options s.pids ≡ fail code t
      → Step s (record s { pids = t })
  resumes :
      (i pid : ℕ) {code : ℕ} {t : Pids}
      → s.mode i ≡ woken pid
      → pid_wait_woken pid s.pids ≡ ret code t
      → Step s (record s { pids = t; mode = update s.mode i running })

pub data Reach (t : Pids) : Processes → Type 0 where
  start : Reach t (boot t)
  later : {s u : Processes} → Reach t s → Step s u → Reach t u

-- The process has a thread: it can run, now or when it is woken.
abbrev pub is_process : Mode → Bool
is_process absent = false
is_process unborn = false
is_process running = true
is_process (waiting c) = true
is_process (woken c) = true

-- the entry of `pid` is in use, as `pp`
abbrev pub Entry : Processes → ℕ → ProcPid → Type 0
Entry s pid pp = get_elem? s.pids.pid_table pid ≡ some (some pp)

pub record Live (s : Processes) (i : ℕ) : Type 0 where
  pub entry : ProcPid
  pub at : Entry s i entry
  pub alive : entry.pid_exited ≡ 0

pub record Inv (s : Processes) : Type 0 where
  pub table : IsTable s.pids
  -- every process but the kernel's, unborn or not, has an entry that has not exited
  pub live : (i : ℕ) → i ≢ kernel_pid → s.mode i ≢ absent → Live s i
  -- an entry that has not exited belongs to a process, which may be unborn
  pub owned : (i : ℕ) (pp : ProcPid) → Entry s i pp → pp.pid_exited ≡ 0 → s.mode i ≢ absent
  -- a sleeper waits for a child that has yet to exit
  pub sleeper :
      (i c : ℕ)
      → s.mode i ≡ waiting c
      → (pp : ProcPid) × Entry s c pp × (pp.ppid_id ≡ i) × (pp.pid_exited ≡ 0)
  -- a sleeper that has been woken finds its child exited, the entry still there
  pub wakened :
      (i c : ℕ)
      → s.mode i ≡ woken c
      → (pp : ProcPid) × Entry s c pp × (pp.ppid_id ≡ i) × (pp.pid_exited ≢ 0)
