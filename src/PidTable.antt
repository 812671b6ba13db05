-- ===== src/PidTable.antt =====
-- kern/thread/pid.c and kern/include/pid.h: the table of process ids, with parents and exit
-- statuses. All that a call does between taking and giving back `pt_lock` is one step; `pid_wait`
-- is two, since it sleeps in `cv_wait` in between. A process waits for another by its id.
pub mod Table
pub mod Wait
pub mod Processes
pub mod Wakeups
pub mod Steps
pub mod Reached
use cs3891_asst.Base.{
  ℕ, zero, suc, ◌+◌, ◌-◌, ◌<◌, ◌≡◌, Bool, true, false, not, ◌||◌, Option, none, some, List, [], ◌∷◌,
  ◌++◌, Result, ok, err, Run, ret, fail, panic, fault, K, pure, throw, ◌>>=◌, ◌>>◌, deref,
  get_elem?, set, replicate, length, ◌==◌, ltb, leb, neg32, if◌then◌else◌, minus_one, esrch, echild,
  efault, einval, enomem,
}
use cs3891_asst.Base.Scan.{scan}

abbrev pub pid_min : ℕ
pid_min = 2

abbrev pub pid_max : ℕ
pid_max = 32767

abbrev pub pid_invalid : ℕ
pid_invalid = 0xcafebabe

-- `struct proc_pid`, less its condition variable
pub record ProcPid : Type 0 where
  pub pid_id : ℕ
  pub ppid_id : ℕ
  pub pid_estatus : ℕ
  pub pid_exited : ℕ

-- `pid_table`, and whether the running thread holds `pt_lock`
pub record Pids : Type 0 where
  pub pid_table : List (Option ProcPid)
  pub held : Bool

abbrev pub lock_acquire : K Pids (Unit {0})
lock_acquire s = if s.held then panic else ret tt (record s { held = true })

abbrev pub lock_release : K Pids (Unit {0})
lock_release s = if s.held then ret tt (record s { held = false }) else panic

abbrev pub entry : ℕ → K Pids (Option ProcPid)
entry pid s = deref (get_elem? s.pid_table pid) s

abbrev pub set_entry : ℕ → Option ProcPid → K Pids (Unit {0})
set_entry pid pp s = ret tt (record s { pid_table = set s.pid_table pid pp })

abbrev pub is_null : Option ProcPid → Bool
is_null none = true
is_null (some pp) = false

-- `pidtable_init`: the loop clears the entries below PID_MAX; `rest` is what the memory of the last
-- entry held.
unfoldable pub pidtable_init : Option ProcPid → Pids
pidtable_init rest = record { pid_table = replicate pid_max none ++ (rest ∷ []); held = false }

-- the first free id of PID_MIN .. PID_MAX, or -1
unfoldable pub pid_next : K Pids ℕ
pid_next s = deref (scan is_null (pid_max + 1 - pid_min) pid_min s.pid_table) s

abbrev pub new_pid : ℕ → ℕ → ProcPid
new_pid pid ppid = record { pid_id = pid; ppid_id = ppid; pid_estatus = 0; pid_exited = 0 }

-- The result of `kmalloc` is used without a test.
unfoldable pub pid_create : Bool → ℕ → K Pids ℕ
pid_create alloc ppid = do
  lock_acquire
  pid ← pid_next
  if pid == minus_one then (do lock_release; pure minus_one) else do
    if alloc then pure tt else λ s. fault
    set_entry pid (some (new_pid pid ppid))
    lock_release
    pure pid

-- `pid_destroy` of an entry that is not NULL
unfoldable pub pid_destroy : ProcPid → K Pids (Unit {0})
pid_destroy pp = set_entry pp.pid_id none

-- `pid_wait` behind `cv_wait`: the status, and the entry is gone.
unfoldable pub reap : ℕ → ProcPid → K Pids ℕ
unfolding pid_destroy
reap pid pp = do
  set_entry pid (some (record pp { ppid_id = pid_invalid }))
  pid_destroy pp
  lock_release
  pure pp.pid_estatus

-- How `pid_wait` goes on: with the exit status, or asleep on the entry's condition variable.
pub data Waited : Type 0 where
  reaped : ℕ → Waited
  asleep : Waited

unfoldable pub pid_wait : ℕ → ℕ → K Pids Waited
unfolding reap
pid_wait pid ppid = do
  lock_acquire
  slot ← entry pid
  elim slot [
    | none ↦ do lock_release; throw esrch
    | some pp ↦
        if not (pp.ppid_id == ppid)
        then (do lock_release; throw echild)
        else if pp.pid_exited == 0
        then (do lock_release; pure asleep)
        else do status ← reap pid pp; pure (reaped status)
  ]

-- The sleeper when it has been woken, and has the lock again.
unfoldable pub pid_wait_woken : ℕ → K Pids ℕ
unfolding reap
pid_wait_woken pid = do lock_acquire; slot ← entry pid; pp ← deref slot; reap pid pp

-- `pid_exit` up to the release of the lock. It wakes every sleeper on the entry.
unfoldable pub pid_exit_locked : ℕ → ℕ → K Pids (Unit {0})
pid_exit_locked pid exit_status = do
  lock_acquire
  slot ← entry pid
  pp ← deref slot
  set_entry pid (some (record pp { pid_exited = 1; pid_estatus = exit_status }))
  lock_release

abbrev pub userspacetop : ℕ
userspacetop = 0x80000000

abbrev pub wnohang : ℕ
wnohang = 1

abbrev pub wuntraced : ℕ
wuntraced = 2

-- `sys_waitpid` up to the return of `pid_wait`; the caller has id `self`.
unfoldable pub sys_waitpid : ℕ → ℕ → ℕ → ℕ → K Pids Waited
sys_waitpid self pid status options =
    if neg32 pid || ltb pid pid_min || ltb pid_max pid
    then throw esrch
    else if leb userspacetop status
    then throw efault
    else if not (options == 0 || options == wuntraced || options == wnohang)
    then throw einval
    else pid_wait pid self
