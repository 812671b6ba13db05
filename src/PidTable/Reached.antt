-- ===== src/PidTable/Reached.antt =====
-- What holds of the processes after any steps from boot.
use cs3891_asst.Base.{
  ℕ, zero, suc, ◌+◌, ◌≡◌, ◌≢◌, refl, inl, inr, ◌⊎◌, true, false, Option, none, some, [], ◌∷◌, ◌++◌,
  arith, length, get_elem?, replicate, ret,
}
use cs3891_asst.PidTable.{pid_max, ProcPid, Pids, pid_wait_woken, pidtable_init}
use cs3891_asst.PidTable.Table.{with_entry}
use cs3891_asst.PidTable.Wait.{pid_wait_woken-ret}
use cs3891_asst.PidTable.Processes.{
  Mode, absent, running, unborn, waiting, woken, is_process, Processes, boot, Step, forks,
  fork_fails, runs_without_id, exits, sleeps, collects, refused, resumes, Reach, start, later,
  Entry, Inv,
}
use cs3891_asst.PidTable.Steps.{Step-Inv}

-- a table with no entry in use
pub record IsEmpty (t : Pids) : Type 0 where
  pub size : length t.pid_table ≡ pid_max + 1
  pub free : t.held ≡ false
  pub unused : (i : ℕ) (pp : ProcPid) → get_elem? t.pid_table i ≢ some (some pp)

all_free-length : (n : ℕ) → length (replicate {A = Option ProcPid} n none ++ (none ∷ [])) ≡ n + 1
all_free-length zero = refl
all_free-length (suc n) = omega (arith, all_free-length n)

all_free : (n i : ℕ) (pp : ProcPid) → get_elem? (replicate n none ++ (none ∷ [])) i ≢ some (some pp)
all_free zero zero pp = λ e. ground arith
all_free zero (suc i) pp = λ e. ground arith
all_free (suc n) zero pp = λ e. ground arith
all_free (suc n) (suc i) pp = all_free n i pp

-- `pidtable_init` on cleared memory leaves no entry in use.
pub pidtable_init-IsEmpty : IsEmpty (pidtable_init none)
unfolding pidtable_init
pidtable_init-IsEmpty = record {
  size = all_free-length pid_max;
  free = refl;
  unused = λ i pp. all_free pid_max i pp;
}

boot-Inv : (t : Pids) → IsEmpty t → Inv (boot t)
boot-Inv t empty = record {
  table = record {
    size = empty.size;
    ids = λ i pp at. absurd (empty.unused i pp at);
    low = λ i pp at. absurd (empty.unused i pp at);
    free = empty.free;
  };
  live = λ i ne used. ground arith;
  owned = λ i pp at alive. absurd (empty.unused i pp at);
  sleeper = λ i c m. ground arith;
  wakened = λ i c m. ground arith;
}

numbered_before : {s t : Processes} → Step s t → t.unnumbered ≡ false → s.unnumbered ≡ false
numbered_before (forks _ _ _ _) numbered = numbered
numbered_before (fork_fails _ _ _ _) numbered = numbered
numbered_before (runs_without_id _ _ _) numbered = absurd (ground arith)
numbered_before (exits _ _ _ _ _) numbered = numbered
numbered_before (sleeps _ _ _ _ _ _) numbered = numbered
numbered_before (collects _ _ _ _ _ _) numbered = numbered
numbered_before (refused _ _ _ _ _ _) numbered = numbered
numbered_before (resumes _ _ _ _) numbered = numbered

pub Reach-Inv : (t : Pids) {s : Processes} → IsEmpty t → Reach t s → s.unnumbered ≡ false → Inv s
Reach-Inv t empty start numbered = boot-Inv t empty
Reach-Inv t empty (later r st) numbered =
    Step-Inv st numbered (Reach-Inv t empty r (numbered_before st numbered))

owner : (x : Mode) → x ≢ absent → (is_process x ≡ true) ⊎ (x ≡ unborn)
owner absent ne = absurd (ne refl)
owner running ne = inl refl
owner unborn ne = inr refl
owner (waiting c) ne = inl refl
owner (woken c) ne = inl refl

-- Started on an empty table, after any steps of any processes by which no process came to run with id
-- -1: a process that sleeps in `pid_wait` sleeps on its own child, which has not exited and, unless
-- `thread_fork` failed for it, is a process still, so it can wake it: no wakeup is lost.
pub no_lost_wakeup :
    (t : Pids) {s : Processes} (i c : ℕ)
    → IsEmpty t
    → Reach t s
    → s.unnumbered ≡ false
    → s.mode i ≡ waiting c
    → (pp : ProcPid) × Entry s c pp
      × (pp.ppid_id ≡ i)
      × (pp.pid_exited ≡ 0)
      × ((is_process (s.mode c) ≡ true) ⊎ (s.mode c ≡ unborn))
no_lost_wakeup t {s} i c empty r numbered asleep_on =
    let inv = Reach-Inv t empty r numbered in
    let (pp, here, mine, alive) = inv.sleeper i c asleep_on in
    (pp, here, mine, alive, owner (s.mode c) (inv.owned c pp here alive))

-- Started on an empty table, after any steps of any processes by which no process came to run with id
-- -1: a process that has been woken in `pid_wait` gets the exit status in its own child's entry, and
-- the entry is free afterwards.
pub woken_collects :
    (t : Pids) {s : Processes} (i c : ℕ)
    → IsEmpty t
    → Reach t s
    → s.unnumbered ≡ false
    → s.mode i ≡ woken c
    → (pp : ProcPid) × Entry s c pp
      × (pp.ppid_id ≡ i)
      × (pid_wait_woken c s.pids ≡ ret pp.pid_estatus (with_entry s.pids c none))
woken_collects t {s} i c empty r numbered was =
    let inv = Reach-Inv t empty r numbered in
    let (pp, here, mine, done) = inv.wakened i c was in
    (pp, here, mine, pid_wait_woken-ret inv.table c here)
