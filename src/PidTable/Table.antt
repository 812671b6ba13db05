-- ===== src/PidTable/Table.antt =====
-- The operations on the table of process ids, each on every branch.
use mathlib.Core.Path.{subst}
use cs3891_asst.Base.{
  ℕ, ◌+◌, ◌-◌, ◌≤◌, ◌<◌, ◌≡◌, refl, sym, ◌∙◌, true, false, Option, none, some, arith, length,
  get_elem?, set, length-set, get_elem?-set, ◌==◌, if◌then◌else◌, ret, Run, minus_one,
}
use cs3891_asst.Base.Scan.{scan, Found, AllTaken, Scanned, full, found, scan-Scanned, Scanned-some}
use cs3891_asst.PidTable.{pid_min, pid_max, ProcPid, Pids, is_null, new_pid, pid_next, pid_create}

-- The table has an entry for each id up to PID_MAX, each entry stands at its id, no id below PID_MIN
-- is in use, and the lock is free.
pub record IsTable (s : Pids) : Type 0 where
  pub size : length s.pid_table ≡ pid_max + 1
  pub ids : (i : ℕ) (pp : ProcPid) → get_elem? s.pid_table i ≡ some (some pp) → pp.pid_id ≡ i
  pub low : (i : ℕ) (pp : ProcPid) → get_elem? s.pid_table i ≡ some (some pp) → pid_min ≤ i
  pub free : s.held ≡ false

abbrev pub with_entry : Pids → ℕ → Option ProcPid → Pids
with_entry s pid c = record s { pid_table = set s.pid_table pid c }

-- what an entry may be replaced by
abbrev pub Fits : ℕ → Option ProcPid → Type 0
Fits pid none = Unit {0}
Fits pid (some pp) = (pp.pid_id ≡ pid) × (pid_min ≤ pid)

pub with_entry-IsTable :
    (s : Pids) (pid : ℕ) (c : Option ProcPid)
    → IsTable s
    → pid < pid_max + 1
    → Fits pid c
    → IsTable (with_entry s pid c)
with_entry-IsTable s pid c t lt fits = record {
  size = length-set s.pid_table pid c ∙ t.size;
  ids = λ i pp at.
      with_ids i pp (get_elem?-set s.pid_table pid i c (omega (arith, t.size))) c fits refl at;
  low = λ i pp at.
      with_low i pp (get_elem?-set s.pid_table pid i c (omega (arith, t.size))) c fits refl at;
  free = t.free;
}
  where
    with_ids :
        (i : ℕ) (pp : ProcPid)
        → get_elem? (set s.pid_table pid c) i
          ≡ (if pid == i then some c else get_elem? s.pid_table i)
        → (d : Option ProcPid) → Fits pid d
        → c ≡ d
        → get_elem? (set s.pid_table pid c) i ≡ some (some pp)
        → pp.pid_id ≡ i
    with_ids i pp e none f same at = ground (arith, t.ids i pp)
    with_ids i pp e (some qq) f same at = ground (arith, t.ids i pp)

    with_low :
        (i : ℕ) (pp : ProcPid)
        → get_elem? (set s.pid_table pid c) i
          ≡ (if pid == i then some c else get_elem? s.pid_table i)
        → (d : Option ProcPid) → Fits pid d
        → c ≡ d
        → get_elem? (set s.pid_table pid c) i ≡ some (some pp)
        → pid_min ≤ i
    with_low i pp e none f same at = ground (arith, t.low i pp)
    with_low i pp e (some qq) f same at = ground (arith, t.low i pp)

-- The outcomes of `pid_create` when `kmalloc` succeeds.
pub data Created (s : Pids) (ppid : ℕ) : Run Pids ℕ → Type 0 where
  full_table : AllTaken is_null s.pid_table pid_min (pid_max + 1) → Created s ppid (ret minus_one s)
  created :
      {pid : ℕ}
      → Found is_null s.pid_table pid_min (pid_max + 1) pid
      → get_elem? s.pid_table pid ≡ some none
      → IsTable (with_entry s pid (some (new_pid pid ppid)))
      → Created s ppid (ret pid (with_entry s pid (some (new_pid pid ppid))))

pid_create-scan :
    (s : Pids) (ppid r : ℕ)
    → s.held ≡ false
    → scan is_null (pid_max + 1 - pid_min) pid_min s.pid_table ≡ some r
    → pid_create true ppid s
      ≡ (if r == minus_one then ret minus_one s else ret r (with_entry s r (some (new_pid r ppid))))
unfolding pid_create pid_next
pid_create-scan s ppid r free e = ground arith

to-Created :
    (s : Pids) (ppid r : ℕ) {o : Option ℕ}
    → IsTable s
    → o ≡ some r
    → Scanned is_null s.pid_table pid_min (pid_max + 1) o
    → Created s ppid
        (if r == minus_one then ret minus_one s else ret r (with_entry s r (some (new_pid r ppid))))
to-Created s ppid r t e (full taken) = subst (Created s ppid) (ground arith) (full_table taken)
to-Created s ppid r t e (found {r = pid} f) = subst (Created s ppid) (ground (arith, f.below)) (
    created f (ground (arith, f.at, f.is_free))
      (with_entry-IsTable s pid (some (new_pid pid ppid)) t f.below (refl, f.above)))

-- In a well-formed table, `pid_create`, whose allocation succeeds, returns the lowest free id between PID_MIN and PID_MAX, with a
-- new entry there that has not exited and has the given parent, and the table is well-formed;
-- or it returns -1 and changes nothing if every id is taken.
pub pid_create-Created : (s : Pids) (ppid : ℕ) → IsTable s → Created s ppid (pid_create true ppid s)
pid_create-Created s ppid t =
    let x =
      scan-Scanned is_null (pid_max + 1 - pid_min) pid_min (pid_max + 1) s.pid_table (omega arith)
        (omega (arith, t.size)) in
    let (r, e) = Scanned-some is_null x in
    subst (Created s ppid) (sym (pid_create-scan s ppid r t.free e)) (to-Created s ppid r t e x)
