-- ===== src/PidTable/Wakeups.antt =====
-- No sleeper is lost: the invariant of the processes, step by step.
use native.Mathlib.Decide.{ℕ_discrete}
use cs3891_asst.Base.{
  ℕ, ◌+◌, ◌≤◌, ◌<◌, ◌≡◌, ◌≢◌, refl, ap, inl, inr, ◌⊎◌, none, some, arith, get_elem?, get_elem?-set,
  get_elem?-lt, ret, fail,
}
use cs3891_asst.PidTable.{pid_min, pid_max, ProcPid, Pids, new_pid, Waited, sys_waitpid, pid_wait}
use cs3891_asst.PidTable.Table.{IsTable, with_entry}
use cs3891_asst.PidTable.Wait.{exited, exited-IsTable, reaped-IsTable}
use cs3891_asst.PidTable.Processes.{
  Mode, absent, running, unborn, waiting, woken, Processes, update, wake_one, broadcast, kernel_pid,
  Entry, Inv,
}

woken_cases :
    (x : Mode) (i c : ℕ) → wake_one i x ≡ woken c → (x ≡ woken c) ⊎ ((x ≡ waiting c) × (c ≡ i))
woken_cases absent i c e = inl e
woken_cases running i c e = inl e
woken_cases unborn i c e = inl e
woken_cases (woken d) i c e = inl e
woken_cases (waiting d) i c e = elim (ℕ_discrete d i) [
  | yes same ↦ inr (ground arith, ground arith)
  | no other ↦ ground arith
]

module _ {s : Processes} (inv : Inv s) where
  pub new_process :
      (i pid : ℕ) (x : Mode)
      → (x ≡ running) ⊎ (x ≡ unborn)
      → get_elem? s.pids.pid_table pid ≡ some none
      → pid < pid_max + 1
      → pid_min ≤ pid
      → IsTable (with_entry s.pids pid (some (new_pid pid i)))
      → Inv (record s {
        pids = with_entry s.pids pid (some (new_pid pid i));
        mode = update s.mode pid x;
      })
  new_process i pid x fresh unused lt min table =
      let at = λ (j : ℕ).
        get_elem?-set s.pids.pid_table pid j (some (new_pid pid i))
          (omega (arith, inv.table.size)) in
      record {
        table = table;
        live = λ j ne used. elim (ℕ_discrete j pid) [
          | yes same ↦ record { entry = new_pid pid i; at = ground (arith, at j); alive = refl }
          | no other ↦
              let l = inv.live j ne (ground arith) in
              record { entry = l.entry; at = ground (arith, at j, l.at); alive = l.alive }
        ];
        owned = λ j pp e alive. ground (arith, at j, inv.owned j pp);
        sleeper = λ j c m.
            let (pp, e, mine, alive) = inv.sleeper j c (ground arith) in
            (pp, ground (arith, at c), mine, alive);
        wakened = λ j c m.
            let (pp, e, mine, done) = inv.wakened j c (ground arith) in
            (pp, ground (arith, at c), mine, done);
      }

  pub exit_process :
      (i status : ℕ) (pp : ProcPid)
      → i ≢ kernel_pid
      → s.mode i ≡ running
      → Entry s i pp
      → pp.pid_exited ≡ 0
      → Inv (record s {
        pids = with_entry s.pids i (some (exited pp status));
        mode = broadcast i (update s.mode i absent);
      })
  exit_process i status pp ne run here alive =
      let at = λ (j : ℕ).
        get_elem?-set s.pids.pid_table i j (some (exited pp status))
          (get_elem?-lt s.pids.pid_table i (some pp) here) in
      record {
        table = exited-IsTable inv.table i here status;
        live = λ j differs used.
            let l = inv.live j differs (ground arith) in
            record { entry = l.entry; at = ground (arith, at j, l.at); alive = l.alive };
        owned = λ j qq e still. ground (arith, at j, inv.owned j qq);
        sleeper = λ j c m.
            let (qq, e, mine, still) = inv.sleeper j c (ground arith) in
            (qq, ground (arith, at c), mine, still);
        wakened = λ j c m. elim (woken_cases (update s.mode i absent j) i c m) [
          | inl before ↦
              let (qq, e, mine, done) = inv.wakened j c (ground arith) in
              (qq, ground (arith, at c), mine, done)
          | inr (slept, same) ↦
              let (qq, e, mine, still) = inv.sleeper j c (ground arith) in
              (
                exited qq status,
                ground (arith, at c, ap (get_elem? s.pids.pid_table) same),
                mine,
                ground arith,
              )
        ];
      }

  -- The entry of an exited child goes, and its parent runs on.
  pub collect :
      (i c : ℕ) (pp : ProcPid)
      → (s.mode i ≡ running) ⊎ (s.mode i ≡ woken c)
      → Entry s c pp
      → pp.ppid_id ≡ i
      → pp.pid_exited ≢ 0
      → Inv (record s { pids = with_entry s.pids c none; mode = update s.mode i running })
  collect i c pp was here mine done =
      let at = λ (j : ℕ).
        get_elem?-set s.pids.pid_table c j none (get_elem?-lt s.pids.pid_table c (some pp) here) in
      record {
        table = reaped-IsTable inv.table c here;
        live = λ j ne used.
            let l = inv.live j ne (ground arith) in
            record { entry = l.entry; at = ground (arith, at j, l.at, l.alive); alive = l.alive };
        owned = λ j qq e alive. ground (arith, at j, inv.owned j qq);
        sleeper = λ j d m.
            let (qq, e, his, alive) = inv.sleeper j d (ground arith) in
            (qq, ground (arith, at d), his, alive);
        wakened = λ j d m.
            let (qq, e, his, gone) = inv.wakened j d (ground arith) in
            (qq, ground (arith, at d), his, gone);
      }

  pub fall_asleep :
      (i c : ℕ) (pp : ProcPid)
      → s.mode i ≡ running
      → Entry s c pp
      → pp.ppid_id ≡ i
      → pp.pid_exited ≡ 0
      → Inv (record s { pids = s.pids; mode = update s.mode i (waiting c) })
  fall_asleep i c pp was here mine alive = record {
    table = inv.table;
    live = λ j ne used.
        let l = inv.live j ne (ground arith) in
        record { entry = l.entry; at = l.at; alive = l.alive };
    owned = λ j qq e still. ground (arith, inv.owned j qq);
    sleeper = λ j d m. elim (ℕ_discrete j i) [
      | yes same ↦ (pp, ground arith, ground arith, alive)
      | no other ↦ inv.sleeper j d (ground arith)
    ];
    wakened = λ j d m. inv.wakened j d (ground arith);
  }

pub sys_waitpid-ret :
    (i pid status options : ℕ) (p : Pids) {w : Waited} {t : Pids}
    → sys_waitpid i pid status options p ≡ ret w t
    → (pid_wait pid i p ≡ ret w t) × (pid ≤ pid_max)
unfolding sys_waitpid
sys_waitpid-ret i pid status options p e = ground arith

pub sys_waitpid-fail :
    (i pid status options : ℕ) (p : Pids) {code : ℕ} {t : Pids}
    → sys_waitpid i pid status options p ≡ fail code t
    → (t ≡ p) ⊎ ((pid_wait pid i p ≡ fail code t) × (pid ≤ pid_max))
unfolding sys_waitpid
sys_waitpid-fail i pid status options p e = ground arith
