-- ===== src/Time/Nanoseconds.antt =====
-- A time as one number of nanoseconds.
use cs3891_asst.Base.{ℕ, ◌+◌, ◌*◌, ◌^◌, ◌≤◌, ◌<◌, ◌≡◌, arith}
use cs3891_asst.Time.{billion, Timespec, timespec_add, timespec_sub}

-- Seconds that are not negative, and nanoseconds that are less than a second.
pub record IsTime (ts : Timespec) : Type 0 where
  pub sec : ts.tv_sec < 2 ^ 63
  pub nsec : ts.tv_nsec < billion

abbrev pub nanoseconds : Timespec → ℕ
nanoseconds ts = ts.tv_sec * billion + ts.tv_nsec

timespec_add-nanoseconds :
    (ts1 ts2 : Timespec)
    → IsTime ts1
    → IsTime ts2
    → ts1.tv_sec + ts2.tv_sec + 1 < 2 ^ 63
    → IsTime (timespec_add ts1 ts2)
      × (nanoseconds (timespec_add ts1 ts2) ≡ nanoseconds ts1 + nanoseconds ts2)
unfolding timespec_add
timespec_add-nanoseconds ts1 ts2 t1 t2 fits = (
  record { sec = ground (arith, t1.nsec, t2.nsec); nsec = ground (arith, t1.nsec, t2.nsec) },
  ground (arith, t1.nsec, t2.nsec),
)

-- The difference of a time and one that is not later is a time, and adds up with the other to the
-- first.
pub timespec_sub-nanoseconds :
    (ts1 ts2 : Timespec)
    → IsTime ts1
    → IsTime ts2
    → nanoseconds ts2 ≤ nanoseconds ts1
    → IsTime (timespec_sub ts1 ts2)
      × (nanoseconds (timespec_sub ts1 ts2) + nanoseconds ts2 ≡ nanoseconds ts1)
unfolding timespec_sub
timespec_sub-nanoseconds ts1 ts2 t1 t2 le = (
  record { sec = ground (arith, t1.nsec, t2.nsec); nsec = ground (arith, t1.nsec, t2.nsec) },
  ground (arith, t1.nsec, t2.nsec),
)

timespec_sub-timespec_add :
    (ts1 ts2 : Timespec) → IsTime ts1 → IsTime ts2 → timespec_sub (timespec_add ts1 ts2) ts2 ≡ ts1
unfolding timespec_add timespec_sub
timespec_sub-timespec_add ts1 ts2 t1 t2 = ground (arith, t1.sec, t1.nsec, t2.sec, t2.nsec)

-- The sum of two times, with seconds that are not negative and less than a second of nanoseconds each,
-- whose seconds add up to less than 2^63 - 1 is such a time too, of the sum of their nanoseconds; the difference of the sum and the second is the
-- first.
pub timespec_add_sub :
    (ts1 ts2 : Timespec)
    → IsTime ts1
    → IsTime ts2
    → ts1.tv_sec + ts2.tv_sec + 1 < 2 ^ 63
    → IsTime (timespec_add ts1 ts2)
      × (nanoseconds (timespec_add ts1 ts2) ≡ nanoseconds ts1 + nanoseconds ts2)
      × (timespec_sub (timespec_add ts1 ts2) ts2 ≡ ts1)
timespec_add_sub ts1 ts2 t1 t2 fits =
    let (sum, total) = timespec_add-nanoseconds ts1 ts2 t1 t2 fits in
    (sum, total, timespec_sub-timespec_add ts1 ts2 t1 t2)
