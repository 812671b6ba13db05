-- ===== src/Examples/Times.antt =====
-- Times with a carry between nanoseconds and seconds.
use cs3891_asst.Base.{◌+◌, ◌≡◌, refl, arith}
use cs3891_asst.Time.{Timespec, timespec_add, timespec_sub}
use cs3891_asst.Time.Nanoseconds.{IsTime, nanoseconds, timespec_add_sub}

abbrev almost_six : Timespec
almost_six = record { tv_sec = 5; tv_nsec = 999999999 }

abbrev three_and_a_half : Timespec
three_and_a_half = record { tv_sec = 3; tv_nsec = 500000000 }

almost_six-IsTime : IsTime almost_six
almost_six-IsTime = record { sec = omega arith; nsec = omega arith }

three_and_a_half-IsTime : IsTime three_and_a_half
three_and_a_half-IsTime = record { sec = omega arith; nsec = omega arith }

sum : timespec_add almost_six three_and_a_half ≡ record { tv_sec = 9; tv_nsec = 499999999 }
unfolding timespec_add
sum = refl

timespec_add_sub_example :
    IsTime (timespec_add almost_six three_and_a_half)
    × (nanoseconds (timespec_add almost_six three_and_a_half)
        ≡ nanoseconds almost_six + nanoseconds three_and_a_half)
    × (timespec_sub (timespec_add almost_six three_and_a_half) three_and_a_half ≡ almost_six)
timespec_add_sub_example =
    timespec_add_sub almost_six three_and_a_half almost_six-IsTime three_and_a_half-IsTime
      (omega arith)
