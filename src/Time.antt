-- ===== src/Time.antt =====
-- kern/lib/time.c: sums and differences of times. `tv_sec` is a signed 64-bit word, `tv_nsec` a signed
-- 32-bit word.
pub mod Nanoseconds
use cs3891_asst.Base.{
  ℕ, ◌+◌, ◌%◌, ◌^◌, Bool, not, ◌&&◌, ltb, leb, if◌then◌else◌, add32, sub32, add64, sub64, neg32,
}

abbrev pub billion : ℕ
billion = 1000000000

pub record Timespec : Type 0 where
  pub tv_sec : ℕ
  pub tv_nsec : ℕ

-- `x < y` of signed words
abbrev pub less32 : ℕ → ℕ → Bool
less32 x y = ltb (add32 x (2 ^ 31)) (add32 y (2 ^ 31))

unfoldable pub timespec_add : Timespec → Timespec → Timespec
timespec_add ts1 ts2 =
    let nsec = add32 ts1.tv_nsec ts2.tv_nsec in
    let sec = add64 ts1.tv_sec ts2.tv_sec in
    if not (less32 nsec billion)
    then record { tv_nsec = sub32 nsec billion; tv_sec = add64 sec 1 }
    else record { tv_nsec = nsec; tv_sec = sec }

unfoldable pub timespec_sub : Timespec → Timespec → Timespec
timespec_sub ts1 ts2 =
    if less32 ts1.tv_nsec ts2.tv_nsec
    then record {
      tv_nsec = sub32 (add32 ts1.tv_nsec billion) ts2.tv_nsec;
      tv_sec = sub64 (sub64 ts1.tv_sec 1) ts2.tv_sec;
    }
    else record { tv_nsec = sub32 ts1.tv_nsec ts2.tv_nsec; tv_sec = sub64 ts1.tv_sec ts2.tv_sec }
