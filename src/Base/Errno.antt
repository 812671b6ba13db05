-- ===== src/Base/Errno.antt =====
-- Error codes of kern/include/kern/errno.h that the modelled code returns.
use Prim.Native.Nat.{ℕ}

abbrev pub enosys : ℕ
enosys = 1

abbrev pub enomem : ℕ
enomem = 3

abbrev pub efault : ℕ
efault = 6

abbrev pub enametoolong : ℕ
enametoolong = 7

abbrev pub einval : ℕ
einval = 8

abbrev pub esrch : ℕ
esrch = 15

abbrev pub echild : ℕ
echild = 16

abbrev pub emfile : ℕ
emfile = 28

abbrev pub ebadf : ℕ
ebadf = 30

abbrev pub espipe : ℕ
espipe = 33

abbrev pub enospc : ℕ
enospc = 36

abbrev pub enotdir : ℕ
enotdir = 17

abbrev pub enoent : ℕ
enoent = 19

abbrev pub eexist : ℕ
eexist = 22

abbrev pub enxio : ℕ
enxio = 26

abbrev pub enodev : ℕ
enodev = 25

abbrev pub eio : ℕ
eio = 32

abbrev pub efbig : ℕ
efbig = 38
