-- ===== src/Copyinout.antt =====
-- kern/vm/copyinout.c: copying between user and kernel memory. Both are in one address space, with the
-- user's part below USERSPACETOP. An address that cannot be accessed holds nothing; an access to it
-- is the fault that `copyfail` turns into EFAULT. Bytes that were copied before it stay.
pub mod Check
pub mod Blocks
pub mod Strings
use cs3891_asst.Base.{
  ℕ, zero, suc, ◌+◌, ◌-◌, ◌%◌, ◌^◌, Bool, true, false, not, Option, none, some, Result, ok, err,
  ltb, leb, ◌==◌, if◌then◌else◌, sub32, add32, efault, enametoolong,
}

abbrev pub userspacetop : ℕ
userspacetop = 0x80000000

abbrev pub Memory : Type 0
Memory = ℕ → Option ℕ

abbrev pub store : Memory → ℕ → ℕ → Memory
store m a x b = if b == a then some x else m b

-- The result is what goes through `stoplen`.
unfoldable pub copycheck : ℕ → ℕ → Result ℕ
copycheck bot len =
    let top = sub32 (add32 bot len) 1 in
    if ltb top bot
    then err efault
    else if leb userspacetop bot
    then err efault
    else if leb userspacetop top
    then ok (sub32 userspacetop bot)
    else ok len

-- `memcpy`, byte by byte: whether it came to its end, and the memory then.
unfoldable pub memcpy : ℕ → ℕ → ℕ → Memory → Bool × Memory
memcpy dest src zero m = (true, m)
memcpy dest src (suc n) m = elim (m src) [
  | none ↦ (false, m)
  | some x ↦ elim (m dest) [
    | none ↦ (false, m)
    | some _ ↦ memcpy (dest + 1) (src + 1) n (store m dest x)
  ]
]

-- `setjmp` returns here with an error if the copy faulted.
abbrev pub caught : Bool × Memory → Result (Unit {0}) × Memory
caught (true, m) = (ok tt, m)
caught (false, m) = (err efault, m)

-- The block between user address `user` and `user + len` is copied by `copy`.
unfoldable pub copy_block : ℕ → ℕ → (Memory → Bool × Memory) → Memory → Result (Unit {0}) × Memory
copy_block user len copy m = elim (copycheck user len) [
  | err e ↦ (err e, m)
  | ok stoplen ↦ if not (stoplen == len) then (err efault, m) else caught (copy m)
]

unfoldable pub copyin : ℕ → ℕ → ℕ → Memory → Result (Unit {0}) × Memory
copyin usersrc dest len = copy_block usersrc len (memcpy dest usersrc len)

unfoldable pub copyout : ℕ → ℕ → ℕ → Memory → Result (Unit {0}) × Memory
copyout src userdest len = copy_block userdest len (memcpy userdest src len)

-- `copystr` from index `i` on, `n` short of `maxlen`. The result is what goes through `gotlen`.
unfoldable pub copystr : ℕ → ℕ → ℕ → ℕ → ℕ → ℕ → Memory → Result ℕ × Memory
copystr dest src maxlen stoplen zero i m =
    (if ltb stoplen maxlen then err efault else err enametoolong, m)
copystr dest src maxlen stoplen (suc n) i m = elim (ltb i stoplen) [
  | false ↦ (if ltb stoplen maxlen then err efault else err enametoolong, m)
  | true ↦ elim (m (src + i)) [
    | none ↦ (err efault, m)
    | some x ↦ elim (m (dest + i)) [
      | none ↦ (err efault, m)
      | some _ ↦ elim (x == 0) [
        | true ↦ (ok (i + 1), store m (dest + i) x)
        | false ↦ copystr dest src maxlen stoplen n (i + 1) (store m (dest + i) x)
      ]
    ]
  ]
]

unfoldable pub copyinstr : ℕ → ℕ → ℕ → Memory → Result ℕ × Memory
copyinstr usersrc dest len m = elim (copycheck usersrc len) [
  | err e ↦ (err e, m)
  | ok stoplen ↦ copystr dest usersrc len stoplen len 0 m
]

unfoldable pub copyoutstr : ℕ → ℕ → ℕ → Memory → Result ℕ × Memory
copyoutstr src userdest len m = elim (copycheck userdest len) [
  | err e ↦ (err e, m)
  | ok stoplen ↦ copystr userdest src len stoplen len 0 m
]
