-- ===== src/Uiomove/Content.antt =====
-- The bytes that `uiomove` copies through a uio made by `uio_uinit`, over one user buffer.
use Prim.Native.Nat.{min}
use cs3891_asst.Base.{ℕ, suc, ◌+◌, ◌-◌, ◌^◌, ◌≤◌, ◌<◌, ◌≡◌, [], arith, ok, Run, ret, add32}
use cs3891_asst.Copyinout.{Memory, userspacetop, copyin, copyout}
use cs3891_asst.Copyinout.Blocks.{Outside, Mapped, copyout-copies, copyin-copies}
use cs3891_asst.Uiomove.{
  UioRw, uio_read, uio_write, Uio, Moving, move_block, advance, move_loop, uiomove, uio_uinit,
}

-- the uio after `k` bytes of its buffer
abbrev pub moved_uio : ℕ → ℕ → ℕ → ℕ → UioRw → ℕ → Uio
moved_uio a ubuf len pos dir k =
    advance (record { iov_base = ubuf; iov_len = len }) [] k (uio_uinit a ubuf len pos dir)

module _ (a ptr ubuf len pos n : ℕ) (m : Memory) where
  abbrev pub to_move : UioRw → Moving
  to_move dir = record { uio = uio_uinit a ubuf len pos dir; mem = m }

  stop :
      (dir : UioRw) (m' : Memory) (fuel : ℕ)
      → len < 2 ^ 32
      → move_loop
          (suc fuel)
          (add32 ptr (min len n))
          (n - min len n)
          (record { uio = moved_uio a ubuf len pos dir (min len n); mem = m' })
        ≡ ret tt (record { uio = moved_uio a ubuf len pos dir (min len n); mem = m' })
  unfolding move_loop
  stop dir m' fuel small = ground arith

  read_loop :
      (m' : Memory) (fuel : ℕ)
      → 0 < len
      → 0 < n
      → len < 2 ^ 32
      → copyout ptr ubuf (min len n) m ≡ (ok tt, m')
      → move_loop (suc (suc fuel)) ptr n (to_move uio_read)
        ≡ ret tt (record { uio = moved_uio a ubuf len pos uio_read (min len n); mem = m' })
  unfolding move_loop move_block
  read_loop m' fuel some_len some_n small e = ground (arith, e, stop uio_read m' fuel small)

  write_loop :
      (m' : Memory) (fuel : ℕ)
      → 0 < len
      → 0 < n
      → len < 2 ^ 32
      → copyin ubuf ptr (min len n) m ≡ (ok tt, m')
      → move_loop (suc (suc fuel)) ptr n (to_move uio_write)
        ≡ ret tt (record { uio = moved_uio a ubuf len pos uio_write (min len n); mem = m' })
  unfolding move_loop move_block
  write_loop m' fuel some_len some_n small e = ground (arith, e, stop uio_write m' fuel small)

  from_loop :
      (dir : UioRw) {r : Run Moving (Unit {0})}
      → ((fuel : ℕ) → move_loop (suc (suc fuel)) ptr n (to_move dir) ≡ r)
      → uiomove a ptr n (to_move dir) ≡ r
  unfolding uiomove
  from_loop dir e =
      let rounds : n + 1 + 1 ≡ suc (suc n) = omega arith in ground (arith, e n, rounds)

uiomove-read :
    (a ptr ubuf len pos n : ℕ) (m : Memory)
    → 0 < len
    → 0 < n
    → ubuf + len ≤ userspacetop
    → userspacetop ≤ ptr
    → Mapped m ptr n
    → Mapped m ubuf len
    → (m' : Memory) × (uiomove a ptr n (to_move a ptr ubuf len pos n m uio_read)
        ≡ ret tt (record { uio = moved_uio a ubuf len pos uio_read (min len n); mem = m' }))
      × ((i : ℕ) → i < min len n → m' (ubuf + i) ≡ m (ptr + i))
      × ((x : ℕ) → Outside x ubuf (min len n) → m' x ≡ m x)
uiomove-read a ptr ubuf len pos n m some_len some_n user kernel hs hd =
    let (done, same, others) =
      copyout-copies ptr ubuf (min len n) m (omega arith) (omega arith) kernel
        (λ i lt. hs i (omega arith)) (λ i lt. hd i (omega arith)) in
    (
      (copyout ptr ubuf (min len n) m).1,
      from_loop a ptr ubuf len pos n m uio_read (λ fuel.
          read_loop a ptr ubuf len pos n m _ fuel some_len some_n (omega arith)
            (ground (arith, done))),
      same,
      others,
    )

uiomove-write :
    (a ptr ubuf len pos n : ℕ) (m : Memory)
    → 0 < len
    → 0 < n
    → ubuf + len ≤ userspacetop
    → userspacetop ≤ ptr
    → Mapped m ptr n
    → Mapped m ubuf len
    → (m' : Memory) × (uiomove a ptr n (to_move a ptr ubuf len pos n m uio_write)
        ≡ ret tt (record { uio = moved_uio a ubuf len pos uio_write (min len n); mem = m' }))
      × ((i : ℕ) → i < min len n → m' (ptr + i) ≡ m (ubuf + i))
      × ((x : ℕ) → Outside x ptr (min len n) → m' x ≡ m x)
uiomove-write a ptr ubuf len pos n m some_len some_n user kernel hd hs =
    let (done, same, others) =
      copyin-copies ubuf ptr (min len n) m (omega arith) (omega arith) kernel
        (λ i lt. hs i (omega arith)) (λ i lt. hd i (omega arith)) in
    (
      (copyin ubuf ptr (min len n) m).1,
      from_loop a ptr ubuf len pos n m uio_write (λ fuel.
          write_loop a ptr ubuf len pos n m _ fuel some_len some_n (omega arith)
            (ground (arith, done))),
      same,
      others,
    )

-- `uiomove` of `n` bytes between the kernel address `ptr` and a user buffer of `len` bytes, both
-- accessible, succeeds in both directions: the first min(len, n) bytes at the destination are those of
-- the source, no other memory has changed, and the uio has moved on by that many bytes.
pub uiomove-copies :
    (a ptr ubuf len pos n : ℕ) (m : Memory)
    → 0 < len
    → 0 < n
    → ubuf + len ≤ userspacetop
    → userspacetop ≤ ptr
    → Mapped m ptr n
    → Mapped m ubuf len
    → ((m' : Memory) × (uiomove a ptr n (to_move a ptr ubuf len pos n m uio_read)
          ≡ ret tt (record { uio = moved_uio a ubuf len pos uio_read (min len n); mem = m' }))
        × ((i : ℕ) → i < min len n → m' (ubuf + i) ≡ m (ptr + i))
        × ((x : ℕ) → Outside x ubuf (min len n) → m' x ≡ m x))
      × ((m' : Memory) × (uiomove a ptr n (to_move a ptr ubuf len pos n m uio_write)
            ≡ ret tt (record { uio = moved_uio a ubuf len pos uio_write (min len n); mem = m' }))
          × ((i : ℕ) → i < min len n → m' (ptr + i) ≡ m (ubuf + i))
          × ((x : ℕ) → Outside x ptr (min len n) → m' x ≡ m x))
uiomove-copies a ptr ubuf len pos n m some_len some_n user kernel hk hu = (
  uiomove-read a ptr ubuf len pos n m some_len some_n user kernel hk hu,
  uiomove-write a ptr ubuf len pos n m some_len some_n user kernel hk hu,
)
