-- ===== src/Uiomove.antt =====
-- kern/lib/uio.c, kern/include/uio.h and common/libc/string/memmove.c: data movement between a kernel
-- buffer and the blocks that a uio describes.
pub mod Account
pub mod Zeros
pub mod Content
use Prim.Native.Nat.{min}
use cs3891_asst.Base.{
  ℕ, zero, suc, ◌+◌, ◌-◌, Bool, true, false, ◌&&◌, List, [], ◌∷◌, Result, ok, err, Run, ret, fail,
  panic, fault, K, pure, ◌>>=◌, ◌>>◌, and_then, kassert, ltb, ◌==◌, if◌then◌else◌, add32, sub32,
  add64, Option, none, some,
}
use cs3891_asst.Copyinout.{Memory, store, memcpy, copyin, copyout}

-- `enum uio_rw` and `enum uio_seg`. A value outside of these, for which uiomove panics, cannot be
-- written in the model.
pub data UioRw : Type 0 where
  uio_read : UioRw
  uio_write : UioRw

pub data UioSeg : Type 0 where
  uio_userispace : UioSeg
  uio_userspace : UioSeg
  uio_sysspace : UioSeg

pub record Iovec : Type 0 where
  pub iov_base : ℕ
  pub iov_len : ℕ

-- `uio_iov` holds `uio_iovcnt` blocks; `uio_space` is 0 for NULL.
pub record Uio : Type 0 where
  pub uio_iov : List Iovec
  pub uio_offset : ℕ
  pub uio_resid : ℕ
  pub uio_segflg : UioSeg
  pub uio_rw : UioRw
  pub uio_space : ℕ

pub record Moving : Type 0 where
  pub uio : Uio
  pub mem : Memory

-- `memmove` from the end on, when the destination is not below the source
unfoldable pub move_back : ℕ → ℕ → ℕ → Memory → Bool × Memory
move_back dst src zero m = (true, m)
move_back dst src (suc i) m = elim (m (src + i)) [
  | none ↦ (false, m)
  | some x ↦ elim (m (dst + i)) [
    | none ↦ (false, m)
    | some _ ↦ move_back dst src i (store m (dst + i) x)
  ]
]

unfoldable pub memmove : ℕ → ℕ → ℕ → Memory → Bool × Memory
memmove dst src len m = if ltb dst src then memcpy dst src len m else move_back dst src len m

-- Both `copyin` and `copyout` leave the memory that they changed when they fail; a bad address in
-- `memmove` is a fault of the kernel.
abbrev pub copied : Result (Unit {0}) × Memory → K Moving (Unit {0})
copied (ok _, m) s = ret tt (record s { mem = m })
copied (err e, m) s = fail e (record s { mem = m })

abbrev pub moved : Bool × Memory → K Moving (Unit {0})
moved (true, m) s = ret tt (record s { mem = m })
moved (false, m) s = fault

-- the switch on the kind of pointer and the direction
unfoldable pub move_block : UioSeg → UioRw → ℕ → ℕ → ℕ → K Moving (Unit {0})
move_block uio_sysspace uio_read base ptr size s = moved (memmove base ptr size s.mem) s
move_block uio_sysspace uio_write base ptr size s = moved (memmove ptr base size s.mem) s
move_block uio_userspace uio_read base ptr size s = copied (copyout ptr base size s.mem) s
move_block uio_userspace uio_write base ptr size s = copied (copyin base ptr size s.mem) s
move_block uio_userispace uio_read base ptr size s = copied (copyout ptr base size s.mem) s
move_block uio_userispace uio_write base ptr size s = copied (copyin base ptr size s.mem) s

-- the counts after `size` bytes of the block `v`, before `vs`
abbrev pub advance : Iovec → List Iovec → ℕ → Uio → Uio
advance v vs size u = record u {
  uio_iov = record { iov_base = add32 v.iov_base size; iov_len = sub32 v.iov_len size } ∷ vs;
  uio_resid = sub32 u.uio_resid size;
  uio_offset = add64 u.uio_offset size;
}

-- the next iovec: the count goes down before it is compared with 0
abbrev pub next_iovec : List Iovec → K Moving (Unit {0})
next_iovec [] s = panic
next_iovec (v ∷ vs) s = ret tt (record s { uio = record s.uio { uio_iov = v ∷ vs } })

-- The while loop, on fuel; without fuel it faults.
unfoldable pub move_loop : ℕ → ℕ → ℕ → K Moving (Unit {0})
move_loop zero ptr n s = fault
move_loop (suc fuel) ptr n s = elim (ltb 0 n && ltb 0 s.uio.uio_resid) [
  | false ↦ ret tt s
  | true ↦ elim s.uio.uio_iov [
    | [] ↦ fault
    | v ∷ vs ↦ elim (min v.iov_len n == 0) [
      | true ↦ and_then (next_iovec vs s) (λ _. move_loop fuel ptr n)
      | false ↦
          and_then (move_block s.uio.uio_segflg s.uio.uio_rw v.iov_base ptr (min v.iov_len n) s)
            (λ _ t.
              move_loop fuel (add32 ptr (min v.iov_len n)) (n - min v.iov_len n)
                (record t { uio = advance v vs (min v.iov_len n) t.uio }))
    ]
  ]
]

abbrev pub blocks : List Iovec → ℕ
blocks [] = 0
blocks (v ∷ vs) = suc (blocks vs)

abbrev pub space_fits : ℕ → Uio → Bool
space_fits proc_as u = elim u.uio_segflg [
  | uio_sysspace ↦ u.uio_space == 0
  | uio_userspace ↦ u.uio_space == proc_as
  | uio_userispace ↦ u.uio_space == proc_as
]

-- `proc_as` is the address space that `proc_getas` returns. Each round of the loop but the last
-- leaves a block behind or moves a byte.
unfoldable pub uiomove : ℕ → ℕ → ℕ → K Moving (Unit {0})
uiomove proc_as ptr n s =
    and_then (kassert (space_fits proc_as s.uio) s)
      (λ _. move_loop (n + blocks s.uio.uio_iov + 1) ptr n)

-- `block` is the address of the static array of 16 zeros; on fuel.
unfoldable pub zeros_loop : ℕ → ℕ → ℕ → ℕ → K Moving (Unit {0})
zeros_loop zero proc_as block n s = fault
zeros_loop (suc fuel) proc_as block n s = elim (ltb 0 n) [
  | false ↦ ret tt s
  | true ↦
      and_then (uiomove proc_as block (min 16 n) s)
        (λ _. zeros_loop fuel proc_as block (n - min 16 n))
]

abbrev pub is_read : UioRw → Bool
is_read uio_read = true
is_read uio_write = false

unfoldable pub uiomovezeros : ℕ → ℕ → ℕ → K Moving (Unit {0})
uiomovezeros proc_as block n s =
    and_then (kassert (is_read s.uio.uio_rw) s) (λ _. zeros_loop (n + 1) proc_as block n)

abbrev pub uio_kinit : ℕ → ℕ → ℕ → UioRw → Uio
uio_kinit kbuf len pos rw = record {
  uio_iov = record { iov_base = kbuf; iov_len = len } ∷ [];
  uio_offset = pos;
  uio_resid = len;
  uio_segflg = uio_sysspace;
  uio_rw = rw;
  uio_space = 0;
}

-- `proc_as` is the address space of the running process.
abbrev pub uio_uinit : ℕ → ℕ → ℕ → ℕ → UioRw → Uio
uio_uinit proc_as ubuf len pos rw = record {
  uio_iov = record { iov_base = ubuf; iov_len = len } ∷ [];
  uio_offset = pos;
  uio_resid = len;
  uio_segflg = uio_userspace;
  uio_rw = rw;
  uio_space = proc_as;
}
