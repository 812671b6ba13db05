-- ===== src/Uiomove/Zeros.antt =====
-- `uiomove` and `uiomovezeros` as a whole.
use mathlib.Core.Path.{subst}
use Prim.Native.Nat.{min}
use native.Mathlib.Decide.{dec_lt}
use cs3891_asst.Base.{
  ℕ, zero, suc, ◌+◌, ◌-◌, ◌≤◌, ◌<◌, ◌≡◌, ◌≢◌, refl, ◌⊎◌, inl, inr, true, arith, Run, K, and_then,
}
use cs3891_asst.Uiomove.{
  UioRw, uio_read, uio_write, UioSeg, uio_userspace, uio_userispace, uio_sysspace, Uio, Moving,
  blocks, uiomove, zeros_loop, uiomovezeros, space_fits,
}
use cs3891_asst.Uiomove.Account.{
  IsUserUio, Advanced, Moved, all_moved, stopped, Advanced-trans, Advanced-zero, move_loop-Moved,
}

space_fits-user :
    (u : Uio) (seg : UioSeg)
    → u.uio_segflg ≡ seg
    → seg ≢ uio_sysspace
    → space_fits u.uio_space u ≡ true
space_fits-user u uio_sysspace e user = absurd (user refl)
space_fits-user u uio_userspace e user = ground arith
space_fits-user u uio_userispace e user = ground arith

space_fits-IsUserUio : {a : ℕ} {u : Uio} → IsUserUio a u → space_fits a u ≡ true
space_fits-IsUserUio {a} {u} i =
    subst (λ x. space_fits x u ≡ true) i.space (space_fits-user u u.uio_segflg refl i.user)

uiomove-Moved : (a ptr n : ℕ) (s : Moving) → IsUserUio a s.uio → Moved a s n (uiomove a ptr n s)
unfolding uiomove
uiomove-Moved a ptr n s i =
    rw (space_fits-IsUserUio i)
      (move_loop-Moved a (n + blocks s.uio.uio_iov + 1) ptr n s i (omega arith))

chunks :
    {a : ℕ} (n c : ℕ) (s t : Moving) {r : Run Moving (Unit {0})}
    → c ≤ n
    → Advanced a s.uio t.uio (min c s.uio.uio_resid)
    → Moved a t (n - c) r
    → Moved a s n r
chunks {a} n c s t le p (all_moved {t = u} q) =
    let sum : min c s.uio.uio_resid + min (n - c) t.uio.uio_resid ≡ min n s.uio.uio_resid =
      omega (arith, p.resid) in
    all_moved (subst (Advanced a s.uio u.uio) sum (Advanced-trans p q))
chunks n c s t le p (stopped l h q) =
    stopped (min c s.uio.uio_resid + l) (omega (arith, p.resid)) (Advanced-trans p q)

-- A chunk of at most `c` bytes, and the rest of the move.
chunk-Moved :
    (a c n : ℕ) (s : Moving) (k : K Moving (Unit {0})) {r : Run Moving (Unit {0})}
    → c ≤ n
    → Moved a s c r
    → ((t : Moving) → IsUserUio a t.uio → Moved a t (n - c) (k t))
    → Moved a s n (and_then r (λ _. k))
chunk-Moved a c n s k le (all_moved {t} p) rest = chunks n c s t le p (rest t p.valid)
chunk-Moved a c n s k le (stopped l h p) rest = stopped l (omega arith) p

zeros_loop-Moved :
    (fuel a block n : ℕ) (s : Moving)
    → IsUserUio a s.uio
    → n < fuel
    → Moved a s n (zeros_loop fuel a block n s)
unfolding zeros_loop
zeros_loop-Moved zero a block n s i enough = absurd (omega arith)
zeros_loop-Moved (suc fuel) a block n s i enough = elim (dec_lt 0 n) [
  | yes more ↦ subst (Moved a s n) (ground arith) (
      chunk-Moved a (min 16 n) n s (zeros_loop fuel a block (n - min 16 n)) (omega arith)
        (uiomove-Moved a block (min 16 n) s i)
        (λ t j. zeros_loop-Moved fuel a block (n - min 16 n) t j (omega arith)))
  | no done ↦
      let nothing : 0 ≡ min n s.uio.uio_resid = omega arith in
      subst (Moved a s n) (ground arith)
        (all_moved {t = s} (subst (Advanced a s.uio s.uio) nothing (Advanced-zero s.uio i)))
]

uiomovezeros-Moved :
    (a block n : ℕ) (s : Moving)
    → IsUserUio a s.uio
    → s.uio.uio_rw ≡ uio_read
    → Moved a s n (uiomovezeros a block n s)
unfolding uiomovezeros
uiomovezeros-Moved a block n s i reading =
    subst (Moved a s n) (ground (arith, reading))
      (zeros_loop-Moved (n + 1) a block n s i (omega arith))

-- `uiomove` of `n` bytes on a uio over user memory whose residual count is the length of its blocks, and
-- `uiomovezeros`, unless the uio is for a write: all `n` bytes are moved, or as many as the blocks have
-- room for; or the copy fails after some of them. Either way the offset has gone up and the
-- residual count down by the number of bytes that were moved, and the residual count is again the
-- length of the blocks. They end, and never panic.
pub moves_account :
    (a ptr n : ℕ) (s : Moving)
    → IsUserUio a s.uio
    → Moved a s n (uiomove a ptr n s)
      × ((s.uio.uio_rw ≡ uio_write) ⊎ Moved a s n (uiomovezeros a ptr n s))
moves_account a ptr n s i = (uiomove-Moved a ptr n s i, by_direction s.uio.uio_rw refl)
  where
    by_direction :
        (dir : UioRw)
        → s.uio.uio_rw ≡ dir
        → (s.uio.uio_rw ≡ uio_write) ⊎ Moved a s n (uiomovezeros a ptr n s)
    by_direction uio_read e = inr (uiomovezeros-Moved a ptr n s i e)
    by_direction uio_write e = inl e
