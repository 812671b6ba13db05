-- ===== src/Uiomove/Account.antt =====
-- What `uiomove` does to the counts of a uio, however the blocks are cut.
use mathlib.Core.Path.{subst}
use Prim.Native.Nat.{min}
use native.Mathlib.Decide.{ℕ_discrete}
use cs3891_asst.Base.{
  ℕ, zero, suc, ◌+◌, ◌-◌, ◌^◌, ◌≤◌, ◌<◌, ◌≡◌, ◌≢◌, refl, sym, ap, ◌∙◌, inl, inr, true, false, ◌&&◌,
  List, [], ◌∷◌, arith, Result, ok, err, Run, ret, fail, and_then, ltb, Bool-cases, add32,
}
use cs3891_asst.Copyinout.{Memory, copyin, copyout}
use cs3891_asst.Uiomove.{
  UioRw, uio_read, uio_write, UioSeg, uio_userspace, uio_userispace, uio_sysspace, Iovec, Uio,
  Moving, copied, move_block, advance, next_iovec, move_loop, blocks,
}

abbrev pub total : List Iovec → ℕ
total [] = 0
total (v ∷ vs) = v.iov_len + total vs

-- A uio on user memory of the running process, whose residual count is the length of its blocks.
pub record IsUserUio (proc_as : ℕ) (u : Uio) : Type 0 where
  pub counted : total u.uio_iov ≡ u.uio_resid
  pub fits : u.uio_resid < 2 ^ 32
  pub ends : u.uio_offset + u.uio_resid < 2 ^ 63
  pub user : u.uio_segflg ≢ uio_sysspace
  pub space : u.uio_space ≡ proc_as

-- `k` bytes have gone from `u` to `u'`.
pub record Advanced (proc_as : ℕ) (u u' : Uio) (k : ℕ) : Type 0 where
  pub valid : IsUserUio proc_as u'
  pub resid : u'.uio_resid + k ≡ u.uio_resid
  pub offset : u'.uio_offset ≡ u.uio_offset + k
  pub same_rw : u'.uio_rw ≡ u.uio_rw

-- The outcomes of a move of `n` bytes.
pub data Moved (proc_as : ℕ) (s : Moving) (n : ℕ) : Run Moving (Unit {0}) → Type 0 where
  all_moved :
      {t : Moving}
      → Advanced proc_as s.uio t.uio (min n s.uio.uio_resid)
      → Moved proc_as s n (ret tt t)
  stopped :
      {e : ℕ} {t : Moving} (k : ℕ)
      → k ≤ min n s.uio.uio_resid
      → Advanced proc_as s.uio t.uio k
      → Moved proc_as s n (fail e t)

-- A block of user memory is copied or refused; neither touches the uio.
pub data BlockMoved (s : Moving) : Run Moving (Unit {0}) → Type 0 where
  block_copied : {m : Memory} → BlockMoved s (ret tt (record s { mem = m }))
  block_refused : {e : ℕ} {m : Memory} → BlockMoved s (fail e (record s { mem = m }))

copied-BlockMoved : (s : Moving) (r : Result (Unit {0}) × Memory) → BlockMoved s (copied r s)
copied-BlockMoved s (ok _, m) = block_copied
copied-BlockMoved s (err e, m) = block_refused

move_block-BlockMoved :
    (seg : UioSeg) (rw' : UioRw) (base ptr size : ℕ) (s : Moving)
    → seg ≢ uio_sysspace
    → BlockMoved s (move_block seg rw' base ptr size s)
unfolding move_block
move_block-BlockMoved uio_sysspace rw' base ptr size s user = absurd (user refl)
move_block-BlockMoved uio_userspace uio_read base ptr size s user =
    copied-BlockMoved s (copyout ptr base size s.mem)
move_block-BlockMoved uio_userspace uio_write base ptr size s user =
    copied-BlockMoved s (copyin base ptr size s.mem)
move_block-BlockMoved uio_userispace uio_read base ptr size s user =
    copied-BlockMoved s (copyout ptr base size s.mem)
move_block-BlockMoved uio_userispace uio_write base ptr size s user =
    copied-BlockMoved s (copyin base ptr size s.mem)

pub Advanced-zero : {a : ℕ} (u : Uio) → IsUserUio a u → Advanced a u u 0
Advanced-zero u i = record { valid = i; resid = omega arith; offset = omega arith; same_rw = refl }

pub Advanced-trans :
    {a : ℕ} {u u' u'' : Uio} {k l : ℕ}
    → Advanced a u u' k
    → Advanced a u' u'' l
    → Advanced a u u'' (k + l)
Advanced-trans p q = record {
  valid = q.valid;
  resid = omega (arith, p.resid, q.resid);
  offset = omega (arith, p.offset, q.offset);
  same_rw = q.same_rw ∙ p.same_rw;
}

-- After a move of `k` bytes, the rest of the move is one from there.
Moved-after :
    {a n m k : ℕ} {s t : Moving} {r : Run Moving (Unit {0})}
    → k ≤ n
    → m + k ≡ n
    → Advanced a s.uio t.uio k
    → Moved a t m r
    → Moved a s n r
Moved-after {a} {n} {m} {k} {s} {t} le e p (all_moved {t = u} q) =
    let sum : k + min m t.uio.uio_resid ≡ min n s.uio.uio_resid = omega (arith, p.resid) in
    all_moved (subst (Advanced a s.uio u.uio) sum (Advanced-trans p q))
Moved-after {k = k} le e p (stopped l h q) =
    stopped (k + l) (omega (arith, p.resid)) (Advanced-trans p q)

advance-Advanced :
    {a : ℕ} {u : Uio} (v : Iovec) (vs : List Iovec) (size : ℕ)
    → IsUserUio a u
    → u.uio_iov ≡ v ∷ vs
    → size ≤ v.iov_len
    → Advanced a u (advance v vs size u) size
advance-Advanced {u = u} v vs size i e le =
    let sum : v.iov_len + total vs ≡ u.uio_resid = ap total (sym e) ∙ i.counted in
    record {
      valid = record {
        counted = omega (arith, i.fits);
        fits = omega (arith, i.fits);
        ends = omega (arith, i.fits, i.ends);
        user = i.user;
        space = i.space;
      };
      resid = omega (arith, i.fits);
      offset = omega (arith, i.fits, i.ends);
      same_rw = refl;
    }

module _ (a : ℕ) where
  abbrev skip : List Iovec → Moving → Moving
  skip vs s = record s { uio = record s.uio { uio_iov = vs } }

  skip-IsUserUio :
      (s : Moving) (v : Iovec) (vs : List Iovec)
      → IsUserUio a s.uio
      → s.uio.uio_iov ≡ v ∷ vs
      → v.iov_len ≡ 0
      → IsUserUio a (skip vs s).uio
  skip-IsUserUio s v vs i e none_left =
      let sum : v.iov_len + total vs ≡ s.uio.uio_resid = ap total (sym e) ∙ i.counted in
      record { counted = omega arith; fits = i.fits; ends = i.ends; user = i.user; space = i.space }

  -- The rest of the loop, with less fuel.
  abbrev Rest : ℕ → Type 0
  Rest fuel =
      (ptr n : ℕ) (s : Moving)
      → IsUserUio a s.uio
      → n + blocks s.uio.uio_iov < fuel
      → Moved a s n (move_loop fuel ptr n s)

  after_skip :
      (fuel ptr n : ℕ) (s : Moving) (v : Iovec) (vs : List Iovec)
      → Rest fuel
      → IsUserUio a s.uio
      → s.uio.uio_iov ≡ v ∷ vs
      → n + blocks vs < fuel
      → v.iov_len ≡ 0
      → 0 < s.uio.uio_resid
      → Moved a s n (and_then (next_iovec vs s) (λ _. move_loop fuel ptr n))
  after_skip fuel ptr n s v [] rest i e enough none_left more =
      absurd (omega (arith, ap total (sym e) ∙ i.counted))
  after_skip fuel ptr n s v (w ∷ ws) rest i e enough none_left more =
      let skipped = skip-IsUserUio s v (w ∷ ws) i e none_left in
      let same : Advanced a s.uio (skip (w ∷ ws) s).uio 0 = record {
        valid = skipped;
        resid = omega arith;
        offset = omega arith;
        same_rw = refl;
      } in
      Moved-after (omega arith) (omega arith) same (rest ptr n (skip (w ∷ ws) s) skipped enough)

  after_block :
      (fuel ptr n : ℕ) (s : Moving) (v : Iovec) (vs : List Iovec)
      → Rest fuel
      → IsUserUio a s.uio
      → s.uio.uio_iov ≡ v ∷ vs
      → n + blocks vs < fuel
      → {r : Run Moving (Unit {0})} → BlockMoved s r
      → min v.iov_len n ≢ 0
      → Moved a s n (
          and_then r (λ _ t.
            move_loop fuel
              (add32 ptr (min v.iov_len n))
              (n - min v.iov_len n)
              (record t { uio = advance v vs (min v.iov_len n) t.uio })))
  after_block fuel ptr n s v vs rest i e enough (block_copied {m}) ne =
      let step = advance-Advanced v vs (min v.iov_len n) i e (omega arith) in
      Moved-after (omega arith) (omega arith) step
        (rest (add32 ptr (min v.iov_len n)) (n - min v.iov_len n) _ step.valid (omega arith))
  after_block fuel ptr n s v vs rest i e enough (block_refused {e = code} {m}) ne =
      stopped 0 (omega arith) (Advanced-zero s.uio i)

  round_done :
      (fuel ptr n : ℕ) (s : Moving)
      → (ltb 0 n && ltb 0 s.uio.uio_resid) ≡ false
      → move_loop (suc fuel) ptr n s ≡ ret tt s
  unfolding move_loop
  round_done fuel ptr n s e = ground arith

  round_skip :
      (fuel ptr n : ℕ) (s : Moving) (v : Iovec) (vs : List Iovec)
      → (ltb 0 n && ltb 0 s.uio.uio_resid) ≡ true
      → s.uio.uio_iov ≡ v ∷ vs
      → min v.iov_len n ≡ 0
      → and_then (next_iovec vs s) (λ _. move_loop fuel ptr n) ≡ move_loop (suc fuel) ptr n s
  unfolding move_loop
  round_skip fuel ptr n s v vs more e none_left = ground arith

  round_block :
      (fuel ptr n : ℕ) (s : Moving) (v : Iovec) (vs : List Iovec)
      → (ltb 0 n && ltb 0 s.uio.uio_resid) ≡ true
      → s.uio.uio_iov ≡ v ∷ vs
      → min v.iov_len n ≢ 0
      → and_then
          (move_block s.uio.uio_segflg s.uio.uio_rw v.iov_base ptr (min v.iov_len n) s)
          (λ _ t.
            move_loop fuel
              (add32 ptr (min v.iov_len n))
              (n - min v.iov_len n)
              (record t { uio = advance v vs (min v.iov_len n) t.uio }))
        ≡ move_loop (suc fuel) ptr n s
  unfolding move_loop
  round_block fuel ptr n s v vs more e ne = ground arith

  round-Moved :
      (fuel ptr n : ℕ) (s : Moving) (vs : List Iovec)
      → Rest fuel
      → IsUserUio a s.uio
      → s.uio.uio_iov ≡ vs
      → n + blocks vs < suc fuel
      → (ltb 0 n && ltb 0 s.uio.uio_resid) ≡ true
      → Moved a s n (move_loop (suc fuel) ptr n s)
  round-Moved fuel ptr n s [] rest i e enough more =
      let sum : 0 ≡ s.uio.uio_resid = ap total (sym e) ∙ i.counted in absurd (ground arith)
  round-Moved fuel ptr n s (v ∷ vs) rest i e enough more = elim (ℕ_discrete (min v.iov_len n) 0) [
    | yes none_left ↦
        subst (Moved a s n) (round_skip fuel ptr n s v vs more e none_left)
          (after_skip fuel ptr n s v vs rest i e (omega arith) (ground arith) (ground arith))
    | no ne ↦ subst (Moved a s n) (round_block fuel ptr n s v vs more e ne) (
        after_block fuel ptr n s v vs rest i e (omega arith)
          (move_block-BlockMoved s.uio.uio_segflg s.uio.uio_rw v.iov_base ptr (min v.iov_len n) s
            i.user)
          ne)
  ]

  pub move_loop-Moved : (fuel : ℕ) → Rest fuel
  move_loop-Moved zero ptr n s i enough = absurd (omega arith)
  move_loop-Moved (suc fuel) ptr n s i enough =
      elim (Bool-cases (ltb 0 n && ltb 0 s.uio.uio_resid)) [
        | inl more ↦
            round-Moved fuel ptr n s s.uio.uio_iov (move_loop-Moved fuel) i refl enough more
        | inr done ↦
            let nothing : 0 ≡ min n s.uio.uio_resid = ground arith in
            subst (Moved a s n) (sym (round_done fuel ptr n s done))
              (all_moved (subst (Advanced a s.uio s.uio) nothing (Advanced-zero s.uio i)))
      ]
