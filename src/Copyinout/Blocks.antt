-- ===== src/Copyinout/Blocks.antt =====
-- `copyin` and `copyout`: what they copy, and what they can never touch.
use native.Mathlib.Decide.{ℕ_discrete}
use cs3891_asst.Base.{
  ℕ, zero, suc, ◌+◌, ◌^◌, ◌≤◌, ◌<◌, ◌≡◌, ◌⊎◌, ◌∙◌, inl, inr, refl, sym, ap, Bool, true, false,
  Option, none, some, Result, ok, err, arith, efault, ◌==◌, Option-cases, Bool-cases,
}
use cs3891_asst.Copyinout.{
  userspacetop, Memory, store, copycheck, memcpy, caught, copy_block, copyin, copyout,
}
use cs3891_asst.Copyinout.Check.{copycheck-ok, copycheck-user}

-- Address `a` is not in the block of `n` bytes at `p`.
abbrev pub Outside : ℕ → ℕ → ℕ → Type 0
Outside a p n = (a < p) ⊎ (p + n ≤ a)

-- Every byte of the block can be accessed.
abbrev pub Mapped : Memory → ℕ → ℕ → Type 0
Mapped m p n = (i : ℕ) → i < n → (x : ℕ) × (m (p + i) ≡ some x)

-- Copying changes only the destination block.
memcpy-Outside :
    (n dest src a : ℕ) (m : Memory) → Outside a dest n → (memcpy dest src n m).1 a ≡ m a
unfolding memcpy
memcpy-Outside zero dest src a m out = refl
memcpy-Outside (suc n) dest src a m out =
    ground (arith, memcpy-Outside n (dest + 1) (src + 1) a (store m dest (get_or_zero (m src))))
  where
    get_or_zero : Option ℕ → ℕ
    get_or_zero none = 0
    get_or_zero (some x) = x

memcpy-step :
    (n dest src x y : ℕ) (m : Memory)
    → m src ≡ some x
    → m dest ≡ some y
    → memcpy dest src (suc n) m ≡ memcpy (dest + 1) (src + 1) n (store m dest x)
unfolding memcpy
memcpy-step n dest src x y m hs hd = ground arith

-- A copy that comes to its end has read and written every byte.
memcpy-done :
    (n dest src : ℕ) (m : Memory)
    → (memcpy dest src (suc n) m).0 ≡ true
    → (x y : ℕ) × (m src ≡ some x) × (m dest ≡ some y)
unfolding memcpy
memcpy-done n dest src m done = elim (Option-cases (m src)) [
  | inl unread ↦ ground arith
  | inr (x, hs) ↦ elim (Option-cases (m dest)) [
    | inl unwritten ↦ ground arith
    | inr (y, hd) ↦ (x, y, hs, hd)
  ]
]

memcpy-copies :
    (n dest src i : ℕ) (m : Memory)
    → (src + n ≤ dest) ⊎ (dest + n ≤ src)
    → (memcpy dest src n m).0 ≡ true
    → i < n
    → (memcpy dest src n m).1 (dest + i) ≡ m (src + i)
memcpy-copies zero dest src i m apart done lt = elim lt [ ]
memcpy-copies (suc n) dest src zero m apart done lt =
    let (x, y, hs, hd) = memcpy-done n dest src m done in
    let kept =
      memcpy-Outside n (dest + 1) (src + 1) (dest + 0) (store m dest x) (inl (omega arith)) in
    let d : dest + 0 ≡ dest = omega arith in
    let z : src + 0 ≡ src = omega arith in
    rw (memcpy-step n dest src x y m hs hd) (kept ∙ ground (arith, hs, d, ap m z))
memcpy-copies (suc n) dest src (suc i) m apart done lt =
    let (x, y, hs, hd) = memcpy-done n dest src m done in
    let step = memcpy-step n dest src x y m hs hd in
    let done' = sym (ap (λ r. r.0) step) ∙ done in
    let rest =
      memcpy-copies n (dest + 1) (src + 1) i (store m dest x) (omega arith) done' (omega arith) in
    let d : dest + 1 + i ≡ dest + suc i = omega arith in
    let z : src + 1 + i ≡ src + suc i = omega arith in rw (step, ← d, ← z) (rest ∙ ground arith)

Mapped-store : (m : Memory) (d x p n : ℕ) → Mapped m p (suc n) → Mapped (store m d x) (p + 1) n
Mapped-store m d x p n h i lt =
    let (y, at) = h (suc i) (omega arith) in
    let e : p + 1 + i ≡ p + suc i = omega arith in
    elim (Bool-cases (p + 1 + i == d)) [
      | inl hit ↦ (x, rw hit)
      | inr miss ↦ (y, rw miss (ap m e ∙ at))
    ]

Mapped-head : (m : Memory) (p n : ℕ) → Mapped m p (suc n) → (x : ℕ) × (m p ≡ some x)
Mapped-head m p n h =
    let (x, at) = h 0 (omega arith) in let e : p + 0 ≡ p = omega arith in (x, sym (ap m e) ∙ at)

-- A copy between accessible blocks comes to its end.
memcpy-total :
    (n dest src : ℕ) (m : Memory)
    → Mapped m src n
    → Mapped m dest n
    → (memcpy dest src n m).0 ≡ true
memcpy-total zero dest src m hs hd = unfold memcpy in refl
memcpy-total (suc n) dest src m hs hd =
    let (x, s_at) = Mapped-head m src n hs in
    let (y, d_at) = Mapped-head m dest n hd in
    ap (λ r. r.0) (memcpy-step n dest src x y m s_at d_at)
    ∙ memcpy-total n (dest + 1) (src + 1) (store m dest x) (Mapped-store m dest x src n hs)
        (Mapped-store m dest x dest n hd)

pub copyin-copies :
    (usersrc dest len : ℕ) (m : Memory)
    → 0 < len
    → usersrc + len ≤ userspacetop
    → userspacetop ≤ dest
    → Mapped m usersrc len
    → Mapped m dest len
    → ((copyin usersrc dest len m).0 ≡ ok tt)
      × ((i : ℕ) → i < len → (copyin usersrc dest len m).1 (dest + i) ≡ m (usersrc + i))
      × ((a : ℕ) → Outside a dest len → (copyin usersrc dest len m).1 a ≡ m a)
unfolding copyin copy_block
copyin-copies usersrc dest len m pos user kernel hs hd =
    let pass = copycheck-user usersrc len (omega arith) pos (omega arith) in
    let done = memcpy-total len dest usersrc m hs hd in
    (
      ground (arith, pass, done),
      λ i lt.
          ground
            (arith, pass, done, memcpy-copies len dest usersrc i m (inl (omega arith)) done lt),
      λ a out. ground (arith, pass, done, memcpy-Outside len dest usersrc a m out),
    )

pub copyout-copies :
    (src userdest len : ℕ) (m : Memory)
    → 0 < len
    → userdest + len ≤ userspacetop
    → userspacetop ≤ src
    → Mapped m src len
    → Mapped m userdest len
    → ((copyout src userdest len m).0 ≡ ok tt)
      × ((i : ℕ) → i < len → (copyout src userdest len m).1 (userdest + i) ≡ m (src + i))
      × ((a : ℕ) → Outside a userdest len → (copyout src userdest len m).1 a ≡ m a)
unfolding copyout copy_block
copyout-copies src userdest len m pos user kernel hs hd =
    let pass = copycheck-user userdest len (omega arith) pos (omega arith) in
    let done = memcpy-total len userdest src m hs hd in
    (
      ground (arith, pass, done),
      λ i lt.
          ground
            (arith, pass, done, memcpy-copies len userdest src i m (inr (omega arith)) done lt),
      λ a out. ground (arith, pass, done, memcpy-Outside len userdest src a m out),
    )

caught-world : (r : Bool × Memory) → (caught r).1 ≡ r.1
caught-world (true, m) = refl
caught-world (false, m) = refl

copy_block-kernel :
    (src userdest len stop a : ℕ) (m : Memory) (res : Result ℕ)
    → userdest < 2 ^ 32
    → len < 2 ^ 32
    → userspacetop ≤ a
    → copycheck userdest len ≡ res
    → (copy_block userdest len (memcpy userdest src len) m).1 a ≡ m a
unfolding copy_block
copy_block-kernel src userdest len stop a m (err e) hb hl kernel check = ground (arith, check)
copy_block-kernel src userdest len stop a m (ok n) hb hl kernel check = elim (ℕ_discrete n len) [
  | no differs ↦ ground (arith, check)
  | yes same ↦
      let inside = copycheck-ok userdest len n hb hl check in
      let kept = memcpy-Outside len userdest src a m (inr (omega arith)) in
      ground (arith, check, caught-world (memcpy userdest src len m))
]

-- Between a block in user space and a block at or above USERSPACETOP, both accessible and of the same
-- length, which is not 0, `copyin` and `copyout` succeed. The block copied to then holds the bytes
-- of the other, and nothing else has changed.
pub copies_both_ways :
    (user kernel len : ℕ) (m : Memory)
    → 0 < len
    → user + len ≤ userspacetop
    → userspacetop ≤ kernel
    → Mapped m user len
    → Mapped m kernel len
    → (((copyin user kernel len m).0 ≡ ok tt)
        × ((i : ℕ) → i < len → (copyin user kernel len m).1 (kernel + i) ≡ m (user + i))
        × ((a : ℕ) → Outside a kernel len → (copyin user kernel len m).1 a ≡ m a))
      × (((copyout kernel user len m).0 ≡ ok tt)
          × ((i : ℕ) → i < len → (copyout kernel user len m).1 (user + i) ≡ m (kernel + i))
          × ((a : ℕ) → Outside a user len → (copyout kernel user len m).1 a ≡ m a))
copies_both_ways user kernel len m pos below above hu hk = (
  copyin-copies user kernel len m pos below above hu hk,
  copyout-copies kernel user len m pos below above hk hu,
)

pub copyout-kernel_unchanged :
    (src userdest len a : ℕ) (m : Memory)
    → userdest < 2 ^ 32
    → len < 2 ^ 32
    → userspacetop ≤ a
    → (copyout src userdest len m).1 a ≡ m a
unfolding copyout
copyout-kernel_unchanged src userdest len a m hb hl kernel =
    copy_block-kernel src userdest len 0 a m (copycheck userdest len) hb hl kernel refl

-- `copyin` and `copyout` with length 0 copy nothing and fail with EFAULT, at every user address.
pub copy_nothing :
    (user kernel : ℕ) (m : Memory)
    → user < 2 ^ 32
    → (copyin user kernel 0 m ≡ (err efault, m)) × (copyout kernel user 0 m ≡ (err efault, m))
unfolding copyin copyout copy_block copycheck
copy_nothing user kernel m h = ground arith
