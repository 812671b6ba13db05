-- ===== src/Base/Kernel.antt =====
-- Kernel code over an explicit state: what a call returns, and the ways in which it does not.
use Prim.Native.Nat.{ℕ}
use mathlib.Core.Bool.{Bool, true, false}
use mathlib.Core.Option.{Option, none, some}

-- The result of a call across an interface: a value, or an error code of kern/include/kern/errno.h.
pub data Result {ℓ} (A : Type ℓ) : Type ℓ where
  ok : A → Result A
  err : ℕ → Result A

-- `fail` returns an error code, `panic` stops the machine (`panic` and `KASSERT`), and `fault` is an
-- access through NULL or outside of an object.
pub data Run (S A : Type 0) : Type 0 where
  ret : A → S → Run S A
  fail : ℕ → S → Run S A
  panic : Run S A
  fault : Run S A

abbrev pub K : Type 0 → Type 0 → Type 0
K S A = S → Run S A

module _ {S A : Type 0} where
  abbrev pub pure : A → K S A
  pure a s = ret a s

  abbrev pub throw : ℕ → K S A
  throw e s = fail e s

module _ {S A B : Type 0} where
  abbrev pub and_then : Run S A → (A → K S B) → Run S B
  and_then (ret a s) k = k a s
  and_then (fail e s) k = fail e s
  and_then panic k = panic
  and_then fault k = fault

  infixl 5 ◌>>=◌ ◌>>◌
  abbrev pub ◌>>=◌ : K S A → (A → K S B) → K S B
  ◌>>=◌ m k s = and_then (m s) k

  abbrev pub ◌>>◌ : K S A → K S B → K S B
  ◌>>◌ m n s = and_then (m s) (λ _. n)

-- `KASSERT(b)`
abbrev pub kassert : {S : Type 0} → Bool → K S (Unit {0})
kassert true s = ret tt s
kassert false s = panic

module _ {S A : Type 0} where
  -- a read of an array element, or through a pointer
  abbrev pub deref : Option A → K S A
  deref none s = fault
  deref (some a) s = ret a s

  -- `if (result) { cleanup; return result; }`
  abbrev pub on_fail : K S A → K S (Unit {0}) → K S A
  on_fail m cleanup s = elim (m s) [
    | ret a t ↦ ret a t
    | fail e t ↦ and_then (cleanup t) (λ _. throw e)
    | panic ↦ panic
    | fault ↦ fault
  ]

-- A call whose error code is not looked at.
abbrev pub ignore : {S : Type 0} → K S (Unit {0}) → K S (Unit {0})
ignore m s = elim (m s) [ ret a t ↦ ret tt t | fail e t ↦ ret tt t | panic ↦ panic | fault ↦ fault ]
