-- ===== src/Base/Runs.antt =====
-- What is known of the parts of a run that returned.
use mathlib.Core.Path.{◌≡◌, refl}
use native.Mathlib.Omega.{arith}
use cs3891_asst.Base.Kernel.{Run, ret, fail, panic, fault, K, and_then}

module _ {S A B : Type 0} where
  pub and_then-ret :
      (r : Run S A) (k : A → K S B) {b : B} {s : S}
      → and_then r k ≡ ret b s
      → (a : A) × (t : S) × (r ≡ ret a t) × (k a t ≡ ret b s)
  and_then-ret (ret a t) k e = (a, t, refl, e)
  and_then-ret (fail c t) k e = absurd (ground arith)
  and_then-ret panic k e = absurd (ground arith)
  and_then-ret fault k e = absurd (ground arith)
