-- ===== src/Copyinout/Check.antt =====
-- `copycheck`: exactly which blocks it lets through, and how much of them.
use Prim.Native.Nat.{min}
use cs3891_asst.Base.{ℕ, ◌+◌, ◌-◌, ◌^◌, ◌≤◌, ◌<◌, ◌≡◌, ◌⊎◌, ok, err, arith, efault}
use cs3891_asst.Copyinout.{userspacetop, copycheck}

-- A block of at least one byte that starts in user space and does not wrap: the part of it that lies
-- in user space can be copied.
pub copycheck-user :
    (bot len : ℕ)
    → bot < userspacetop
    → 0 < len
    → bot + len ≤ 2 ^ 32
    → copycheck bot len ≡ ok (min len (userspacetop - bot))
unfolding copycheck
copycheck-user bot len user pos fits = ground arith

-- Every other block of 32-bit address and length is refused, or is the empty one at address 0.
pub copycheck-refused :
    (bot len : ℕ)
    → bot < 2 ^ 32
    → len < 2 ^ 32
    → (userspacetop ≤ bot) ⊎ ((2 ^ 32 < bot + len) ⊎ ((len ≡ 0) × (0 < bot)))
    → copycheck bot len ≡ err efault
unfolding copycheck
copycheck-refused bot len hb hl h = ground arith

-- What `copycheck` lets through lies in user space.
pub copycheck-ok :
    (bot len stop : ℕ)
    → bot < 2 ^ 32
    → len < 2 ^ 32
    → copycheck bot len ≡ ok stop
    → (bot + stop ≤ userspacetop) × ((stop ≤ len) ⊎ (len ≡ 0))
unfolding copycheck
copycheck-ok bot len stop hb hl e = ground arith
