-- ===== src/Synch/Channels.antt =====
-- The threads that have been woken on a wait channel, as a list, and how many they are.
use cs3891_asst.Base.{
  ℕ, ◌+◌, ◌<◌, ◌≡◌, refl, ap, ◌∙◌, Option, none, some, List, [], ◌∷◌, ◌++◌, arith, length,
  length-append,
}
use cs3891_asst.Synch.{woken_of, sleep_on}

abbrev pub also : Option ℕ → List ℕ → List ℕ
also none ts = ts
also (some t) ts = t ∷ ts

-- A wake-up moves one sleeper, if there is one, to the threads on their way.
pub also-woken_of :
    (ts us : List ℕ) → (0 < length ts) → (length (also (woken_of ts) us) ≡ length us + 1)
also-woken_of [] us h = absurd (omega arith)
also-woken_of (t ∷ ts) us h = omega arith

pub sleep_on-pos : (ts : List ℕ) → 0 < length (sleep_on ts) → 0 < length ts
sleep_on-pos [] h = h
sleep_on-pos (t ∷ ts) h = omega arith

pub split-length :
    (before after : List ℕ) (t : ℕ) {woken : List ℕ}
    → woken ≡ before ++ (t ∷ after)
    → length woken ≡ length (before ++ after) + 1
split-length before after t e =
    ap length e ∙ omega (arith, length-append before (t ∷ after), length-append before after)

pub woken_of-some : (ts : List ℕ) → 0 < length ts → (t : ℕ) × (woken_of ts ≡ some t)
woken_of-some [] h = absurd (omega arith)
woken_of-some (t ∷ ts) h = (t, refl)
