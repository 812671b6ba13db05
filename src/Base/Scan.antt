-- ===== src/Base/Scan.antt =====
-- `for (i = ...; ...; i++) if (free(table[i])) { found = i; break; }`: the search for a free slot of a
-- table, which the open file table and the process table make. `none` is a read outside the table,
-- and -1 says that no slot is free.
use Prim.Native.Nat.{ℕ, zero, suc, ◌+◌, ◌≤◌, ◌<◌}
use mathlib.Core.Path.{◌≡◌, refl, ap}
use mathlib.Core.Logic.{inl, inr}
use mathlib.Core.Bool.{Bool, true, false}
use mathlib.Core.Option.{Option, none, some}
use mathlib.Core.List.{List}
use native.Mathlib.Omega.{arith}
use native.Mathlib.Decide.{dec_lt}
use cs3891_asst.Base.Tests.{Bool-cases}
use cs3891_asst.Base.Lists.{length, get_elem?, get_elem?-some}
use cs3891_asst.Base.Words.{minus_one}

module _ {A : Type 0} (free : A → Bool) where
  -- `n` rounds from index `i` on
  unfoldable pub scan : ℕ → ℕ → List A → Option ℕ
  scan zero i xs = some minus_one
  scan (suc n) i xs = elim (get_elem? xs i) [
    | none ↦ none
    | some a ↦ elim (free a) [ true ↦ some i | false ↦ scan n (i + 1) xs ]
  ]

  -- No slot from `i` up to `j` is free.
  abbrev pub AllTaken : List A → ℕ → ℕ → Type 0
  AllTaken xs i j = (k : ℕ) (a : A) → i ≤ k → k < j → get_elem? xs k ≡ some a → free a ≡ false

  -- The search stopped at the first free slot.
  pub record Found (xs : List A) (i j r : ℕ) : Type 0 where
    pub above : i ≤ r
    pub below : r < j
    pub slot : A
    pub at : get_elem? xs r ≡ some slot
    pub is_free : free slot ≡ true
    pub before : AllTaken xs i r

  pub data Scanned (xs : List A) (i j : ℕ) : Option ℕ → Type 0 where
    full : AllTaken xs i j → Scanned xs i j (some minus_one)
    found : {r : ℕ} → Found xs i j r → Scanned xs i j (some r)

  AllTaken-suc :
      (xs : List A) (i j : ℕ) (a : A)
      → get_elem? xs i ≡ some a
      → free a ≡ false
      → AllTaken xs (i + 1) j
      → AllTaken xs i j
  AllTaken-suc xs i j a e taken rest k b le lt at = elim (dec_lt i k) [
    | yes h ↦ rest k b (omega arith) lt at
    | no h ↦ let same : i ≡ k = omega arith in ground (arith, ap (get_elem? xs) same)
  ]

  Scanned-suc :
      (xs : List A) (i j : ℕ) (a : A) (o : Option ℕ)
      → get_elem? xs i ≡ some a
      → free a ≡ false
      → Scanned xs (i + 1) j o
      → Scanned xs i j o
  Scanned-suc xs i j a o e taken (full rest) = full (AllTaken-suc xs i j a e taken rest)
  Scanned-suc xs i j a o e taken (found {r} f) = found (record {
    above = omega (arith, f.above);
    below = f.below;
    slot = f.slot;
    at = f.at;
    is_free = f.is_free;
    before = AllTaken-suc xs i r a e taken f.before;
  })

  -- A search inside the table returns, with the first free slot or -1.
  pub scan-Scanned :
      (n i j : ℕ) (xs : List A) → i + n ≡ j → j ≤ length xs → Scanned xs i j (scan n i xs)
  unfolding scan
  scan-Scanned zero i j xs e le = full (λ k a h lt at. absurd (omega arith))
  scan-Scanned (suc n) i j xs e le =
      let (a, at) = get_elem?-some xs i (omega arith) in
      elim (Bool-cases (free a)) [
        | inl yes_free ↦
            rw (at, scan, yes_free)
              (found (record {
                above = omega arith;
                below = omega arith;
                slot = a;
                at = at;
                is_free = yes_free;
                before = λ k b h lt _. absurd (omega arith);
              }))
        | inr taken ↦
            rw (at, scan, taken)
              (Scanned-suc xs i j a (scan n (i + 1) xs) at taken
                (scan-Scanned n (i + 1) j xs (omega arith) le))
      ]

  pub Scanned-some :
      {xs : List A} {i j : ℕ} {o : Option ℕ} → Scanned xs i j o → (r : ℕ) × (o ≡ some r)
  Scanned-some (full taken) = (minus_one, refl)
  Scanned-some (found {r} f) = (r, refl)
