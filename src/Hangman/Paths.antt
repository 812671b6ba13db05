-- ===== src/Hangman/Paths.antt =====
-- Paths through the waits-for graph, from a lockable over its holder to what the holder waits for.
use mathlib.Core.Path.{subst}
use native.Mathlib.Decide.{ℕ_discrete}
use cs3891_asst.Base.{
  ℕ, zero, suc, ◌+◌, ◌≤◌, ◌<◌, ◌≡◌, ◌≢◌, ◌⊎◌, inl, inr, ap, ◌∙◌, none, some, Option-cases, arith,
  ret, panic,
}
use cs3891_asst.Hangman.{Graph, update, hangman_check}

-- A path from the lockable `l` meets the actor `a`.
pub data Leads (g : Graph) (a : ℕ) : ℕ → Type 0 where
  holds : {l : ℕ} → g.l_holding l ≡ some a → Leads g a l
  waits :
      {l b l' : ℕ} → g.l_holding l ≡ some b → g.a_waiting b ≡ some l' → Leads g a l' → Leads g a l

-- The path from `l` comes to an end after less than `n` lockables.
pub data Ends (g : Graph) : ℕ → ℕ → Type 0 where
  free : {n l : ℕ} → g.l_holding l ≡ none → Ends g (suc n) l
  runs : {n l b : ℕ} → g.l_holding l ≡ some b → g.a_waiting b ≡ none → Ends g (suc n) l
  goes :
      {n l b l' : ℕ}
      → g.l_holding l ≡ some b
      → g.a_waiting b ≡ some l'
      → Ends g n l'
      → Ends g (suc n) l

-- Behind an actor on the path, the rest is shorter.
follow :
    {g : Graph} {n l a l'' : ℕ}
    → Ends g n l
    → Leads g a l
    → g.a_waiting a ≡ some l''
    → (m : ℕ) × (m < n) × Ends g m l''
follow (free e) (holds h) w = absurd (ground arith)
follow (free e) (waits h h' p) w = absurd (ground arith)
follow (runs e e') (holds h) w = absurd (ground arith)
follow (runs e e') (waits h h' p) w = absurd (ground arith)
follow {g} {l'' = l''} (goes {n} {l' = l'} e e' s) (holds h) w =
    let same : l' ≡ l'' = ground arith in (n, omega arith, subst (Ends g n) same s)
follow {g} {a = a} (goes {n} {l' = l'} e e' s) (waits {l' = k} h h' p) w =
    let same : k ≡ l' = ground arith in
    let (m, lt, rest) = follow s (subst (Leads g a) same p) w in (m, omega arith, rest)

-- A path that ends may be given more room.
pub Ends-le : {g : Graph} {n m l : ℕ} → Ends g n l → n ≤ m → Ends g m l
Ends-le {m = zero} (free e) le = absurd (omega arith)
Ends-le {m = zero} (runs e e') le = absurd (omega arith)
Ends-le {m = zero} (goes e e' s) le = absurd (omega arith)
Ends-le {m = suc m} (free e) le = free e
Ends-le {m = suc m} (runs e e') le = runs e e'
Ends-le {m = suc m} (goes e e' s) le = goes e e' (Ends-le s (omega arith))

no_cycle_below :
    {g : Graph} (bound n l a : ℕ) → n < bound → Ends g n l → g.a_waiting a ≡ some l → ¬ Leads g a l
no_cycle_below zero n l a lt s w p = absurd (omega arith)
no_cycle_below (suc bound) n l a lt s w p =
    let (m, less, rest) = follow s p w in no_cycle_below bound m l a (omega arith) rest w p

-- No actor waits for a lockable whose path leads back to it.
pub no_cycle : {g : Graph} {n l a : ℕ} → Ends g n l → g.a_waiting a ≡ some l → ¬ Leads g a l
no_cycle {n} {l} {a} s w p = no_cycle_below (suc n) n l a (omega arith) s w p

module _ {g : Graph} {a : ℕ} where
  Leads-free : {l : ℕ} → g.l_holding l ≡ none → ¬ Leads g a l
  Leads-free e (holds h) = ground arith
  Leads-free e (waits h h' p) = ground arith

  Leads-runs : {l b : ℕ} → g.l_holding l ≡ some b → g.a_waiting b ≡ none → b ≢ a → ¬ Leads g a l
  Leads-runs e e' ne (holds h) = ground (arith, ne)
  Leads-runs {b} e e' ne (waits {b = c} h h' p) =
      let same : c ≡ b = ground arith in ground (arith, ap g.a_waiting same)

  Leads-goes :
      {l b l' : ℕ}
      → g.l_holding l ≡ some b
      → g.a_waiting b ≡ some l'
      → b ≢ a
      → ¬ Leads g a l'
      → ¬ Leads g a l
  Leads-goes e e' ne not_there (holds h) = ground (arith, ne)
  Leads-goes {b} {l'} e e' ne not_there (waits {b = c} {l' = k} h h' p) =
      let same : c ≡ b = ground arith in
      let there : k ≡ l' = ground (arith, ap g.a_waiting same) in
      not_there (subst (Leads g a) there p)

-- With a path that ends and enough fuel, the walk decides whether it meets the target.
pub check-decides :
    {g : Graph} {n l : ℕ} (fuel a : ℕ)
    → Ends g n l
    → n ≤ fuel
    → ((hangman_check fuel l a g ≡ panic) × Leads g a l)
      ⊎ ((hangman_check fuel l a g ≡ ret tt g) × (¬ Leads g a l))
unfolding hangman_check
check-decides zero a (free e) enough = absurd (omega arith)
check-decides zero a (runs e e') enough = absurd (omega arith)
check-decides zero a (goes e e' s) enough = absurd (omega arith)
check-decides (suc fuel) a (free e) enough = inr (ground arith, Leads-free e)
check-decides (suc fuel) a (runs {b = b} e e') enough = elim (ℕ_discrete b a) [
  | yes same ↦ inl (ground arith, holds (e ∙ ap some same))
  | no ne ↦ inr (ground arith, Leads-runs e e' ne)
]
check-decides (suc fuel) a (goes {b = b} e e' s) enough = elim (ℕ_discrete b a) [
  | yes same ↦ inl (ground arith, holds (e ∙ ap some same))
  | no ne ↦ elim (check-decides fuel a s (omega arith)) [
    | inl (found, p) ↦ inl (ground arith, waits e e' p)
    | inr (none_found, not_there) ↦ inr (ground arith, Leads-goes e e' ne not_there)
  ]
]

-- A walk that returns has changed nothing and has not met the target, whatever its fuel.
pub check-ret :
    (fuel l a : ℕ) (g : Graph) {h : Graph}
    → hangman_check fuel l a g ≡ ret tt h
    → (h ≡ g) × (¬ Leads g a l)
unfolding hangman_check
check-ret zero l a g run = absurd (ground arith)
check-ret (suc fuel) l a g {h} run = elim (Option-cases (g.l_holding l)) [
  | inl e ↦ (ground arith, Leads-free e)
  | inr (b, e) ↦ elim (ℕ_discrete b a) [
    | yes same ↦ absurd (ground arith)
    | no ne ↦ elim (Option-cases (g.a_waiting b)) [
      | inl e' ↦ (ground arith, Leads-runs e e' ne)
      | inr (l', e') ↦
          let rest : hangman_check fuel l' a g ≡ ret tt h = ground arith in
          let (same, off) = check-ret fuel l' a g rest in (same, Leads-goes e e' ne off)
    ]
  ]
]

-- What an actor does to the paths: it waits for `l0`, which does not lead to it; it takes `l0`; or it
-- gives `l0` back.
module _ (g : Graph) (a l0 : ℕ) where
  abbrev pub waiting_for : Graph
  waiting_for = record g { a_waiting = update g.a_waiting a (some l0) }

  abbrev pub taken : Graph
  taken = record g {
    l_holding = update g.l_holding l0 (some a);
    a_waiting = update g.a_waiting a none;
  }

  abbrev pub given_back : Graph
  given_back = record g { l_holding = update g.l_holding l0 none }

  spared : {n l : ℕ} → Ends g n l → ¬ Leads g a l → Ends waiting_for n l
  spared (free e) off = free e
  spared (runs {b} e e') off = elim (ℕ_discrete b a) [
    | yes same ↦ absurd (off (holds (e ∙ ap some same)))
    | no ne ↦ runs {b = b} e (ground arith)
  ]
  spared (goes {b} {l'} e e' s) off = elim (ℕ_discrete b a) [
    | yes same ↦ absurd (off (holds (e ∙ ap some same)))
    | no ne ↦ goes {b = b} {l' = l'} e (ground arith) (spared s (λ p. off (waits e e' p)))
  ]

  pub Ends-wait :
      {m n l : ℕ}
      → g.a_waiting a ≡ none
      → Ends g m l0
      → ¬ Leads g a l0
      → Ends g n l
      → Ends waiting_for (n + m) l
  Ends-wait {m} idle s0 off (free {n} e) = Ends-le (free {n = n + m} e) (omega arith)
  Ends-wait {m} idle s0 off (runs {n} {b = b} e e') = elim (ℕ_discrete b a) [
    | yes same ↦
        Ends-le
          (goes {n = n + m} {b = b} {l' = l0} e (ground arith)
            (Ends-le (spared s0 off) (omega arith)))
          (omega arith)
    | no ne ↦ Ends-le (runs {n = n + m} {b = b} e (ground arith)) (omega arith)
  ]
  Ends-wait {m} idle s0 off (goes {n} {b = b} {l' = l'} e e' s) =
      let ne : b ≢ a = λ same. ground (arith, ap g.a_waiting same) in
      Ends-le (goes {n = n + m} {b = b} {l' = l'} e (ground (arith, ne)) (Ends-wait idle s0 off s))
        (omega arith)

  pub Ends-acquire : {n l : ℕ} → g.l_holding l0 ≡ none → Ends g n l → Ends taken n l
  Ends-acquire unheld (free {l = l} e) = elim (ℕ_discrete l l0) [
    | yes same ↦ runs {b = a} (ground arith) (ground arith)
    | no ne ↦ free (ground arith)
  ]
  Ends-acquire unheld (runs {l = l} {b = b} e e') =
      let other : l ≢ l0 = λ same. ground (arith, ap g.l_holding same) in
      runs {b = b} (ground (arith, other)) (ground arith)
  Ends-acquire unheld (goes {l = l} {b = b} {l' = l'} e e' s) =
      let other : l ≢ l0 = λ same. ground (arith, ap g.l_holding same) in
      elim (ℕ_discrete b a) [
        | yes same ↦ runs {b = b} (ground (arith, other)) (ground arith)
        | no ne ↦
            goes {b = b} {l' = l'} (ground (arith, other)) (ground arith) (Ends-acquire unheld s)
      ]

  pub Ends-release : {n l : ℕ} → Ends g n l → Ends given_back n l
  Ends-release (free {l = l} e) = free (ground arith)
  Ends-release (runs {l = l} {b = b} e e') = elim (ℕ_discrete l l0) [
    | yes same ↦ free (ground arith)
    | no ne ↦ runs {b = b} (ground arith) e'
  ]
  Ends-release (goes {l = l} {b = b} {l' = l'} e e' s) = elim (ℕ_discrete l l0) [
    | yes same ↦ free (ground arith)
    | no ne ↦ goes {b = b} {l' = l'} (ground arith) e' (Ends-release s)
  ]
