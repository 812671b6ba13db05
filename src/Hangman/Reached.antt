-- ===== src/Hangman/Reached.antt =====
-- The waits-for graphs that calls of the three functions can make, from one in which no actor waits and
-- no lockable is held.
use cs3891_asst.Base.{
  ℕ, ◌+◌, ◌≤◌, ◌≡◌, ◌≢◌, ◌⊎◌, inl, inr, refl, sym, none, some, Option-cases, arith, ret, panic,
  Bool-cases, K, and_then, and_then-ret,
}
use mathlib.Core.Path.{subst}
use native.Mathlib.Decide.{ℕ_discrete}
use cs3891_asst.Hangman.{
  Graph, update, hangman_check, hangman_wait, hangman_acquire, hangman_release, is,
}
use cs3891_asst.Hangman.Paths.{
  Leads, Ends, free, check-decides, check-ret, no_cycle, waiting_for, taken, given_back, Ends-wait,
  Ends-acquire, Ends-release,
}

module _ (self : ℕ) where
  pub data Step (g : Graph) : Graph → Type 0 where
    waits : (fuel a l : ℕ) {h : Graph} → hangman_wait self fuel a l g ≡ ret tt h → Step g h
    acquires : (a l : ℕ) {h : Graph} → hangman_acquire self a l g ≡ ret tt h → Step g h
    releases : (a l : ℕ) {h : Graph} → hangman_release self a l g ≡ ret tt h → Step g h

  pub data Reach : Graph → Type 0 where
    start : Reach (record { a_waiting = λ a. none; l_holding = λ l. none })
    later : {g h : Graph} → Reach g → Step g h → Reach h

-- Every path comes to an end.
abbrev pub AllEnd : Graph → Type 0
AllEnd g = (l : ℕ) → (n : ℕ) × Ends g n l

module _ (self : ℕ) (g : Graph) where
  hangman_wait-ret :
      (fuel a l : ℕ) {h : Graph}
      → hangman_wait self fuel a l g ≡ ret tt h
      → (h ≡ g) ⊎ ((g.a_waiting a ≡ none) × (¬ Leads g a l) × (h ≡ waiting_for g a l))
  unfolding hangman_wait
  hangman_wait-ret fuel a l {h} run = elim (ℕ_discrete l self) [
    | yes same ↦ inl (ground arith)
    | no ne ↦ elim (Option-cases (g.a_waiting a)) [
      | inr (l', e) ↦ absurd (ground arith)
      | inl e ↦
          let note : Unit {0} → K Graph (Unit {0}) =
            λ _ h'. ret tt (record h' { a_waiting = update h'.a_waiting a (some l) }) in
          let went : and_then (hangman_check fuel l a g) note ≡ ret tt h = ground arith in
          let (u, g', check, rest) = and_then-ret (hangman_check fuel l a g) note went in
          let (same, off) = check-ret fuel l a g check in inr (ground arith, off, ground arith)
    ]
  ]

  hangman_acquire-ret :
      (a l : ℕ) {h : Graph}
      → hangman_acquire self a l g ≡ ret tt h
      → (h ≡ g) ⊎ ((g.l_holding l ≡ none) × (h ≡ taken g a l))
  unfolding hangman_acquire
  hangman_acquire-ret a l run = elim (ℕ_discrete l self) [
    | yes same ↦ inl (ground arith)
    | no ne ↦ elim (Option-cases (g.l_holding l)) [
      | inr (b, e) ↦ absurd (ground arith)
      | inl e ↦ elim (Bool-cases (is (g.a_waiting a) l)) [
        | inl waits_for ↦ inr (e, ground arith)
        | inr wrong ↦ absurd (ground arith)
      ]
    ]
  ]

  hangman_release-ret :
      (a l : ℕ) {h : Graph}
      → hangman_release self a l g ≡ ret tt h
      → (h ≡ g) ⊎ (h ≡ given_back g a l)
  unfolding hangman_release
  hangman_release-ret a l run = elim (ℕ_discrete l self) [
    | yes same ↦ inl (ground arith)
    | no ne ↦ elim (Option-cases (g.a_waiting a)) [
      | inr (b, e) ↦ absurd (ground arith)
      | inl e ↦ elim (Bool-cases (is (g.l_holding l) a)) [
        | inl holds_it ↦ inr (ground arith)
        | inr wrong ↦ absurd (ground arith)
      ]
    ]
  ]

pub Step-AllEnd : {self : ℕ} {g h : Graph} → Step self g h → AllEnd g → AllEnd h
Step-AllEnd {self} {g} (waits fuel a l run) ends = elim (hangman_wait-ret self g fuel a l run) [
  | inl same ↦ subst AllEnd (sym same) ends
  | inr (idle, off, after) ↦
      subst AllEnd (sym after) (λ l'.
        let (m, s0) = ends l in let (n, s) = ends l' in (n + m, Ends-wait g a l idle s0 off s))
]
Step-AllEnd {self} {g} (acquires a l run) ends = elim (hangman_acquire-ret self g a l run) [
  | inl same ↦ subst AllEnd (sym same) ends
  | inr (unheld, after) ↦
      subst AllEnd (sym after) (λ l'. let (n, s) = ends l' in (n, Ends-acquire g a l unheld s))
]
Step-AllEnd {self} {g} (releases a l run) ends = elim (hangman_release-ret self g a l run) [
  | inl same ↦ subst AllEnd (sym same) ends
  | inr after ↦ subst AllEnd (sym after) (λ l'. let (n, s) = ends l' in (n, Ends-release g a l s))
]

pub Reach-AllEnd : {self : ℕ} {g : Graph} → Reach self g → AllEnd g
Reach-AllEnd start = λ l. (1, free refl)
Reach-AllEnd (later r step) = Step-AllEnd step (Reach-AllEnd r)

-- After any calls of the three functions, the waits-for graph has no cycle: an actor never waits for a
-- lockable from which the graph leads back to it.
pub hangman_acyclic :
    {self : ℕ} {g : Graph} (a l : ℕ) → Reach self g → g.a_waiting a ≡ some l → ¬ Leads g a l
hangman_acyclic a l r w = let (n, s) = Reach-AllEnd r l in no_cycle s w

-- After any calls of the three functions, when an actor that waits for nothing is about to wait for a
-- lockable: the check ends, with any fuel from some number on; the call panics exactly when the
-- graph leads from the lockable back to the actor, and else returns with the wait noted.
pub hangman_wait-decides :
    {self : ℕ} {g : Graph} (a l : ℕ)
    → Reach self g
    → l ≢ self
    → g.a_waiting a ≡ none
    → (n : ℕ) × ((fuel : ℕ)
        → n ≤ fuel
        → ((hangman_wait self fuel a l g ≡ panic) × Leads g a l)
          ⊎ ((hangman_wait self fuel a l g ≡ ret tt (waiting_for g a l)) × (¬ Leads g a l)))
unfolding hangman_wait
hangman_wait-decides {self} {g} a l r ne idle =
    let (n, s) = Reach-AllEnd r l in
    (
      n,
      λ fuel enough. elim (check-decides fuel a s enough) [
        | inl (found, p) ↦ inl (ground (arith, ne), p)
        | inr (passed, off) ↦ inr (ground (arith, ne), off)
      ],
    )
