-- ===== src/Hangman.antt =====
-- kern/thread/hangman.c: the deadlock detector. Every actor waits for one lockable at most, and every
-- lockable is held by one actor at most; both are numbers. All of a call runs under `hangman_lock`.
pub mod Paths
pub mod Reached
use cs3891_asst.Base.{
  ℕ, zero, suc, ◌==◌, if◌then◌else◌, Bool, true, false, Option, none, some, ret, panic, fault, K,
  and_then,
}

pub record Graph : Type 0 where
  pub a_waiting : ℕ → Option ℕ
  pub l_holding : ℕ → Option ℕ

abbrev pub update : (ℕ → Option ℕ) → ℕ → Option ℕ → ℕ → Option ℕ
update f i x j = if j == i then x else f j

-- The walk through the graph, on fuel; it panics when it finds `target`, and faults without fuel.
unfoldable pub hangman_check : ℕ → ℕ → ℕ → K Graph (Unit {0})
hangman_check zero start target g = fault
hangman_check (suc fuel) start target g = elim (g.l_holding start) [
  | none ↦ ret tt g
  | some cur ↦ elim (cur == target) [
    | true ↦ panic
    | false ↦ elim (g.a_waiting cur) [
      | none ↦ ret tt g
      | some next ↦ hangman_check fuel next target g
    ]
  ]
]

abbrev pub is_none : Option ℕ → Bool
is_none none = true
is_none (some x) = false

abbrev pub is : Option ℕ → ℕ → Bool
is none x = false
is (some y) x = y == x

-- `self` is the lockable of `hangman_lock`, which the three calls skip.
module _ (self : ℕ) where
  unfoldable pub hangman_wait : ℕ → ℕ → ℕ → K Graph (Unit {0})
  hangman_wait fuel a l g =
      if l == self
      then ret tt g
      else if is_none (g.a_waiting a)
      then and_then (hangman_check fuel l a g)
          (λ _ h. ret tt (record h { a_waiting = update h.a_waiting a (some l) }))
      else panic

  unfoldable pub hangman_acquire : ℕ → ℕ → K Graph (Unit {0})
  hangman_acquire a l g =
      if l == self
      then ret tt g
      else if is (g.a_waiting a) l
      then if is_none (g.l_holding l)
        then ret tt (record g {
          l_holding = update g.l_holding l (some a);
          a_waiting = update g.a_waiting a none;
        })
        else panic
      else panic

  unfoldable pub hangman_release : ℕ → ℕ → K Graph (Unit {0})
  hangman_release a l g =
      if l == self
      then ret tt g
      else if is_none (g.a_waiting a)
      then if is (g.l_holding l) a
        then ret tt (record g { l_holding = update g.l_holding l none })
        else panic
      else panic
