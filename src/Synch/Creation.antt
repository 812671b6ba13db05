-- ===== src/Synch/Creation.antt =====
-- kern/thread/synch.c, with wchan_create and wchan_destroy of kern/thread/thread.c: how semaphores, locks
-- and condition variables come and go. The state is the number of blocks that are in use on the
-- heap, and each allocation takes a flag that says whether it succeeds.
use mathlib.Core.Path.{subst}
use cs3891_asst.Base.{
  ◌⊎◌, inl, inr, ℕ, ◌+◌, ◌-◌, ◌≡◌, Bool, true, false, not, Option, none, some, List, [], ◌∷◌, arith,
  Run, ret, panic, K, pure, ◌>>=◌, ◌>>◌, kassert, ◌==◌, if◌then◌else◌,
}
use cs3891_asst.Synch.{Semaphore, Lock}

-- an allocation: `kmalloc`, `kstrdup` and `wchan_create` make one block each
abbrev pub take_block : Bool → K ℕ Bool
take_block true used = ret true (used + 1)
take_block false used = ret false used

abbrev pub free_block : K ℕ (Unit {0})
free_block used = if used == 0 then panic else ret tt (used - 1)

abbrev pub is_empty : List ℕ → Bool
is_empty [] = true
is_empty (t ∷ ts) = false

-- `wchan_destroy`, which asserts that no thread sleeps on the channel
abbrev pub wchan_destroy : List ℕ → K ℕ (Unit {0})
wchan_destroy threads = do kassert (is_empty threads); free_block

-- what the three objects do alike: the object itself, its name and its wait channel
unfoldable pub allocate : Bool → Bool → Bool → K ℕ Bool
allocate object name wchan = do
  a ← take_block object
  if not a then pure false else do
    b ← take_block name
    if not b then (do free_block; pure false) else do
      c ← take_block wchan
      if not c then (do free_block; free_block; pure false) else pure true

unfoldable pub sem_create : Bool → Bool → Bool → ℕ → K ℕ (Option Semaphore)
unfolding allocate
sem_create object name wchan initial_count = do
  allocated ← allocate object name wchan
  pure (if allocated then some (record { sem_count = initial_count; sem_wchan = [] }) else none)

unfoldable pub sem_destroy : Semaphore → K ℕ (Unit {0})
sem_destroy sem = do wchan_destroy sem.sem_wchan; free_block; free_block

unfoldable pub lock_create : Bool → Bool → Bool → K ℕ (Option Lock)
unfolding allocate
lock_create object name wchan = do
  allocated ← allocate object name wchan
  pure (if allocated then some (record { lk_holder = none; lk_wchan = [] }) else none)

abbrev pub is_free : Option ℕ → Bool
is_free none = true
is_free (some t) = false

unfoldable pub lock_destroy : Lock → K ℕ (Unit {0})
lock_destroy lock = do
  kassert (is_free lock.lk_holder)
  wchan_destroy lock.lk_wchan
  free_block
  free_block

-- A condition variable is its wait channel.
unfoldable pub cv_create : Bool → Bool → Bool → K ℕ (Option (List ℕ))
unfolding allocate
cv_create object name wchan = do
  allocated ← allocate object name wchan
  pure (if allocated then some [] else none)

unfoldable pub cv_destroy : List ℕ → K ℕ (Unit {0})
cv_destroy cv = do wchan_destroy cv; free_block; free_block

-- The outcomes of a creation that `destroy` undoes.
pub data Made {A : Type 0} (used : ℕ) (destroy : A → K ℕ (Unit {0}))
    : Run ℕ (Option A) → Type 0 where
  not_made : Made used destroy (ret none used)
  made :
      {a : A} {used' : ℕ} → destroy a used' ≡ ret tt used → Made used destroy (ret (some a) used')

allocate-ret :
    (object name wchan : Bool) (used : ℕ)
    → (allocate object name wchan used ≡ ret true (used + 3))
      ⊎ (allocate object name wchan used ≡ ret false used)
unfolding allocate
allocate-ret true true true used = inl (ground arith)
allocate-ret true true false used = inr (ground arith)
allocate-ret true false wchan used = inr (ground arith)
allocate-ret false name wchan used = inr (ground arith)

sem_create-Made :
    (object name wchan : Bool) (initial_count used : ℕ)
    → Made used sem_destroy (sem_create object name wchan initial_count used)
unfolding sem_create sem_destroy
sem_create-Made object name wchan initial_count used = elim (allocate-ret object name wchan used) [
  | inl e ↦ subst (Made used sem_destroy) (ground (arith, e)) (
      made {a = record { sem_count = initial_count; sem_wchan = [] }} {used' = used + 3}
        (ground arith))
  | inr e ↦ subst (Made used sem_destroy) (ground (arith, e)) not_made
]

lock_create-Made :
    (object name wchan : Bool) (used : ℕ)
    → Made used lock_destroy (lock_create object name wchan used)
unfolding lock_create lock_destroy
lock_create-Made object name wchan used = elim (allocate-ret object name wchan used) [
  | inl e ↦
      subst (Made used lock_destroy) (ground (arith, e))
        (made {a = record { lk_holder = none; lk_wchan = [] }} {used' = used + 3} (ground arith))
  | inr e ↦ subst (Made used lock_destroy) (ground (arith, e)) not_made
]

cv_create-Made :
    (object name wchan : Bool) (used : ℕ) → Made used cv_destroy (cv_create object name wchan used)
unfolding cv_create cv_destroy
cv_create-Made object name wchan used = elim (allocate-ret object name wchan used) [
  | inl e ↦
      subst (Made used cv_destroy) (ground (arith, e))
        (made {a = []} {used' = used + 3} (ground arith))
  | inr e ↦ subst (Made used cv_destroy) (ground (arith, e)) not_made
]

-- Whichever of their allocations fail, `sem_create`, `lock_create` and `cv_create` return; if they return
-- NULL they leave as many blocks in use as before, and otherwise the object's destroy function
-- does, called at once.
pub create-Made :
    (object name wchan : Bool) (initial_count used : ℕ)
    → Made used sem_destroy (sem_create object name wchan initial_count used)
      × Made used lock_destroy (lock_create object name wchan used)
      × Made used cv_destroy (cv_create object name wchan used)
create-Made object name wchan initial_count used = (
  sem_create-Made object name wchan initial_count used,
  lock_create-Made object name wchan used,
  cv_create-Made object name wchan used,
)
