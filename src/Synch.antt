-- ===== src/Synch.antt =====
-- kern/thread/synch.c, with wchan_sleep and wchan_wakeone of kern/thread/thread.c: semaphores and locks.
-- All that a thread does while it holds the spinlock of the object is one step; wchan_sleep ends a
-- step, and a thread that has been woken goes around the loop once more. A wait channel is the
-- list of the threads that sleep on it, the first to be woken first. A thread is a number. No thread
-- is in an interrupt handler, which P and lock_acquire assert.
pub mod Channels
pub mod Semaphores
pub mod Locks
pub mod Creation
use cs3891_asst.Base.{
  ℕ, ◌-◌, ◌==◌, ltb, add32, if◌then◌else◌, Bool, true, false, not, Option, none, some, List, [],
  ◌∷◌, ◌++◌, Run, ret, K, and_then, kassert,
}

pub record Semaphore : Type 0 where
  pub sem_count : ℕ
  pub sem_wchan : List ℕ

pub record Lock : Type 0 where
  pub lk_holder : Option ℕ
  pub lk_wchan : List ℕ

-- `threadlist_remhead`, for `wchan_wakeone`: the thread that is woken, and those that sleep on
abbrev pub woken_of : List ℕ → Option ℕ
woken_of [] = none
woken_of (t ∷ ts) = some t

abbrev pub sleep_on : List ℕ → List ℕ
sleep_on [] = []
sleep_on (t ∷ ts) = ts

-- One round of the loop of `P`, by the thread `cur`: it goes to sleep, or has taken one.
unfoldable pub p_round : ℕ → K Semaphore Bool
p_round cur s =
    if s.sem_count == 0
    then ret false (record s { sem_wchan = s.sem_wchan ++ (cur ∷ []) })
    else and_then (kassert (ltb 0 s.sem_count) s)
        (λ _ t. ret true (record t { sem_count = t.sem_count - 1 }))

-- `V`, and the thread that it wakes
unfoldable pub v : K Semaphore (Option ℕ)
v s =
    and_then (kassert (ltb 0 (add32 s.sem_count 1)) (record s { sem_count = add32 s.sem_count 1 }))
      (λ _ t. ret (woken_of t.sem_wchan) (record t { sem_wchan = sleep_on t.sem_wchan }))

abbrev pub holds : ℕ → Option ℕ → Bool
holds cur none = false
holds cur (some t) = t == cur

-- One round of the loop of `lock_acquire`: asleep, or the lock is taken.
unfoldable pub lock_round : ℕ → K Lock Bool
lock_round cur s = elim s.lk_holder [
  | none ↦ ret true (record s { lk_holder = some cur })
  | some _ ↦ ret false (record s { lk_wchan = s.lk_wchan ++ (cur ∷ []) })
]

-- `lock_acquire` up to the end of the first round
unfoldable pub lock_acquire : ℕ → K Lock Bool
unfolding lock_round
lock_acquire cur s = and_then (kassert (not (holds cur s.lk_holder)) s) (λ _. lock_round cur)

-- `lock_release`, and the thread that it wakes
unfoldable pub lock_release : ℕ → K Lock (Option ℕ)
lock_release cur s = and_then (kassert (holds cur s.lk_holder) s) (λ _ t.
    ret (woken_of t.lk_wchan) (record t { lk_holder = none; lk_wchan = sleep_on t.lk_wchan }))

unfoldable pub lock_do_i_hold : ℕ → K Lock Bool
lock_do_i_hold cur s = ret (holds cur s.lk_holder) s
