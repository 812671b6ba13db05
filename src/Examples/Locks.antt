-- ===== src/Examples/Locks.antt =====
-- Two threads at one semaphore, and two at one lock.
use cs3891_asst.Base.{ℕ, ◌+◌, ◌<◌, ◌≤◌, ◌≡◌, ◌⊎◌, refl, some, [], ◌∷◌, arith, length, ret}
use cs3891_asst.Synch.{Lock, p_round, lock_round, lock_acquire, lock_release}
use cs3891_asst.Synch.Semaphores
use cs3891_asst.Synch.Semaphores.{sem_conserved, sem_awake}
use cs3891_asst.Synch.Locks
use cs3891_asst.Synch.Locks.{lock_excludes, lock_awake}

-- Of two threads, the first gets through a semaphore of count 1 and the second sleeps.
abbrev one_through : Semaphores.Threads
one_through = record { sem = record { sem_count = 0; sem_wchan = 8 ∷ [] }; woken = [] }

one_through_reached : Semaphores.Reach 1 1 0 one_through
unfolding p_round
one_through_reached =
    Semaphores.Reach.later
      (Semaphores.Reach.later Semaphores.Reach.start (Semaphores.Step.enters 7 refl))
      (Semaphores.Step.sleeps 8 refl)

sem_conserved_example : (one_through.sem.sem_count + 1 ≡ 1 + 0) × (1 ≤ 1 + 0)
sem_conserved_example = sem_conserved (omega arith) one_through_reached

sem_awake_example : one_through.sem.sem_count ≤ length one_through.woken
sem_awake_example = sem_awake (omega arith) one_through_reached (omega arith)

abbrev one_inside : Locks.Threads
one_inside = record {
  lock = record { lk_holder = some 7; lk_wchan = 8 ∷ [] };
  woken = [];
  inside = 7 ∷ [];
}

one_inside_reached : Locks.Reach one_inside
unfolding lock_acquire lock_round
one_inside_reached =
    Locks.Reach.later (Locks.Reach.later Locks.Reach.start (Locks.Step.acquires 7 refl))
      (Locks.Step.sleeps 8 refl)

lock_excludes_example : (one_inside.inside ≡ 7 ∷ []) × (length one_inside.inside ≤ 1)
lock_excludes_example = lock_excludes one_inside_reached

lock_awake_example :
    ((t : ℕ) × (w : ℕ) × (lock : Lock) × (one_inside.inside ≡ t ∷ [])
      × (lock_release t one_inside.lock ≡ ret (some w) lock))
    ⊎ (0 < length one_inside.woken)
lock_awake_example = lock_awake one_inside_reached (omega arith)
