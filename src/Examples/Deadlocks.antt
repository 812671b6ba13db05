-- ===== src/Examples/Deadlocks.antt =====
-- Two threads that take two locks in opposite orders.
use cs3891_asst.Base.{ℕ, ◌≤◌, ◌≡◌, ◌⊎◌, refl, arith, none, ret, panic}
use cs3891_asst.Hangman.{Graph, hangman_check, hangman_wait, hangman_acquire}
use cs3891_asst.Hangman.Paths.{Leads, waiting_for, taken}
use cs3891_asst.Hangman.Reached.{
  Reach, waits, acquires, start, later, hangman_acyclic, hangman_wait-decides,
}

abbrev idle : Graph
idle = record { a_waiting = λ a. none; l_holding = λ l. none }

-- Thread 1 holds lock 11, and thread 2 holds lock 12.
abbrev both_held : Graph
both_held = taken (waiting_for (taken (waiting_for idle 1 11) 1 11) 2 12) 2 12

-- Thread 1 waits for lock 12.
abbrev one_waits : Graph
one_waits = waiting_for both_held 1 12

both_held-Reach : Reach 10 both_held
unfolding hangman_wait hangman_acquire hangman_check
both_held-Reach =
    later (later (later (later start (waits 9 1 11 refl)) (acquires 1 11 refl)) (waits 9 2 12 refl))
      (acquires 2 12 refl)

one_waits-Reach : Reach 10 one_waits
unfolding hangman_wait hangman_check
one_waits-Reach = later both_held-Reach (waits 9 1 12 refl)

-- Thread 2 must not wait for lock 11.
deadlock : hangman_wait 10 9 2 11 one_waits ≡ panic
unfolding hangman_wait hangman_check
deadlock = refl

hangman_acyclic_example : ¬ Leads one_waits 1 12
hangman_acyclic_example = hangman_acyclic 1 12 one_waits-Reach refl

hangman_wait-decides_example :
    (n : ℕ) × ((fuel : ℕ)
      → n ≤ fuel
      → ((hangman_wait 10 fuel 2 11 one_waits ≡ panic) × Leads one_waits 2 11)
        ⊎ ((hangman_wait 10 fuel 2 11 one_waits ≡ ret tt (waiting_for one_waits 2 11))
            × (¬ Leads one_waits 2 11)))
hangman_wait-decides_example = hangman_wait-decides 2 11 one_waits-Reach (ground arith) refl
