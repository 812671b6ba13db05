-- ===== src/Synch/Semaphores.antt =====
-- Threads that call `P` and `V` on one semaphore, in any order.
use cs3891_asst.Base.{
  ℕ, ◌+◌, ◌^◌, ◌≤◌, ◌<◌, ◌≡◌, ap, ◌∙◌, true, false, Option, List, [], ◌∷◌, ◌++◌, arith, length, ret,
}
use cs3891_asst.Synch.Channels.{also, also-woken_of, sleep_on-pos, split-length}
use cs3891_asst.Synch.{Semaphore, p_round, v, woken_of, sleep_on}

-- The semaphore, and the threads that have been woken in `P` and have yet to go around its loop.
pub record Threads : Type 0 where
  pub sem : Semaphore
  pub woken : List ℕ

-- The result of a round of `P` is whether it has taken one.
pub data Step (s : Threads) : (taken given : ℕ) → Threads → Type 0 where
  enters :
      (t : ℕ) {sem : Semaphore}
      → p_round t s.sem ≡ ret true sem
      → Step s 1 0 (record s { sem = sem })
  sleeps :
      (t : ℕ) {sem : Semaphore}
      → p_round t s.sem ≡ ret false sem
      → Step s 0 0 (record s { sem = sem })
  resumes :
      (t : ℕ) (before after : List ℕ) {sem : Semaphore}
      → s.woken ≡ before ++ (t ∷ after)
      → p_round t s.sem ≡ ret true sem
      → Step s 1 0 (record { sem = sem; woken = before ++ after })
  sleeps_again :
      (t : ℕ) (before after : List ℕ) {sem : Semaphore}
      → s.woken ≡ before ++ (t ∷ after)
      → p_round t s.sem ≡ ret false sem
      → Step s 0 0 (record { sem = sem; woken = before ++ after })
  gives :
      {t : Option ℕ} {sem : Semaphore}
      → v s.sem ≡ ret t sem
      → Step s 0 1 (record { sem = sem; woken = also t s.woken })

-- After `sem_create` with a count: the semaphore, and how often `P` and `V` have returned.
pub data Reach (initial_count : ℕ) : (taken given : ℕ) → Threads → Type 0 where
  start :
      Reach initial_count 0 0
        (record { sem = record { sem_count = initial_count; sem_wchan = [] }; woken = [] })
  later :
      {taken given k l : ℕ} {s t : Threads}
      → Reach initial_count taken given s
      → Step s k l t
      → Reach initial_count (taken + k) (given + l) t

-- Threads sleep only while the count is no more than the number of threads on their way.
abbrev pub Awake : Threads → Type 0
Awake s = (0 < length s.sem.sem_wchan) → s.sem.sem_count ≤ length s.woken

pub p_round-true :
    (t : ℕ) (s : Semaphore) {sem : Semaphore}
    → p_round t s ≡ ret true sem
    → (sem.sem_count + 1 ≡ s.sem_count) × (sem.sem_wchan ≡ s.sem_wchan)
unfolding p_round
p_round-true t s e = ground arith

pub p_round-false :
    (t : ℕ) (s : Semaphore) {sem : Semaphore}
    → p_round t s ≡ ret false sem
    → (sem.sem_count ≡ 0) × (s.sem_count ≡ 0) × (sem.sem_wchan ≡ s.sem_wchan ++ (t ∷ []))
unfolding p_round
p_round-false t s e = ground arith

pub v-ret :
    (s : Semaphore) {t : Option ℕ} {sem : Semaphore}
    → s.sem_count < 2 ^ 32
    → v s ≡ ret t sem
    → (sem.sem_count ≡ s.sem_count + 1)
      × (t ≡ woken_of s.sem_wchan)
      × (sem.sem_wchan ≡ sleep_on s.sem_wchan)
unfolding v
v-ret s small e = ground arith

pub v-small :
    (s : Semaphore) {t : Option ℕ} {sem : Semaphore}
    → s.sem_count < 2 ^ 32
    → v s ≡ ret t sem
    → sem.sem_count < 2 ^ 32
unfolding v
v-small s small e = ground arith

pub record Inv (initial_count taken given : ℕ) (s : Threads) : Type 0 where
  pub small : s.sem.sem_count < 2 ^ 32
  pub conserved : s.sem.sem_count + taken ≡ initial_count + given
  pub awake : Awake s

pub Step-Inv :
    {n taken given k l : ℕ} {s t : Threads}
    → Step s k l t
    → Inv n taken given s
    → Inv n (taken + k) (given + l) t
Step-Inv {s} (enters t {sem} run) inv =
    let (count, same) = p_round-true t s.sem run in
    record {
      small = omega (arith, inv.small);
      conserved = omega (arith, inv.conserved);
      awake = λ some_sleep. omega (arith, inv.awake (ground arith));
    }
Step-Inv {s} (sleeps t {sem} run) inv =
    let (count, was, grown) = p_round-false t s.sem run in
    record {
      small = omega (arith, inv.small);
      conserved = omega (arith, inv.conserved);
      awake = λ some_sleep. omega arith;
    }
Step-Inv {s} (resumes t before after {sem} split run) inv =
    let (count, same) = p_round-true t s.sem run in
    let fewer = split-length before after t split in
    record {
      small = omega (arith, inv.small);
      conserved = omega (arith, inv.conserved);
      awake = λ some_sleep. omega (arith, inv.awake (ground arith));
    }
Step-Inv {s} (sleeps_again t before after {sem} split run) inv =
    let (count, was, grown) = p_round-false t s.sem run in
    record {
      small = omega (arith, inv.small);
      conserved = omega (arith, inv.conserved);
      awake = λ some_sleep. omega arith;
    }
Step-Inv {s} (gives {t} {sem} run) inv =
    let (count, who, rest) = v-ret s.sem inv.small run in
    record {
      small = v-small s.sem inv.small run;
      conserved = omega (arith, inv.conserved);
      awake = λ some_sleep.
          let slept : 0 < length s.sem.sem_wchan = sleep_on-pos s.sem.sem_wchan (ground arith) in
          let one_more : length (also t s.woken) ≡ length s.woken + 1 =
            ap (λ o. length (also o s.woken)) who ∙ also-woken_of s.sem.sem_wchan s.woken slept in
          omega (arith, inv.awake slept);
    }

pub Reach-Inv :
    {n taken given : ℕ} {s : Threads} → n < 2 ^ 32 → Reach n taken given s → Inv n taken given s
Reach-Inv small start = record {
  small = small;
  conserved = omega arith;
  awake = λ some_sleep. absurd (omega arith);
}
Reach-Inv small (later r step) = Step-Inv step (Reach-Inv small r)

-- A semaphore that was created with a count below 2^32, after any steps of any threads: its count and
-- the number of times that `P` has returned add up to the initial count and the number of times that
-- `V` has returned. So no more threads get through `P` than that.
pub sem_conserved :
    {n taken given : ℕ} {s : Threads}
    → n < 2 ^ 32
    → Reach n taken given s
    → (s.sem.sem_count + taken ≡ n + given) × (taken ≤ n + given)
sem_conserved small r = let inv = Reach-Inv small r in (inv.conserved, omega (arith, inv.conserved))

-- A semaphore that was created with a count below 2^32, after any steps of any threads: if threads sleep
-- on it while its count is not 0, then there are at least as many threads on their way as the
-- count, so no wake-up is lost.
pub sem_awake :
    {n taken given : ℕ} {s : Threads}
    → n < 2 ^ 32
    → Reach n taken given s
    → 0 < length s.sem.sem_wchan
    → s.sem.sem_count ≤ length s.woken
sem_awake small r = (Reach-Inv small r).awake
