-- ===== src/Synch/Locks.antt =====
-- Threads that take and give back one lock, in any order.
use cs3891_asst.Base.{
  ℕ, ◌+◌, ◌≤◌, ◌<◌, ◌≡◌, ◌≢◌, refl, sym, ap, ◌∙◌, inl, inr, ◌⊎◌, Bool, true, false, Option, none,
  some, List, [], ◌∷◌, ◌++◌, arith, length, ◌==◌, if◌then◌else◌, ret, Option-cases,
}
use cs3891_asst.Synch.Channels.{also, also-woken_of, woken_of-some, sleep_on-pos}
use cs3891_asst.Synch.{Lock, lock_round, lock_acquire, lock_release, woken_of, sleep_on}

-- The lock, the threads that have been woken in `lock_acquire` and have yet to go around its loop,
-- and the threads for which `lock_acquire` has returned and that have not given the lock back.
pub record Threads : Type 0 where
  pub lock : Lock
  pub woken : List ℕ
  pub inside : List ℕ

abbrev pub leave : ℕ → List ℕ → List ℕ
leave t [] = []
leave t (u ∷ us) = if u == t then us else u ∷ leave t us

pub data Step (s : Threads) : Threads → Type 0 where
  acquires :
      (t : ℕ) {lock : Lock}
      → lock_acquire t s.lock ≡ ret true lock
      → Step s (record s { lock = lock; inside = t ∷ s.inside })
  sleeps :
      (t : ℕ) {lock : Lock}
      → lock_acquire t s.lock ≡ ret false lock
      → Step s (record s { lock = lock })
  resumes :
      (t : ℕ) (before after : List ℕ) {lock : Lock}
      → s.woken ≡ before ++ (t ∷ after)
      → lock_round t s.lock ≡ ret true lock
      → Step s (record { lock = lock; woken = before ++ after; inside = t ∷ s.inside })
  sleeps_again :
      (t : ℕ) (before after : List ℕ) {lock : Lock}
      → s.woken ≡ before ++ (t ∷ after)
      → lock_round t s.lock ≡ ret false lock
      → Step s (record s { lock = lock; woken = before ++ after })
  releases :
      (t : ℕ) {w : Option ℕ} {lock : Lock}
      → lock_release t s.lock ≡ ret w lock
      → Step s (record { lock = lock; woken = also w s.woken; inside = leave t s.inside })

-- after `lock_create`
pub data Reach : Threads → Type 0 where
  start :
      Reach (record { lock = record { lk_holder = none; lk_wchan = [] }; woken = []; inside = [] })
  later : {s t : Threads} → Reach s → Step s t → Reach t

-- the holder as a list
abbrev pub to_list : Option ℕ → List ℕ
to_list none = []
to_list (some t) = t ∷ []

pub record Inv (s : Threads) : Type 0 where
  pub alone : s.inside ≡ to_list s.lock.lk_holder
  -- Threads sleep only while the lock is held or one is on its way.
  pub awake : 0 < length s.lock.lk_wchan → (s.lock.lk_holder ≢ none) ⊎ (0 < length s.woken)

lock_round-true :
    (t : ℕ) (s : Lock) {lock : Lock}
    → lock_round t s ≡ ret true lock
    → (s.lk_holder ≡ none) × (lock.lk_holder ≡ some t) × (lock.lk_wchan ≡ s.lk_wchan)
unfolding lock_round
lock_round-true t s e = elim (Option-cases s.lk_holder) [
  | inl free ↦ ground arith
  | inr (u, taken) ↦ ground arith
]

lock_round-false :
    (t : ℕ) (s : Lock) {lock : Lock}
    → lock_round t s ≡ ret false lock
    → (lock.lk_holder ≡ s.lk_holder) × (s.lk_holder ≢ none)
unfolding lock_round
lock_round-false t s e = elim (Option-cases s.lk_holder) [
  | inl free ↦ ground arith
  | inr (u, taken) ↦ ground arith
]

lock_acquire-ret :
    (t : ℕ) (s : Lock) {b : Bool} {lock : Lock}
    → lock_acquire t s ≡ ret b lock
    → lock_round t s ≡ ret b lock
unfolding lock_acquire
lock_acquire-ret t s e = ground arith

lock_release-ret :
    (t : ℕ) (s : Lock) {w : Option ℕ} {lock : Lock}
    → lock_release t s ≡ ret w lock
    → (s.lk_holder ≡ some t)
      × (lock.lk_holder ≡ none)
      × (w ≡ woken_of s.lk_wchan)
      × (lock.lk_wchan ≡ sleep_on s.lk_wchan)
unfolding lock_release
lock_release-ret t s e = elim (Option-cases s.lk_holder) [
  | inl free ↦ ground arith
  | inr (u, taken) ↦ ground arith
]

leave-alone : (t : ℕ) {inside : List ℕ} → inside ≡ t ∷ [] → leave t inside ≡ []
leave-alone t e = ap (leave t) e ∙ ground arith

pub Step-Inv : {s t : Threads} → Step s t → Inv s → Inv t
Step-Inv {s} (acquires t {lock} run) inv =
    let (free, taken, same) = lock_round-true t s.lock (lock_acquire-ret t s.lock run) in
    record {
      alone = ap (◌∷◌ t) (inv.alone ∙ ap to_list free) ∙ sym (ap to_list taken);
      awake = λ some_sleep. inl (ground arith);
    }
Step-Inv {s} (sleeps t {lock} run) inv =
    let (same, held) = lock_round-false t s.lock (lock_acquire-ret t s.lock run) in
    record {
      alone = inv.alone ∙ sym (ap to_list same);
      awake = λ some_sleep. inl (λ e. held (sym same ∙ e));
    }
Step-Inv {s} (resumes t before after {lock} split run) inv =
    let (free, taken, same) = lock_round-true t s.lock run in
    record {
      alone = ap (◌∷◌ t) (inv.alone ∙ ap to_list free) ∙ sym (ap to_list taken);
      awake = λ some_sleep. inl (ground arith);
    }
Step-Inv {s} (sleeps_again t before after {lock} split run) inv =
    let (same, held) = lock_round-false t s.lock run in
    record {
      alone = inv.alone ∙ sym (ap to_list same);
      awake = λ some_sleep. inl (λ e. held (sym same ∙ e));
    }
Step-Inv {s} (releases t {w} {lock} run) inv =
    let (mine, free, who, rest) = lock_release-ret t s.lock run in
    record {
      alone = leave-alone t (inv.alone ∙ ap to_list mine) ∙ sym (ap to_list free);
      awake = λ some_sleep.
          let slept : 0 < length s.lock.lk_wchan = sleep_on-pos s.lock.lk_wchan (ground arith) in
          let one_more : length (also w s.woken) ≡ length s.woken + 1 =
            ap (λ o. length (also o s.woken)) who ∙ also-woken_of s.lock.lk_wchan s.woken slept in
          inr (omega arith);
    }

pub Reach-Inv : {s : Threads} → Reach s → Inv s
Reach-Inv start = record { alone = refl; awake = λ some_sleep. absurd (omega arith) }
Reach-Inv (later r step) = Step-Inv step (Reach-Inv r)

-- After any steps of any threads, the threads inside the lock are its holder alone, or none if it has
-- no holder: mutual exclusion.
pub lock_excludes :
    {s : Threads} → Reach s → (s.inside ≡ to_list s.lock.lk_holder) × (length s.inside ≤ 1)
lock_excludes {s} r =
    let inv = Reach-Inv r in
    (
      inv.alone,
      elim (Option-cases s.lock.lk_holder) [
        | inl free ↦ ground (arith, inv.alone)
        | inr (u, taken) ↦ ground (arith, inv.alone)
      ],
    )

-- After any steps of any threads: while threads sleep on the lock, either a thread is inside, and
-- then its `lock_release` returns and wakes one of them, or a thread that has been woken is on its
-- way. No wake-up is lost.
pub lock_awake :
    {s : Threads}
    → Reach s
    → 0 < length s.lock.lk_wchan
    → ((t : ℕ) × (w : ℕ) × (lock : Lock) × (s.inside ≡ t ∷ [])
        × (lock_release t s.lock ≡ ret (some w) lock))
      ⊎ (0 < length s.woken)
unfolding lock_release
lock_awake {s} r some_sleep = elim ((Reach-Inv r).awake some_sleep) [
  | inr coming ↦ inr coming
  | inl held ↦ elim (Option-cases s.lock.lk_holder) [
    | inl free ↦ absurd (held free)
    | inr (t, taken) ↦
        let (w, first) = woken_of-some s.lock.lk_wchan some_sleep in
        inl (
          t,
          w,
          record { lk_holder = none; lk_wchan = sleep_on s.lock.lk_wchan },
          (Reach-Inv r).alone ∙ ap to_list taken,
          ground (arith, taken, first),
        )
  ]
]
