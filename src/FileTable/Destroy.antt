-- ===== src/FileTable/Destroy.antt =====
-- `file_table_destroy`: the rounds inside the table, and the rounds beyond its end.
use mathlib.Core.Path.{subst}
use native.Mathlib.Decide.{ℕ_discrete, dec_lt}
use cs3891_asst.Base.{
  ℕ, zero, suc, ◌+◌, ◌≤◌, ◌<◌, ◌≡◌, ◌≢◌, refl, ◌∙◌, inl, inr, false, some, List, arith, get_elem?,
  get_elem?-set, get_elem?-lt, get_elem?-some, Option-cases, ret, fault,
}
use cs3891_asst.Vfs.{Vfs}
use cs3891_asst.FileTable.{
  FdTable, Files, open_max, pid_max, file_closed, close_from, file_table_destroy,
}
use cs3891_asst.FileTable.Refs.{IsValid, refers}
use cs3891_asst.FileTable.Close.{closed_state, file_close-ret, closed-IsValid}

module _ {W : Type 0} (v : Vfs W) (others : List FdTable) where
  -- After a round, descriptor `i` is closed and those below stay closed.
  record Round (s t : Files W) (i : ℕ) : Type 0 where
    valid : IsValid others t
    free : t.held ≡ false
    shut : get_elem? t.fd_t i ≡ some file_closed
    kept : (j : ℕ) → i ≢ j → get_elem? t.fd_t j ≡ get_elem? s.fd_t j

  round :
      (s : Files W) (n i : ℕ)
      → IsValid others s
      → s.held ≡ false
      → i < open_max
      → (t : Files W) × Round s t i × (close_from v (suc n) i s ≡ close_from v n (i + 1) t)
  unfolding close_from
  round s n i valid free lt =
      let (e, at) = get_elem?-some s.fd_t i (omega (arith, valid.fd_size)) in
      elim (ℕ_discrete e file_closed) [
        | yes closed ↦ (
          s,
          record { valid = valid; free = free; shut = ground arith; kept = λ j ne. refl },
          ground arith,
        )
        | no ne ↦
            let (f, r) = refers valid i e at ne in
            (
              closed_state v s i e f,
              record {
                valid = closed-IsValid v valid i e f at ne r;
                free = free;
                shut =
                    ground
                      (arith, get_elem?-set s.fd_t i i file_closed (omega (arith, valid.fd_size)));
                kept = λ j differs.
                    ground
                      (arith, get_elem?-set s.fd_t i j file_closed (omega (arith, valid.fd_size)));
              },
              ground (arith, file_close-ret v valid i e f at r),
            )
      ]

  abbrev ClosedBelow : ℕ → Files W → Type 0
  ClosedBelow i s = (j : ℕ) → j < i → get_elem? s.fd_t j ≡ some file_closed

  Round-ClosedBelow :
      {s t : Files W} (i : ℕ) → Round s t i → ClosedBelow i s → ClosedBelow (i + 1) t
  Round-ClosedBelow {s} {t} i r below j lt = elim (ℕ_discrete i j) [
    | yes e ↦ subst (λ k. get_elem? t.fd_t k ≡ some file_closed) e r.shut
    | no ne ↦ r.kept j ne ∙ below j (omega arith)
  ]

  rounds :
      (n i : ℕ) (s : Files W)
      → i + n ≡ open_max
      → IsValid others s
      → s.held ≡ false
      → ClosedBelow i s
      → (t : Files W) × (close_from v n i s ≡ ret tt t)
        × IsValid others t
        × (t.held ≡ false)
        × ClosedBelow open_max t
  rounds zero i s e valid free below =
      (s, unfold close_from in refl, valid, free, λ j lt. below j (omega arith))
  rounds (suc n) i s e valid free below =
      let (t, r, step) = round s n i valid free (omega arith) in
      let (u, run, ok_t, held_t, shut_t) =
        rounds n (i + 1) t (omega arith) r.valid r.free (Round-ClosedBelow i r below) in
      (u, step ∙ run, ok_t, held_t, shut_t)

  overrun :
      (n i : ℕ) (s : Files W)
      → i ≤ open_max
      → open_max < i + n
      → IsValid others s
      → s.held ≡ false
      → close_from v n i s ≡ fault
  overrun zero i s le lt valid free = absurd (omega arith)
  overrun (suc n) i s le lt valid free = elim (dec_lt i open_max) [
    | yes inside ↦
        let (t, r, step) = round s n i valid free inside in
        step ∙ overrun n (i + 1) t (omega arith) (omega arith) r.valid r.free
    | no beyond ↦
        unfold close_from in
        elim (Option-cases (get_elem? s.fd_t i)) [
          | inl nothing ↦ rw (nothing, close_from)
          | inr (e, at) ↦ absurd (omega (arith, get_elem?-lt s.fd_t i e at, valid.fd_size))
        ]
  ]

-- From a valid table whose lock is free, the first OPEN_MAX rounds of the loop of
-- `file_table_destroy` end normally: every descriptor of the process is closed, the open file table
-- counts only the references of the other processes, and the lock is free.
pub close_from-closes :
    {W : Type 0} (v : Vfs W) (others : List FdTable) (s : Files W)
    → IsValid others s
    → s.held ≡ false
    → (t : Files W) × (close_from v open_max 0 s ≡ ret tt t)
      × IsValid others t
      × (t.held ≡ false)
      × ((j : ℕ) → j < open_max → get_elem? t.fd_t j ≡ some file_closed)
close_from-closes v others s valid free =
    rounds v others open_max 0 s (omega arith) valid free (λ j lt. absurd (omega arith))

-- The loop of `file_table_destroy` runs to PID_MAX, not to OPEN_MAX: from every valid table whose
-- lock is free it reads beyond the end of the descriptor table.
pub file_table_destroy-fault :
    {W : Type 0} (v : Vfs W) (others : List FdTable) (s : Files W)
    → IsValid others s
    → s.held ≡ false
    → file_table_destroy v s ≡ fault
unfolding file_table_destroy
file_table_destroy-fault v others s valid free =
    overrun v others pid_max 0 s (omega arith) (omega arith) valid free
