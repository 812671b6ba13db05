-- ===== src/Threadlist/Removal.antt =====
-- The row of a thread list without one of its nodes.
use native.Mathlib.Decide.{ℕ_discrete, dec_lt}
use cs3891_asst.Base.{
  ℕ, ◌+◌, ◌-◌, ◌≤◌, ◌<◌, ◌≡◌, ◌≢◌, sym, ap, ◌∙◌, ltb, if◌then◌else◌, none, some, arith, ret,
}
use cs3891_asst.Threadlist.{Nodes, assign, threadlist_removenode}
use cs3891_asst.Threadlist.Rows.{Row, Links, different}

-- without node `k`
abbrev pub removed : Row → ℕ → Row
removed r k = record {
  length = r.length - 1;
  node = λ i. if ltb i k then r.node i else r.node (i + 1);
}

abbrev pub parted : Nodes → ℕ → ℕ → ℕ → Nodes
parted s a t b = record s {
  tln_prev = assign (assign s.tln_prev b (some a)) t none;
  tln_next = assign (assign s.tln_next a (some b)) t none;
}

module _ {r : Row} {s : Nodes} (l : Links r s) (j : ℕ) (inside : j + 1 ≤ r.length) where
  pub remove-parted :
      threadlist_removenode (r.node (j + 1)) s
      ≡ ret tt (parted s (r.node j) (r.node (j + 1)) (r.node (j + 1 + 1)))
  unfolding threadlist_removenode
  remove-parted = ground (
    arith,
    l.prev j (omega arith),
    l.next (j + 1) inside,
    different l j (j + 1) (omega arith) (omega arith) (omega arith),
    different l (j + 1) (j + 1 + 1) (omega arith) (omega arith) (omega arith),
  )

  abbrev without : Nodes
  without = parted s (r.node j) (r.node (j + 1)) (r.node (j + 1 + 1))

  abbrev node' : ℕ → ℕ
  node' = (removed r (j + 1)).node

  pub low : (i : ℕ) → i ≤ j → node' i ≡ r.node i
  low i le = ground arith

  pub high : (i : ℕ) → j < i → node' i ≡ r.node (i + 1)
  high i lt = ground arith

  next_far :
      (i : ℕ)
      → i ≤ r.length + 1
      → i ≢ j
      → i ≢ j + 1
      → without.tln_next (r.node i) ≡ s.tln_next (r.node i)
  next_far i le ne nt =
      ground (arith, different l i j le (omega arith) ne, different l i (j + 1) le (omega arith) nt)

  prev_far :
      (i : ℕ)
      → i ≤ r.length + 1
      → i ≢ j + 1 + 1
      → i ≢ j + 1
      → without.tln_prev (r.node i) ≡ s.tln_prev (r.node i)
  prev_far i le ne nt = ground (
    arith,
    different l i (j + 1 + 1) le (omega arith) ne,
    different l i (j + 1) le (omega arith) nt,
  )

  parted-next : (i : ℕ) → i ≤ r.length - 1 → without.tln_next (node' i) ≡ some (node' (i + 1))
  parted-next i le = elim (dec_lt i j) [
    | yes lt ↦
        ap without.tln_next (low i (omega arith))
        ∙ next_far i (omega arith) (omega arith) (omega arith)
        ∙ l.next i (omega arith)
        ∙ ap some (sym (low (i + 1) (omega arith)))
    | no ge ↦ elim (ℕ_discrete i j) [
      | yes e ↦
          ap (λ x. without.tln_next (node' x)) e
          ∙ ap without.tln_next (low j (omega arith))
          ∙ here
          ∙ ap some (sym (high (j + 1) (omega arith)))
          ∙ ap (λ x. some (node' (x + 1))) (sym e)
      | no ne ↦
          ap without.tln_next (high i (omega arith))
          ∙ next_far (i + 1) (omega arith) (omega arith) (omega arith)
          ∙ l.next (i + 1) (omega arith)
          ∙ ap some (sym (high (i + 1) (omega arith)))
    ]
  ]
    where
      here : without.tln_next (r.node j) ≡ some (r.node (j + 1 + 1))
      here = ground (arith, different l j (j + 1) (omega arith) (omega arith) (omega arith))

  parted-prev : (i : ℕ) → i ≤ r.length - 1 → without.tln_prev (node' (i + 1)) ≡ some (node' i)
  parted-prev i le = elim (dec_lt i j) [
    | yes lt ↦
        ap without.tln_prev (low (i + 1) (omega arith))
        ∙ prev_far (i + 1) (omega arith) (omega arith) (omega arith)
        ∙ l.prev i (omega arith)
        ∙ ap some (sym (low i (omega arith)))
    | no ge ↦ elim (ℕ_discrete i j) [
      | yes e ↦
          ap (λ x. without.tln_prev (node' (x + 1))) e
          ∙ ap without.tln_prev (high (j + 1) (omega arith))
          ∙ here
          ∙ ap some (sym (low j (omega arith)))
          ∙ ap (λ x. some (node' x)) (sym e)
      | no ne ↦
          ap without.tln_prev (high (i + 1) (omega arith))
          ∙ prev_far (i + 1 + 1) (omega arith) (omega arith) (omega arith)
          ∙ l.prev (i + 1) (omega arith)
          ∙ ap some (sym (high i (omega arith)))
    ]
  ]
    where
      here : without.tln_prev (r.node (j + 1 + 1)) ≡ some (r.node j)
      here =
          ground (arith, different l (j + 1) (j + 1 + 1) (omega arith) (omega arith) (omega arith))

  abbrev place : ℕ → ℕ
  place i = if ltb i (j + 1) then i else i + 1

  pub in_place : (i : ℕ) → node' i ≡ r.node (place i)
  in_place i = ground arith

  parted-apart :
      (i i' : ℕ) → i ≤ r.length - 1 + 1 → i' ≤ r.length - 1 + 1 → node' i ≡ node' i' → i ≡ i'
  parted-apart i i' b b' e =
      let same : place i ≡ place i' =
        l.apart (place i) (place i') (ground arith) (ground arith)
          (sym (in_place i) ∙ e ∙ in_place i') in
      ground arith

  pub parted-Links : Links (removed r (j + 1)) without
  parted-Links =
      let size : r.length - 1 + 1 ≡ r.length = omega arith in
      record {
        next = parted-next;
        prev = parted-prev;
        first =
            ap without.tln_prev (low 0 (omega arith))
            ∙ prev_far 0 (omega arith) (omega arith) (omega arith)
            ∙ l.first;
        last =
            ap (λ x. without.tln_next (node' x)) size
            ∙ ap without.tln_next (high r.length (omega arith))
            ∙ next_far (r.length + 1) (omega arith) (omega arith) (omega arith)
            ∙ l.last;
        apart = parted-apart;
      }
