-- ===== src/Threadlist/Rows.antt =====
-- A thread list against the row of its nodes.
use native.Mathlib.Decide.{ℕ_discrete, dec_lt}
use cs3891_asst.Base.{
  ℕ, ◌+◌, ◌-◌, ◌≤◌, ◌<◌, ◌≡◌, ◌≢◌, refl, sym, ap, ◌∙◌, ◌==◌, leb, if◌then◌else◌, false, none, some,
  arith, ret,
}
use cs3891_asst.Threadlist.{Nodes, assign, threadlist_insertafternode, threadlist_insertbeforenode}

-- Node 0 of the row is the list's head, nodes 1 to `length` are the threads, and the next is its tail.
pub record Row : Type 0 where
  pub length : ℕ
  pub node : ℕ → ℕ

pub record Links (r : Row) (s : Nodes) : Type 0 where
  pub next : (i : ℕ) → i ≤ r.length → s.tln_next (r.node i) ≡ some (r.node (i + 1))
  pub prev : (i : ℕ) → i ≤ r.length → s.tln_prev (r.node (i + 1)) ≡ some (r.node i)
  pub first : s.tln_prev (r.node 0) ≡ none
  pub last : s.tln_next (r.node (r.length + 1)) ≡ none
  pub apart : (i j : ℕ) → i ≤ r.length + 1 → j ≤ r.length + 1 → r.node i ≡ r.node j → i ≡ j

-- `t` behind node `k`
abbrev pub inserted : Row → ℕ → ℕ → Row
inserted r k t = record {
  length = r.length + 1;
  node = λ i. if leb i k then r.node i else if i == k + 1 then t else r.node (i - 1);
}

abbrev pub joined : Nodes → ℕ → ℕ → ℕ → Nodes
joined s a t b = record s {
  tln_prev = assign (assign s.tln_prev t (some a)) b (some t);
  tln_next = assign (assign s.tln_next t (some b)) a (some t);
}

module _ {r : Row} {s : Nodes} (l : Links r s) where
  pub different : (i j : ℕ) → i ≤ r.length + 1 → j ≤ r.length + 1 → i ≢ j → r.node i ≢ r.node j
  different i j bi bj ne e = ne (l.apart i j bi bj e)

  module _ (k : ℕ) (inside : k ≤ r.length) (t : ℕ)
      (new : (i : ℕ) → i ≤ r.length + 1 → r.node i ≢ t) where
    pub insertafter-joined :
        threadlist_insertafternode (r.node k) t s ≡ ret tt (joined s (r.node k) t (r.node (k + 1)))
    unfolding threadlist_insertafternode
    insertafter-joined =
        ground (arith, l.next k inside, new k (omega arith), new (k + 1) (omega arith))

    pub insertbefore-joined :
        threadlist_insertbeforenode t (r.node (k + 1)) s
        ≡ ret tt (joined s (r.node k) t (r.node (k + 1)))
    unfolding threadlist_insertbeforenode
    insertbefore-joined =
        ground (arith, l.prev k inside, new k (omega arith), new (k + 1) (omega arith))

module _ {r : Row} {s : Nodes} (l : Links r s) (k : ℕ) (inside : k ≤ r.length) (t : ℕ)
    (new : (i : ℕ) → i ≤ r.length + 1 → r.node i ≢ t) where
  abbrev with_t : Nodes
  with_t = joined s (r.node k) t (r.node (k + 1))

  abbrev node' : ℕ → ℕ
  node' = (inserted r k t).node

  pub low : (i : ℕ) → i ≤ k → node' i ≡ r.node i
  low i le = ground arith

  pub middle : node' (k + 1) ≡ t
  middle = ground arith

  pub high : (i : ℕ) → k < i → node' (i + 1) ≡ r.node i
  high i lt =
      let e : i + 1 - 1 ≡ i = omega arith in
      let above : leb (i + 1) k ≡ false = ground arith in
      let other : (i + 1 == k + 1) ≡ false = ground arith in rw (above, other, e) (refl)

  next_far : (i : ℕ) → i ≤ r.length + 1 → i ≢ k → with_t.tln_next (r.node i) ≡ s.tln_next (r.node i)
  next_far i le ne = ground (arith, new i le, different l i k le (omega arith) ne)

  prev_far :
      (i : ℕ) → i ≤ r.length + 1 → i ≢ k + 1 → with_t.tln_prev (r.node i) ≡ s.tln_prev (r.node i)
  prev_far i le ne = ground (arith, new i le, different l i (k + 1) le (omega arith) ne)

  joined-next : (i : ℕ) → i ≤ r.length + 1 → with_t.tln_next (node' i) ≡ some (node' (i + 1))
  joined-next i le = elim (dec_lt i k) [
    | yes lt ↦
        ap with_t.tln_next (low i (omega arith))
        ∙ next_far i (omega arith) (omega arith)
        ∙ l.next i (omega arith)
        ∙ ap some (sym (low (i + 1) (omega arith)))
    | no ge ↦ elim (ℕ_discrete i k) [
      | yes e ↦
          ap (λ x. with_t.tln_next (node' x)) e
          ∙ ap with_t.tln_next (low k (omega arith))
          ∙ here
          ∙ ap some (sym middle)
          ∙ ap (λ x. some (node' (x + 1))) (sym e)
      | no ne ↦ elim (ℕ_discrete i (k + 1)) [
        | yes e ↦
            ap (λ x. with_t.tln_next (node' x)) e
            ∙ ap with_t.tln_next middle
            ∙ there
            ∙ ap some (sym (high (k + 1) (omega arith)))
            ∙ ap (λ x. some (node' (x + 1))) (sym e)
        | no ne' ↦
            let back : i ≡ i - 1 + 1 = omega arith in
            ap (λ x. with_t.tln_next (node' x)) back
            ∙ ap with_t.tln_next (high (i - 1) (omega arith))
            ∙ next_far (i - 1) (omega arith) (omega arith)
            ∙ l.next (i - 1) (omega arith)
            ∙ ap (λ x. some (r.node x)) (sym back)
            ∙ ap some (sym (high i (omega arith)))
      ]
    ]
  ]
    where
      here : with_t.tln_next (r.node k) ≡ some t
      here = ground arith

      there : with_t.tln_next t ≡ some (r.node (k + 1))
      there = ground (arith, new k (omega arith))

  joined-prev : (i : ℕ) → i ≤ r.length + 1 → with_t.tln_prev (node' (i + 1)) ≡ some (node' i)
  joined-prev i le = elim (dec_lt i k) [
    | yes lt ↦
        ap with_t.tln_prev (low (i + 1) (omega arith))
        ∙ prev_far (i + 1) (omega arith) (omega arith)
        ∙ l.prev i (omega arith)
        ∙ ap some (sym (low i (omega arith)))
    | no ge ↦ elim (ℕ_discrete i k) [
      | yes e ↦
          ap (λ x. with_t.tln_prev (node' (x + 1))) e
          ∙ ap with_t.tln_prev middle
          ∙ here
          ∙ ap some (sym (low k (omega arith)))
          ∙ ap (λ x. some (node' x)) (sym e)
      | no ne ↦ elim (ℕ_discrete i (k + 1)) [
        | yes e ↦
            ap (λ x. with_t.tln_prev (node' (x + 1))) e
            ∙ ap with_t.tln_prev (high (k + 1) (omega arith))
            ∙ there
            ∙ ap some (sym middle)
            ∙ ap (λ x. some (node' x)) (sym e)
        | no ne' ↦
            let back : i ≡ i - 1 + 1 = omega arith in
            ap with_t.tln_prev (high i (omega arith))
            ∙ prev_far i (omega arith) (omega arith)
            ∙ ap (λ x. s.tln_prev (r.node x)) back
            ∙ l.prev (i - 1) (omega arith)
            ∙ ap some (sym (high (i - 1) (omega arith)))
            ∙ ap (λ x. some (node' x)) (sym back)
      ]
    ]
  ]
    where
      here : with_t.tln_prev t ≡ some (r.node k)
      here = ground (arith, new (k + 1) (omega arith))

      there : with_t.tln_prev (r.node (k + 1)) ≡ some t
      there = ground arith

  -- The place of a node in the old row, but for `t`.
  abbrev before : ℕ → ℕ
  before i = if leb i k then i else i - 1

  pub old_place : (i : ℕ) → i ≢ k + 1 → node' i ≡ r.node (before i)
  old_place i ne = ground arith

  joined-apart : (i j : ℕ) → i ≤ r.length + 1 + 1 → j ≤ r.length + 1 + 1 → node' i ≡ node' j → i ≡ j
  joined-apart i j bi bj e = elim (ℕ_discrete i (k + 1)) [
    | yes ei ↦ elim (ℕ_discrete j (k + 1)) [
      | yes ej ↦ ei ∙ sym ej
      | no nj ↦
          absurd
            (new (before j) (ground arith) (sym (old_place j nj) ∙ sym e ∙ ap node' ei ∙ middle))
    ]
    | no ni ↦ elim (ℕ_discrete j (k + 1)) [
      | yes ej ↦
          absurd (new (before i) (ground arith) (sym (old_place i ni) ∙ e ∙ ap node' ej ∙ middle))
      | no nj ↦
          let same : before i ≡ before j =
            l.apart (before i) (before j) (ground arith) (ground arith)
              (sym (old_place i ni) ∙ e ∙ old_place j nj) in
          ground arith
    ]
  ]

  pub joined-Links : Links (inserted r k t) with_t
  joined-Links = record {
    next = joined-next;
    prev = joined-prev;
    first =
        ap with_t.tln_prev (low 0 (omega arith)) ∙ prev_far 0 (omega arith) (omega arith) ∙ l.first;
    last =
        ap with_t.tln_next (high (r.length + 1) (omega arith))
        ∙ next_far (r.length + 1) (omega arith) (omega arith)
        ∙ l.last;
    apart = joined-apart;
  }
