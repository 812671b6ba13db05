-- ===== src/Threadlist/Refines.antt =====
-- The calls on a thread list against those on the row of its threads.
use mathlib.Core.Path.{subst}
use native.Mathlib.Decide.{ℕ_discrete}
use cs3891_asst.Base.{
  ℕ, ◌+◌, ◌-◌, ◌≤◌, ◌≡◌, sym, ap, ◌∙◌, ◌==◌, ltb, leb, if◌then◌else◌, true, false, Option, none,
  some, arith, Run, ret, add32, sub32,
}
use cs3891_asst.Threadlist.{
  Nodes, threadlist_addhead, threadlist_addtail, threadlist_remhead, threadlist_remtail,
  threadlist_insertafter, threadlist_insertbefore, threadlist_remove,
}
use cs3891_asst.Threadlist.Rows.{
  Row, inserted, joined, insertafter-joined, insertbefore-joined, joined-Links, low, high, middle,
  old_place,
}
use cs3891_asst.Threadlist.Removal
use cs3891_asst.Threadlist.Removal.{removed, parted, remove-parted, parted-Links}
use cs3891_asst.Threadlist.Commands.{
  Command, addhead, addtail, insertafter, insertbefore, remhead, remtail, remove, call, row_after,
  result_of, Represents, IsNew, Fits, Done,
}

module _ {head tail : ℕ} {r : Row} {s : Nodes} (m : Represents head tail r s) where
  abbrev counted : Nodes → ℕ → Nodes
  counted u n = record u { tl_count = n }

  inserted-Represents :
      (k t : ℕ)
      → k ≤ r.length
      → IsNew r s t
      → Represents head tail
          (inserted r k t)
          (counted (joined s (r.node k) t (r.node (k + 1))) (add32 s.tl_count 1))
  inserted-Represents k t le w =
      let l = joined-Links m.links k le t w.absent in
      record {
        links = record {
          next = l.next;
          prev = l.prev;
          first = l.first;
          last = l.last;
          apart = l.apart;
        };
        first = low m.links k le t w.absent 0 (omega arith) ∙ m.first;
        last = high m.links k le t w.absent (r.length + 1) (omega arith) ∙ m.last;
        count = omega (arith, m.count, w.room);
        fits = w.room;
        threads = λ i pos lt. elim (ℕ_discrete i (k + 1)) [
          | yes e ↦
              let here : (inserted r k t).node i ≡ t =
                ap (inserted r k t).node e ∙ middle m.links k le t w.absent in
              ap s.tln_self here ∙ w.itself ∙ ap some (sym here)
          | no ne ↦
              let here = old_place m.links k le t w.absent i ne in
              ap s.tln_self here
              ∙ m.threads (if leb i k then i else i - 1) (ground arith) (ground arith)
              ∙ ap some (sym here)
        ];
      }

  removed-Represents :
      (j : ℕ)
      → j + 1 ≤ r.length
      → Represents head tail
          (removed r (j + 1))
          (counted (parted s (r.node j) (r.node (j + 1)) (r.node (j + 1 + 1))) (sub32 s.tl_count 1))
  removed-Represents j le =
      let l = parted-Links m.links j le in
      let size : r.length - 1 + 1 ≡ r.length = omega arith in
      record {
        links = record {
          next = l.next;
          prev = l.prev;
          first = l.first;
          last = l.last;
          apart = l.apart;
        };
        first = ground (arith, m.first);
        last =
            ap (removed r (j + 1)).node size
            ∙ Removal.high m.links j le r.length (omega arith)
            ∙ m.last;
        count = omega (arith, m.count, m.fits);
        fits = omega (arith, m.fits);
        threads = λ i pos lt.
            let here = Removal.in_place m.links j le i in
            ap s.tln_self here
            ∙ m.threads (if ltb i (j + 1) then i else i + 1) (ground arith) (ground arith)
            ∙ ap some (sym here);
      }

  insert_call :
      (k t : ℕ) (q : Run Nodes (Option ℕ))
      → k ≤ r.length
      → IsNew r s t
      → q ≡ ret none (counted (joined s (r.node k) t (r.node (k + 1))) (add32 s.tl_count 1))
      → Done head tail (inserted r k t) q none
  insert_call k t q le w e = (
    counted (joined s (r.node k) t (r.node (k + 1))) (add32 s.tl_count 1),
    e,
    inserted-Represents k t le w,
  )

  remove_call :
      (j : ℕ) (q : Run Nodes (Option ℕ)) (o : Option ℕ)
      → j + 1 ≤ r.length
      → q
        ≡ ret o (
            counted
              (parted s (r.node j) (r.node (j + 1)) (r.node (j + 1 + 1)))
              (sub32 s.tl_count 1))
      → Done head tail (removed r (j + 1)) q o
  remove_call j q o le e = (
    counted (parted s (r.node j) (r.node (j + 1)) (r.node (j + 1 + 1))) (sub32 s.tl_count 1),
    e,
    removed-Represents j le,
  )

  remhead_call :
      Done head tail (row_after r remhead) (threadlist_remhead head tail s) (result_of r remhead)
  unfolding threadlist_remhead
  remhead_call = elim (ℕ_discrete r.length 0) [
    | yes z ↦
        let empty : (r.length == 0) ≡ true = ground arith in
        let end : s.tln_next (r.node 1) ≡ none =
          ap (λ n. s.tln_next (r.node (n + 1))) (sym z) ∙ m.links.last in
        rw empty (s, ground (arith, m.first, m.links.next 0 (omega arith), end), m)
    | no nz ↦
        let some_thread : (r.length == 0) ≡ false = ground arith in
        rw some_thread (
          remove_call 0 (threadlist_remhead head tail s) (some (r.node 1)) (omega arith) (
            ground (
              arith,
              m.first,
              m.links.next 0 (omega arith),
              m.links.next 1 (omega arith),
              remove-parted m.links 0 (omega arith),
              m.threads 1 (omega arith) (omega arith),
            )))
  ]

  remtail_call :
      Done head tail (row_after r remtail) (threadlist_remtail head tail s) (result_of r remtail)
  unfolding threadlist_remtail
  remtail_call = elim (ℕ_discrete r.length 0) [
    | yes z ↦
        let empty : (r.length == 0) ≡ true = ground arith in
        let end : s.tln_prev (r.node r.length) ≡ none =
          ap (λ n. s.tln_prev (r.node n)) z ∙ m.links.first in
        rw empty (s, ground (arith, m.last, m.links.prev r.length (omega arith), end), m)
    | no nz ↦
        let some_thread : (r.length == 0) ≡ false = ground arith in
        let e : r.length - 1 + 1 ≡ r.length = omega arith in
        rw some_thread (
          subst
            (λ i. Done head tail (removed r i) (threadlist_remtail head tail s) (some (r.node i))) e
            (remove_call (r.length - 1) (threadlist_remtail head tail s)
              (some (r.node (r.length - 1 + 1))) (omega arith)
              (ground (
                arith,
                m.last,
                ap r.node e,
                m.links.prev r.length (omega arith),
                m.links.prev (r.length - 1) (omega arith),
                remove-parted m.links (r.length - 1) (omega arith),
                m.threads r.length (omega arith) (omega arith),
              ))))
  ]

-- On a list that has the threads of a row, with less than 2^32 of them, each call returns, with the thread
-- taken out, if any, and the list then has the threads of the changed row: `threadlist_addhead`,
-- `threadlist_addtail`, `threadlist_insertafter` and `threadlist_insertbefore` put a thread that is not
-- on the list at the front, at the end, and next to a thread of the list; `threadlist_remhead` and
-- `threadlist_remtail` take out the first and the last thread and give it, or give NULL on an empty
-- list; and `threadlist_remove` takes out a thread of the list. Nodes are linked in both directions,
-- and the count is their number.
pub call-Represents :
    {head tail : ℕ} {r : Row} {s : Nodes} (c : Command)
    → Represents head tail r s
    → Fits r s c
    → Done head tail (row_after r c) (call head tail r c s) (result_of r c)
unfolding threadlist_addhead threadlist_addtail threadlist_insertafter threadlist_insertbefore
    threadlist_remove
call-Represents {head} {tail} {r} {s} (addhead t) m w =
    insert_call m 0 t (call head tail r (addhead t) s) (omega arith) w
      (ground (arith, insertafter-joined m.links 0 (omega arith) t w.absent, m.first))
call-Represents {head} {tail} {r} {s} (addtail t) m w =
    insert_call m r.length t (call head tail r (addtail t) s) (omega arith) w
      (ground (arith, insertbefore-joined m.links r.length (omega arith) t w.absent, m.last))
call-Represents {head} {tail} {r} {s} (insertafter k t) m (pos, le, w) =
    insert_call m k t (call head tail r (insertafter k t) s) le w
      (ground (arith, insertafter-joined m.links k le t w.absent))
call-Represents {head} {tail} {r} {s} (insertbefore t k) m (pos, le, w) =
    let e : k - 1 + 1 ≡ k = omega arith in
    insert_call m (k - 1) t (call head tail r (insertbefore t k) s) (omega arith) w
      (ground (arith, insertbefore-joined m.links (k - 1) (omega arith) t w.absent, ap r.node e))
call-Represents remhead m w = remhead_call m
call-Represents remtail m w = remtail_call m
call-Represents {head} {tail} {r} {s} (remove k) m (pos, le) =
    let e : k - 1 + 1 ≡ k = omega arith in
    subst (λ i. Done head tail (removed r i) (call head tail r (remove i) s) none) e
      (remove_call m (k - 1) (call head tail r (remove (k - 1 + 1)) s) none (omega arith)
        (ground (arith, remove-parted m.links (k - 1) (omega arith))))
