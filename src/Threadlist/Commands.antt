-- ===== src/Threadlist/Commands.antt =====
-- The calls on a thread list, and what they mean for the row of its threads.
use cs3891_asst.Base.{
  ℕ, ◌+◌, ◌-◌, ◌^◌, ◌≤◌, ◌<◌, ◌≡◌, ◌≢◌, refl, ◌==◌, if◌then◌else◌, Option, none, some, arith, Run,
  ret, K, pure, ◌>>◌,
}
use cs3891_asst.Threadlist.{
  Nodes, assign, threadlist_init, threadlist_addhead, threadlist_addtail, threadlist_remhead,
  threadlist_remtail, threadlist_insertafter, threadlist_insertbefore, threadlist_remove,
}
use cs3891_asst.Threadlist.Rows.{Row, Links, inserted}
use cs3891_asst.Threadlist.Removal.{removed}

-- A call; places in the row stand for the threads there.
pub data Command : Type 0 where
  addhead : ℕ → Command
  addtail : ℕ → Command
  insertafter : ℕ → ℕ → Command
  insertbefore : ℕ → ℕ → Command
  remhead : Command
  remtail : Command
  remove : ℕ → Command

abbrev pub no_result : {S : Type 0} → K S (Unit {0}) → K S (Option ℕ)
no_result m = do m; pure none

abbrev pub call : ℕ → ℕ → Row → Command → K Nodes (Option ℕ)
call head tail r (addhead t) = no_result (threadlist_addhead head tail t)
call head tail r (addtail t) = no_result (threadlist_addtail head tail t)
call head tail r (insertafter k t) = no_result (threadlist_insertafter head tail (r.node k) t)
call head tail r (insertbefore t k) = no_result (threadlist_insertbefore head tail t (r.node k))
call head tail r remhead = threadlist_remhead head tail
call head tail r remtail = threadlist_remtail head tail
call head tail r (remove k) = no_result (threadlist_remove head tail (r.node k))

abbrev pub row_after : Row → Command → Row
row_after r (addhead t) = inserted r 0 t
row_after r (addtail t) = inserted r r.length t
row_after r (insertafter k t) = inserted r k t
row_after r (insertbefore t k) = inserted r (k - 1) t
row_after r remhead = if r.length == 0 then r else removed r 1
row_after r remtail = if r.length == 0 then r else removed r r.length
row_after r (remove k) = removed r k

abbrev pub result_of : Row → Command → Option ℕ
result_of r remhead = if r.length == 0 then none else some (r.node 1)
result_of r remtail = if r.length == 0 then none else some (r.node r.length)
result_of r _ = none

-- The list has the row's nodes, linked both ways and all different, and their number.
pub record Represents (head tail : ℕ) (r : Row) (s : Nodes) : Type 0 where
  pub links : Links r s
  pub first : r.node 0 ≡ head
  pub last : r.node (r.length + 1) ≡ tail
  pub count : s.tl_count ≡ r.length
  pub fits : r.length < 2 ^ 32
  pub threads : (i : ℕ) → 0 < i → i ≤ r.length → s.tln_self (r.node i) ≡ some (r.node i)

-- A thread that is not on the list, with room for one more.
pub record IsNew (r : Row) (s : Nodes) (t : ℕ) : Type 0 where
  pub absent : (i : ℕ) → i ≤ r.length + 1 → r.node i ≢ t
  pub itself : s.tln_self t ≡ some t
  pub room : r.length + 1 < 2 ^ 32

abbrev pub Fits : Row → Nodes → Command → Type 0
Fits r s (addhead t) = IsNew r s t
Fits r s (addtail t) = IsNew r s t
Fits r s (insertafter k t) = (0 < k) × (k ≤ r.length) × IsNew r s t
Fits r s (insertbefore t k) = (0 < k) × (k ≤ r.length) × IsNew r s t
Fits r s remhead = Unit {0}
Fits r s remtail = Unit {0}
Fits r s (remove k) = (0 < k) × (k ≤ r.length)

abbrev pub Done : ℕ → ℕ → Row → Run Nodes (Option ℕ) → Option ℕ → Type 0
Done head tail r q result = (t : Nodes) × (q ≡ ret result t) × Represents head tail r t

abbrev pub empty_row : ℕ → ℕ → Row
empty_row head tail = record { length = 0; node = λ i. if i == 0 then head else tail }

abbrev pub initial : ℕ → ℕ → Nodes → Nodes
initial head tail s = record {
  tln_prev = assign (assign s.tln_prev head none) tail (some head);
  tln_next = assign (assign s.tln_next head (some tail)) tail none;
  tln_self = assign (assign s.tln_self head none) tail none;
  tl_count = 0;
}

-- `threadlist_init` makes an empty list.
pub init-Represents :
    (head tail : ℕ) (s : Nodes)
    → head ≢ tail
    → (threadlist_init head tail s ≡ ret tt (initial head tail s))
      × Represents head tail (empty_row head tail) (initial head tail s)
unfolding threadlist_init
init-Represents head tail s ne = (
  refl,
  record {
    links = record {
      next = λ i le. ground arith;
      prev = λ i le. ground arith;
      first = ground arith;
      last = ground arith;
      apart = λ i j bi bj e. ground arith;
    };
    first = refl;
    last = refl;
    count = refl;
    fits = omega arith;
    threads = λ i pos le. absurd (omega arith);
  },
)
