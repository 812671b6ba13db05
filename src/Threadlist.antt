-- ===== src/Threadlist.antt =====
-- kern/thread/threadlist.c: a doubly linked list of threads, between two nodes of its own. A node is a
-- number, and that of a thread, t_listnode, is the thread's. DEBUGASSERT checks nothing by default.
pub mod Rows
pub mod Removal
pub mod Commands
pub mod Refines
use cs3891_asst.Base.{
  ℕ, ◌+◌, ◌==◌, if◌then◌else◌, Bool, true, false, Option, none, some, Run, ret, K, pure, ◌>>=◌,
  ◌>>◌, deref, kassert, not, add32, sub32,
}

-- the fields of all nodes, and the count of the list
pub record Nodes : Type 0 where
  pub tln_prev : ℕ → Option ℕ
  pub tln_next : ℕ → Option ℕ
  pub tln_self : ℕ → Option ℕ
  pub tl_count : ℕ

abbrev pub assign : (ℕ → Option ℕ) → ℕ → Option ℕ → ℕ → Option ℕ
assign f x o y = if y == x then o else f y

abbrev pub set_prev : ℕ → Option ℕ → K Nodes (Unit {0})
set_prev x o s = ret tt (record s { tln_prev = assign s.tln_prev x o })

abbrev pub set_next : ℕ → Option ℕ → K Nodes (Unit {0})
set_next x o s = ret tt (record s { tln_next = assign s.tln_next x o })

abbrev pub get_prev : ℕ → K Nodes (Option ℕ)
get_prev x s = ret (s.tln_prev x) s

abbrev pub get_next : ℕ → K Nodes (Option ℕ)
get_next x s = ret (s.tln_next x) s

-- `x->tln_prev->tln_next = o`, and `x->tln_next->tln_prev = o`
abbrev pub set_prev_next : ℕ → Option ℕ → K Nodes (Unit {0})
set_prev_next x o = do p ← λ s. deref (s.tln_prev x) s; set_next p o

abbrev pub set_next_prev : ℕ → Option ℕ → K Nodes (Unit {0})
set_next_prev x o = do n ← λ s. deref (s.tln_next x) s; set_prev n o

unfoldable pub threadlistnode_init : ℕ → ℕ → K Nodes (Unit {0})
threadlistnode_init tln t s = ret tt (record s {
  tln_next = assign s.tln_next tln none;
  tln_prev = assign s.tln_prev tln none;
  tln_self = assign s.tln_self tln (some t);
})

abbrev is_null : Option ℕ → Bool
is_null none = true
is_null (some x) = false

unfoldable pub threadlistnode_cleanup : ℕ → K Nodes (Unit {0})
threadlistnode_cleanup tln s =
    (do
      kassert (is_null (s.tln_next tln))
      kassert (is_null (s.tln_prev tln))
      kassert (not (is_null (s.tln_self tln))))
      s

unfoldable pub threadlist_insertafternode : ℕ → ℕ → K Nodes (Unit {0})
threadlist_insertafternode onlist addee = do
  set_prev addee (some onlist)
  n ← get_next onlist
  set_next addee n
  set_prev_next addee (some addee)
  set_next_prev addee (some addee)

unfoldable pub threadlist_insertbeforenode : ℕ → ℕ → K Nodes (Unit {0})
threadlist_insertbeforenode addee onlist = do
  p ← get_prev onlist
  set_prev addee p
  set_next addee (some onlist)
  set_prev_next addee (some addee)
  set_next_prev addee (some addee)

unfoldable pub threadlist_removenode : ℕ → K Nodes (Unit {0})
threadlist_removenode tln = do
  n ← get_next tln
  set_prev_next tln n
  p ← get_prev tln
  set_next_prev tln p
  set_prev tln none
  set_next tln none

abbrev pub count_up : K Nodes (Unit {0})
count_up s = ret tt (record s { tl_count = add32 s.tl_count 1 })

abbrev pub count_down : K Nodes (Unit {0})
count_down s = ret tt (record s { tl_count = sub32 s.tl_count 1 })

-- `head` and `tail` are the list's own nodes, tl_head and tl_tail.
module _ (head tail : ℕ) where
  unfoldable pub threadlist_init : K Nodes (Unit {0})
  threadlist_init = do
    set_next head (some tail)
    set_prev head none
    set_next tail none
    set_prev tail (some head)
    λ s.
        ret tt
          (record s { tln_self = assign (assign s.tln_self head none) tail none; tl_count = 0 })

  unfoldable pub threadlist_isempty : K Nodes Bool
  threadlist_isempty s = ret (s.tl_count == 0) s

  unfoldable pub threadlist_cleanup : K Nodes (Unit {0})
  threadlist_cleanup = do
    empty ← threadlist_isempty
    kassert empty
    λ s. kassert (s.tl_count == 0) s

  unfoldable pub threadlist_addhead : ℕ → K Nodes (Unit {0})
  threadlist_addhead t = do threadlist_insertafternode head t; count_up

  unfoldable pub threadlist_addtail : ℕ → K Nodes (Unit {0})
  threadlist_addtail t = do threadlist_insertbeforenode t tail; count_up

  -- what is left to do at `tln`, by the neighbour behind it
  abbrev pub take_out : ℕ → Option ℕ → K Nodes (Option ℕ)
  take_out tln none = pure none
  take_out tln (some n) = do threadlist_removenode tln; count_down; λ s. ret (s.tln_self tln) s

  unfoldable pub threadlist_remhead : K Nodes (Option ℕ)
  threadlist_remhead = do tln ← λ s. deref (s.tln_next head) s; n ← get_next tln; take_out tln n

  unfoldable pub threadlist_remtail : K Nodes (Option ℕ)
  threadlist_remtail = do tln ← λ s. deref (s.tln_prev tail) s; p ← get_prev tln; take_out tln p

  unfoldable pub threadlist_insertafter : ℕ → ℕ → K Nodes (Unit {0})
  threadlist_insertafter onlist addee = do threadlist_insertafternode onlist addee; count_up

  unfoldable pub threadlist_insertbefore : ℕ → ℕ → K Nodes (Unit {0})
  threadlist_insertbefore addee onlist = do threadlist_insertbeforenode addee onlist; count_up

  unfoldable pub threadlist_remove : ℕ → K Nodes (Unit {0})
  threadlist_remove t = do threadlist_removenode t; count_down
