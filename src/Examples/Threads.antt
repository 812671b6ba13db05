-- ===== src/Examples/Threads.antt =====
-- A thread list between nodes 100 and 101, of threads that are their own nodes.
use cs3891_asst.Base.{
  ℕ, ◌≡◌, refl, arith, Option, none, some, List, [], ◌∷◌, Run, ret, K, pure, ◌>>=◌, ◌>>◌,
}
use cs3891_asst.Threadlist.{
  Nodes, threadlist_insertafternode, threadlist_insertbeforenode, threadlist_removenode,
  threadlist_init, threadlist_addhead, threadlist_addtail, threadlist_remhead, threadlist_remtail,
}
use cs3891_asst.Threadlist.Commands.{
  addhead, call, row_after, Done, empty_row, initial, init-Represents,
}
use cs3891_asst.Threadlist.Refines.{call-Represents}

abbrev loose : Nodes
loose = record { tln_prev = λ x. none; tln_next = λ x. none; tln_self = λ x. some x; tl_count = 0 }

abbrev nobody : Nodes
nobody = initial 100 101 loose

call-Represents_example :
    Done 100 101
      (row_after (empty_row 100 101) (addhead 7))
      (call 100 101 (empty_row 100 101) (addhead 7) nobody)
      none
call-Represents_example =
    call-Represents (addhead 7) (init-Represents 100 101 loose (omega arith)).1
      (record { absent = λ i le. ground arith; itself = refl; room = omega arith })

abbrev some_calls : K Nodes (List (Option ℕ))
some_calls = do
  threadlist_init 100 101
  threadlist_addhead 100 101 7
  threadlist_addtail 100 101 8
  threadlist_addhead 100 101 6
  x ← threadlist_remtail 100 101
  y ← threadlist_remhead 100 101
  z ← threadlist_remhead 100 101
  none_left ← threadlist_remhead 100 101
  pure (x ∷ (y ∷ (z ∷ (none_left ∷ []))))

abbrev value_of : {A : Type 0} → Run Nodes A → Option A
value_of (ret a t) = some a
value_of _ = none

their_results : value_of (some_calls loose) ≡ some (some 8 ∷ (some 6 ∷ (some 7 ∷ (none ∷ []))))
unfolding threadlist_init threadlist_addhead threadlist_addtail threadlist_remhead
    threadlist_remtail threadlist_insertafternode threadlist_insertbeforenode threadlist_removenode
their_results = refl
