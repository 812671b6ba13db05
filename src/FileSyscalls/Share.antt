-- ===== src/FileSyscalls/Share.antt =====
-- `sys_fork`, the loop over the copied descriptor table: the child's references are counted.
use mathlib.Core.Path.{subst}
use native.Mathlib.Decide.{ℕ_discrete}
use cs3891_asst.Base.{
  ℕ, zero, suc, ◌+◌, ◌^◌, ◌<◌, ◌≡◌, refl, sym, ap, ◌∙◌, false, some, List, [], ◌∷◌, arith, length,
  get_elem?, get_elem?-some, drop, drop-cons, drop-nil, ret, count, count-le-length,
}
use cs3891_asst.FileTable.{FdTable, Files, open_max, file_closed}
use cs3891_asst.FileTable.Refs.{IsValid, refers, refs}
use cs3891_asst.FileSyscalls.{share_entry, share_from}
use cs3891_asst.FileSyscalls.Dup.{referred_state, referred-IsValid}

-- Only the number of references from the other tables matters.
IsValid-congr :
    {W : Type 0} {ts us : List FdTable} {s : Files W}
    → ((i : ℕ) → refs i ts ≡ refs i us)
    → IsValid ts s
    → IsValid us s
IsValid-congr same valid = record {
  fd_size = valid.fd_size;
  of_size = valid.of_size;
  few = λ i. omega (arith, same i, valid.few i);
  counted = λ i used. omega (arith, same i, valid.counted i used);
  live = valid.live;
}

-- A closed entry counts for nothing.
IsValid-closed :
    {W : Type 0} {acc : FdTable} {others : List FdTable} {s : Files W}
    → refs file_closed (acc ∷ others) < 2 ^ 30
    → IsValid (acc ∷ others) s
    → IsValid ((file_closed ∷ acc) ∷ others) s
IsValid-closed room valid = record {
  fd_size = valid.fd_size;
  of_size = valid.of_size;
  few = λ i. ground (arith, valid.few i);
  counted = λ i used. ground (arith, valid.counted i used);
  live = valid.live;
}

module _ {W : Type 0} (others : List FdTable) (fd_t : FdTable) where
  -- Where the loop stands: `acc` are the entries seen.
  record Sharing (i : ℕ) (acc : FdTable) (s : Files W) : Type 0 where
    valid : IsValid (acc ∷ others) s
    free : s.held ≡ false
    same : s.fd_t ≡ fd_t
    split : (j : ℕ) → count j acc + count j (drop i fd_t) ≡ count j fd_t

  module _ (full : length fd_t ≡ open_max) (room : (j : ℕ) → refs j others + 64 < 2 ^ 30) where
    acc_room :
        {i : ℕ} {acc : FdTable} {s : Files W}
        → Sharing i acc s
        → (j : ℕ) → refs j (acc ∷ others) < 2 ^ 30
    acc_room sh j = omega (arith, sh.split j, count-le-length j fd_t, room j)

    split_next :
        {i : ℕ} {acc : FdTable} {s : Files W} (e j : ℕ)
        → Sharing i acc s
        → get_elem? fd_t i ≡ some e
        → count j (e ∷ acc) + count j (drop (i + 1) fd_t) ≡ count j fd_t
    split_next {i} e j sh at = omega (arith, sh.split j, ap (count j) (drop-cons fd_t i e at))

    -- One round.
    share_entry-Sharing :
        (i e : ℕ) (acc : FdTable) (s : Files W)
        → Sharing i acc s
        → get_elem? fd_t i ≡ some e
        → (t : Files W) × (share_entry e s ≡ ret tt t) × Sharing (i + 1) (e ∷ acc) t
    unfolding share_entry
    share_entry-Sharing i e acc s sh at = elim (ℕ_discrete e file_closed) [
      | yes closed ↦ (
        s,
        ground arith,
        record {
          valid =
              subst (λ c. IsValid ((c ∷ acc) ∷ others) s) (sym closed)
                (IsValid-closed (acc_room sh file_closed) sh.valid);
          free = sh.free;
          same = sh.same;
          split = λ j. split_next e j sh at;
        },
      )
      | no ne ↦
          let (f, r) = refers sh.valid i e (ap (λ t. get_elem? t i) sh.same ∙ at) ne in
          let free_s = sh.free in
          (
            referred_state s e f,
            ground (arith, r.at, r.small),
            record {
              valid =
                  IsValid-congr (λ k. omega arith)
                    (referred-IsValid e f sh.valid r (acc_room sh e));
              free = sh.free;
              same = sh.same;
              split = λ j. split_next e j sh at;
            },
          )
    ]

    share_from-Sharing :
        (n i : ℕ) (acc : FdTable) (s : Files W)
        → i + n ≡ open_max
        → Sharing i acc s
        → (t : Files W) × (acc' : FdTable) × (share_from fd_t n i s ≡ ret tt t)
          × Sharing open_max acc' t
    unfolding share_from
    share_from-Sharing zero i acc s e sh =
        (s, acc, refl, subst (λ k. Sharing k acc s) (omega arith) sh)
    share_from-Sharing (suc n) i acc s e sh =
        let (ofd, at) = get_elem?-some fd_t i (omega arith) in
        let (t, run, sh_t) = share_entry-Sharing i ofd acc s sh at in
        let (u, acc', rest, sh_u) = share_from-Sharing n (i + 1) (ofd ∷ acc) t (omega arith) sh_t in
        (u, acc', rw (at, share_from) (rw (run, share_from) rest), sh_u)

-- From a valid table whose lock is free, the loop of `sys_fork` over a copy of the caller's
-- descriptor table ends normally, gives back the lock, and leaves the caller's descriptors as they are;
-- the table is valid with the child's copy among the tables of the other processes.
-- (Fewer than 2^30 - 64 references to each file are held by other processes.)
pub share_from-copy :
    {W : Type 0} (others : List FdTable) (s : Files W)
    → IsValid others s
    → s.held ≡ false
    → ((j : ℕ) → refs j others + 64 < 2 ^ 30)
    → (t : Files W) × (share_from s.fd_t open_max 0 s ≡ ret tt t)
      × IsValid (s.fd_t ∷ others) t
      × (t.held ≡ false)
      × (t.fd_t ≡ s.fd_t)
share_from-copy {W} others s valid free room =
    let none_seen : IsValid ([] ∷ others) s = IsValid-congr (λ i. omega arith) valid in
    let start : Sharing others s.fd_t 0 [] s = record {
      valid = none_seen;
      free = free;
      same = refl;
      split = λ j. omega arith;
    } in
    let (t, acc, run, sh) =
      share_from-Sharing others s.fd_t valid.fd_size room open_max 0 [] s (omega arith) start in
    let counts : (j : ℕ) → count j acc ≡ count j s.fd_t = λ j.
      omega (
        arith,
        sh.split j,
        ap (count j) (drop-nil s.fd_t open_max (omega (arith, valid.fd_size))),
      ) in
    (t, run, IsValid-congr (λ j. omega (arith, counts j)) sh.valid, sh.free, sh.same)
