-- ===== src/FileTable/Refs.antt =====
-- The reference counts of the open file table, against the descriptors that refer to it.
use cs3891_asst.Base.{
  ℕ, zero, suc, ◌+◌, ◌^◌, ◌≤◌, ◌<◌, ◌≡◌, ◌≢◌, refl, Option, none, some, List, [], ◌∷◌, arith,
  length, get_elem?, set, get_elem?-lt, count, count-pos, count-le-length, ◌==◌, if◌then◌else◌,
}
use cs3891_asst.FileTable.{OpenFile, FdTable, Files, open_max, file_closed}

abbrev pub rc_of : Option OpenFile → ℕ
rc_of none = 0
rc_of (some f) = f.rc

-- the references that slot `i` counts
abbrev pub rc_at : List (Option OpenFile) → ℕ → ℕ
rc_at [] i = 0
rc_at (c ∷ cs) zero = rc_of c
rc_at (c ∷ cs) (suc i) = rc_at cs i

-- the references to slot `i` from the tables of other processes
abbrev pub refs : ℕ → List FdTable → ℕ
refs i [] = 0
refs i (t ∷ ts) = count i t + refs i ts

pub rc_at-get_elem? :
    (cs : List (Option OpenFile)) (i : ℕ) (c : Option OpenFile)
    → get_elem? cs i ≡ some c
    → rc_at cs i ≡ rc_of c
rc_at-get_elem? [] i c h = ground arith
rc_at-get_elem? (x ∷ cs) zero c h = ground arith
rc_at-get_elem? (x ∷ cs) (suc i) c h = rc_at-get_elem? cs i c h

pub rc_at-set :
    (cs : List (Option OpenFile)) (i j : ℕ) (c : Option OpenFile)
    → i < length cs
    → rc_at (set cs i c) j ≡ (if i == j then rc_of c else rc_at cs j)
rc_at-set [] i j c h = elim h [ ]
rc_at-set (x ∷ cs) zero zero c h = refl
rc_at-set (x ∷ cs) zero (suc j) c h = ground arith
rc_at-set (x ∷ cs) (suc i) zero c h = ground arith
rc_at-set (x ∷ cs) (suc i) (suc j) c h = ground (arith, rc_at-set cs i j c)

-- A slot that counts a reference holds a file.
pub rc_at-pos :
    (cs : List (Option OpenFile)) (i : ℕ)
    → 0 < rc_at cs i
    → (f : OpenFile) × (get_elem? cs i ≡ some (some f))
rc_at-pos [] i h = elim h [ ]
rc_at-pos (none ∷ cs) zero h = elim h [ ]
rc_at-pos (some f ∷ cs) zero h = (f, refl)
rc_at-pos (x ∷ cs) (suc i) h = rc_at-pos cs i h

-- Each file counts exactly the descriptors that refer to it, in the table of the calling process
-- and in `others`; so a descriptor that is not closed refers to a slot with a file.
pub record IsValid {W : Type 0} (others : List FdTable) (s : Files W) : Type 0 where
  pub fd_size : length s.fd_t ≡ open_max
  pub of_size : length s.openfiles ≡ open_max
  pub few : (i : ℕ) → refs i others ≤ 2 ^ 30
  pub counted : (i : ℕ) → i ≢ file_closed → rc_at s.openfiles i ≡ count i s.fd_t + refs i others
  pub live : (i : ℕ) (f : OpenFile) → get_elem? s.openfiles i ≡ some (some f) → 0 < f.rc

-- What a descriptor that is not closed refers to.
pub record Refers {W : Type 0} (others : List FdTable) (s : Files W) (e : ℕ) (f : OpenFile)
    : Type 0 where
  pub index : e < open_max
  pub at : get_elem? s.openfiles e ≡ some (some f)
  pub rc : f.rc ≡ count e s.fd_t + refs e others
  pub small : f.rc ≤ 2 ^ 30 + 32
  pub pos : 0 < f.rc

module _ {W : Type 0} {others : List FdTable} {s : Files W} (valid : IsValid others s) where
  pub refers :
      (fd e : ℕ)
      → get_elem? s.fd_t fd ≡ some e
      → e ≢ file_closed
      → (f : OpenFile) × Refers others s e f
  refers fd e at ne =
      let one = count-pos s.fd_t fd e at in
      let (f, slot) = rc_at-pos s.openfiles e (omega (arith, valid.counted e ne)) in
      let same : f.rc ≡ count e s.fd_t + refs e others =
        omega (arith, valid.counted e ne, rc_at-get_elem? s.openfiles e (some f) slot) in
      (
        f,
        record {
          index = omega (arith, get_elem?-lt s.openfiles e (some f) slot, valid.of_size);
          at = slot;
          rc = same;
          small = omega (arith, count-le-length e s.fd_t, valid.fd_size, valid.few e);
          pos = omega arith;
        },
      )
