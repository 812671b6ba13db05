-- ===== src/Arrays.antt =====
-- kern/lib/array.c and kern/include/array.h: resizable arrays of pointers. A cell that has not been
-- written holds nothing.
pub mod Grow
pub mod Remove
use cs3891_asst.Base.{
  ℕ, zero, suc, ◌+◌, ◌-◌, ◌*◌, ◌/◌, ◌%◌, ◌^◌, Bool, true, false, Option, none, some, List, [], ◌∷◌,
  Run, ret, fail, panic, fault, K, pure, throw, ◌>>=◌, ◌>>◌, and_then, kassert, deref, get_elem?,
  set, replicate, ltb, leb, ◌==◌, if◌then◌else◌, add32, sub32, enomem,
}

abbrev pub Cells : Type 0
Cells = List (Option ℕ)

pub record Array : Type 0 where
  pub num : ℕ
  pub max : ℕ
  pub v : Cells

abbrev pub array_init : Array
array_init = record { num = 0; max = 0; v = [] }

-- The loop that doubles `newmax`, on fuel; nothing if there is not enough.
unfoldable pub grow : ℕ → ℕ → ℕ → Option ℕ
grow zero num newmax = none
grow (suc fuel) num newmax = elim (ltb newmax num) [
  | true ↦ grow fuel num (if newmax == 0 then 4 else (newmax * 2) % 2 ^ 32)
  | false ↦ some newmax
]

-- the block that `kmalloc` gives for `newmax` pointers of four bytes
abbrev pub new_block : ℕ → Cells
new_block newmax = replicate ((newmax * 4) % 2 ^ 32 / 4) none

-- `memcpy` of the first `n` cells; nothing if one of the blocks is shorter.
unfoldable pub copy_cells : ℕ → Cells → Cells → Option Cells
copy_cells zero src dst = some dst
copy_cells (suc n) [] dst = none
copy_cells (suc n) (x ∷ src) [] = none
copy_cells (suc n) (x ∷ src) (y ∷ dst) = elim (copy_cells n src dst) [
  | none ↦ none
  | some rest ↦ some (x ∷ rest)
]

-- `alloc` says whether `kmalloc` succeeds. A loop that runs out of fuel faults.
unfoldable pub array_preallocate : Bool → ℕ → K Array (Unit {0})
array_preallocate alloc num a = elim (ltb a.max num) [
  | false ↦ ret tt a
  | true ↦ elim (grow (num + 1) num a.max) [
    | none ↦ fault
    | some newmax ↦ elim alloc [
      | false ↦ fail enomem a
      | true ↦ elim (copy_cells a.num a.v (new_block newmax)) [
        | none ↦ fault
        | some cells ↦ ret tt (record a { v = cells; max = newmax })
      ]
    ]
  ]
]

unfoldable pub array_setsize : Bool → ℕ → K Array (Unit {0})
array_setsize alloc num a =
    and_then (array_preallocate alloc num a) (λ _ b. ret tt (record b { num = num }))

abbrev pub put : ℕ → ℕ → K Array (Unit {0})
put index val a = elim (get_elem? a.v index) [
  | none ↦ fault
  | some _ ↦ ret tt (record a { v = set a.v index (some val) })
]

-- The result is the index.
unfoldable pub array_add : Bool → ℕ → K Array ℕ
array_add alloc val a =
    and_then (array_setsize alloc (add32 a.num 1) a)
      (λ _ b. and_then (put a.num val b) (λ _. pure a.num))

-- with the checks of ARRAYS_CHECKED
unfoldable pub array_get : ℕ → K Array (Option ℕ)
array_get index a = and_then (kassert (ltb index a.num) a) (λ _ b. deref (get_elem? b.v index) b)

unfoldable pub array_set : ℕ → ℕ → K Array (Unit {0})
array_set index val a = and_then (kassert (ltb index a.num) a) (λ _. put index val)

-- `memmove` of `n` cells to `i` from `i + 1`, which goes forward
unfoldable pub move_down : ℕ → ℕ → Cells → Option Cells
move_down zero i v = some v
move_down (suc n) i v = elim (get_elem? v (i + 1)) [
  | none ↦ none
  | some x ↦ move_down n (i + 1) (set v i x)
]

unfoldable pub array_remove : ℕ → K Array (Unit {0})
array_remove index a = and_then (kassert (leb a.num a.max) a) (λ _ b.
    and_then (kassert (ltb index b.num) b) (λ _ c.
      elim (move_down (c.num - (index + 1)) index c.v) [
        | none ↦ fault
        | some cells ↦ ret tt (record c { v = cells; num = sub32 c.num 1 })
      ]))
