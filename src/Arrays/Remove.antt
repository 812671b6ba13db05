-- ===== src/Arrays/Remove.antt =====
-- Taking an element out of an array.
use native.Mathlib.Decide.{ℕ_discrete}
use cs3891_asst.Base.{
  ℕ, zero, suc, ◌+◌, ◌-◌, ◌≤◌, ◌<◌, ◌≡◌, refl, ap, ◌∙◌, some, arith, ret, get_elem?, set, length,
  length-set, get_elem?-set, get_elem?-some, sub32,
}
use cs3891_asst.Arrays.{Cells, Array, move_down, array_remove}
use cs3891_asst.Arrays.Grow.{IsArray}

-- The cells from `i` up to `i + n` hold what stood one further, the others what they held.
record MovedDown (n i : ℕ) (v cells : Cells) : Type 0 where
  size : length cells ≡ length v
  before : (j : ℕ) → j < i → get_elem? cells j ≡ get_elem? v j
  shifted : (j : ℕ) → i ≤ j → j < i + n → get_elem? cells j ≡ get_elem? v (j + 1)

move_down-MovedDown :
    (n i : ℕ) (v : Cells)
    → i + n < length v
    → (cells : Cells) × (move_down n i v ≡ some cells) × MovedDown n i v cells
unfolding move_down
move_down-MovedDown zero i v lt = (
  v,
  refl,
  record { size = refl; before = λ j h. refl; shifted = λ j h h'. absurd (omega arith) },
)
move_down-MovedDown (suc n) i v lt =
    let (x, at) = get_elem?-some v (i + 1) (omega arith) in
    let inside : i < length v = omega arith in
    let (cells, run, m) =
      move_down-MovedDown n (i + 1) (set v i x) (omega (arith, length-set v i x)) in
    (
      cells,
      ground (arith, run, at),
      record {
        size = m.size ∙ length-set v i x;
        before = λ j h. ground (arith, m.before j (omega arith), get_elem?-set v i j x inside);
        shifted = λ j h h'. elim (ℕ_discrete j i) [
          | yes same ↦ ground (
            arith,
            m.before j (omega arith),
            get_elem?-set v i j x inside,
            ap (λ k. get_elem? v (k + 1)) same,
          )
          | no ne ↦
              ground
                (arith, m.shifted j (omega arith) (omega arith), get_elem?-set v i (j + 1) x inside)
        ];
      },
    )

-- `array_remove` of an element of a well-formed array returns: the elements before it stay, those
-- behind it move down by one, and the array is well-formed with one element less.
pub array_remove-shifts :
    (a : Array) (index : ℕ)
    → IsArray a
    → index < a.num
    → (b : Array) × (array_remove index a ≡ ret tt b)
      × IsArray b
      × (b.num + 1 ≡ a.num)
      × ((j : ℕ) → j < index → get_elem? b.v j ≡ get_elem? a.v j)
      × ((j : ℕ) → index ≤ j → j < b.num → get_elem? b.v j ≡ get_elem? a.v (j + 1))
unfolding array_remove
array_remove-shifts a index wf lt =
    let (cells, run, m) =
      move_down-MovedDown (a.num - (index + 1)) index a.v (omega (arith, wf.within, wf.size)) in
    (
      record a { v = cells; num = sub32 a.num 1 },
      ground (arith, run, wf.within),
      record {
        within = omega (arith, wf.within, wf.small);
        size = m.size ∙ wf.size;
        small = wf.small;
      },
      omega (arith, wf.within, wf.small),
      m.before,
      λ j le below. m.shifted j le (omega (arith, wf.within, wf.small)),
    )
