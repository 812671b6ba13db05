-- ===== src/Examples/Growing.antt =====
-- An array with three elements and room for four.
use cs3891_asst.Base.{ℕ, ◌+◌, ◌≤◌, ◌<◌, ◌≡◌, refl, true, some, none, [], ◌∷◌, arith, get_elem?, ret}
use cs3891_asst.Arrays.{Array, array_add, array_remove}
use cs3891_asst.Arrays.Grow.{IsArray, array_add-appends}
use cs3891_asst.Arrays.Remove.{array_remove-shifts}

abbrev three : Array
three = record { num = 3; max = 4; v = some 10 ∷ (some 20 ∷ (some 30 ∷ (none ∷ []))) }

three-IsArray : IsArray three
three-IsArray = record { within = omega arith; size = refl; small = omega arith }

array_add-appends_example :
    (b : Array) × (array_add true 40 three ≡ ret 3 b)
    × IsArray b
    × (b.num ≡ 3 + 1)
    × (get_elem? b.v 3 ≡ some (some 40))
    × ((j : ℕ) → j < 3 → get_elem? b.v j ≡ get_elem? three.v j)
array_add-appends_example = array_add-appends three 40 three-IsArray (omega arith)

array_remove-shifts_example :
    (b : Array) × (array_remove 1 three ≡ ret tt b)
    × IsArray b
    × (b.num + 1 ≡ 3)
    × ((j : ℕ) → j < 1 → get_elem? b.v j ≡ get_elem? three.v j)
    × ((j : ℕ) → 1 ≤ j → j < b.num → get_elem? b.v j ≡ get_elem? three.v (j + 1))
array_remove-shifts_example = array_remove-shifts three 1 three-IsArray (omega arith)
