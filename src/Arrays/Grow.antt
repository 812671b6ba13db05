-- ===== src/Arrays/Grow.antt =====
-- Growing an array, and adding to its end.
use native.Mathlib.Decide.{dec_lt}
use cs3891_asst.Base.{
  ℕ, zero, suc, ◌+◌, ◌-◌, ◌*◌, ◌/◌, ◌%◌, ◌^◌, ◌≤◌, ◌<◌, ◌≡◌, refl, ◌∙◌, true, false, Option, none,
  some, [], ◌∷◌, arith, ret, fail, get_elem?, set, length, length-replicate, length-set,
  get_elem?-set, get_elem?-some, ◌==◌, if◌then◌else◌, enomem,
}
use cs3891_asst.Arrays.{
  Cells, Array, grow, new_block, copy_cells, array_preallocate, array_setsize, array_add,
}

pub record IsArray (a : Array) : Type 0 where
  pub within : a.num ≤ a.max
  pub size : length a.v ≡ a.max
  pub small : a.max < 2 ^ 30

-- The loop ends with enough cells, whose size in bytes is below 2^32.
grow-some :
    (fuel num newmax : ℕ)
    → num ≤ 2 ^ 29
    → newmax < 2 ^ 30
    → num - newmax < fuel
    → (m : ℕ) × (grow fuel num newmax ≡ some m) × (num ≤ m) × (newmax ≤ m) × (m < 2 ^ 30)
unfolding grow
grow-some zero num newmax small max_small enough = absurd (omega arith)
grow-some (suc fuel) num newmax small max_small enough = elim (dec_lt newmax num) [
  | no done ↦ (newmax, ground arith, omega arith, omega arith, omega arith)
  | yes more ↦
      let next : ℕ = if newmax == 0 then 4 else (newmax * 2) % 2 ^ 32 in
      let bigger : (newmax < next) × (next < 2 ^ 30) = ground arith in
      let (m, e, above, from, below) = grow-some fuel num next small bigger.1 (omega arith) in
      (m, ground (arith, e), above, omega arith, below)
]

-- Both blocks have `n` cells, so the copy ends: the first `n` are the source's, the others as before.
copy_cells-some :
    (n : ℕ) (src dst : Cells)
    → n ≤ length src
    → n ≤ length dst
    → (cells : Cells) × (copy_cells n src dst ≡ some cells)
      × (length cells ≡ length dst)
      × ((j : ℕ) → j < n → get_elem? cells j ≡ get_elem? src j)
unfolding copy_cells
copy_cells-some zero src dst hs hd = (dst, refl, refl, λ j lt. absurd (omega arith))
copy_cells-some (suc n) [] dst hs hd = absurd (omega arith)
copy_cells-some (suc n) (x ∷ src) [] hs hd = absurd (omega arith)
copy_cells-some (suc n) (x ∷ src) (y ∷ dst) hs hd =
    let (rest, e, size, same) = copy_cells-some n src dst (omega arith) (omega arith) in
    (x ∷ rest, ground (arith, e), omega arith, first_cells rest same)
  where
    first_cells :
        (rest : Cells)
        → ((j : ℕ) → j < n → get_elem? rest j ≡ get_elem? src j)
        → (j : ℕ) → j < suc n
        → get_elem? (x ∷ rest) j ≡ get_elem? (x ∷ src) j
    first_cells rest same zero lt = refl
    first_cells rest same (suc j) lt = same j (omega arith)

module _ {a : Array} (wf : IsArray a) (n : ℕ) (small : n ≤ 2 ^ 29) where
  -- The array has room for `n` cells, and its elements are as before.
  pub record Grown (b : Array) : Type 0 where
    pub room : n ≤ b.max
    pub valid : IsArray b
    pub same_num : b.num ≡ a.num
    pub same : (j : ℕ) → j < a.num → get_elem? b.v j ≡ get_elem? a.v j

  new_block-length : (m : ℕ) → m < 2 ^ 30 → length (new_block m) ≡ m
  new_block-length m lt = length-replicate {A = Option ℕ} ((m * 4) % 2 ^ 32 / 4) none ∙ omega arith

  array_preallocate-Grown : (b : Array) × (array_preallocate true n a ≡ ret tt b) × Grown b
  unfolding array_preallocate
  array_preallocate-Grown = elim (dec_lt a.max n) [
    | no room ↦ (
      a,
      ground arith,
      record { room = omega arith; valid = wf; same_num = refl; same = λ j lt. refl },
    )
    | yes more ↦
        let (m, e, above, from, below) = grow-some (n + 1) n a.max small wf.small (omega arith) in
        let (cells, done, size, same) =
          copy_cells-some a.num a.v (new_block m) (omega (arith, wf.within, wf.size))
            (omega (arith, wf.within, new_block-length m below)) in
        (
          record a { v = cells; max = m },
          ground (arith, e, done),
          record {
            room = above;
            valid = record {
              within = omega (arith, wf.within);
              size = size ∙ new_block-length m below;
              small = below;
            };
            same_num = refl;
            same = same;
          },
        )
  ]

-- `array_setsize` of a well-formed array to at most 2^29 elements, when `kmalloc` succeeds, ends and
-- returns; the array is well-formed, has that many elements, and those that it had before and
-- still has are unchanged.
pub array_setsize-keeps :
    (a : Array) (n : ℕ)
    → IsArray a
    → n ≤ 2 ^ 29
    → (b : Array) × (array_setsize true n a ≡ ret tt b)
      × IsArray b
      × (b.num ≡ n)
      × ((j : ℕ) → j < a.num → get_elem? b.v j ≡ get_elem? a.v j)
unfolding array_setsize
array_setsize-keeps a n wf small =
    let (b, run, g) = array_preallocate-Grown wf n small in
    (
      record b { num = n },
      ground (arith, run),
      record { within = g.room; size = g.valid.size; small = g.valid.small },
      refl,
      g.same,
    )

-- `array_add` to a well-formed array of less than 2^29 elements, when `kmalloc` succeeds, returns the old
-- number of elements as the index; the array is well-formed and has one element more, the new one,
-- and the others are unchanged.
pub array_add-appends :
    (a : Array) (val : ℕ)
    → IsArray a
    → a.num < 2 ^ 29
    → (b : Array) × (array_add true val a ≡ ret a.num b)
      × IsArray b
      × (b.num ≡ a.num + 1)
      × (get_elem? b.v a.num ≡ some (some val))
      × ((j : ℕ) → j < a.num → get_elem? b.v j ≡ get_elem? a.v j)
unfolding array_add
array_add-appends a val wf small =
    let (b, run, valid, num, same) = array_setsize-keeps a (a.num + 1) wf (omega arith) in
    let inside : a.num < length b.v = omega (arith, valid.within, valid.size) in
    let (old, at) = get_elem?-some b.v a.num inside in
    (
      record b { v = set b.v a.num (some val) },
      ground (arith, run, at),
      record {
        within = valid.within;
        size = length-set b.v a.num (some val) ∙ valid.size;
        small = valid.small;
      },
      num,
      ground (arith, get_elem?-set b.v a.num a.num (some val) inside),
      λ j lt. ground (arith, get_elem?-set b.v a.num j (some val) inside, same j lt),
    )

-- When `kmalloc` fails, `array_setsize` beyond the array's room returns ENOMEM and changes nothing.
pub array_setsize-enomem :
    (a : Array) (n : ℕ)
    → IsArray a
    → n ≤ 2 ^ 29
    → a.max < n
    → array_setsize false n a ≡ fail enomem a
unfolding array_setsize array_preallocate
array_setsize-enomem a n wf small more =
    let (m, e, above, from, below) = grow-some (n + 1) n a.max small wf.small (omega arith) in
    ground (arith, e)
