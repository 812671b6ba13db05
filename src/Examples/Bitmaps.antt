-- ===== src/Examples/Bitmaps.antt =====
-- The bitmap of eleven bits, with some of them set.
use cs3891_asst.Base.{
  ℕ, zero, suc, ap, ◌∙◌, ◌+◌, ◌-◌, ◌≤◌, ◌<◌, ◌≡◌, refl, true, ◌||◌, some, [], ◌∷◌, arith, Run, List,
  ret, ◌==◌, get_elem?,
}
use cs3891_asst.Bitmap.{Bitmap, bitmap_create, bitmap_alloc, alloc_from, alloc_in}
use cs3891_asst.Bitmap.Bits.{has_bit}
use cs3891_asst.Bitmap.Spec.{bit, IsBitmap}
use cs3891_asst.Bitmap.Refines.{
  Command, alloc, unmark, call, calls, meaning, IndexSet, Represents, Agree, calls-Agree,
}
use cs3891_asst.Bitmap.Create.{Created, bitmap_create-Created}

-- as `bitmap_create` makes it, bits 0 and 2 marked
abbrev eleven : Bitmap
eleven = record { nbits = 11; v = 5 ∷ (0xf8 ∷ []) }

spare_bits : (k : ℕ) → k < 5 → bit eleven (11 + k) ≡ true
unfolding has_bit
spare_bits zero lt = refl
spare_bits (suc zero) lt = refl
spare_bits (suc (suc zero)) lt = refl
spare_bits (suc (suc (suc zero))) lt = refl
spare_bits (suc (suc (suc (suc zero)))) lt = refl
spare_bits (suc (suc (suc (suc (suc k))))) lt = absurd (omega arith)

eleven-spare : (i : ℕ) → 11 ≤ i → i < 16 → bit eleven i ≡ true
eleven-spare i le lt =
    let same : i ≡ 11 + (i - 11) = omega arith in
    ap (bit eleven) same ∙ spare_bits (i - 11) (omega arith)

eleven-bytes : (i w : ℕ) → get_elem? eleven.v i ≡ some w → w < 256
eleven-bytes zero w at = ground arith
eleven-bytes (suc zero) w at = ground arith
eleven-bytes (suc (suc i)) w at = ground arith

eleven-IsBitmap : IsBitmap eleven
eleven-IsBitmap = record {
  small = omega arith;
  size = refl;
  bytes = eleven-bytes;
  spare = eleven-spare;
}

first_free : bitmap_alloc eleven ≡ ret 1 (record { nbits = 11; v = 7 ∷ (0xf8 ∷ []) })
unfolding bitmap_alloc alloc_from alloc_in
first_free = refl

abbrev zero_and_two : IndexSet
zero_and_two = record { bound = 11; member = λ i. i == 0 || i == 2 }

eleven-bits : (i : ℕ) → i < 11 → bit eleven i ≡ (i == 0 || i == 2)
unfolding has_bit
eleven-bits zero lt = refl
eleven-bits (suc zero) lt = refl
eleven-bits (suc (suc zero)) lt = refl
eleven-bits (suc (suc (suc zero))) lt = refl
eleven-bits (suc (suc (suc (suc zero)))) lt = refl
eleven-bits (suc (suc (suc (suc (suc zero))))) lt = refl
eleven-bits (suc (suc (suc (suc (suc (suc zero)))))) lt = refl
eleven-bits (suc (suc (suc (suc (suc (suc (suc zero))))))) lt = refl
eleven-bits (suc (suc (suc (suc (suc (suc (suc (suc zero)))))))) lt = refl
eleven-bits (suc (suc (suc (suc (suc (suc (suc (suc (suc zero))))))))) lt = refl
eleven-bits (suc (suc (suc (suc (suc (suc (suc (suc (suc (suc zero)))))))))) lt = refl
eleven-bits (suc (suc (suc (suc (suc (suc (suc (suc (suc (suc (suc k))))))))))) lt =
    absurd (omega arith)

eleven-Represents : Represents eleven zero_and_two
eleven-Represents = record { bitmap = eleven-IsBitmap; size = refl; bits = eleven-bits }

-- Index 1 is allocated, and then 3, and 0 is given back and allocated again.
abbrev some_calls : List Command
some_calls = alloc ∷ (alloc ∷ (unmark 0 ∷ (alloc ∷ [])))

abbrev results : Run IndexSet (List ℕ) → List ℕ
results (ret ns s) = ns
results _ = []

their_results : results (calls meaning some_calls zero_and_two) ≡ (1 ∷ (3 ∷ (0 ∷ (0 ∷ []))))
their_results = refl

calls-Agree_example : Agree (calls call some_calls eleven) (calls meaning some_calls zero_and_two)
calls-Agree_example = calls-Agree some_calls eleven zero_and_two eleven-Represents

bitmap_create-Created_example : Created true true 11 (bitmap_create true true 11)
bitmap_create-Created_example = bitmap_create-Created true true 11 (omega arith)
