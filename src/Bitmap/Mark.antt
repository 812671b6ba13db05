-- ===== src/Bitmap/Mark.antt =====
-- `bitmap_mark`, `bitmap_unmark` and `bitmap_isset` against the bits that are set.
use cs3891_asst.Base.{
  ℕ, ◌/◌, ◌%◌, ◌^◌, ◌≤◌, ◌<◌, ◌≡◌, refl, ◌∙◌, true, false, not, ◌&&◌, ◌||◌, some, arith, ret, panic,
  get_elem?, get_elem?-set, get_elem?-lt, length-set, ltb, ◌==◌, bit_and, Bool-cases, inl, inr, ◌⊎◌,
  ltb→lt,
}
use cs3891_asst.Bitmap.{Bitmap, bitmap_mark, bitmap_unmark, bitmap_isset}
use cs3891_asst.Bitmap.Bits.{has_bit, with_bit, without_bit, with_bit-lt, without_bit-lt}
use cs3891_asst.Bitmap.Spec.{bit, IsBitmap, with_word, word_at, bit-with, bit-without}

module _ {b : Bitmap} (m : IsBitmap b) where
  pub with_bit-IsBitmap :
      (i w : ℕ)
      → get_elem? b.v (i / 8) ≡ some w
      → IsBitmap (with_word b (i / 8) (with_bit w (i % 8)))
  with_bit-IsBitmap i w at =
      let lt = get_elem?-lt b.v (i / 8) w at in
      let same = length-set b.v (i / 8) (with_bit w (i % 8)) in
      record {
        small = m.small;
        size = same ∙ m.size;
        bytes = λ j x e. ground (
          arith,
          get_elem?-set b.v (i / 8) j (with_bit w (i % 8)) lt,
          with_bit-lt w (i % 8) (m.bytes (i / 8) w at) (omega arith),
          m.bytes j x,
        );
        spare = λ j le in_words. bit-with m i w j at ∙ ground (arith, m.spare j le, same);
      }

  pub without_bit-IsBitmap :
      (i w : ℕ)
      → i < b.nbits
      → get_elem? b.v (i / 8) ≡ some w
      → IsBitmap (with_word b (i / 8) (without_bit w (i % 8)))
  without_bit-IsBitmap i w inside at =
      let lt = get_elem?-lt b.v (i / 8) w at in
      let same = length-set b.v (i / 8) (without_bit w (i % 8)) in
      record {
        small = m.small;
        size = same ∙ m.size;
        bytes = λ j x e. ground (
          arith,
          get_elem?-set b.v (i / 8) j (without_bit w (i % 8)) lt,
          without_bit-lt w (i % 8) (m.bytes (i / 8) w at) (omega arith),
          m.bytes j x,
        );
        spare = λ j le in_words. bit-without m i w j at ∙ ground (arith, m.spare j le, same);
      }

-- `bitmap_mark` of a bit that is in range and clear returns, sets that bit and no other, and keeps
-- the bitmap well-formed.
pub bitmap_mark-bit :
    (b : Bitmap) (i : ℕ)
    → IsBitmap b
    → i < b.nbits
    → bit b i ≡ false
    → (c : Bitmap) × (bitmap_mark i b ≡ ret tt c)
      × IsBitmap c
      × (c.nbits ≡ b.nbits)
      × ((j : ℕ) → bit c j ≡ (j == i || bit b j))
unfolding bitmap_mark has_bit
bitmap_mark-bit b i m inside clear =
    let (w, at) = word_at m i inside in
    (
      with_word b (i / 8) (with_bit w (i % 8)),
      ground arith,
      with_bit-IsBitmap m i w at,
      refl,
      λ j. bit-with m i w j at,
    )

-- `bitmap_unmark` of a bit that is in range and set returns, clears that bit and no other, and keeps
-- the bitmap well-formed.
pub bitmap_unmark-bit :
    (b : Bitmap) (i : ℕ)
    → IsBitmap b
    → i < b.nbits
    → bit b i ≡ true
    → (c : Bitmap) × (bitmap_unmark i b ≡ ret tt c)
      × IsBitmap c
      × (c.nbits ≡ b.nbits)
      × ((j : ℕ) → bit c j ≡ (not (j == i) && bit b j))
unfolding bitmap_unmark has_bit
bitmap_unmark-bit b i m inside there =
    let (w, at) = word_at m i inside in
    (
      with_word b (i / 8) (without_bit w (i % 8)),
      ground arith,
      without_bit-IsBitmap m i w inside at,
      refl,
      λ j. bit-without m i w j at,
    )

-- `bitmap_mark` panics if the bit is out of range or set already.
pub mark_panics :
    (b : Bitmap) (i : ℕ) → IsBitmap b → (b.nbits ≤ i) ⊎ (bit b i ≡ true) → bitmap_mark i b ≡ panic
unfolding bitmap_mark has_bit
mark_panics b i m (inl beyond) = ground arith
mark_panics b i m (inr there) = elim (Bool-cases (ltb i b.nbits)) [
  | inl inside ↦ let (w, at) = word_at m i (ltb→lt i b.nbits inside) in ground arith
  | inr beyond ↦ ground arith
]

-- `bitmap_isset` of a bit in range changes nothing, and returns 0 exactly when the bit is clear.
pub bitmap_isset-bit :
    (b : Bitmap) (i : ℕ)
    → IsBitmap b
    → i < b.nbits
    → (w : ℕ) × (bitmap_isset i b ≡ ret w b) × (not (w == 0) ≡ bit b i)
unfolding bitmap_isset has_bit
bitmap_isset-bit b i m inside =
    let (w, at) = word_at m i inside in (bit_and w (2 ^ (i % 8) % 256), ground arith, ground arith)
