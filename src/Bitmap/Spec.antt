-- ===== src/Bitmap/Spec.antt =====
-- A bitmap as the function that says which bits are set.
use cs3891_asst.Base.{
  ℕ, ◌-◌, ◌*◌, ◌/◌, ◌%◌, ◌^◌, ◌≤◌, ◌<◌, ◌≡◌, Bool, true, false, not, ◌&&◌, ◌||◌, Option, none, some,
  arith, get_elem?, get_elem?-some, get_elem?-set, get_elem?-lt, set, length, ◌==◌,
}
use cs3891_asst.Bitmap.{Bitmap, words_for}
use cs3891_asst.Bitmap.Bits.{has_bit, with_bit, without_bit, has_bit-with, has_bit-without}

abbrev pub bit_of : Option ℕ → ℕ → Bool
bit_of none k = false
bit_of (some w) k = has_bit w k

-- bit `i`; false beyond the last word
abbrev pub bit : Bitmap → ℕ → Bool
bit b i = bit_of (get_elem? b.v (i / 8)) (i % 8)

-- The words of the bitmap are bytes, as many as needed, and the bits behind the last one are set.
pub record IsBitmap (b : Bitmap) : Type 0 where
  pub small : b.nbits < 2 ^ 32 - 7
  pub size : length b.v ≡ words_for b.nbits
  pub bytes : (i w : ℕ) → get_elem? b.v i ≡ some w → w < 256
  pub spare : (i : ℕ) → b.nbits ≤ i → i < 8 * length b.v → bit b i ≡ true

abbrev pub with_word : Bitmap → ℕ → ℕ → Bitmap
with_word b ix w = record b { v = set b.v ix w }

module _ {b : Bitmap} (m : IsBitmap b) where
  pub word_at : (i : ℕ) → i < b.nbits → (w : ℕ) × (get_elem? b.v (i / 8) ≡ some w)
  word_at i lt = get_elem?-some b.v (i / 8) (omega (arith, m.size, m.small))

  -- Setting a bit of a word sets that bit of the bitmap, and no other.
  pub bit-with :
      (i w j : ℕ)
      → get_elem? b.v (i / 8) ≡ some w
      → bit (with_word b (i / 8) (with_bit w (i % 8))) j ≡ (j == i || bit b j)
  bit-with i w j at =
      let lt = get_elem?-lt b.v (i / 8) w at in
      ground (
        arith,
        get_elem?-set b.v (i / 8) (j / 8) (with_bit w (i % 8)) lt,
        has_bit-with w (i % 8) (j % 8) (m.bytes (i / 8) w at) (omega arith) (omega arith),
        at,
      )

  pub bit-without :
      (i w j : ℕ)
      → get_elem? b.v (i / 8) ≡ some w
      → bit (with_word b (i / 8) (without_bit w (i % 8))) j ≡ (not (j == i) && bit b j)
  bit-without i w j at =
      let lt = get_elem?-lt b.v (i / 8) w at in
      ground (
        arith,
        get_elem?-set b.v (i / 8) (j / 8) (without_bit w (i % 8)) lt,
        has_bit-without w (i % 8) (j % 8) (m.bytes (i / 8) w at) (omega arith) (omega arith),
        at,
      )
