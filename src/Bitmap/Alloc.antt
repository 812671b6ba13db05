-- ===== src/Bitmap/Alloc.antt =====
-- `bitmap_alloc` finds the first clear bit, and `bitmap_create` makes a bitmap of clear bits.
use mathlib.Core.Path.{subst, ap₂}
use native.Mathlib.Decide.{ℕ_discrete, dec_lt}
use cs3891_asst.Base.{
  ℕ, zero, suc, ◌+◌, ◌-◌, ◌*◌, ◌/◌, ◌%◌, ◌^◌, ◌<◌, ◌≡◌, ◌≢◌, refl, sym, ap, ◌∙◌, true, false, ◌||◌,
  some, arith, Run, ret, fail, get_elem?, get_elem?-some, get_elem?-lt, ◌==◌, bit_and, enospc,
  Bool-cases, inl, inr,
}
use cs3891_asst.Bitmap.{Bitmap, words_for, alloc_in, alloc_from, bitmap_alloc}
use cs3891_asst.Bitmap.Bits.{has_bit, with_bit, full_of_bits, full_bit}
use cs3891_asst.Bitmap.Spec.{bit, IsBitmap, with_word, bit-with}
use cs3891_asst.Bitmap.Mark.{with_bit-IsBitmap}

abbrev pub SetBelow : Bitmap → ℕ → Type 0
SetBelow b i = (j : ℕ) → j < i → bit b j ≡ true

-- The outcomes of `bitmap_alloc`.
pub data Allocated (b : Bitmap) : Run Bitmap ℕ → Type 0 where
  allocated :
      {i : ℕ} {c : Bitmap}
      → i < b.nbits
      → bit b i ≡ false
      → SetBelow b i
      → IsBitmap c
      → c.nbits ≡ b.nbits
      → ((j : ℕ) → bit c j ≡ (j == i || bit b j))
      → Allocated b (ret i c)
  no_space : SetBelow b b.nbits → Allocated b (fail enospc b)

module _ {b : Bitmap} (m : IsBitmap b) where
  bit-word : (ix w k : ℕ) → get_elem? b.v ix ≡ some w → k < 8 → bit b (ix * 8 + k) ≡ has_bit w k
  bit-word ix w k at lt =
      let q : (ix * 8 + k) / 8 ≡ ix = omega arith in
      let r : (ix * 8 + k) % 8 ≡ k = omega arith in ground (arith, at, q, r)

  -- a clear bit of word `ix` is a bit of the bitmap
  clear_inside :
      (ix w k : ℕ) → get_elem? b.v ix ≡ some w → k < 8 → has_bit w k ≡ false → ix * 8 + k < b.nbits
  clear_inside ix w k at lt clear = elim (dec_lt (ix * 8 + k) b.nbits) [
    | yes inside ↦ inside
    | no beyond ↦
        let there = m.spare (ix * 8 + k) (omega arith) (omega (arith, get_elem?-lt b.v ix w at)) in
        ground (arith, bit-word ix w k at lt)
  ]

  found_bit :
      (ix w k : ℕ)
      → get_elem? b.v ix ≡ some w
      → k < 8
      → has_bit w k ≡ false
      → SetBelow b (ix * 8 + k)
      → Allocated b (ret (ix * 8 + k) (with_word b ix (with_bit w k)))
  found_bit ix w k at lt clear below =
      let q : (ix * 8 + k) / 8 ≡ ix = omega arith in
      let r : (ix * 8 + k) % 8 ≡ k = omega arith in
      let at' : get_elem? b.v ((ix * 8 + k) / 8) ≡ some w = ap (get_elem? b.v) q ∙ at in
      let same : with_word b ((ix * 8 + k) / 8) (with_bit w ((ix * 8 + k) % 8))
          ≡ with_word b ix (with_bit w k) =
        ap₂ (λ x y. with_word b x (with_bit w y)) q r in
      subst (λ c. Allocated b (ret (ix * 8 + k) c)) same
        (allocated (clear_inside ix w k at lt clear) (bit-word ix w k at lt ∙ clear) below
          (with_bit-IsBitmap m (ix * 8 + k) w at') refl (λ j. bit-with m (ix * 8 + k) w j at'))

  set_further :
      (ix w k : ℕ)
      → get_elem? b.v ix ≡ some w
      → k < 8
      → has_bit w k ≡ true
      → SetBelow b (ix * 8 + k)
      → SetBelow b (ix * 8 + (k + 1))
  set_further ix w k at lt there below j less = elim (ℕ_discrete j (ix * 8 + k)) [
    | yes same ↦ subst (λ i. bit b i ≡ true) (sym same) (bit-word ix w k at lt ∙ there)
    | no other ↦ below j (omega arith)
  ]

  -- in word `ix`, with the bits below `offset` set
  alloc_in-Allocated :
      (n offset ix w : ℕ)
      → offset + n ≡ 8
      → get_elem? b.v ix ≡ some w
      → w ≢ 255
      → SetBelow b (ix * 8 + offset)
      → Allocated b (alloc_in n ix w offset b)
  unfolding alloc_in has_bit
  alloc_in-Allocated zero offset ix w e at ne below =
      let bits : (k : ℕ) → k < 8 → has_bit w k ≡ true =
        λ k lt. sym (bit-word ix w k at lt) ∙ below (ix * 8 + k) (omega arith) in
      absurd (ne (full_of_bits w (m.bytes ix w at) bits))
  alloc_in-Allocated (suc n) offset ix w e at ne below =
      elim (Bool-cases (bit_and w (2 ^ offset % 256) == 0)) [
        | inl clear ↦
            let inside = clear_inside ix w offset at (omega arith) (ground arith) in
            subst (Allocated b) (ground arith)
              (found_bit ix w offset at (omega arith) (ground arith) below)
        | inr there ↦
            rw (there, alloc_in)
              (alloc_in-Allocated n (offset + 1) ix w (omega arith) at ne
                (set_further ix w offset at (omega arith) (ground arith) below))
      ]

  full_word :
      (ix : ℕ) → get_elem? b.v ix ≡ some 255 → SetBelow b (ix * 8) → SetBelow b ((ix + 1) * 8)
  full_word ix at below j less = elim (dec_lt j (ix * 8)) [
    | yes before ↦ below j before
    | no inside ↦
        let split : ix * 8 + (j - ix * 8) ≡ j = omega arith in
        subst (λ i. bit b i ≡ true) split
          (bit-word ix 255 (j - ix * 8) at (omega arith) ∙ full_bit (j - ix * 8) (omega arith))
  ]

  alloc_from-Allocated :
      (n ix : ℕ)
      → ix + n ≡ words_for b.nbits
      → SetBelow b (ix * 8)
      → Allocated b (alloc_from n ix b)
  unfolding alloc_from
  alloc_from-Allocated zero ix e below = no_space (λ j lt. below j (omega (arith, m.small)))
  alloc_from-Allocated (suc n) ix e below =
      let (w, at) = get_elem?-some b.v ix (omega (arith, m.size)) in
      elim (ℕ_discrete w 255) [
        | yes same ↦
            let at255 = at ∙ ap some same in
            rw (at255, alloc_from)
              (alloc_from-Allocated n (ix + 1) (omega arith) (full_word ix at255 below))
        | no ne ↦
            subst (Allocated b) (ground arith)
              (alloc_in-Allocated 8 0 ix w (omega arith) at ne (λ j lt. below j (omega arith)))
      ]

-- On a well-formed bitmap, `bitmap_alloc` returns the first clear bit, which is in range, sets it and no
-- other bit, and keeps the bitmap well-formed; or it returns ENOSPC and changes nothing, if every
-- bit is set. It never panics, and never reads a word out of range.
pub bitmap_alloc-Allocated : (b : Bitmap) → IsBitmap b → Allocated b (bitmap_alloc b)
unfolding bitmap_alloc
bitmap_alloc-Allocated b m =
    alloc_from-Allocated m (words_for b.nbits) 0 (omega arith) (λ j lt. absurd (omega arith))
