-- ===== src/Bitmap/Create.antt =====
-- `bitmap_create`: no bitmap, or one with every bit clear and the rest of the last word in use.
use mathlib.Core.Path.{subst}
use native.Mathlib.Decide.{ℕ_discrete}
use cs3891_asst.Base.{
  ℕ, zero, suc, ◌+◌, ◌-◌, ◌*◌, ◌/◌, ◌%◌, ◌^◌, ◌<◌, ◌≡◌, ◌≢◌, refl, sym, ap, ◌∙◌, false, ◌||◌, some,
  none, Bool, true, ◌&&◌, Option, Run, arith, ret, get_elem?, get_elem?-set, get_elem?-set_self,
  get_elem?-lt, set, set-set, set-get_elem?, length, length-set, length-replicate,
  get_elem?-replicate, replicate, leb, sub32,
}
use cs3891_asst.Bitmap.{Bitmap, words_for, mark_over, bitmap_init, bitmap_create}
use cs3891_asst.Bitmap.Bits.{has_bit, with_bit, zero_bit, has_bit-with, with_bit-lt}
use cs3891_asst.Bitmap.Spec.{bit, bit_of, IsBitmap, with_word}

-- the word that has the bits from `j` on set, and below those of `w`
record Marked (w j w' : ℕ) : Type 0 where
  byte : w' < 256
  bits : (k : ℕ) → k < 8 → has_bit w' k ≡ (leb j k || has_bit w k)

mark_over-Marked :
    (n ix j w : ℕ) (b : Bitmap)
    → j + n ≡ 8
    → get_elem? b.v ix ≡ some w
    → w < 256
    → (w' : ℕ) × (mark_over n ix j b ≡ ret tt (with_word b ix w')) × Marked w j w'
unfolding mark_over
mark_over-Marked zero ix j w b e at byte = (
  w,
  ap (λ v. ret tt (record b { v = v })) (sym (set-get_elem? b.v ix w at)),
  record { byte = byte; bits = λ k lt. ground arith },
)
mark_over-Marked (suc n) ix j w b e at byte =
    let c = with_word b ix (with_bit w j) in
    let (w', run, m) =
      mark_over-Marked n ix (j + 1) (with_bit w j) c (omega arith)
        (get_elem?-set_self b.v ix (with_bit w j) (get_elem?-lt b.v ix w at))
        (with_bit-lt w j byte (omega arith)) in
    (
      w',
      rw (at, mark_over)
          (run ∙ ap (λ v. ret tt (record b { v = v })) (set-set b.v ix (with_bit w j) w')),
      record {
        byte = m.byte;
        bits = λ k lt. m.bits k lt ∙ ground (arith, has_bit-with w j k byte (omega arith) lt);
      },
    )

abbrev cleared : ℕ → Bitmap
cleared nbits = record { nbits = nbits; v = replicate (words_for nbits) 0 }

zero_words : (nbits : ℕ) → length (replicate {A = ℕ} (words_for nbits) 0) ≡ words_for nbits
zero_words nbits = length-replicate (words_for nbits) 0

cleared-bit : (nbits i : ℕ) → i < 8 * words_for nbits → bit (cleared nbits) i ≡ false
cleared-bit nbits i lt =
    ap (λ o. bit_of o (i % 8)) (get_elem?-replicate (words_for nbits) (i / 8) 0 (omega arith))
    ∙ zero_bit (i % 8) (omega arith)

-- the last word marked from `over` on
module _ (nbits w' : ℕ) (small : nbits < 2 ^ 32 - 7) (partial : nbits % 8 ≢ 0)
    (m : Marked 0 (nbits % 8) w') where
  abbrev last : ℕ
  last = nbits / 8

  last_word : get_elem? (set (replicate (words_for nbits) 0) last w') last ≡ some w'
  last_word = get_elem?-set_self _ last w' (omega (arith, zero_words nbits))

  marked_bit :
      (i : ℕ) → i < 8 * words_for nbits → bit (with_word (cleared nbits) last w') i ≡ leb nbits i
  marked_bit i lt = ground (
    arith,
    get_elem?-set (replicate (words_for nbits) 0) last (i / 8) w' (omega (arith, zero_words nbits)),
    cleared-bit nbits i lt,
    m.bits (i % 8) (omega arith),
    zero_bit (i % 8) (omega arith),
  )

  marked-IsBitmap : IsBitmap (with_word (cleared nbits) last w')
  marked-IsBitmap = record {
    small = small;
    size = length-set (replicate (words_for nbits) 0) last w' ∙ zero_words nbits;
    bytes = λ i w at. ground (
      arith,
      m.byte,
      get_elem?-set (replicate (words_for nbits) 0) last i w' (omega (arith, zero_words nbits)),
      get_elem?-lt (replicate (words_for nbits) 0) i w,
      zero_words nbits,
      get_elem?-replicate {A = ℕ} (words_for nbits) i 0,
    );
    spare = λ i le lt.
        let inside : i < 8 * words_for nbits =
          omega (arith, lt, length-set (replicate (words_for nbits) 0) last w', zero_words nbits) in
        marked_bit i inside ∙ ground arith;
  }

bitmap_init-clear :
    (nbits : ℕ)
    → nbits < 2 ^ 32 - 7
    → (b : Bitmap) × (bitmap_init nbits ≡ ret tt b)
      × IsBitmap b
      × (b.nbits ≡ nbits)
      × ((i : ℕ) → i < nbits → bit b i ≡ false)
unfolding bitmap_init
bitmap_init-clear nbits small = elim (ℕ_discrete (nbits % 8) 0) [
  | yes whole ↦ (
    cleared nbits,
    ground arith,
    record {
      small = small;
      size = zero_words nbits;
      bytes = λ i w at. ground (
        arith,
        get_elem?-lt (replicate (words_for nbits) 0) i w,
        zero_words nbits,
        get_elem?-replicate {A = ℕ} (words_for nbits) i 0,
      );
      spare = λ i le lt. absurd (omega (arith, lt, zero_words nbits));
    },
    refl,
    λ i lt. cleared-bit nbits i (omega arith),
  )
  | no partial ↦
      let (w', run, m) =
        mark_over-Marked (8 - nbits % 8) (nbits / 8) (nbits % 8) 0 (cleared nbits) (omega arith)
          (get_elem?-replicate (words_for nbits) (nbits / 8) 0 (omega arith)) (omega arith) in
      let ix : words_for nbits - 1 ≡ nbits / 8 = omega arith in
      let over : sub32 nbits (nbits / 8 * 8) ≡ nbits % 8 = omega arith in
      (
        with_word (cleared nbits) (nbits / 8) w',
        ground (arith, run, ix, over),
        marked-IsBitmap nbits w' small partial m,
        refl,
        λ i lt. marked_bit nbits w' small partial m i (omega arith) ∙ ground arith,
      )
]

-- The outcomes of `bitmap_create` of `nbits` bits.
pub data Created (has_b has_v : Bool) (nbits : ℕ) : Option (Run Bitmap (Unit {0})) → Type 0 where
  no_memory : (has_b && has_v) ≡ false → Created has_b has_v nbits none
  created :
      (b : Bitmap)
      → (has_b && has_v) ≡ true
      → IsBitmap b
      → b.nbits ≡ nbits
      → ((i : ℕ) → i < nbits → bit b i ≡ false)
      → Created has_b has_v nbits (some (ret tt b))

-- `bitmap_create` of fewer than 2^32 - 7 bits returns NULL if one of its two allocations fails.
-- Otherwise it returns a well-formed bitmap of that many bits, all clear; it does not panic.
pub bitmap_create-Created :
    (has_b has_v : Bool) (nbits : ℕ)
    → nbits < 2 ^ 32 - 7
    → Created has_b has_v nbits (bitmap_create has_b has_v nbits)
unfolding bitmap_create
bitmap_create-Created false has_v nbits small = no_memory refl
bitmap_create-Created true false nbits small = no_memory refl
bitmap_create-Created true true nbits small =
    let (b, run, valid, size, clear) = bitmap_init-clear nbits small in
    subst (λ r. Created true true nbits (some r)) (sym run) (created b refl valid size clear)
