-- ===== src/Bitmap.antt =====
-- kern/lib/bitmap.c: a fixed-size array of bits, in bytes. `nbits` is an `unsigned`.
pub mod Bits
pub mod Spec
pub mod Mark
pub mod Alloc
pub mod Create
pub mod Refines
use cs3891_asst.Base.{
  ℕ, zero, suc, ◌+◌, ◌-◌, ◌*◌, ◌/◌, ◌%◌, ◌^◌, Bool, true, false, not, ◌&&◌, Option, none, some,
  List, Run, ret, fail, panic, fault, K, pure, throw, ◌>>=◌, ◌>>◌, kassert, deref, get_elem?, set,
  replicate, ltb, ◌==◌, if◌then◌else◌, sub32, bit_and, bit_or, enospc,
}

abbrev pub bits_per_word : ℕ
bits_per_word = 8

abbrev pub word_allbits : ℕ
word_allbits = 0xff

pub record Bitmap : Type 0 where
  pub nbits : ℕ
  pub v : List ℕ

-- `(WORD_TYPE)1 << offset`, an unsigned char
abbrev pub mask : ℕ → ℕ
mask offset = 2 ^ offset % 256

-- `~mask` of an unsigned char
abbrev pub unmask : ℕ → ℕ
unmask offset = 255 - mask offset

-- `DIVROUNDUP(nbits, BITS_PER_WORD)`, whose sum may wrap
abbrev pub words_for : ℕ → ℕ
words_for nbits = (nbits + bits_per_word - 1) % 2 ^ 32 / bits_per_word

-- `b->v[ix] = w`
abbrev pub set_word : ℕ → ℕ → K Bitmap (Unit {0})
set_word ix w b = ret tt (record b { v = set b.v ix w })

abbrev pub word : ℕ → K Bitmap ℕ
word ix b = deref (get_elem? b.v ix) b

-- the loop that marks bits `j` up to 7 of word `ix`, with `n` rounds left
unfoldable pub mark_over : ℕ → ℕ → ℕ → K Bitmap (Unit {0})
mark_over zero ix j = pure tt
mark_over (suc n) ix j = do w ← word ix; set_word ix (bit_or w (mask j)); mark_over n ix (j + 1)

-- `bitmap_create` after its allocations
unfoldable pub bitmap_init : ℕ → Run Bitmap (Unit {0})
bitmap_init nbits =
    let words = words_for nbits in
    let b : Bitmap = record { nbits = nbits; v = replicate words 0 } in
    if ltb (nbits / bits_per_word) words
    then (let ix = words - 1 in
        let overbits = sub32 nbits (ix * bits_per_word) in
        (kassert (nbits / bits_per_word == ix)
            >> (kassert (ltb 0 overbits && ltb overbits bits_per_word)
                >> mark_over (bits_per_word - overbits) ix overbits))
          b)
    else ret tt b

-- The first two arguments say whether each `kmalloc` succeeds; the result `none` is NULL.
unfoldable pub bitmap_create : Bool → Bool → ℕ → Option (Run Bitmap (Unit {0}))
bitmap_create has_b has_v nbits =
    if not has_b then none else if not has_v then none else some (bitmap_init nbits)

-- the search in word `ix`, which is `w`, from `offset` on
unfoldable pub alloc_in : ℕ → ℕ → ℕ → ℕ → K Bitmap ℕ
alloc_in zero ix w offset = λ b. panic
alloc_in (suc n) ix w offset = elim (bit_and w (mask offset) == 0) [
  | true ↦ do
    set_word ix (bit_or w (mask offset))
    λ b.
        (kassert (ltb (ix * bits_per_word + offset) b.nbits) >> pure (ix * bits_per_word + offset))
          b
  | false ↦ alloc_in n ix w (offset + 1)
]

-- `n` words left from `ix` on
unfoldable pub alloc_from : ℕ → ℕ → K Bitmap ℕ
alloc_from zero ix = throw enospc
alloc_from (suc n) ix = do
  w ← word ix
  elim (w == word_allbits) [ true ↦ alloc_from n (ix + 1) | false ↦ alloc_in bits_per_word ix w 0 ]

-- The result is the index that goes through `index`.
unfoldable pub bitmap_alloc : K Bitmap ℕ
bitmap_alloc b = alloc_from (words_for b.nbits) 0 b

unfoldable pub bitmap_mark : ℕ → K Bitmap (Unit {0})
bitmap_mark index b =
    (do
      kassert (ltb index b.nbits)
      w ← word (index / bits_per_word)
      kassert (bit_and w (mask (index % bits_per_word)) == 0)
      set_word (index / bits_per_word) (bit_or w (mask (index % bits_per_word))))
      b

unfoldable pub bitmap_unmark : ℕ → K Bitmap (Unit {0})
bitmap_unmark index b =
    (do
      kassert (ltb index b.nbits)
      w ← word (index / bits_per_word)
      kassert (not (bit_and w (mask (index % bits_per_word)) == 0))
      set_word (index / bits_per_word) (bit_and w (unmask (index % bits_per_word))))
      b

-- The C returns the masked word, which is true or false.
unfoldable pub bitmap_isset : ℕ → K Bitmap ℕ
bitmap_isset index = do
  w ← word (index / bits_per_word)
  pure (bit_and w (mask (index % bits_per_word)))
