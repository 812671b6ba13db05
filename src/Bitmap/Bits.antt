-- ===== src/Bitmap/Bits.antt =====
-- The bits of one byte. Every byte and every pair of offsets is checked by evaluation.
use cs3891_asst.Base.{
  ℕ, zero, suc, ◌-◌, ◌%◌, ◌^◌, ◌<◌, ◌≡◌, refl, Bool, true, false, not, ◌&&◌, ◌||◌, arith, ltb, ◌==◌,
  bit_and, bit_or,
}

-- bit `k` of byte `x`, read with the masks of the code
unfoldable pub has_bit : ℕ → ℕ → Bool
has_bit x k = not (bit_and x (2 ^ k % 256) == 0)

abbrev pub with_bit : ℕ → ℕ → ℕ
with_bit x k = bit_or x (2 ^ k % 256)

abbrev pub without_bit : ℕ → ℕ → ℕ
without_bit x k = bit_and x (255 - 2 ^ k % 256)

all_below : ℕ → (ℕ → Bool) → Bool
all_below zero p = true
all_below (suc n) p = p n && all_below n p

all_below-lt : (n : ℕ) (p : ℕ → Bool) (x : ℕ) → all_below n p ≡ true → x < n → p x ≡ true
unfolding all_below
all_below-lt zero p x h lt = absurd (omega arith)
all_below-lt (suc n) p x h lt = ground (arith, all_below-lt n p x)

same_bool : Bool → Bool → Bool
same_bool true b = b
same_bool false b = not b

same_bool-eq : (a b : Bool) → same_bool a b ≡ true → a ≡ b
unfolding same_bool
same_bool-eq a b h = ground arith

byte_law : ℕ → ℕ → ℕ → Bool
unfolding has_bit same_bool
byte_law x k j =
    ltb (with_bit x k) 256
    && ltb (without_bit x k) 256
    && same_bool (has_bit (with_bit x k) j) (j == k || has_bit x j)
    && same_bool (has_bit (without_bit x k) j) (not (j == k) && has_bit x j)

byte_table : all_below 256 (λ x. all_below 8 (λ k. all_below 8 (λ j. byte_law x k j))) ≡ true
unfolding all_below byte_law
byte_table = refl

byte_law-holds : (x k j : ℕ) → x < 256 → k < 8 → j < 8 → byte_law x k j ≡ true
byte_law-holds x k j hx hk hj =
    all_below-lt 8 (λ j'. byte_law x k j') j
      (all_below-lt 8 (λ k'. all_below 8 (λ j'. byte_law x k' j')) k
        (all_below-lt 256 (λ x'. all_below 8 (λ k'. all_below 8 (λ j'. byte_law x' k' j'))) x
          byte_table hx)
        hk)
      hj

pub has_bit-with :
    (x k j : ℕ) → x < 256 → k < 8 → j < 8 → has_bit (with_bit x k) j ≡ (j == k || has_bit x j)
unfolding byte_law
has_bit-with x k j hx hk hj = same_bool-eq _ _ (ground (arith, byte_law-holds x k j hx hk hj))

pub has_bit-without :
    (x k j : ℕ)
    → x < 256
    → k < 8
    → j < 8
    → has_bit (without_bit x k) j ≡ (not (j == k) && has_bit x j)
unfolding byte_law
has_bit-without x k j hx hk hj = same_bool-eq _ _ (ground (arith, byte_law-holds x k j hx hk hj))

pub with_bit-lt : (x k : ℕ) → x < 256 → k < 8 → with_bit x k < 256
unfolding byte_law
with_bit-lt x k hx hk = ground (arith, byte_law-holds x k 0 hx hk (omega arith))

pub without_bit-lt : (x k : ℕ) → x < 256 → k < 8 → without_bit x k < 256
unfolding byte_law
without_bit-lt x k hx hk = ground (arith, byte_law-holds x k 0 hx hk (omega arith))

-- the bits of a byte that is all ones, and of one that is not
full_law : ℕ → Bool
unfolding has_bit same_bool
full_law x = same_bool (x == 255) (all_below 8 (λ k. has_bit x k))

full_table : all_below 256 full_law ≡ true
unfolding all_below full_law
full_table = refl

all_below-intro : (n : ℕ) (p : ℕ → Bool) → ((k : ℕ) → k < n → p k ≡ true) → all_below n p ≡ true
unfolding all_below
all_below-intro zero p h = refl
all_below-intro (suc n) p h =
    ground (arith, h n (omega arith), all_below-intro n p (λ k lt. h k (omega arith)))

-- A byte whose bits are all set is 255.
pub full_of_bits : (x : ℕ) → x < 256 → ((k : ℕ) → k < 8 → has_bit x k ≡ true) → x ≡ 255
unfolding full_law
full_of_bits x h bits =
    let law =
      same_bool-eq (x == 255) (all_below 8 (λ k. has_bit x k))
        (all_below-lt 256 full_law x full_table h) in
    ground (arith, law, all_below-intro 8 (λ k. has_bit x k) bits)

pub full_bit : (k : ℕ) → k < 8 → has_bit 255 k ≡ true
unfolding all_below has_bit
full_bit k h = all_below-lt 8 (λ j. has_bit 255 j) k refl h

pub zero_bit : (k : ℕ) → k < 8 → has_bit 0 k ≡ false
unfolding all_below has_bit
zero_bit k h =
    let none_set = all_below-lt 8 (λ j. not (has_bit 0 j)) k refl h in ground (arith, none_set)
