-- ===== src/Bitmap/Refines.antt =====
-- Sequences of calls on a bitmap against the same calls on a set of indices.
use mathlib.Core.Path.{subst}
use native.Mathlib.Decide.{dec_lt, ℕ_discrete}
use cs3891_asst.Base.{
  ℕ, zero, suc, ◌+◌, ◌≤◌, ◌<◌, ◌≡◌, ◌⊎◌, inl, inr, refl, sym, ap, ◌∙◌, ◌==◌, ltb, ltb→lt,
  if◌then◌else◌, Bool, true, false, not, ◌&&◌, ◌||◌, Option, none, some, List, [], ◌∷◌, arith, Run,
  ret, fail, panic, K, pure, ◌>>=◌, ◌>>◌, and_then, Bool-cases, enospc,
}
use cs3891_asst.Bitmap.{Bitmap, bitmap_alloc, bitmap_mark, bitmap_unmark}
use cs3891_asst.Bitmap.Bits.{has_bit}
use cs3891_asst.Bitmap.Spec.{bit, IsBitmap, word_at}
use cs3891_asst.Bitmap.Mark.{bitmap_mark-bit, bitmap_unmark-bit, mark_panics}
use cs3891_asst.Bitmap.Alloc.{Allocated, allocated, no_space, bitmap_alloc-Allocated}

pub data Command : Type 0 where
  alloc : Command
  mark : ℕ → Command
  unmark : ℕ → Command

abbrev pub call : Command → K Bitmap ℕ
call alloc = bitmap_alloc
call (mark i) = do bitmap_mark i; pure 0
call (unmark i) = do bitmap_unmark i; pure 0

abbrev pub calls : {S : Type 0} → (Command → K S ℕ) → List Command → K S (List ℕ)
calls one [] = pure []
calls one (c ∷ cs) = do n ← one c; ns ← calls one cs; pure (n ∷ ns)

-- a set of indices below `bound`
pub record IndexSet : Type 0 where
  pub bound : ℕ
  pub member : ℕ → Bool

-- the first index from `i` on that is not a member, of `n`
abbrev pub first_absent : ℕ → ℕ → (ℕ → Bool) → Option ℕ
first_absent zero i member = none
first_absent (suc n) i member = if member i then first_absent n (i + 1) member else some i

abbrev pub insert : ℕ → IndexSet → IndexSet
insert i s = record s { member = λ j. j == i || s.member j }

abbrev pub delete : ℕ → IndexSet → IndexSet
delete i s = record s { member = λ j. not (j == i) && s.member j }

abbrev pub meaning : Command → K IndexSet ℕ
meaning alloc s = elim (first_absent s.bound 0 s.member) [
  | none ↦ fail enospc s
  | some i ↦ ret i (insert i s)
]
meaning (mark i) s = if ltb i s.bound && not (s.member i) then ret 0 (insert i s) else panic
meaning (unmark i) s = if ltb i s.bound && s.member i then ret 0 (delete i s) else panic

-- The bitmap is that of the set.
pub record Represents (b : Bitmap) (s : IndexSet) : Type 0 where
  pub bitmap : IsBitmap b
  pub size : b.nbits ≡ s.bound
  pub bits : (i : ℕ) → i < s.bound → bit b i ≡ s.member i

pub data Agree {A : Type 0} : Run Bitmap A → Run IndexSet A → Type 0 where
  both_return : {a : A} {b : Bitmap} {s : IndexSet} → Represents b s → Agree (ret a b) (ret a s)
  both_fail : {e : ℕ} {b : Bitmap} {s : IndexSet} → Represents b s → Agree (fail e b) (fail e s)
  both_panic : Agree panic panic

unmark_panics :
    (b : Bitmap) (i : ℕ)
    → IsBitmap b
    → (b.nbits ≤ i) ⊎ (bit b i ≡ false)
    → bitmap_unmark i b ≡ panic
unfolding bitmap_unmark has_bit
unmark_panics b i m (inl beyond) = ground arith
unmark_panics b i m (inr clear) = elim (Bool-cases (ltb i b.nbits)) [
  | inl inside ↦ let (w, at) = word_at m i (ltb→lt i b.nbits inside) in ground arith
  | inr beyond ↦ ground arith
]

found_absent :
    (n i k : ℕ) (member : ℕ → Bool)
    → i ≤ k
    → k < i + n
    → member k ≡ false
    → ((j : ℕ) → j < k → member j ≡ true)
    → first_absent n i member ≡ some k
found_absent zero i k member le lt off before = absurd (omega arith)
found_absent (suc n) i k member le lt off before = elim (ℕ_discrete i k) [
  | yes same ↦ let here : member i ≡ false = ap member same ∙ off in ground arith
  | no ne ↦
      let here : member i ≡ true = before i (omega arith) in
      rw here (found_absent n (i + 1) k member (omega arith) (omega arith) off before)
]

none_absent :
    (n i : ℕ) (member : ℕ → Bool)
    → ((j : ℕ) → j < i + n → member j ≡ true)
    → first_absent n i member ≡ none
none_absent zero i member all = refl
none_absent (suc n) i member all =
    let here : member i ≡ true = all i (omega arith) in
    rw here (none_absent n (i + 1) member (λ j lt. all j (omega arith)))

agree :
    {A : Type 0} {q q' : Run Bitmap A} {u u' : Run IndexSet A}
    → q ≡ q'
    → u ≡ u'
    → Agree q' u'
    → Agree q u
agree {q'} {u} e d g = subst (λ x. Agree x u) (sym e) (subst (Agree q') (sym d) g)

module _ {b : Bitmap} {s : IndexSet} (r : Represents b s) where
  alloc-Agree : (q : Run Bitmap ℕ) → Allocated b q → Agree q (meaning alloc s)
  alloc-Agree _ (no_space all) =
      let full : first_absent s.bound 0 s.member ≡ none =
        none_absent s.bound 0 s.member
          (λ j lt. sym (r.bits j (omega arith)) ∙ all j (omega (arith, r.size))) in
      agree refl (ground (arith, full)) (both_fail {e = enospc} r)
  alloc-Agree _ (allocated {i} {c} lt clear before m same bits) =
      let off : s.member i ≡ false = sym (r.bits i (omega (arith, r.size))) ∙ clear in
      let found : first_absent s.bound 0 s.member ≡ some i =
        found_absent s.bound 0 i s.member (omega arith) (omega (arith, r.size)) off
          (λ j below. sym (r.bits j (omega (arith, r.size))) ∙ before j below) in
      agree refl (ground (arith, found)) (
        both_return {a = i} {b = c} {s = insert i s} (record {
          bitmap = m;
          size = same ∙ r.size;
          bits = λ j inside. bits j ∙ ap (λ x. j == i || x) (r.bits j inside);
        }))

  mark-Agree : (i : ℕ) → Agree (call (mark i) b) (meaning (mark i) s)
  mark-Agree i = elim (dec_lt i s.bound) [
    | no out ↦
        agree (ground (arith, mark_panics b i r.bitmap (inl (omega (arith, r.size)))))
          (ground arith) both_panic
    | yes inside ↦ elim (Bool-cases (s.member i)) [
      | inl there ↦
          agree (ground (arith, mark_panics b i r.bitmap (inr (r.bits i inside ∙ there))))
            (ground arith) both_panic
      | inr off ↦
          let (c, done, m, same, bits) =
            bitmap_mark-bit b i r.bitmap (omega (arith, r.size)) (r.bits i inside ∙ off) in
          agree (ground (arith, done)) (ground (arith, off)) (
            both_return {a = 0} {b = c} {s = insert i s} (record {
              bitmap = m;
              size = same ∙ r.size;
              bits = λ j lt. bits j ∙ ap (λ x. j == i || x) (r.bits j lt);
            }))
    ]
  ]

  unmark-Agree : (i : ℕ) → Agree (call (unmark i) b) (meaning (unmark i) s)
  unmark-Agree i = elim (dec_lt i s.bound) [
    | no out ↦
        agree (ground (arith, unmark_panics b i r.bitmap (inl (omega (arith, r.size)))))
          (ground arith) both_panic
    | yes inside ↦ elim (Bool-cases (s.member i)) [
      | inr off ↦
          agree (ground (arith, unmark_panics b i r.bitmap (inr (r.bits i inside ∙ off))))
            (ground (arith, off)) both_panic
      | inl there ↦
          let (c, done, m, same, bits) =
            bitmap_unmark-bit b i r.bitmap (omega (arith, r.size)) (r.bits i inside ∙ there) in
          agree (ground (arith, done)) (ground (arith, there)) (
            both_return {a = 0} {b = c} {s = delete i s} (record {
              bitmap = m;
              size = same ∙ r.size;
              bits = λ j lt. bits j ∙ ap (λ x. not (j == i) && x) (r.bits j lt);
            }))
    ]
  ]

  call-Agree : (c : Command) → Agree (call c b) (meaning c s)
  call-Agree alloc = alloc-Agree (bitmap_alloc b) (bitmap_alloc-Allocated b r.bitmap)
  call-Agree (mark i) = mark-Agree i
  call-Agree (unmark i) = unmark-Agree i

Agree-then :
    {A B : Type 0} {q : Run Bitmap A} {u : Run IndexSet A} {k : A → K Bitmap B}
    {l : A → K IndexSet B}
    → Agree q u
    → ((a : A) (b : Bitmap) (s : IndexSet) → Represents b s → Agree (k a b) (l a s))
    → Agree (and_then q k) (and_then u l)
Agree-then (both_return {a} {b} {s} r) rest = rest a b s r
Agree-then (both_fail {e} r) rest = both_fail r
Agree-then both_panic rest = both_panic

-- Any calls of `bitmap_alloc`, `bitmap_mark` and `bitmap_unmark` in a row, on the bitmap of a set, give
-- what they mean for the set: `bitmap_alloc` inserts the first index that is absent and gives it, or
-- fails with ENOSPC if there is none, `bitmap_mark` inserts an absent index and `bitmap_unmark`
-- deletes a present one, and they panic on any other. The bitmap is then that of the set.
pub calls-Agree :
    (cs : List Command) (b : Bitmap) (s : IndexSet)
    → Represents b s
    → Agree (calls call cs b) (calls meaning cs s)
calls-Agree [] b s r = both_return r
calls-Agree (c ∷ cs) b s r =
    Agree-then (call-Agree r c)
      (λ n c' s' r'. Agree-then (calls-Agree cs c' s' r') (λ ns c'' s'' r''. both_return r''))
