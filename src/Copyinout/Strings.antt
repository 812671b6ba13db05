-- ===== src/Copyinout/Strings.antt =====
-- `copyinstr` and `copyoutstr`: the three ways in which a string copy can end.
use mathlib.Core.Path.{subst}
use native.Mathlib.Decide.{ℕ_discrete, dec_lt}
use Prim.Native.Nat.{min}
use cs3891_asst.Base.{
  ℕ, zero, suc, ◌+◌, ◌-◌, ◌^◌, ◌≤◌, ◌<◌, ◌≡◌, ◌≢◌, ◌⊎◌, ◌∙◌, inl, inr, refl, sym, ap, some, Result,
  ok, err, arith, efault, enametoolong, ◌==◌, ltb, if◌then◌else◌, Option-cases, Bool-cases,
}
use cs3891_asst.Copyinout.{
  userspacetop, Memory, store, copycheck, copystr, copyout, copyinstr, copyoutstr,
}
use cs3891_asst.Copyinout.Check.{copycheck-ok, copycheck-user}
use cs3891_asst.Copyinout.Blocks.{Outside, Mapped, copyout-kernel_unchanged}

-- The bytes from index `i` up to `k` of the string at `src` can be read and are not zero.
abbrev pub Chars : Memory → ℕ → ℕ → ℕ → Type 0
Chars m src i k = (j : ℕ) → i ≤ j → j < k → (x : ℕ) × (m (src + j) ≡ some x) × (x ≢ 0)

-- A store outside of the string leaves its characters.
Chars-store :
    (m : Memory) (src i k d x : ℕ)
    → ((j : ℕ) → j < k → src + j ≢ d)
    → Chars m src i k
    → Chars (store m d x) src (i + 1) k
Chars-store m src i k d x apart chars j le lt =
    let (y, at, ne) = chars j (omega arith) lt in (y, ground (arith, at, apart j lt), ne)

Mapped-store_any : (m : Memory) (d x p n : ℕ) → Mapped m p n → Mapped (store m d x) p n
Mapped-store_any m d x p n h i lt =
    let (y, at) = h i lt in
    elim (Bool-cases (p + i == d)) [ inl hit ↦ (x, rw hit) | inr miss ↦ (y, rw miss at) ]

module _ (dest src maxlen stoplen : ℕ) where
  -- one round on a character that is not zero
  copystr-char :
      (n i x y : ℕ) (m : Memory)
      → i < stoplen
      → m (src + i) ≡ some x
      → x ≢ 0
      → m (dest + i) ≡ some y
      → copystr dest src maxlen stoplen (suc n) i m
        ≡ copystr dest src maxlen stoplen n (i + 1) (store m (dest + i) x)
  unfolding copystr
  copystr-char n i x y m lt hs ne hd = ground arith

  -- What a copy that ended with the terminator at index `k` leaves behind.
  record Copied (i k : ℕ) (m : Memory) (r : Result ℕ × Memory) : Type 0 where
    result : r.0 ≡ ok (k + 1)
    bytes : (j : ℕ) → i ≤ j → j ≤ k → r.1 (dest + j) ≡ m (src + j)
    others : (a : ℕ) → Outside a (dest + i) (k + 1 - i) → r.1 a ≡ m a

  Copied-char :
      (i k x : ℕ) (m : Memory) (r : Result ℕ × Memory)
      → i < k
      → ((j : ℕ) → j ≤ k → src + j ≢ dest + i)
      → m (src + i) ≡ some x
      → Copied (i + 1) k (store m (dest + i) x) r
      → Copied i k m r
  Copied-char i k x m r lt apart hs c = record {
    result = c.result;
    bytes = λ j le le'. elim (ℕ_discrete j i) [
      | yes same ↦
          subst (λ j'. r.1 (dest + j') ≡ m (src + j')) (sym same)
            (c.others (dest + i) (omega arith) ∙ ground arith)
      | no other ↦ c.bytes j (omega arith) le' ∙ ground (arith, apart j le')
    ];
    others = λ a out. c.others a (omega arith) ∙ ground arith;
  }

  copystr-Copied :
      (n i k : ℕ) (m : Memory)
      → i + n ≡ maxlen
      → i ≤ k
      → k < maxlen
      → k < stoplen
      → ((j l : ℕ) → j ≤ k → l ≤ k → src + j ≢ dest + l)
      → Chars m src i k
      → m (src + k) ≡ some 0
      → Mapped m dest (k + 1)
      → Copied i k m (copystr dest src maxlen stoplen n i m)
  copystr-Copied zero i k m e le lt stop apart chars nul hd = absurd (omega arith)
  copystr-Copied (suc n) i k m e le lt stop apart chars nul hd = elim (ℕ_discrete i k) [
    | yes last ↦
        let (y, d_at) = hd i (omega arith) in
        let here : m (src + i) ≡ some 0 = ap (λ t. m (src + t)) last ∙ nul in
        unfold copystr in
        record {
          result = ground arith;
          bytes = λ j a b.
              let same : j ≡ i = omega arith in
              subst
                (λ j'. (copystr dest src maxlen stoplen (suc n) i m).1 (dest + j') ≡ m (src + j'))
                (sym same) (ground arith);
          others = λ a out. ground arith;
        }
    | no more ↦
        let (x, s_at, ne) = chars i (omega arith) (omega arith) in
        let (y, d_at) = hd i (omega arith) in
        rw (copystr-char n i x y m (omega arith) s_at ne d_at) (
          Copied-char i k x m (copystr dest src maxlen stoplen n (i + 1) (store m (dest + i) x))
            (omega arith) (λ j h. apart j i h le) s_at
            (copystr-Copied n (i + 1) k (store m (dest + i) x) (omega arith) (omega arith) lt stop
              apart (Chars-store m src i k (dest + i) x (λ j h. apart j i (omega arith) le) chars)
              (ground (arith, apart k i (omega arith) le))
              (Mapped-store_any m (dest + i) x dest (k + 1) hd)))
  ]

  -- No terminator before the bound: the error says which bound was met.
  copystr-unterminated :
      (n i : ℕ) (m : Memory)
      → i + n ≡ maxlen
      → i ≤ min maxlen stoplen
      → ((j l : ℕ) → j < maxlen → l < maxlen → src + j ≢ dest + l)
      → Chars m src i (min maxlen stoplen)
      → Mapped m dest (min maxlen stoplen)
      → (copystr dest src maxlen stoplen n i m).0
        ≡ (if ltb stoplen maxlen then err efault else err enametoolong)
  copystr-unterminated zero i m e le apart chars hd = unfold copystr in refl
  copystr-unterminated (suc n) i m e le apart chars hd = elim (dec_lt i stoplen) [
    | no stopped ↦ unfold copystr in ground arith
    | yes lt ↦
        let (x, s_at, ne) = chars i (omega arith) (omega arith) in
        let (y, d_at) = hd i (omega arith) in
        ap (λ r. r.0) (copystr-char n i x y m lt s_at ne d_at)
        ∙ copystr-unterminated n (i + 1) (store m (dest + i) x) (omega arith) (omega arith) apart
            (Chars-store m src i (min maxlen stoplen) (dest + i) x
              (λ j h. apart j i (omega arith) (omega arith)) chars)
            (Mapped-store_any m (dest + i) x dest (min maxlen stoplen) hd)
  ]

  copystr-outside :
      (n i a : ℕ) (m : Memory)
      → (a < dest) ⊎ (dest + stoplen ≤ a)
      → (copystr dest src maxlen stoplen n i m).1 a ≡ m a
  unfolding copystr
  copystr-outside zero i a m out = refl
  copystr-outside (suc n) i a m out = elim (Option-cases (m (src + i))) [
    | inl unread ↦ ground arith
    | inr (x, at) ↦ ground (arith, copystr-outside n (i + 1) a (store m (dest + i) x) out)
  ]

-- `copyinstr` of a user string of `k` characters and its terminator, which lies in user space and fits
-- into `len` bytes, which do not go past 2^32, to an accessible kernel buffer: it succeeds, gives `k + 1` as the length, the
-- buffer holds the string with its terminator, and nothing else has changed.
pub copyinstr-copies :
    (usersrc dest len k : ℕ) (m : Memory)
    → usersrc + k < userspacetop
    → k < len
    → usersrc + len ≤ 2 ^ 32
    → userspacetop ≤ dest
    → Chars m usersrc 0 k
    → m (usersrc + k) ≡ some 0
    → Mapped m dest (k + 1)
    → ((copyinstr usersrc dest len m).0 ≡ ok (k + 1))
      × ((j : ℕ) → j ≤ k → (copyinstr usersrc dest len m).1 (dest + j) ≡ m (usersrc + j))
      × ((a : ℕ) → Outside a dest (k + 1) → (copyinstr usersrc dest len m).1 a ≡ m a)
unfolding copyinstr
copyinstr-copies usersrc dest len k m user fits room kernel chars nul hd =
    let stop = min len (userspacetop - usersrc) in
    let pass = copycheck-user usersrc len (omega arith) (omega arith) room in
    let c =
      copystr-Copied dest usersrc len stop len 0 k m (omega arith) (omega arith) fits (omega arith)
        (λ j l h h'. omega arith) chars nul hd in
    (
      ground (arith, pass, c.result),
      λ j le. ground (arith, pass, c.bytes j (omega arith) le),
      λ a out. ground (arith, pass, c.others a (omega arith)),
    )

-- `copyinstr` from an address below USERSPACETOP, with a `len` that is not 0 and does not take that
-- address past 2^32, into an accessible buffer that starts at least `len` bytes above USERSPACETOP. If
-- the string has no terminator among the bytes that `copyinstr` may read, which are accessible: the
-- result is ENAMETOOLONG if those are `len` bytes, EFAULT if user space ends before that.
pub copyinstr-unterminated :
    (usersrc dest len : ℕ) (m : Memory)
    → usersrc < userspacetop
    → 0 < len
    → usersrc + len ≤ 2 ^ 32
    → userspacetop + len ≤ dest
    → Chars m usersrc 0 (min len (userspacetop - usersrc))
    → Mapped m dest (min len (userspacetop - usersrc))
    → (copyinstr usersrc dest len m).0
      ≡ (if ltb userspacetop (usersrc + len) then err efault else err enametoolong)
unfolding copyinstr
copyinstr-unterminated usersrc dest len m user pos room kernel chars hd =
    let stop = min len (userspacetop - usersrc) in
    let pass = copycheck-user usersrc len user pos room in
    let same : min len stop ≡ stop = omega arith in
    let run : (copystr dest usersrc len stop len 0 m).0
        ≡ (if ltb stop len then err efault else err enametoolong) =
      copystr-unterminated dest usersrc len stop len 0 m (omega arith) (omega arith)
        (λ j l h h'. omega arith) (subst (Chars m usersrc 0) (sym same) chars)
        (subst (Mapped m dest) (sym same) hd) in
    ground (arith, pass, run)

copystr_checked-kernel :
    (src userdest len a : ℕ) (m : Memory) (res : Result ℕ)
    → userdest < 2 ^ 32
    → len < 2 ^ 32
    → userspacetop ≤ a
    → copycheck userdest len ≡ res
    → (copyoutstr src userdest len m).1 a ≡ m a
unfolding copyoutstr
copystr_checked-kernel src userdest len a m (err e) hb hl kernel check = ground (arith, check)
copystr_checked-kernel src userdest len a m (ok n) hb hl kernel check =
    let inside = copycheck-ok userdest len n hb hl check in
    let kept = copystr-outside userdest src len n len 0 a m (inr (omega arith)) in
    ground (arith, check)

copyoutstr-kernel_unchanged :
    (src userdest len a : ℕ) (m : Memory)
    → userdest < 2 ^ 32
    → len < 2 ^ 32
    → userspacetop ≤ a
    → (copyoutstr src userdest len m).1 a ≡ m a
copyoutstr-kernel_unchanged src userdest len a m hb hl kernel =
    copystr_checked-kernel src userdest len a m (copycheck userdest len) hb hl kernel refl

-- Whatever a user program passes as the destination and length, and whether they succeed or not,
-- `copyout` and `copyoutstr` write nothing at or above USERSPACETOP.
pub kernel_unchanged :
    (src userdest len a : ℕ) (m : Memory)
    → userdest < 2 ^ 32
    → len < 2 ^ 32
    → userspacetop ≤ a
    → ((copyout src userdest len m).1 a ≡ m a) × ((copyoutstr src userdest len m).1 a ≡ m a)
kernel_unchanged src userdest len a m hb hl kernel = (
  copyout-kernel_unchanged src userdest len a m hb hl kernel,
  copyoutstr-kernel_unchanged src userdest len a m hb hl kernel,
)
