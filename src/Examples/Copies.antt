-- ===== src/Examples/Copies.antt =====
-- Copies between a user page at 4096 and a kernel page at USERSPACETOP, all of whose bytes are 65 but
-- for a zero at 4099.
use cs3891_asst.Base.{
  ℕ, ◌+◌, ◌≤◌, ◌<◌, ◌≡◌, refl, inl, inr, ◌&&◌, none, some, arith, ltb, leb, Bool-cases, ◌==◌,
  if◌then◌else◌, ok, err, enametoolong,
}
use cs3891_asst.Copyinout.{Memory, userspacetop, copyin, copyout, copyinstr, copyoutstr}
use cs3891_asst.Copyinout.Blocks.{Outside, Mapped, copies_both_ways}
use cs3891_asst.Copyinout.Strings.{
  Chars, copyinstr-copies, copyinstr-unterminated, kernel_unchanged,
}

abbrev pub pages : Memory
pages a =
    if a == 4099
    then some 0
    else if leb 4096 a && ltb a 8192
    then some 65
    else if leb userspacetop a && ltb a (userspacetop + 4096)
    then some 65
    else none

user-Mapped_at : (i : ℕ) → i < 4096 → (x : ℕ) × (pages (4096 + i) ≡ some x)
user-Mapped_at i lt = elim (Bool-cases (4096 + i == 4099)) [
  | inl here ↦ (0, ground arith)
  | inr other ↦ (65, ground arith)
]

pub kernel-Mapped : (n : ℕ) → n ≤ 4096 → Mapped pages userspacetop n
kernel-Mapped n le i lt = (65, ground arith)

pub user-Mapped : (n : ℕ) → n ≤ 4096 → Mapped pages 4096 n
user-Mapped n le i lt = user-Mapped_at i (omega arith)

copies_both_ways_example :
    (((copyin 4096 userspacetop 4 pages).0 ≡ ok tt)
      × ((i : ℕ)
          → i < 4
          → (copyin 4096 userspacetop 4 pages).1 (userspacetop + i) ≡ pages (4096 + i))
      × ((a : ℕ) → Outside a userspacetop 4 → (copyin 4096 userspacetop 4 pages).1 a ≡ pages a))
    × (((copyout userspacetop 4096 4 pages).0 ≡ ok tt)
        × ((i : ℕ)
            → i < 4
            → (copyout userspacetop 4096 4 pages).1 (4096 + i) ≡ pages (userspacetop + i))
        × ((a : ℕ) → Outside a 4096 4 → (copyout userspacetop 4096 4 pages).1 a ≡ pages a))
copies_both_ways_example =
    copies_both_ways 4096 userspacetop 4 pages (omega arith) (omega arith) (omega arith)
      (user-Mapped 4 (omega arith)) (kernel-Mapped 4 (omega arith))

-- The user string at 4096 has three characters.
string : Chars pages 4096 0 3
string j le lt = (65, ground arith, omega arith)

copyinstr-copies_example :
    ((copyinstr 4096 userspacetop 10 pages).0 ≡ ok 4)
    × ((j : ℕ)
        → j ≤ 3
        → (copyinstr 4096 userspacetop 10 pages).1 (userspacetop + j) ≡ pages (4096 + j))
    × ((a : ℕ) → Outside a userspacetop 4 → (copyinstr 4096 userspacetop 10 pages).1 a ≡ pages a)
copyinstr-copies_example =
    copyinstr-copies 4096 userspacetop 10 3 pages (omega arith) (omega arith) (omega arith)
      (omega arith) string refl (kernel-Mapped 4 (omega arith))

unterminated : Chars pages 4100 0 10
unterminated j le lt = (65, ground arith, omega arith)

copyinstr-unterminated_example : (copyinstr 4100 (userspacetop + 10) 10 pages).0 ≡ err enametoolong
copyinstr-unterminated_example =
    copyinstr-unterminated 4100 (userspacetop + 10) 10 pages (omega arith) (omega arith)
      (omega arith) (omega arith) unterminated (λ i lt. (65, ground arith))

kernel_unchanged_example :
    ((copyout 4096 userspacetop 4 pages).1 (userspacetop + 1) ≡ pages (userspacetop + 1))
    × ((copyoutstr 4096 userspacetop 4 pages).1 (userspacetop + 1) ≡ pages (userspacetop + 1))
kernel_unchanged_example =
    kernel_unchanged 4096 userspacetop 4 (userspacetop + 1) pages (omega arith) (omega arith)
      (omega arith)
