-- ===== src/Examples/Moves.antt =====
-- Moves between a kernel page and the blocks of a uio in a user page.
use cs3891_asst.Base.{◌⊎◌, ℕ, ◌+◌, ◌<◌, ◌≡◌, refl, [], ◌∷◌, arith, ret}
use cs3891_asst.Copyinout.{userspacetop, Memory}
use cs3891_asst.Copyinout.Blocks.{Outside}
use cs3891_asst.Uiomove.{uio_read, uio_write, uio_userspace, Moving, uiomove, uiomovezeros}
use cs3891_asst.Uiomove.Account.{IsUserUio, Moved}
use cs3891_asst.Uiomove.Zeros.{moves_account}
use cs3891_asst.Uiomove.Content.{moved_uio, to_move, uiomove-copies}
use cs3891_asst.Examples.Copies.{pages, kernel-Mapped, user-Mapped}

-- Two blocks of 3 and 4 bytes, with an empty one between them.
abbrev three_blocks : Moving
three_blocks = record {
  uio = record {
    uio_iov =
        record { iov_base = 4096; iov_len = 3 }
        ∷ (record { iov_base = 4200; iov_len = 0 }
            ∷ (record { iov_base = 4300; iov_len = 4 } ∷ []));
    uio_offset = 100;
    uio_resid = 7;
    uio_segflg = uio_userspace;
    uio_rw = uio_read;
    uio_space = 5;
  };
  mem = pages;
}

three_blocks-IsUserUio : IsUserUio 5 three_blocks.uio
three_blocks-IsUserUio = record {
  counted = refl;
  fits = omega arith;
  ends = omega arith;
  user = λ e. ground arith;
  space = refl;
}

moves_account_example :
    Moved 5 three_blocks 40 (uiomove 5 userspacetop 40 three_blocks)
    × ((three_blocks.uio.uio_rw ≡ uio_write)
        ⊎ Moved 5 three_blocks 40 (uiomovezeros 5 userspacetop 40 three_blocks))
moves_account_example = moves_account 5 userspacetop 40 three_blocks three_blocks-IsUserUio

uiomove-copies_example :
    ((m' : Memory) × (uiomove 5 userspacetop 6 (to_move 5 userspacetop 4096 4 0 6 pages uio_read)
        ≡ ret tt (record { uio = moved_uio 5 4096 4 0 uio_read 4; mem = m' }))
      × ((i : ℕ) → i < 4 → m' (4096 + i) ≡ pages (userspacetop + i))
      × ((x : ℕ) → Outside x 4096 4 → m' x ≡ pages x))
    × ((m' : Memory) × (uiomove 5 userspacetop 6 (to_move 5 userspacetop 4096 4 0 6 pages uio_write)
          ≡ ret tt (record { uio = moved_uio 5 4096 4 0 uio_write 4; mem = m' }))
        × ((i : ℕ) → i < 4 → m' (userspacetop + i) ≡ pages (4096 + i))
        × ((x : ℕ) → Outside x userspacetop 4 → m' x ≡ pages x))
uiomove-copies_example =
    uiomove-copies 5 userspacetop 4096 4 0 6 pages (omega arith) (omega arith) (omega arith)
      (omega arith) (kernel-Mapped 6 (omega arith)) (user-Mapped 4 (omega arith))
