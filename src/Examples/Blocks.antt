-- ===== src/Examples/Blocks.antt =====
-- A volume of 16 blocks, with a file of 16 blocks of which three are there: its first block is block 5,
-- and its last one is block 9, the first entry of the indirect block 7.
use cs3891_asst.Base.{
  ℕ, zero, suc, ◌≡◌, refl, ◌==◌, if◌then◌else◌, true, false, List, [], ◌∷◌, Run, ret, replicate,
  eio,
}
use cs3891_asst.Bitmap.{Bitmap}
use cs3891_asst.Sfs.{Disk, Fs, sfs_writeblock, attempts, sfs_rwblock, sfs_readblock, empty_block}
use cs3891_asst.Sfs.Inode.{block_at}
use cs3891_asst.Sfs.Truncate.{free_direct, free_entries, sfs_itrunc}

unfoldable no_direct : List ℕ
no_direct = replicate 14 0

unfoldable no_words : List ℕ
no_words = replicate 127 0

-- Blocks 0, 1, 2, 5, 7 and 9 are in use.
abbrev map_of_16 : Bitmap
map_of_16 = record { nbits = 16; v = 167 ∷ (2 ∷ []) }

abbrev file : Fs
file = record {
  freemap = map_of_16;
  freemapdirty = false;
  sb_nblocks = 16;
  blocks = λ b. if b == 7 then 9 ∷ no_words else empty_block;
  requests = 0;
  sfi_direct = 5 ∷ no_direct;
  sfi_indirect = 7;
  sfi_size = 8192;
  sv_dirty = false;
  depth = 1;
}

-- The first request fails once.
abbrev first_fails : ℕ → ℕ
first_fails zero = eio
first_fails (suc n) = 0

-- as the driver answers a read
abbrev flaky : Disk
flaky = record { code = first_fails; used_up = λ n. false; buffer = λ n. empty_block }

-- as the driver answers a write: the data has left the uio when the disk fails
abbrev flaky_write : Disk
flaky_write = record { code = first_fails; used_up = λ n. true; buffer = λ n. empty_block }

-- Block 15 of the file is past the end of 15 blocks, and is still there.
abbrev last_block : {A : Type 0} → Run Fs A → ℕ
last_block (ret a t) = block_at t 15
last_block _ = 0

past_the_end : last_block (sfs_itrunc flaky 7680 file) ≡ 9
unfolding sfs_itrunc free_direct no_direct sfs_readblock sfs_rwblock attempts free_entries no_words
past_the_end = refl

-- The retry of a write that failed returns success, and block 9 is not written.
abbrev words_of : Run Fs (Unit {0}) → ℕ → List ℕ
words_of (ret a t) b = t.blocks b
words_of _ b = []

lost_write : words_of (sfs_writeblock flaky_write 9 (1 ∷ []) file) 9 ≡ empty_block
unfolding sfs_writeblock sfs_rwblock attempts
lost_write = refl

kept_write : words_of (sfs_writeblock flaky 9 (1 ∷ []) file) 9 ≡ (1 ∷ [])
unfolding sfs_writeblock sfs_rwblock attempts
kept_write = refl
