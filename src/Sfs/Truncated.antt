-- ===== src/Sfs/Truncated.antt =====
-- `sfs_itrunc` as a whole.
use cs3891_asst.Base.{
  ℕ, ◌^◌, ◌%◌, ◌+◌, ◌-◌, ◌<◌, ◌≡◌, ltb, leb, if◌then◌else◌, Bool, true, Run, ret, fail, on_fail,
  and_then, ◌>>◌,
}
use cs3891_asst.Sfs.{Disk, Fs, sfs_ndirect}
use cs3891_asst.Sfs.Inode.{block_at}
use cs3891_asst.Sfs.Truncate.{blocks_for, free_direct, biglock_release, set_size}
use cs3891_asst.Sfs.Shrink.{Shrunk}
use cs3891_asst.Sfs.Trim.{DirectTrimmed}

-- Whether block `k` stays. The first block after the end stays if the indirect block has it.
abbrev pub stays : ℕ → ℕ → Bool
stays blocklen k = if ltb k sfs_ndirect then ltb k blocklen else leb k blocklen

abbrev pub with_size : Fs → ℕ → Fs
with_size s len = record s { sfi_size = len % 2 ^ 32; sv_dirty = true }

pub record Truncated (s t : Fs) (len : ℕ) : Type 0 where
  pub shrunk : Shrunk (with_size s len) t
  pub at : (k : ℕ) → k < 143 → block_at t k ≡ (if stays (blocks_for len) k then block_at s k else 0)

pub data Itrunc (s : Fs) (len : ℕ) : Run Fs (Unit {0}) → Type 0 where
  truncated : {t : Fs} → Truncated s t len → Itrunc s len (ret tt t)
  not_truncated :
      {e : ℕ} {t : Fs} → t.sfi_size ≡ s.sfi_size → t.depth ≡ s.depth → Itrunc s len (fail e t)

abbrev hold : Fs → Fs
hold s = record s { depth = s.depth + 1 }

abbrev free : Fs → Fs
free s = record s { depth = s.depth - 1 }

module _ (device : Disk) (s : Fs) (len : ℕ) (t : Fs)
    (d : DirectTrimmed (blocks_for len) 0 (hold s) t)
    (ran : free_direct device (blocks_for len) 15 0 (hold s) ≡ ret tt t) where
  -- the end of `sfs_itrunc`
  abbrev rest : Run Fs (Unit {0}) → Run Fs (Unit {0})
  rest r =
      and_then (on_fail (λ (_ : Fs). r) biglock_release t) (λ _. do set_size len; biglock_release)
