-- ===== src/Examples/Names.antt =====
-- Paths of a machine with one SFS volume on the disk lhd0, which is the boot file system, and the
-- device con.
use cs3891_asst.Base.{
  ℕ, ◌≡◌, refl, arith, ◌==◌, if◌then◌else◌, true, Option, none, some, List, [], ◌∷◌, ◌++◌, Result,
  ok, err, Run, ret, fail, pure, ◌>>=◌, einval, enoent, enotdir,
}
use cs3891_asst.Naming.{
  Names, KnownDev, no_fs, mounted, FileSystems, vfs_getroot, vfs_getcurdir, getdevice, skip_slashes,
  first_mark, vnode_incref, vnode_decref,
}
use cs3891_asst.Naming.Calls.{vfs_lookup, vfs_lookparent, vfs_chdir, vfs_setbootfs, s_ifdir}
use cs3891_asst.Naming.Split.{FromCurrent, getdevice-splits}
use cs3891_asst.Naming.References.{Reclaims, more, Gives, itself, first, AllKnown}
use cs3891_asst.Naming.Lookups.{vfs_lookup-balanced}
use cs3891_asst.Naming.Directory.{Entered, vfs_chdir-Entered}

abbrev con : List ℕ
con = b'c' ∷ b'o' ∷ b'n' ∷ []

abbrev lhd0 : List ℕ
lhd0 = b'l' ∷ b'h' ∷ b'd' ∷ b'0' ∷ []

abbrev lhd0raw : List ℕ
lhd0raw = b'l' ∷ b'h' ∷ b'd' ∷ b'0' ∷ b'r' ∷ b'a' ∷ b'w' ∷ []

abbrev bin : List ℕ
bin = b'b' ∷ b'i' ∷ b'n' ∷ []

-- Vnode 1 is the root directory, vnode 2 its subdirectory bin, 8 and 9 are the devices.
abbrev find_vnode : ℕ → Result ℕ
find_vnode v = if v == 1 then ok 2 else err enoent

abbrev type_of : ℕ → Result ℕ
type_of v = if v == 8 then ok 0o30000 else ok s_ifdir

abbrev volume : FileSystems
volume = record {
  vn_fs = λ v. some 5;
  vop_lookup = λ v path. find_vnode v;
  vop_lookparent = λ v path n. ok (v, path);
  vop_gettype = type_of;
  vop_reclaim = λ v. 0;
  fsop_getroot = λ fs. ok 1;
  fsop_getvolname = λ fs. some bin;
}

abbrev devices : List KnownDev
devices =
    record { kd_name = con; kd_rawname = none; kd_has_device = true; kd_vnode = 8; kd_fs = no_fs }
    ∷ (record {
      kd_name = lhd0;
      kd_rawname = some lhd0raw;
      kd_has_device = true;
      kd_vnode = 9;
      kd_fs = mounted 5;
    }
        ∷ [])

-- One reference to each vnode, and another to the current directory, bin.
abbrev now : Names
now = record {
  refs = λ v. if v == 2 then 2 else 1;
  p_cwd = some 2;
  bootfs_vnode = some 1;
  depth = 0;
}

abbrev locked : Names
locked = record now { depth = 1 }

abbrev slash_bin : List ℕ
slash_bin = b'/' ∷ bin

volume-Reclaims : Reclaims volume
volume-Reclaims v = refl

getdevice-splits_example :
    (getdevice volume devices (b'l' ∷ ((b'h' ∷ b'd' ∷ b'0' ∷ []) ++ (b':' ∷ slash_bin))) locked
      ≡ (do v ← vfs_getroot volume devices lhd0; pure (bin, v)) locked)
    × (getdevice volume devices (b'l' ∷ ((b'h' ∷ b'd' ∷ b'0' ∷ []) ++ (b'/' ∷ slash_bin))) locked
        ≡ (do v ← vfs_getcurdir; pure (b'l' ∷ ((b'h' ∷ b'd' ∷ b'0' ∷ []) ++ (b'/' ∷ slash_bin)), v))
            locked)
    × (getdevice volume devices lhd0 locked ≡ (do v ← vfs_getcurdir; pure (lhd0, v)) locked)
    × (getdevice volume devices (b'/' ∷ slash_bin) locked ≡ ret (bin, 1) (more locked 1))
    × FromCurrent volume bin locked (getdevice volume devices (b':' ∷ slash_bin) locked)
getdevice-splits_example =
    getdevice-splits volume devices locked b'l' (b'h' ∷ b'd' ∷ b'0' ∷ []) 1 bin (omega arith)
      volume-Reclaims (ground arith) (ground arith)

devices-AllKnown : AllKnown devices
devices-AllKnown = (refl, (refl, tt))

vfs_lookup-balanced_example :
    Gives itself now (vfs_lookup volume devices (b'/' ∷ bin) now)
    × Gives first now (vfs_lookparent volume devices (b'/' ∷ bin) 255 now)
vfs_lookup-balanced_example =
    vfs_lookup-balanced volume devices (b'/' ∷ bin) 255 now devices-AllKnown volume-Reclaims
      (λ v e. ground arith)

vfs_chdir-Entered_example : Entered now (vfs_chdir volume devices (lhd0 ++ (b':' ∷ [])) now)
vfs_chdir-Entered_example =
    vfs_chdir-Entered volume devices (lhd0 ++ (b':' ∷ [])) now devices-AllKnown volume-Reclaims
      (λ v e. ground arith) (λ v e. ground arith)

-- The counts of vnodes 1, 2 and 8, and the current directory, after a run.
abbrev counts : {A : Type 0} → Run Names A → List ℕ
counts (ret a t) = t.refs 1 ∷ (t.refs 2 ∷ (t.refs 8 ∷ (t.depth ∷ [])))
counts _ = []

entered_lhd0 :
    counts (vfs_chdir volume devices (lhd0 ++ (b':' ∷ [])) now) ≡ (2 ∷ (1 ∷ (1 ∷ (0 ∷ []))))
unfolding vfs_chdir getdevice first_mark vfs_getroot skip_slashes
entered_lhd0 = refl

found_bin : counts (vfs_lookup volume devices (b'/' ∷ bin) now) ≡ (1 ∷ (3 ∷ (1 ∷ (0 ∷ []))))
unfolding vfs_lookup getdevice first_mark vnode_incref skip_slashes
found_bin = refl

-- A device is not a directory.
abbrev error_of : {A : Type 0} → Run Names A → Option ℕ
error_of (fail e t) = some e
error_of _ = none

entered_con : error_of (vfs_chdir volume devices (con ++ (b':' ∷ [])) now) ≡ some enotdir
unfolding vfs_chdir getdevice first_mark vfs_getroot skip_slashes
entered_con = refl

-- A boot file system is named without its colon.
booted : counts (vfs_setbootfs volume devices lhd0 now) ≡ (2 ∷ (1 ∷ (1 ∷ (0 ∷ []))))
unfolding vfs_setbootfs getdevice first_mark vfs_getroot skip_slashes
booted = refl

colon_refused : error_of (vfs_setbootfs volume devices (lhd0 ++ (b':' ∷ [])) now) ≡ some einval
unfolding vfs_setbootfs
colon_refused = refl

-- The last reference stays where VOP_RECLAIM fails.
kept_last :
    counts (vnode_decref (record volume { vop_reclaim = λ v. 1 }) 1 now) ≡ counts (pure tt now)
unfolding vnode_decref
kept_last = refl

gone_last : counts (vnode_decref volume 1 now) ≡ (0 ∷ (2 ∷ (1 ∷ (0 ∷ []))))
unfolding vnode_decref
gone_last = refl
