-- ===== src/Naming/Calls.antt =====
-- The calls of kern/vfs/vfslookup.c and kern/vfs/vfscwd.c that look names up and keep the vnodes.
use cs3891_asst.Base.{
  ℕ, ◌-◌, ◌==◌, if◌then◌else◌, Bool, false, Option, none, some, List, [], ◌∷◌, ◌++◌, take, ◌||◌,
  Result, ok, err, ret, K, pure, throw, ◌>>=◌, ◌>>◌, on_fail, einval, enotdir,
}
use cs3891_asst.Naming.{
  Names, KnownDev, FileSystems, vnode_incref, vnode_decref, vfs_biglock_acquire,
  vfs_biglock_release, give, vfs_getcurdir, getdevice, is_empty,
}

abbrev pub s_ifdir : ℕ
s_ifdir = 0o20000

abbrev pub name_max : ℕ
name_max = 255

abbrev pub decref_old : FileSystems → Option ℕ → K Names (Unit {0})
unfolding vnode_decref
decref_old f none = pure tt
decref_old f (some v) = vnode_decref f v

abbrev pub set_cwd : Option ℕ → K Names (Unit {0})
set_cwd v s = ret tt (record s { p_cwd = v })

abbrev pub cwd_of : K Names (Option ℕ)
cwd_of s = ret s.p_cwd s

-- VOP_LOOKPARENT gives the parent, with a reference, and the last part of the name.
abbrev pub give_parent : Result (ℕ × List ℕ) → K Names (ℕ × List ℕ)
unfolding vnode_incref
give_parent (ok (v, name)) = do vnode_incref v; pure (v, name)
give_parent (err e) = throw e

-- VOP_GETTYPE, which the model of a file system answers without a change
abbrev pub answer : Result ℕ → K Names ℕ
answer (ok n) = pure n
answer (err e) = throw e

module _ (f : FileSystems) (knowndevs : List KnownDev) where
  unfoldable pub vfs_lookup : List ℕ → K Names ℕ
  unfolding vnode_decref
  vfs_lookup path = do
    vfs_biglock_acquire
    (subpath, startvn) ← on_fail (getdevice f knowndevs path) vfs_biglock_release
    if is_empty subpath then (do vfs_biglock_release; pure startvn) else do
      v ←
          on_fail (give (f.vop_lookup startvn subpath))
            (do vnode_decref f startvn; vfs_biglock_release)
      vnode_decref f startvn
      vfs_biglock_release
      pure v

  unfoldable pub vfs_lookparent : List ℕ → ℕ → K Names (ℕ × List ℕ)
  unfolding vnode_decref
  vfs_lookparent path buflen = do
    vfs_biglock_acquire
    (subpath, startvn) ← on_fail (getdevice f knowndevs path) vfs_biglock_release
    found ←
        on_fail
          (if is_empty subpath
            then throw einval
            else give_parent (f.vop_lookparent startvn subpath buflen))
          (do vnode_decref f startvn; vfs_biglock_release)
    vnode_decref f startvn
    vfs_biglock_release
    pure found

  unfoldable pub vfs_setcurdir : ℕ → K Names (Unit {0})
  unfolding vnode_incref
  vfs_setcurdir dir = do
    vtype ← answer (f.vop_gettype dir)
    if vtype == s_ifdir
        then (do vnode_incref dir; old ← cwd_of; set_cwd (some dir); decref_old f old)
        else throw enotdir

  unfoldable pub vfs_clearcurdir : K Names (Unit {0})
  vfs_clearcurdir = do old ← cwd_of; set_cwd none; decref_old f old

  unfoldable pub vfs_chdir : List ℕ → K Names (Unit {0})
  unfolding vfs_lookup vfs_setcurdir vnode_decref
  vfs_chdir path = do
    vn ← vfs_lookup path
    on_fail (vfs_setcurdir vn) (vnode_decref f vn)
    vnode_decref f vn

  unfoldable pub change_bootfs : Option ℕ → K Names (Unit {0})
  change_bootfs newvn s =
      (do λ t. ret tt (record t { bootfs_vnode = newvn }); decref_old f s.bootfs_vnode) s

  -- `strchr(tmp, ':')` is not NULL
  abbrev pub has_colon : List ℕ → Bool
  has_colon [] = false
  has_colon (c ∷ cs) = c == b':' || has_colon cs

  -- What `snprintf` leaves in `tmp` has less than NAME_MAX characters. The text from a colon on is never
  -- empty, so every name with a colon is refused.
  unfoldable pub vfs_setbootfs : List ℕ → K Names (Unit {0})
  unfolding vfs_chdir vfs_getcurdir change_bootfs
  vfs_setbootfs fsname = do
    vfs_biglock_acquire
    if has_colon (take (name_max - 1) fsname) then (do vfs_biglock_release; throw einval) else do
      on_fail (vfs_chdir (take (name_max - 1) fsname ++ (b':' ∷ []))) vfs_biglock_release
      newguy ← on_fail vfs_getcurdir vfs_biglock_release
      change_bootfs (some newguy)
      vfs_biglock_release

  unfoldable pub vfs_clearbootfs : K Names (Unit {0})
  unfolding change_bootfs
  vfs_clearbootfs = do vfs_biglock_acquire; change_bootfs none; vfs_biglock_release
