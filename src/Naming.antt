-- ===== src/Naming.antt =====
-- kern/vfs/vfslookup.c and kern/vfs/vfscwd.c, with vfs_getroot and the big lock of kern/vfs/vfslist.c and
-- the reference counts of kern/vfs/vnode.c: from path names to vnodes. A path is the list of its
-- characters, and a vnode, a file system and a name's text stand for themselves as numbers.
pub mod Calls
pub mod Split
pub mod References
pub mod Balance
pub mod Lookups
pub mod Directory
use cs3891_asst.Base.{
  ℕ, zero, suc, ◌+◌, ◌-◌, ◌==◌, ltb, if◌then◌else◌, Bool, true, false, not, ◌&&◌, ◌||◌, Option,
  none, some, List, [], ◌∷◌, ◌++◌, take, drop, Result, ok, err, Run, ret, fail, panic, fault, K,
  pure, throw, ◌>>=◌, ◌>>◌, and_then, kassert, on_fail, einval, enoent, enotdir, enxio, enodev,
}

-- The counts of the vnodes, the current directory of the running process, the vnode of the boot file
-- system, and how deep the running thread holds the big lock.
pub record Names : Type 0 where
  pub refs : ℕ → ℕ
  pub p_cwd : Option ℕ
  pub bootfs_vnode : Option ℕ
  pub depth : ℕ

-- `struct knowndev`; the two special values of kd_fs are `none` for NULL, and `swap`.
pub data KnownFs : Type 0 where
  no_fs : KnownFs
  swap : KnownFs
  mounted : ℕ → KnownFs

pub record KnownDev : Type 0 where
  pub kd_name : List ℕ
  pub kd_rawname : Option (List ℕ)
  pub kd_has_device : Bool
  pub kd_vnode : ℕ
  pub kd_fs : KnownFs

-- What the file systems give through their tables of function pointers. The vnode that a lookup gives
-- has a reference for the caller, which the model counts at the call.
pub record FileSystems : Type 0 where
  pub vn_fs : ℕ → Option ℕ
  pub vop_lookup : ℕ → List ℕ → Result ℕ
  pub vop_lookparent : ℕ → List ℕ → ℕ → Result (ℕ × List ℕ)
  pub vop_gettype : ℕ → Result ℕ
  -- 0 or an error code
  pub vop_reclaim : ℕ → ℕ
  pub fsop_getroot : ℕ → Result ℕ
  pub fsop_getvolname : ℕ → Option (List ℕ)

abbrev pub update : (ℕ → ℕ) → ℕ → ℕ → ℕ → ℕ
update f v n w = if w == v then n else f w

unfoldable pub vnode_incref : ℕ → K Names (Unit {0})
vnode_incref v s = ret tt (record s { refs = update s.refs v (s.refs v + 1) })

-- The last reference goes to VOP_RECLAIM: the vnode is gone if that succeeds, and else the reference
-- stays.
unfoldable pub vnode_decref : FileSystems → ℕ → K Names (Unit {0})
vnode_decref f v s = and_then (kassert (ltb 0 (s.refs v)) s) (λ _ t. ret tt (
    if ltb 1 (t.refs v) || f.vop_reclaim v == 0
    then record t { refs = update t.refs v (t.refs v - 1) }
    else t))

abbrev pub vfs_biglock_acquire : K Names (Unit {0})
vfs_biglock_acquire s = ret tt (record s { depth = s.depth + 1 })

abbrev pub vfs_biglock_release : K Names (Unit {0})
vfs_biglock_release s =
    and_then (kassert (ltb 0 s.depth) s) (λ _ t. ret tt (record t { depth = t.depth - 1 }))

-- a vnode that comes with a reference
abbrev pub give : Result ℕ → K Names ℕ
unfolding vnode_incref
give (ok v) = do vnode_incref v; pure v
give (err e) = throw e

abbrev pub text_eq : List ℕ → List ℕ → Bool
text_eq [] [] = true
text_eq [] (y ∷ ys) = false
text_eq (x ∷ xs) [] = false
text_eq (x ∷ xs) (y ∷ ys) = (x == y) && text_eq xs ys

abbrev pub is_text : Option (List ℕ) → List ℕ → Bool
is_text none name = false
is_text (some t) name = text_eq t name

abbrev pub is_empty : List ℕ → Bool
is_empty [] = true
is_empty (c ∷ cs) = false

abbrev pub is_none : {A : Type 0} → Option A → Bool
is_none none = true
is_none (some a) = false

abbrev pub is_no_fs : KnownFs → Bool
is_no_fs no_fs = true
is_no_fs swap = false
is_no_fs (mounted f) = false

module _ (f : FileSystems) where
  -- the tests of one device that end the search of `vfs_getroot`, and `rest` if none does
  abbrev pub device_tests : KnownDev → List ℕ → K Names ℕ → K Names ℕ
  unfolding vnode_incref
  device_tests kd devname rest =
      if text_eq kd.kd_name devname
      then (do
        kassert (is_no_fs kd.kd_fs)
        kassert (is_none kd.kd_rawname)
        kassert kd.kd_has_device
        vnode_incref kd.kd_vnode
        pure kd.kd_vnode)
      else if is_text kd.kd_rawname devname
      then (do kassert kd.kd_has_device; vnode_incref kd.kd_vnode; pure kd.kd_vnode)
      else rest

  abbrev pub unmounted_tests : KnownDev → List ℕ → K Names ℕ → K Names ℕ
  unmounted_tests kd devname rest =
      if not (is_none kd.kd_rawname) && text_eq kd.kd_name devname
      then throw enxio
      else device_tests kd devname rest

  -- all tests of one device, by what is mounted on it
  abbrev pub by_fs : KnownFs → KnownDev → List ℕ → K Names ℕ → K Names ℕ
  by_fs (mounted fs) kd devname rest =
      if text_eq kd.kd_name devname || is_text (f.fsop_getvolname fs) devname
      then give (f.fsop_getroot fs)
      else device_tests kd devname rest
  by_fs no_fs kd devname rest = unmounted_tests kd devname rest
  by_fs swap kd devname rest = unmounted_tests kd devname rest

  unfoldable pub vfs_getroot : List KnownDev → List ℕ → K Names ℕ
  vfs_getroot [] devname = throw enodev
  vfs_getroot (kd ∷ kds) devname = by_fs kd.kd_fs kd devname (vfs_getroot kds devname)

unfoldable pub vfs_getcurdir : K Names ℕ
unfolding vnode_incref
vfs_getcurdir s = elim s.p_cwd [ none ↦ fail enoent s | some v ↦ (do vnode_incref v; pure v) s ]

-- the first colon or slash
pub data Mark : Type 0 where
  no_mark : Mark
  colon_at : ℕ → Mark
  slash_at : ℕ → Mark

unfoldable pub first_mark : List ℕ → ℕ → Mark
first_mark [] i = no_mark
first_mark (c ∷ cs) i =
    if c == b':' then colon_at i else if c == b'/' then slash_at i else first_mark cs (i + 1)

unfoldable pub skip_slashes : List ℕ → List ℕ
skip_slashes [] = []
skip_slashes (c ∷ cs) = if c == b'/' then skip_slashes cs else c ∷ cs

module _ (f : FileSystems) (knowndevs : List KnownDev) where
  -- no device name: the whole path, from the current directory
  abbrev pub from_here : List ℕ → K Names (List ℕ × ℕ)
  from_here path = do v ← vfs_getcurdir; pure (path, v)

  abbrev pub from_device : List ℕ → ℕ → K Names (List ℕ × ℕ)
  from_device path colon = do
    v ← vfs_getroot f knowndevs (take colon path)
    pure (skip_slashes (drop (colon + 1) path), v)

  abbrev pub from_boot : List ℕ → K Names (List ℕ × ℕ)
  from_boot path s = elim s.bootfs_vnode [
    | none ↦ fail enoent s
    | some v ↦ (do vnode_incref v; pure (skip_slashes (drop 1 path), v)) s
  ]

  abbrev pub getroot_of : Option ℕ → K Names ℕ
  getroot_of none s = panic
  getroot_of (some fs) s = give (f.fsop_getroot fs) s

  abbrev pub from_current : List ℕ → K Names (List ℕ × ℕ)
  from_current path = do
    vn ← vfs_getcurdir
    v ← on_fail (getroot_of (f.vn_fs vn)) (vnode_decref f vn)
    vnode_decref f vn
    pure (skip_slashes (drop 1 path), v)

  abbrev pub by_mark : Mark → List ℕ → K Names (List ℕ × ℕ)
  by_mark no_mark path = from_here path
  by_mark (slash_at i) path = if i == 0 then from_boot path else from_here path
  by_mark (colon_at i) path = if i == 0 then from_current path else from_device path i

  -- The result is the path that is left, and the vnode from which it is looked up.
  unfoldable pub getdevice : List ℕ → K Names (List ℕ × ℕ)
  getdevice path = do
    (λ s. kassert (ltb 0 s.depth) s)
    if is_empty path then throw einval else by_mark (first_mark path 0) path
