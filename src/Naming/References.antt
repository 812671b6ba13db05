-- ===== src/Naming/References.antt =====
-- The references that the helpers of a lookup take and give back.
use mathlib.Core.Path.{subst}
use cs3891_asst.Base.{
  ℕ, ◌+◌, ◌-◌, ◌<◌, ◌≡◌, ◌≢◌, inl, inr, refl, ◌∙◌, ◌==◌, if◌then◌else◌, Bool, true, false, not,
  ◌&&◌, ◌||◌, Option, none, some, List, [], ◌∷◌, arith, Result, ok, err, Run, ret, fail, K, enoent,
  Bool-cases, Option-cases, enxio,
}
use cs3891_asst.Naming.{
  Names, KnownDev, KnownFs, no_fs, swap, mounted, FileSystems, update, vnode_incref, vnode_decref,
  give, vfs_getroot, vfs_getcurdir, is_none, is_no_fs, is_text, text_eq, device_tests,
  unmounted_tests, by_fs,
}

abbrev pub is : Option ℕ → ℕ → Bool
is none w = false
is (some v) w = w == v

-- `t` is `s`, with one reference more to `v` if there is one.
pub record Gained (s t : Names) (v : Option ℕ) : Type 0 where
  pub refs : (w : ℕ) → t.refs w ≡ s.refs w + (if is v w then 1 else 0)
  pub cwd : t.p_cwd ≡ s.p_cwd
  pub boot : t.bootfs_vnode ≡ s.bootfs_vnode
  pub depth : t.depth ≡ s.depth

-- A call that gives a vnode, with the reference to it, or an error, with none.
pub data Gives {A : Type 0} (of : A → ℕ) (s : Names) : Run Names A → Type 0 where
  gives : {a : A} {t : Names} → Gained s t (some (of a)) → Gives of s (ret a t)
  gives_none : {e : ℕ} {t : Names} → Gained s t none → Gives of s (fail e t)

abbrev pub itself : ℕ → ℕ
itself v = v

abbrev pub first : ℕ × List ℕ → ℕ
first p = p.0

abbrev pub second : List ℕ × ℕ → ℕ
second p = p.1

abbrev pub more : Names → ℕ → Names
more s v = record s { refs = update s.refs v (s.refs v + 1) }

pub Gained-none : (s : Names) → Gained s s none
Gained-none s = record { refs = λ w. omega arith; cwd = refl; boot = refl; depth = refl }

pub Gained-more : (s : Names) (v : ℕ) → Gained s (more s v) (some v)
Gained-more s v = record { refs = λ w. ground arith; cwd = refl; boot = refl; depth = refl }

abbrev pub less : Names → ℕ → Names
less s v = record s { refs = update s.refs v (s.refs v - 1) }

-- VOP_RECLAIM succeeds on every vnode.
abbrev pub Reclaims : FileSystems → Type 0
Reclaims f = (v : ℕ) → f.vop_reclaim v ≡ 0

-- `vnode_decref` gives back a reference.
pub vnode_decref-ret :
    (f : FileSystems)
    → Reclaims f
    → (s : Names) (v : ℕ) → 0 < s.refs v
    → vnode_decref f v s ≡ ret tt (less s v)
unfolding vnode_decref
vnode_decref-ret f reclaims s v pos = ground (arith, reclaims v)

pub Gained-pos : {s t : Names} {v : ℕ} → Gained s t (some v) → 0 < t.refs v
Gained-pos {v} g = ground (arith, g.refs v)

pub Gained-less : {s t : Names} {v : ℕ} → Gained s t (some v) → Gained s (less t v) none
Gained-less g = record {
  refs = λ w. ground (arith, g.refs w);
  cwd = g.cwd;
  boot = g.boot;
  depth = g.depth;
}

-- A second reference was taken, and the first is given back.
pub Gained-exchange :
    {s t u : Names} {v : ℕ} {o : Option ℕ}
    → Gained s t (some v)
    → Gained t u o
    → (0 < u.refs v) × Gained s (less u v) o
Gained-exchange {s} {t} {u} {v} {o} g h = (
  ground (arith, g.refs v, h.refs v),
  record {
    refs = λ w. ground (arith, g.refs w, h.refs w);
    cwd = h.cwd ∙ g.cwd;
    boot = h.boot ∙ g.boot;
    depth = h.depth ∙ g.depth;
  },
)

pub give-Gives : (s : Names) (r : Result ℕ) → Gives itself s (give r s)
unfolding give vnode_incref
give-Gives s (ok v) = gives (Gained-more s v)
give-Gives s (err e) = gives_none (Gained-none s)

getcurdir-cwd : (s : Names) (o : Option ℕ) → s.p_cwd ≡ o → Gives itself s (vfs_getcurdir s)
unfolding vfs_getcurdir vnode_incref
getcurdir-cwd s none e =
    subst (Gives itself s) (ground (arith, e)) (gives_none {e = enoent} (Gained-none s))
getcurdir-cwd s (some v) e =
    subst (Gives itself s) (ground (arith, e)) (gives {a = v} (Gained-more s v))

pub getcurdir-Gives : (s : Names) → Gives itself s (vfs_getcurdir s)
getcurdir-Gives s = getcurdir-cwd s s.p_cwd refl

-- What the table of devices keeps to, so that `vfs_getroot` does not panic: a device with a raw name
-- or no file system is there, and swap space has a raw name.
abbrev pub is_known : KnownDev → Bool
is_known kd = elim kd.kd_fs [
  | no_fs ↦ kd.kd_has_device
  | swap ↦ not (is_none kd.kd_rawname) && kd.kd_has_device
  | mounted fs ↦ is_none kd.kd_rawname || kd.kd_has_device
]

abbrev pub AllKnown : List KnownDev → Type 0
AllKnown [] = Unit {0}
AllKnown (kd ∷ kds) = (is_known kd ≡ true) × AllKnown kds

module _ (f : FileSystems) (kd : KnownDev) (devname : List ℕ) (s : Names)
    (known : is_known kd ≡ true) (next : K Names ℕ) (rest : Gives itself s (next s)) where
  -- The raw name is tried when the name does not fit.
  other_name :
      text_eq kd.kd_name devname ≡ false → Gives itself s (device_tests f kd devname next s)
  unfolding device_tests vnode_incref
  other_name off = elim (Bool-cases (is_text kd.kd_rawname devname)) [
    | inr no_raw ↦ subst (Gives itself s) (ground (arith, off, no_raw)) rest
    | inl raw ↦ elim (Option-cases kd.kd_rawname) [
      | inl missing ↦ absurd (ground arith)
      | inr (name, here) ↦
          let there : kd.kd_has_device ≡ true = has_device name here kd.kd_fs refl in
          subst (Gives itself s) (ground (arith, off, raw, there))
            (gives {a = kd.kd_vnode} (Gained-more s kd.kd_vnode))
    ]
  ]
    where
      has_device :
          (name : List ℕ)
          → kd.kd_rawname ≡ some name
          → (fs : KnownFs) → kd.kd_fs ≡ fs
          → kd.kd_has_device ≡ true
      has_device name here no_fs e = ground arith
      has_device name here swap e = ground arith
      has_device name here (mounted m) e = ground arith

  unmounted-Gives :
      ((x : ℕ) → kd.kd_fs ≢ mounted x) → Gives itself s (unmounted_tests f kd devname next s)
  unfolding device_tests vnode_incref
  unmounted-Gives not_mounted = elim (Bool-cases (text_eq kd.kd_name devname)) [
    | inr off ↦ subst (Gives itself s) (ground (arith, off)) (other_name off)
    | inl fits ↦ elim (Option-cases kd.kd_rawname) [
      | inr (name, here) ↦
          subst (Gives itself s) (ground (arith, fits)) (gives_none {e = enxio} (Gained-none s))
      | inl missing ↦
          let (none_there, there) = bare kd.kd_fs refl missing in
          subst (Gives itself s) (ground (arith, fits, none_there, there))
            (gives {a = kd.kd_vnode} (Gained-more s kd.kd_vnode))
    ]
  ]
    where
      bare :
          (fs : KnownFs)
          → kd.kd_fs ≡ fs
          → kd.kd_rawname ≡ none
          → (is_no_fs kd.kd_fs ≡ true) × (kd.kd_has_device ≡ true)
      bare no_fs e missing = ground arith
      bare swap e missing = ground arith
      bare (mounted x) e missing = absurd (not_mounted x e)

  mounted-Gives :
      (m : ℕ)
      → Gives itself s (
          (if text_eq kd.kd_name devname || is_text (f.fsop_getvolname m) devname
              then give (f.fsop_getroot m)
              else device_tests f kd devname next)
            s)
  mounted-Gives m =
      elim (Bool-cases (text_eq kd.kd_name devname || is_text (f.fsop_getvolname m) devname)) [
        | inl fits ↦ rw fits (give-Gives s (f.fsop_getroot m))
        | inr off ↦ rw off (other_name (ground arith))
      ]

  by_fs-Gives : (fs : KnownFs) → kd.kd_fs ≡ fs → Gives itself s (by_fs f fs kd devname next s)
  by_fs-Gives no_fs e = unmounted-Gives (λ x m. ground arith)
  by_fs-Gives swap e = unmounted-Gives (λ x m. ground arith)
  by_fs-Gives (mounted m) e = mounted-Gives m

pub getroot-Gives :
    (f : FileSystems) (kds : List KnownDev) (devname : List ℕ) (s : Names)
    → AllKnown kds
    → Gives itself s (vfs_getroot f kds devname s)
unfolding vfs_getroot
getroot-Gives f [] devname s all = gives_none (Gained-none s)
getroot-Gives f (kd ∷ kds) devname s (known, all) =
    by_fs-Gives f kd devname s known (vfs_getroot f kds devname) (getroot-Gives f kds devname s all)
      kd.kd_fs refl
