-- ===== src/Naming/Balance.antt =====
-- Every lookup gives one reference with its vnode, and none with an error.
use mathlib.Core.Path.{subst}
use cs3891_asst.Base.{
  ℕ, zero, suc, ◌+◌, ◌<◌, ◌≡◌, ◌≢◌, ◌⊎◌, inl, inr, refl, sym, ◌==◌, false, Option, none, some, List,
  [], ◌∷◌, arith, Result, ok, err, Run, K, pure, ◌>>=◌, ◌>>◌, and_then, on_fail, enoent, einval,
  drop, take,
}
use cs3891_asst.Naming.{
  Names, KnownDev, FileSystems, vnode_incref, vnode_decref, give, vfs_getcurdir, first_mark, Mark,
  no_mark, colon_at, slash_at, skip_slashes, getdevice, getroot_of, from_here, from_device,
  from_boot, from_current, by_mark,
}
use cs3891_asst.Naming.References.{
  Gained, Gives, gives, gives_none, itself, second, more, Gained-none, Gained-more, Gained-pos,
  Gained-less, Gained-exchange, vnode_decref-ret, getcurdir-Gives, getroot-Gives, AllKnown,
  Reclaims,
}

pub Result-cases : {A : Type 0} (r : Result A) → ((a : A) × (r ≡ ok a)) ⊎ ((e : ℕ) × (r ≡ err e))
Result-cases (ok a) = inl (a, refl)
Result-cases (err e) = inr (e, refl)

pub Gives-then :
    {A : Type 0} {of : A → ℕ} {s : Names} {r : Run Names ℕ} (k : ℕ → K Names A)
    → Gives itself s r
    → ((v : ℕ) (t : Names) → Gained s t (some v) → Gives of s (k v t))
    → Gives of s (and_then r k)
Gives-then k (gives {a = v} {t} p) rest = rest v t p
Gives-then k (gives_none p) rest = gives_none p

module _ (f : FileSystems) (kds : List KnownDev) (all : AllKnown kds) (reclaims : Reclaims f) where
  boot-Gives :
      (path : List ℕ) (s : Names) (o : Option ℕ)
      → s.bootfs_vnode ≡ o
      → Gives second s (from_boot f kds path s)
  unfolding vnode_incref
  boot-Gives path s none e =
      subst (Gives second s) (ground (arith, e)) (gives_none {e = enoent} (Gained-none s))
  boot-Gives path s (some v) e =
      subst (Gives second s) (ground (arith, e))
        (gives {a = (skip_slashes (drop 1 path), v)} (Gained-more s v))

  -- with the current directory's reference taken in `t`
  root-Gives :
      (path : List ℕ) (s t : Names) (vn : ℕ) (r : Result ℕ)
      → Gained s t (some vn)
      → Gives second s (
          (do
            v ← on_fail (give r) (vnode_decref f vn)
            vnode_decref f vn
            pure (skip_slashes (drop 1 path), v))
            t)
  unfolding give vnode_incref
  root-Gives path s t vn (ok v) p =
      let (pos, q) = Gained-exchange p (Gained-more t v) in
      subst (Gives second s) (ground (arith, vnode_decref-ret f reclaims (more t v) vn pos))
        (gives {a = (skip_slashes (drop 1 path), v)} q)
  root-Gives path s t vn (err e) p =
      subst (Gives second s) (ground (arith, vnode_decref-ret f reclaims t vn (Gained-pos p)))
        (gives_none {e = e} (Gained-less p))

  with_fs :
      (path : List ℕ) (s t : Names) (vn : ℕ) (o : Option ℕ)
      → o ≢ none
      → Gained s t (some vn)
      → Gives second s (
          (do
            v ← on_fail (getroot_of f kds o) (vnode_decref f vn)
            vnode_decref f vn
            pure (skip_slashes (drop 1 path), v))
            t)
  with_fs path s t vn none there p = absurd (there refl)
  with_fs path s t vn (some fs) there p = root-Gives path s t vn (f.fsop_getroot fs) p

  current-Gives :
      (path : List ℕ) (s : Names) (o : Option ℕ)
      → s.p_cwd ≡ o
      → ((v : ℕ) → s.p_cwd ≡ some v → f.vn_fs v ≢ none)
      → Gives second s (from_current f kds path s)
  unfolding vfs_getcurdir vnode_incref
  current-Gives path s none e on_fs =
      subst (Gives second s) (ground (arith, e)) (gives_none {e = enoent} (Gained-none s))
  current-Gives path s (some v) e on_fs =
      let step : from_current f kds path s
          ≡ (do
            u ← on_fail (getroot_of f kds (f.vn_fs v)) (vnode_decref f v)
            vnode_decref f v
            pure (skip_slashes (drop 1 path), u))
              (more s v) =
        ground (arith, e) in
      subst (Gives second s) (sym step)
        (with_fs path s (more s v) v (f.vn_fs v) (on_fs v e) (Gained-more s v))

  module _ (s : Names) (on_fs : (v : ℕ) → s.p_cwd ≡ some v → f.vn_fs v ≢ none) where
    here-Gives : (path : List ℕ) → Gives second s (from_here f kds path s)
    here-Gives path = Gives-then (λ v. pure (path, v)) (getcurdir-Gives s) (λ v t p. gives p)

    device-Gives : (path : List ℕ) (i : ℕ) → Gives second s (from_device f kds path i s)
    device-Gives path i =
        Gives-then (λ v. pure (skip_slashes (drop (i + 1) path), v))
          (getroot-Gives f kds (take i path) s all) (λ v t p. gives p)

    mark-Gives : (m : Mark) (path : List ℕ) → Gives second s (by_mark f kds m path s)
    mark-Gives no_mark path = here-Gives path
    mark-Gives (slash_at zero) path = boot-Gives path s s.bootfs_vnode refl
    mark-Gives (slash_at (suc i)) path =
        let not_first : (suc i == 0) ≡ false = ground arith in rw not_first (here-Gives path)
    mark-Gives (colon_at zero) path = current-Gives path s s.p_cwd refl on_fs
    mark-Gives (colon_at (suc i)) path =
        let not_first : (suc i == 0) ≡ false = ground arith in
        rw not_first (device-Gives path (suc i))

    pub getdevice-Gives : (path : List ℕ) → 0 < s.depth → Gives second s (getdevice f kds path s)
    unfolding getdevice
    getdevice-Gives [] locked =
        subst (Gives second s) (ground arith) (gives_none {e = einval} (Gained-none s))
    getdevice-Gives (c ∷ cs) locked =
        let step : getdevice f kds (c ∷ cs) s ≡ by_mark f kds (first_mark (c ∷ cs) 0) (c ∷ cs) s =
          ground arith in
        subst (Gives second s) (sym step) (mark-Gives (first_mark (c ∷ cs) 0) (c ∷ cs))
