-- ===== src/Naming/Split.antt =====
-- How `getdevice` takes a path apart.
use mathlib.Core.Path.{subst}
use native.Mathlib.Nat.{zero-add}
use cs3891_asst.Base.{
  ℕ, suc, ◌+◌, ◌<◌, ◌≡◌, ◌≢◌, refl, ap, ◌∙◌, ◌==◌, false, none, some, List, [], ◌∷◌, ◌++◌, arith,
  take, drop, length, fail, ret, panic, Run, Option-cases, inl, inr, sym, zero, replicate, Result,
  ok, err, pure, ◌>>=◌, ◌>>◌, enoent,
}
use cs3891_asst.Naming.{
  Names, KnownDev, FileSystems, vnode_incref, vfs_getroot, vfs_getcurdir, from_current, give,
  first_mark, no_mark, colon_at, slash_at, skip_slashes, getdevice, by_mark,
}
use cs3891_asst.Naming.References.{
  Gained, Gained-exchange, Gained-more, Gained-pos, Gained-less, more, Reclaims, vnode_decref-ret,
}

-- no colon and no slash
abbrev pub Plain : List ℕ → Type 0
Plain [] = Unit {0}
Plain (c ∷ cs) = (c ≢ b':') × (c ≢ b'/') × Plain cs

first_mark-Plain : (cs : List ℕ) (i : ℕ) → Plain cs → first_mark cs i ≡ no_mark
unfolding first_mark
first_mark-Plain [] i p = refl
first_mark-Plain (c ∷ cs) i p = ground (arith, first_mark-Plain cs (i + 1) p.2)

first_mark-colon :
    (cs rest : List ℕ) (i : ℕ)
    → Plain cs
    → first_mark (cs ++ (b':' ∷ rest)) i ≡ colon_at (i + length cs)
unfolding first_mark
first_mark-colon [] rest i p = ground arith
first_mark-colon (c ∷ cs) rest i p = ground (arith, first_mark-colon cs rest (i + 1) p.2)

first_mark-slash :
    (cs rest : List ℕ) (i : ℕ)
    → Plain cs
    → first_mark (cs ++ (b'/' ∷ rest)) i ≡ slash_at (i + length cs)
unfolding first_mark
first_mark-slash [] rest i p = ground arith
first_mark-slash (c ∷ cs) rest i p = ground (arith, first_mark-slash cs rest (i + 1) p.2)

take-front : (cs rest : List ℕ) → take (length cs) (cs ++ rest) ≡ cs
take-front [] rest = refl
take-front (c ∷ cs) rest = ap (◌∷◌ c) (take-front cs rest)

drop-front : (cs rest : List ℕ) (c : ℕ) → drop (length cs + 1) (cs ++ (c ∷ rest)) ≡ rest
drop-front [] rest c = refl
drop-front (x ∷ cs) rest c =
    let e : suc (length cs) + 1 ≡ suc (length cs + 1) = omega arith in
    ap (λ k. drop k (x ∷ (cs ++ (c ∷ rest)))) e ∙ drop-front cs rest c

-- no slash in front
abbrev pub NoSlash : List ℕ → Type 0
NoSlash [] = Unit {0}
NoSlash (c ∷ cs) = c ≢ b'/'

skip_slashes-replicate :
    (n : ℕ) (tail : List ℕ) → NoSlash tail → skip_slashes (replicate n b'/' ++ tail) ≡ tail
unfolding skip_slashes
skip_slashes-replicate zero [] p = refl
skip_slashes-replicate zero (c ∷ cs) p = ground arith
skip_slashes-replicate (suc n) tail p = ground (arith, skip_slashes-replicate n tail p)

-- What `:rest` is looked up from: the root of the file system of the current directory.
pub data FromCurrent (f : FileSystems) (tail : List ℕ) (s : Names)
    : Run Names (List ℕ × ℕ) → Type 0 where
  no_cwd : s.p_cwd ≡ none → FromCurrent f tail s (fail enoent s)
  at_root :
      {v fs r : ℕ} {t : Names}
      → s.p_cwd ≡ some v
      → f.vn_fs v ≡ some fs
      → f.fsop_getroot fs ≡ ok r
      → Gained s t (some r)
      → FromCurrent f tail s (ret (tail, r) t)
  no_root :
      {v fs e : ℕ} {t : Names}
      → s.p_cwd ≡ some v
      → f.vn_fs v ≡ some fs
      → f.fsop_getroot fs ≡ err e
      → Gained s t none
      → FromCurrent f tail s (fail e t)
  on_device : {v : ℕ} → s.p_cwd ≡ some v → f.vn_fs v ≡ none → FromCurrent f tail s panic

module _ (f : FileSystems) (knowndevs : List KnownDev) (s : Names) (locked : 0 < s.depth) where
  getdevice-mark :
      (c : ℕ) (cs : List ℕ)
      → getdevice f knowndevs (c ∷ cs) s ≡ by_mark f knowndevs (first_mark (c ∷ cs) 0) (c ∷ cs) s
  unfolding getdevice
  getdevice-mark c cs = ground arith

  not_first : (c : ℕ) (cs : List ℕ) → (suc (length cs) == 0) ≡ false
  not_first c cs = ground arith

  device_path :
      (c : ℕ) (cs rest : List ℕ)
      → Plain (c ∷ cs)
      → getdevice f knowndevs (c ∷ (cs ++ (b':' ∷ rest))) s
        ≡ (do v ← vfs_getroot f knowndevs (c ∷ cs); pure (skip_slashes rest, v)) s
  device_path c cs rest p =
      getdevice-mark c (cs ++ (b':' ∷ rest))
      ∙ ap (λ m. by_mark f knowndevs m (c ∷ (cs ++ (b':' ∷ rest))) s)
          (first_mark-colon (c ∷ cs) rest 0 p ∙ ap colon_at (zero-add (suc (length cs))))
      ∙ rw (not_first c cs, take-front (c ∷ cs) (b':' ∷ rest), drop-front (c ∷ cs) rest b':') (refl)

  relative_path :
      (c : ℕ) (cs rest : List ℕ)
      → Plain (c ∷ cs)
      → getdevice f knowndevs (c ∷ (cs ++ (b'/' ∷ rest))) s
        ≡ (do v ← vfs_getcurdir; pure (c ∷ (cs ++ (b'/' ∷ rest)), v)) s
  relative_path c cs rest p =
      getdevice-mark c (cs ++ (b'/' ∷ rest))
      ∙ ap (λ m. by_mark f knowndevs m (c ∷ (cs ++ (b'/' ∷ rest))) s)
          (first_mark-slash (c ∷ cs) rest 0 p ∙ ap slash_at (zero-add (suc (length cs))))
      ∙ rw (not_first c cs) (refl)

  name_path :
      (c : ℕ) (cs : List ℕ)
      → Plain (c ∷ cs)
      → getdevice f knowndevs (c ∷ cs) s ≡ (do v ← vfs_getcurdir; pure (c ∷ cs, v)) s
  name_path c cs p =
      getdevice-mark c cs
      ∙ ap (λ m. by_mark f knowndevs m (c ∷ cs) s) (first_mark-Plain (c ∷ cs) 0 p)

  boot_path :
      (rest : List ℕ)
      → getdevice f knowndevs (b'/' ∷ rest) s ≡ (elim s.bootfs_vnode [
        | none ↦ fail enoent s
        | some v ↦ (do vnode_incref v; pure (skip_slashes rest, v)) s
      ])
  boot_path rest = getdevice-mark b'/' rest ∙ (unfold first_mark in refl)

-- the outcomes of `:path`, by the current directory and by the answers of its file system
module _ (f : FileSystems) (kds : List KnownDev) (reclaims : Reclaims f) (s : Names)
    (path tail : List ℕ) (skips : skip_slashes (drop 1 path) ≡ tail) where
  root_found :
      (v fs : ℕ) (r : Result ℕ)
      → s.p_cwd ≡ some v
      → f.vn_fs v ≡ some fs
      → f.fsop_getroot fs ≡ r
      → FromCurrent f tail s (from_current f kds path s)
  unfolding vfs_getcurdir vnode_incref give
  root_found v fs (ok r) cwd on root =
      let (pos, q) = Gained-exchange (Gained-more s v) (Gained-more (more s v) r) in
      subst (FromCurrent f tail s)
        (ground
          (arith, cwd, on, root, skips, vnode_decref-ret f reclaims (more (more s v) r) v pos))
        (at_root {v = v} {fs = fs} {r = r} cwd on root q)
  root_found v fs (err e) cwd on root =
      let p = Gained-more s v in
      subst (FromCurrent f tail s)
        (ground (arith, cwd, on, root, vnode_decref-ret f reclaims (more s v) v (Gained-pos p)))
        (no_root {v = v} {fs = fs} {e = e} cwd on root (Gained-less p))

  current_path : FromCurrent f tail s (from_current f kds path s)
  unfolding vfs_getcurdir vnode_incref
  current_path = elim (Option-cases s.p_cwd) [
    | inl none_set ↦ subst (FromCurrent f tail s) (ground (arith, none_set)) (no_cwd none_set)
    | inr (v, cwd) ↦ elim (Option-cases (f.vn_fs v)) [
      | inl off ↦ subst (FromCurrent f tail s) (ground (arith, cwd, off)) (on_device cwd off)
      | inr (fs, on) ↦ root_found v fs (f.fsop_getroot fs) cwd on refl
    ]
  ]

-- `getdevice`, called with the big lock held, on file systems on which VOP_RECLAIM succeeds. Below, `rest`
-- is any number of slashes and then `tail`, which has no slash in front. `device:rest`, with a device
-- name that is not empty and has no colon or slash, is `tail`, from the vnode of the device; a path with
-- a slash before any colon, or with neither, is itself, from the current directory; `/rest` is
-- `tail`, from the boot file system with one reference more, or ENOENT if there is none; and `:rest` is
-- `tail` from the root of the current directory's file system, with one reference more to the root and
-- to no other vnode, or the error of FSOP_GETROOT, or ENOENT without a current directory, with every
-- count as it was, or it panics if the current directory is on no file system.
pub getdevice-splits :
    (f : FileSystems) (knowndevs : List KnownDev) (s : Names) (c : ℕ) (cs : List ℕ) (n : ℕ)
    (tail : List ℕ)
    → 0 < s.depth
    → Reclaims f
    → Plain (c ∷ cs)
    → NoSlash tail
    → (getdevice f knowndevs (c ∷ (cs ++ (b':' ∷ (replicate n b'/' ++ tail)))) s
        ≡ (do v ← vfs_getroot f knowndevs (c ∷ cs); pure (tail, v)) s)
      × (getdevice f knowndevs (c ∷ (cs ++ (b'/' ∷ (replicate n b'/' ++ tail)))) s
          ≡ (do v ← vfs_getcurdir; pure (c ∷ (cs ++ (b'/' ∷ (replicate n b'/' ++ tail))), v)) s)
      × (getdevice f knowndevs (c ∷ cs) s ≡ (do v ← vfs_getcurdir; pure (c ∷ cs, v)) s)
      × (getdevice f knowndevs (b'/' ∷ (replicate n b'/' ++ tail)) s
          ≡ (elim s.bootfs_vnode [ none ↦ fail enoent s | some v ↦ ret (tail, v) (more s v) ]))
      × FromCurrent f tail s (getdevice f knowndevs (b':' ∷ (replicate n b'/' ++ tail)) s)
unfolding vnode_incref first_mark
getdevice-splits f knowndevs s c cs n tail locked reclaims p q =
    let rest = replicate n b'/' ++ tail in
    let skips = skip_slashes-replicate n tail q in
    (
      device_path f knowndevs s locked c cs rest p
          ∙ ap (λ xs. (do v ← vfs_getroot f knowndevs (c ∷ cs); pure (xs, v)) s) skips,
      relative_path f knowndevs s locked c cs rest p,
      name_path f knowndevs s locked c cs p,
      boot_path f knowndevs s locked rest
          ∙ ap
              (λ xs. elim s.bootfs_vnode [ none ↦ fail enoent s | some v ↦ ret (xs, v) (more s v) ])
              skips,
      subst (FromCurrent f tail s) (sym (getdevice-mark f knowndevs s locked b':' rest))
          (current_path f knowndevs reclaims s (b':' ∷ rest) tail skips),
    )
