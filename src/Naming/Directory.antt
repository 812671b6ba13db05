-- ===== src/Naming/Directory.antt =====
-- The reference that the current directory of a process holds, over `vfs_chdir`.
use mathlib.Core.Path.{subst}
use cs3891_asst.Base.{
  ℕ, ◌+◌, ◌<◌, ◌≡◌, ◌≢◌, inl, inr, refl, sym, ap, ◌∙◌, ◌==◌, if◌then◌else◌, true, Option, none,
  some, List, arith, ok, Run, ret, fail, panic, fault, ◌>>=◌, ◌>>◌, and_then, on_fail, Bool-cases,
  throw, enotdir,
}
use cs3891_asst.Naming.{Names, KnownDev, FileSystems, vnode_incref, vnode_decref}
use cs3891_asst.Naming.Calls.{
  vfs_lookup, vfs_setcurdir, vfs_chdir, decref_old, set_cwd, cwd_of, s_ifdir, answer,
}
use cs3891_asst.Naming.References.{
  Gained, Gives, gives, gives_none, is, itself, more, less, Gained-pos, Gained-less,
  vnode_decref-ret, AllKnown, Reclaims,
}
use cs3891_asst.Naming.Balance.{Result-cases}
use cs3891_asst.Naming.Lookups.{vfs_lookup-balanced}

abbrev pub held : Option ℕ → ℕ → ℕ
held o w = if is o w then 1 else 0

-- A new current directory took a reference and the old one gave its reference back, or nothing changed.
pub data Entered (s : Names) : Run Names (Unit {0}) → Type 0 where
  entered :
      {v : ℕ} {t : Names}
      → t.p_cwd ≡ some v
      → ((w : ℕ) → t.refs w + held s.p_cwd w ≡ s.refs w + held (some v) w)
      → (t.bootfs_vnode ≡ s.bootfs_vnode) × (t.depth ≡ s.depth)
      → Entered s (ret tt t)
  stayed : {e : ℕ} {t : Names} → Gained s t none → Entered s (fail e t)

module _ (f : FileSystems) (kds : List KnownDev) (path : List ℕ) (s : Names)
    (reclaims : Reclaims f) where
  abbrev inside : Names → ℕ → Names
  inside t v = record (more t v) { p_cwd = some v }

  setcurdir_old :
      (t : Names) (v n : ℕ) (o : Option ℕ)
      → f.vop_gettype v ≡ ok n
      → (n == s_ifdir) ≡ true
      → t.p_cwd ≡ o
      → vfs_setcurdir f kds v t ≡ decref_old f o (inside t v)
  unfolding vfs_setcurdir vnode_incref
  setcurdir_old t v n o e d c = ground (arith, e, d, c)

  -- after the lookup, by what VOP_GETTYPE says
  found_at :
      (t : Names) (v : ℕ) (o : Option ℕ)
      → s.p_cwd ≡ o
      → ((x : ℕ) → s.p_cwd ≡ some x → 0 < s.refs x)
      → vfs_lookup f kds path s ≡ ret v t
      → Gained s t (some v)
      → (n : ℕ) → f.vop_gettype v ≡ ok n
      → (n == s_ifdir) ≡ true
      → Entered s (vfs_chdir f kds path s)
  unfolding vfs_chdir
  found_at t v none cwd owned eq p n type dir =
      subst (Entered s)
        (ground (
          arith,
          eq,
          setcurdir_old t v n none type dir (p.cwd ∙ cwd),
          vnode_decref-ret f reclaims (inside t v) v (ground arith),
        ))
        (entered {v = v} {t = less (inside t v) v} refl (λ w. ground (arith, p.refs w, cwd))
          (p.boot, p.depth))
  found_at t v (some x) cwd owned eq p n type dir =
      let one : 0 < s.refs x = owned x cwd in
      let two : 0 < (inside t v).refs x = ground (arith, p.refs x) in
      let three : 0 < (less (inside t v) x).refs v = ground (arith, p.refs x, p.refs v) in
      subst (Entered s)
        (ground (
          arith,
          eq,
          setcurdir_old t v n (some x) type dir (p.cwd ∙ cwd),
          vnode_decref-ret f reclaims (inside t v) x two,
          vnode_decref-ret f reclaims (less (inside t v) x) v three,
        ))
        (entered {v = v} {t = less (less (inside t v) x) v} refl
          (λ w. ground (arith, p.refs w, p.refs x, p.refs v, cwd)) (p.boot, p.depth))

  -- what `vfs_chdir` does with the answer of `vfs_setcurdir`
  abbrev rest : ℕ → Run Names (Unit {0}) → Run Names (Unit {0})
  rest v r = and_then (on_fail (λ (_ : Names). r) (vnode_decref f v) s) (λ _. vnode_decref f v)

  setcurdir_refused :
      (t : Names) (v e : ℕ)
      → vfs_lookup f kds path s ≡ ret v t
      → Gained s t (some v)
      → vfs_setcurdir f kds v t ≡ fail e t
      → Entered s (vfs_chdir f kds path s)
  unfolding vfs_chdir
  setcurdir_refused t v e eq p refused =
      let looked : vfs_chdir f kds path s ≡ rest v (vfs_setcurdir f kds v t) =
        ap
          (λ r.
            and_then r
              (λ u. do on_fail (vfs_setcurdir f kds u) (vnode_decref f u); vnode_decref f u))
          eq in
      let undone : rest v (fail e t) ≡ fail e (less t v) =
        ground (arith, vnode_decref-ret f reclaims t v (Gained-pos p)) in
      subst (Entered s) (sym (looked ∙ ap (rest v) refused ∙ undone))
        (stayed {e = e} {t = less t v} (Gained-less p))

  chdir_from :
      (r : Run Names ℕ) (o : Option ℕ)
      → s.p_cwd ≡ o
      → ((v : ℕ) → s.p_cwd ≡ some v → 0 < s.refs v)
      → vfs_lookup f kds path s ≡ r
      → Gives itself s r
      → Entered s (vfs_chdir f kds path s)
  unfolding vfs_chdir vfs_setcurdir
  chdir_from (fail e t) o cwd owned eq (gives_none p) =
      subst (Entered s) (ground (arith, eq)) (stayed {e = e} p)
  chdir_from (ret v t) o cwd owned eq (gives p) = elim (Result-cases (f.vop_gettype v)) [
    | inr (e, bad) ↦ setcurdir_refused t v e eq p (
        ap
          (λ r. and_then (answer r t) (λ n.
            if n == s_ifdir
            then (do vnode_incref v; old ← cwd_of; set_cwd (some v); decref_old f old)
            else throw enotdir))
          bad)
    | inl (n, type) ↦ elim (Bool-cases (n == s_ifdir)) [
      | inl dir ↦ found_at t v o cwd owned eq p n type dir
      | inr other ↦ setcurdir_refused t v enotdir eq p (ground (arith, type, other))
    ]
  ]
  chdir_from panic o cwd owned eq g = elim g [ ]
  chdir_from fault o cwd owned eq g = elim g [ ]

-- With a table of known devices, a current directory that is on a file system and has a reference, if
-- there is one, and file systems on which VOP_RECLAIM succeeds, `vfs_chdir` returns, whatever else they
-- answer: with a new current directory, for
-- which it took one reference, and gave back that of the old one, or with an error, with every
-- count and the current directory as they were.
pub vfs_chdir-Entered :
    (f : FileSystems) (kds : List KnownDev) (path : List ℕ) (s : Names)
    → AllKnown kds
    → Reclaims f
    → ((v : ℕ) → s.p_cwd ≡ some v → f.vn_fs v ≢ none)
    → ((v : ℕ) → s.p_cwd ≡ some v → 0 < s.refs v)
    → Entered s (vfs_chdir f kds path s)
vfs_chdir-Entered f kds path s all reclaims on_fs owned =
    chdir_from f kds path s reclaims (vfs_lookup f kds path s) s.p_cwd refl owned refl
      (vfs_lookup-balanced f kds path 0 s all reclaims on_fs).0
