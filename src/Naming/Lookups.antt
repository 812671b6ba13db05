-- ===== src/Naming/Lookups.antt =====
-- `vfs_lookup` and `vfs_lookparent` as a whole.
use mathlib.Core.Path.{subst}
use cs3891_asst.Base.{
  ℕ, ◌+◌, ◌-◌, ◌<◌, ◌≡◌, ◌≢◌, inl, inr, refl, Option, none, some, List, arith, Run, ret, fail,
  panic, fault, Bool-cases, einval,
}
use cs3891_asst.Naming.{
  Names, KnownDev, FileSystems, vnode_incref, vfs_biglock_release, getdevice, is_empty,
}
use cs3891_asst.Naming.Calls.{vfs_lookup, vfs_lookparent}
use cs3891_asst.Naming.References.{
  Gained, Gives, gives, gives_none, itself, first, second, more, less, Gained-more, Gained-pos,
  Gained-less, Gained-exchange, vnode_decref-ret, AllKnown, Reclaims,
}
use cs3891_asst.Naming.Balance.{Result-cases, getdevice-Gives}

abbrev hold : Names → Names
hold s = record s { depth = s.depth + 1 }

abbrev free : Names → Names
free s = record s { depth = s.depth - 1 }

Gained-free :
    {s t : Names} {o : Option ℕ} → Gained (hold s) t o → (0 < t.depth) × Gained s (free t) o
Gained-free p = (
  ground (arith, p.depth),
  record { refs = p.refs; cwd = p.cwd; boot = p.boot; depth = ground (arith, p.depth) },
)

release-ret : (t : Names) → 0 < t.depth → vfs_biglock_release t ≡ ret tt (free t)
release-ret t held = ground arith

module _ (f : FileSystems) (kds : List KnownDev) (path : List ℕ) (s : Names)
    (reclaims : Reclaims f) where
  lookup_from :
      (r : Run Names (List ℕ × ℕ))
      → getdevice f kds path (hold s) ≡ r
      → Gives second (hold s) r
      → Gives itself s (vfs_lookup f kds path s)
  unfolding vfs_lookup vnode_incref
  lookup_from (fail e t) eq (gives_none p) =
      let (held, q) = Gained-free p in
      subst (Gives itself s) (ground (arith, eq, release-ret t held)) (gives_none {e = e} q)
  lookup_from (ret (sub, v) t) eq (gives p) = elim (Bool-cases (is_empty sub)) [
    | inl whole ↦
        let (held, q) = Gained-free p in
        subst (Gives itself s) (ground (arith, eq, whole, release-ret t held)) (gives {a = v} q)
    | inr part ↦ elim (Result-cases (f.vop_lookup v sub)) [
      | inl (u, found) ↦
          let (pos, q) = Gained-exchange p (Gained-more t u) in
          let (held, q') = Gained-free q in
          subst (Gives itself s)
            (ground (
              arith,
              eq,
              part,
              found,
              vnode_decref-ret f reclaims (more t u) v pos,
              release-ret (less (more t u) v) held,
            ))
            (gives {a = u} q')
      | inr (e, missing) ↦
          let (held, q) = Gained-free (Gained-less p) in
          subst (Gives itself s)
            (ground (
              arith,
              eq,
              part,
              missing,
              vnode_decref-ret f reclaims t v (Gained-pos p),
              release-ret (less t v) held,
            ))
            (gives_none {e = e} q)
    ]
  ]
  lookup_from panic eq g = elim g [ ]
  lookup_from fault eq g = elim g [ ]

  lookparent_from :
      (buflen : ℕ) (r : Run Names (List ℕ × ℕ))
      → getdevice f kds path (hold s) ≡ r
      → Gives second (hold s) r
      → Gives first s (vfs_lookparent f kds path buflen s)
  unfolding vfs_lookparent vnode_incref
  lookparent_from buflen (fail e t) eq (gives_none p) =
      let (held, q) = Gained-free p in
      subst (Gives first s) (ground (arith, eq, release-ret t held)) (gives_none {e = e} q)
  lookparent_from buflen (ret (sub, v) t) eq (gives p) =
      let (held, q) = Gained-free (Gained-less p) in
      elim (Bool-cases (is_empty sub)) [
        | inl whole ↦
            subst (Gives first s)
              (ground (
                arith,
                eq,
                whole,
                vnode_decref-ret f reclaims t v (Gained-pos p),
                release-ret (less t v) held,
              ))
              (gives_none {e = einval} q)
        | inr part ↦ elim (Result-cases (f.vop_lookparent v sub buflen)) [
          | inl ((u, name), found) ↦
              let (pos, q) = Gained-exchange p (Gained-more t u) in
              let (held, q') = Gained-free q in
              subst (Gives first s)
                (ground (
                  arith,
                  eq,
                  part,
                  found,
                  vnode_decref-ret f reclaims (more t u) v pos,
                  release-ret (less (more t u) v) held,
                ))
                (gives {a = (u, name)} q')
          | inr (e, missing) ↦
              subst (Gives first s)
                (ground (
                  arith,
                  eq,
                  part,
                  missing,
                  vnode_decref-ret f reclaims t v (Gained-pos p),
                  release-ret (less t v) held,
                ))
                (gives_none {e = e} q)
        ]
      ]
  lookparent_from buflen panic eq g = elim g [ ]
  lookparent_from buflen fault eq g = elim g [ ]

-- With a table of known devices, a current directory, if any, on a file system, and file systems on which
-- VOP_RECLAIM succeeds, `vfs_lookup` and `vfs_lookparent` return, whatever else they answer: with a vnode, and one reference more to it
-- and to no other vnode, or with an error, and the same references. The big lock is held as deep as
-- before, and the current directory and the boot file system are the same.
pub vfs_lookup-balanced :
    (f : FileSystems) (kds : List KnownDev) (path : List ℕ) (buflen : ℕ) (s : Names)
    → AllKnown kds
    → Reclaims f
    → ((v : ℕ) → s.p_cwd ≡ some v → f.vn_fs v ≢ none)
    → Gives itself s (vfs_lookup f kds path s) × Gives first s (vfs_lookparent f kds path buflen s)
vfs_lookup-balanced f kds path buflen s all reclaims on_fs =
    let found = getdevice-Gives f kds all reclaims (hold s) on_fs path (omega arith) in
    (
      lookup_from f kds path s reclaims (getdevice f kds path (hold s)) refl found,
      lookparent_from f kds path s reclaims buflen (getdevice f kds path (hold s)) refl found,
    )
