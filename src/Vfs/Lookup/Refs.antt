-- ===== src/Vfs/Lookup/Refs.antt =====
-- A lookup gives one reference, to the vnode it finds, and keeps none on the way.
use cs.Base.{
  ℕ, ◌+◌, true, List, [], ◌∷◌, Option, none, some, ret, ok, err, and_then, ◌==◌, if◌then◌else◌, ◌≡◌,
  refl, arith,
}
use cs.Vfs.{Name, KnownDev, FsOps, is_some, einval}
use cs.Vfs.Table.{IsTable}
use cs.Vfs.Getroot.{getroot-ret}
use cs.Vfs.Lookup.{
  VnodeOps, Vnodes, Start, here, device, boot, volume, ◌>>◌, give, decref, with_ref, referenced,
  parent, getcurdir, split, root_from, lookup_from, lookparent_from, or_enoent, enoent, incref,
  with_refs, start_at, getdevice, lookup, lookparent,
}
use cs.Vfs.Lookup.Counts.{
  Counts, gained, failed, one, IsReclaiming, decref-ret, more-IsReclaiming, and_drop-Counts,
  moved-Counts, then-Counts, with_ref-adds, referenced-Counts, parent-Counts, or_enoent-Counts,
  Counts-base,
}

-- The table is in order, VOP_RECLAIM takes out of memory every vnode that has no reference yet, and
-- the current directory, if there is one, lies in a file system. The vnode of a device, which
-- VOP_RECLAIM leaves alone, has the reference that it was made with.
pub record IsWorking (fsops : FsOps) (ops : VnodeOps) (devs : List KnownDev) (s : Vnodes)
    : Type 0 where
  pub table : IsTable fsops devs
  pub reclaims : IsReclaiming ops s.refs
  pub in_fs : (v : ℕ) → s.cwd ≡ some v → is_some (ops.fs_of v) ≡ true

module _ (fsops : FsOps) (ops : VnodeOps) (devs : List KnownDev) where
  root_from-Counts :
      (v : ℕ) (o : Option ℕ) (s : Vnodes) (base : ℕ → ℕ)
      → IsReclaiming ops base
      → is_some o ≡ true
      → ((j : ℕ) → s.refs j ≡ base j + one v j)
      → Counts s base one (root_from fsops ops v o s)
  root_from-Counts v none s base reclaims f h = absurd (ground (arith, f))
  root_from-Counts v (some fs) s base reclaims f h =
      then-Counts s base (λ x j. one v j + one x j) one (λ r. decref ops v >> give (ok r))
        (λ x t h' c b.
          let (u, e, refs, c', b') =
            decref-ret ops v t (λ j. base j + one x j)
              (more-IsReclaiming ops base _ reclaims (λ j. omega arith))
              (λ j. omega (arith, h' j)) in
          rw e (gained x u refs c' b'))
        (with_ref (fsops.root fs) s)
        (with_ref-adds (fsops.root fs) s base (λ x j. one v j + one x j) (λ j. omega (arith, h j)))

  cwd-Counts :
      (o : Option ℕ) (s : Vnodes)
      → IsReclaiming ops s.refs
      → ((v : ℕ) → o ≡ some v → is_some (ops.fs_of v) ≡ true)
      → Counts s s.refs one (and_then (or_enoent o s) (λ v. root_from fsops ops v (ops.fs_of v)))
  unfolding incref
  cwd-Counts none s reclaims f = failed enoent s (λ j. refl) refl refl
  cwd-Counts (some v) s reclaims f =
      let t : Vnodes = with_refs s (λ j. if j == v then s.refs j + 1 else s.refs j) in
      moved-Counts s t s.refs one (root_from fsops ops v (ops.fs_of v) t) refl refl
        (root_from-Counts v (ops.fs_of v) t s.refs reclaims (f v refl) (λ j. ground arith))

  start_at-Counts :
      (st : Start) (s : Vnodes)
      → IsWorking fsops ops devs s
      → Counts s s.refs one (start_at fsops ops devs st s)
  unfolding start_at getcurdir
  start_at-Counts here s w = or_enoent-Counts s.cwd s
  start_at-Counts (device n) s w =
      let (r, e) = getroot-ret fsops n devs w.table in rw (e, start_at) (referenced-Counts r s)
  start_at-Counts boot s w = or_enoent-Counts s.bootfs s
  start_at-Counts volume s w = cwd-Counts s.cwd s w.reclaims w.in_fs

  getdevice-Counts :
      (path : Name) (s : Vnodes)
      → IsWorking fsops ops devs s
      → Counts s s.refs (λ (d : ℕ × Name). one d.0) (getdevice fsops ops devs path s)
  unfolding getdevice
  getdevice-Counts path s w =
      then-Counts s s.refs one (λ (d : ℕ × Name). one d.0) (λ v. give (ok (v, (split path).1)))
        (λ v t h c b. gained (v, (split path).1) t h refl refl)
        (start_at fsops ops devs (split path).0 s) (start_at-Counts (split path).0 s w)

  lookup_from-Counts :
      (v : ℕ) (sub : Name) (s : Vnodes) (base : ℕ → ℕ)
      → IsReclaiming ops base
      → ((j : ℕ) → s.refs j ≡ base j + one v j)
      → Counts s base one (lookup_from ops v sub s)
  lookup_from-Counts v [] s base reclaims h = gained v s h refl refl
  lookup_from-Counts v (c ∷ cs) s base reclaims h =
      let r = referenced (ops.lookup v (c ∷ cs)) s in
      and_drop-Counts ops v s base one reclaims r (
        Counts-base s s.refs (λ j. base j + one v j) one r h
          (referenced-Counts (ops.lookup v (c ∷ cs)) s))

  -- Where the table of devices is in order, the current directory, if there is one, lies in a file
  -- system, and VOP_RECLAIM takes out of memory every vnode that had no reference: vfs_lookup
  -- returns, for any path. With a vnode, that vnode has one reference more than before and every
  -- other as many; with an error, every vnode has as many as before.
  pub lookup-Counts :
      (path : Name) (s : Vnodes)
      → IsWorking fsops ops devs s
      → Counts s s.refs one (lookup fsops ops devs path s)
  unfolding lookup
  lookup-Counts path s w =
      then-Counts s s.refs (λ (d : ℕ × Name). one d.0) one (λ d. lookup_from ops d.0 d.1)
        (λ d t h c b. lookup_from-Counts d.0 d.1 t s.refs w.reclaims h)
        (getdevice fsops ops devs path s) (getdevice-Counts path s w)

  lookparent_from-Counts :
      (v : ℕ) (sub : Name) (buflen : ℕ) (s : Vnodes) (base : ℕ → ℕ)
      → IsReclaiming ops base
      → ((j : ℕ) → s.refs j ≡ base j + one v j)
      → Counts s base (λ (d : ℕ × Name). one d.0) (lookparent_from ops v sub buflen s)
  lookparent_from-Counts v [] buflen s base reclaims h =
      and_drop-Counts ops v s base (λ (d : ℕ × Name). one d.0) reclaims (ret (err einval, s))
        (failed einval s h refl refl)
  lookparent_from-Counts v (c ∷ cs) buflen s base reclaims h =
      let r = parent (ops.lookparent v (c ∷ cs) buflen) s in
      and_drop-Counts ops v s base (λ (d : ℕ × Name). one d.0) reclaims r
        (Counts-base s s.refs (λ j. base j + one v j) (λ (d : ℕ × Name). one d.0) r h
          (parent-Counts (ops.lookparent v (c ∷ cs) buflen) s))

  -- The same for vfs_lookparent and the directory that it hands back.
  pub lookparent-Counts :
      (path : Name) (buflen : ℕ) (s : Vnodes)
      → IsWorking fsops ops devs s
      → Counts s s.refs (λ (d : ℕ × Name). one d.0) (lookparent fsops ops devs path buflen s)
  unfolding lookparent
  lookparent-Counts path buflen s w =
      then-Counts s s.refs (λ (d : ℕ × Name). one d.0) (λ (d : ℕ × Name). one d.0)
        (λ d. lookparent_from ops d.0 d.1 buflen)
        (λ d t h c b. lookparent_from-Counts d.0 d.1 buflen t s.refs w.reclaims h)
        (getdevice fsops ops devs path s) (getdevice-Counts path s w)
