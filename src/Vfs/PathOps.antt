-- ===== src/Vfs/PathOps.antt =====
-- vfs/vfspath.c: the operations that take paths, up to the file system's own operation, whose return
-- value is a parameter. vfs_open and vfs_close are in Open.
use cs.Base.{
  ◌≤◌, ℕ, ◌+◌, Bool, false, List, Option, none, some, Result, ok, err, ◌==◌, if◌then◌else◌, ◌≡◌,
  refl, sym, ◌∙◌, arith,
}
use cs.Vfs.{Name, KnownDev, FsOps}
use cs.Vfs.Lookup.{VnodeOps, Vnodes, Op, ◌>>=◌, give, and_drop, lookup, lookparent}
use cs.Vfs.Lookup.Counts.{
  Counts, gained, failed, one, nothing, and_drop-Counts, more-IsReclaiming, then-Counts,
  Counts-base,
}
use cs.Vfs.Lookup.Refs.{IsWorking, lookup-Counts, lookparent-Counts}

abbrev pub exdev : ℕ
exdev = 24

-- NAME_MAX + 1
abbrev pub name_buf : ℕ
name_buf = 256

-- A return value of C
abbrev pub code : ℕ → Result (Unit {0})
code e = if e == 0 then ok tt else err e

abbrev pub and_dropping : {A : Type 0} → VnodeOps → ℕ → Op A → Op A
and_dropping ops v o s = and_drop ops v (o s)

-- Both vnodes are in a file system, and in the same one.
abbrev pub together : Option ℕ → Option ℕ → Bool
together none b = false
together (some a) none = false
together (some a) (some b) = a == b

module _ (fsops : FsOps) (ops : VnodeOps) (devs : List KnownDev) where
  -- An operation on a name in its parent, where `vop` is what the file system's operation returns for
  -- the directory and the name
  pub in_parent : (ℕ → Name → ℕ) → Name → Op (Unit {0})
  in_parent vop path = lookparent fsops ops devs path name_buf >>= λ d.
      and_dropping ops d.0 (give (code (vop d.0 d.1)))

  -- vfs_remove, vfs_mkdir, vfs_rmdir and vfs_symlink, with VOP_REMOVE, VOP_MKDIR for a mode,
  -- VOP_RMDIR and VOP_SYMLINK for the contents
  pub remove : (ℕ → Name → ℕ) → Name → Op (Unit {0})
  remove = in_parent

  pub mkdir : (ℕ → Name → ℕ → ℕ) → Name → ℕ → Op (Unit {0})
  mkdir vop path mode = in_parent (λ dir name. vop dir name mode) path

  pub rmdir : (ℕ → Name → ℕ) → Name → Op (Unit {0})
  rmdir = in_parent

  pub symlink : (ℕ → Name → Name → ℕ) → Name → Name → Op (Unit {0})
  symlink vop contents path = in_parent (λ dir name. vop dir name contents) path

  -- vfs_readlink, where `vop` is what VOP_READLINK returns
  pub readlink : (ℕ → ℕ) → Name → Op (Unit {0})
  readlink vop path = lookup fsops ops devs path >>= λ v. and_dropping ops v (give (code (vop v)))

  -- The end of vfs_rename and of vfs_link, with two vnodes in hand
  abbrev pub if_together : ℕ → ℕ → ℕ → Result (Unit {0})
  if_together a b e = if together (ops.fs_of a) (ops.fs_of b) then code e else err exdev

  -- vfs_rename, where `vop` is what VOP_RENAME returns
  pub rename : (ℕ → Name → ℕ → Name → ℕ) → Name → Name → Op (Unit {0})
  rename vop oldpath newpath = lookparent fsops ops devs oldpath name_buf >>= λ d.
      and_dropping ops d.0 (
        lookparent fsops ops devs newpath name_buf >>= λ n.
        and_dropping ops n.0 (give (if_together d.0 n.0 (vop d.0 d.1 n.0 n.1))))

  -- vfs_link, where `vop` is what VOP_LINK returns
  pub link : (ℕ → Name → ℕ → ℕ) → Name → Name → Op (Unit {0})
  link vop oldpath newpath = lookup fsops ops devs oldpath >>= λ f. and_dropping ops f (
      lookparent fsops ops devs newpath name_buf >>= λ n.
      and_dropping ops n.0 (give (if_together f n.0 (vop n.0 n.1 f))))

  give-Counts :
      {A : Type 0} (r : Result A) (s : Vnodes) (base : ℕ → ℕ)
      → ((j : ℕ) → s.refs j ≡ base j)
      → Counts s base nothing (give r s)
  give-Counts (ok a) s base h = gained a s (λ j. omega (arith, h j)) refl refl
  give-Counts (err e) s base h = failed e s h refl refl

  IsWorking-later :
      (s t : Vnodes)
      → IsWorking fsops ops devs s
      → ((j : ℕ) → s.refs j ≤ t.refs j)
      → t.cwd ≡ s.cwd
      → IsWorking fsops ops devs t
  IsWorking-later s t w le c = record {
    table = w.table;
    reclaims = more-IsReclaiming ops s.refs t.refs w.reclaims le;
    in_fs = λ v e. w.in_fs v (sym c ∙ e);
  }

  in_parent-Counts :
      (f : ℕ × Name → Result (Unit {0})) (path : Name) (s : Vnodes)
      → IsWorking fsops ops devs s
      → Counts s s.refs nothing
          ((lookparent fsops ops devs path name_buf >>= λ d. and_dropping ops d.0 (give (f d))) s)
  in_parent-Counts f path s w =
      then-Counts s s.refs (λ (d : ℕ × Name). one d.0) nothing
        (λ d. and_dropping ops d.0 (give (f d)))
        (λ d t h c b.
          and_drop-Counts ops d.0 t s.refs nothing w.reclaims (give (f d) t)
            (give-Counts (f d) t (λ j. s.refs j + one d.0 j) h))
        (lookparent fsops ops devs path name_buf s)
        (lookparent-Counts fsops ops devs path name_buf s w)

  -- The second lookup of an operation, under a reference to `v`
  under-Counts :
      (v : ℕ) (f : ℕ × Name → Result (Unit {0})) (path : Name) (s t : Vnodes)
      → IsWorking fsops ops devs s
      → ((j : ℕ) → t.refs j ≡ s.refs j + one v j)
      → t.cwd ≡ s.cwd
      → Counts t s.refs nothing (
          and_dropping ops v
            (lookparent fsops ops devs path name_buf >>= λ d. and_dropping ops d.0 (give (f d)))
            t)
  under-Counts v f path s t w h c =
      let o : Op (Unit {0}) =
        lookparent fsops ops devs path name_buf >>= λ d. and_dropping ops d.0 (give (f d)) in
      and_drop-Counts ops v t s.refs nothing w.reclaims (o t) (
        Counts-base t t.refs (λ j. s.refs j + one v j) nothing (o t) h
          (in_parent-Counts f path t (IsWorking-later s t w (λ j. omega (arith, h j)) c)))

  readlink-Counts :
      (at : ℕ → ℕ) (path : Name) (s : Vnodes)
      → IsWorking fsops ops devs s
      → Counts s s.refs nothing (readlink at path s)
  unfolding readlink
  readlink-Counts at path s w =
      then-Counts s s.refs one nothing (λ v. and_dropping ops v (give (code (at v))))
        (λ v t h c b.
          and_drop-Counts ops v t s.refs nothing w.reclaims (give (code (at v)) t)
            (give-Counts (code (at v)) t (λ j. s.refs j + one v j) h))
        (lookup fsops ops devs path s) (lookup-Counts fsops ops devs path s w)

  rename-Counts :
      (move : ℕ → Name → ℕ → Name → ℕ) (old path : Name) (s : Vnodes)
      → IsWorking fsops ops devs s
      → Counts s s.refs nothing (rename move old path s)
  unfolding rename
  rename-Counts move old path s w =
      then-Counts s s.refs (λ (d : ℕ × Name). one d.0) nothing _
        (λ d t h c b.
          under-Counts d.0 (λ n. if_together d.0 n.0 (move d.0 d.1 n.0 n.1)) path s t w h c)
        (lookparent fsops ops devs old name_buf s)
        (lookparent-Counts fsops ops devs old name_buf s w)

  link-Counts :
      (name : ℕ → Name → ℕ → ℕ) (old path : Name) (s : Vnodes)
      → IsWorking fsops ops devs s
      → Counts s s.refs nothing (link name old path s)
  unfolding link
  link-Counts name old path s w =
      then-Counts s s.refs one nothing _
        (λ f t h c b. under-Counts f (λ n. if_together f n.0 (name n.0 n.1 f)) path s t w h c)
        (lookup fsops ops devs old s) (lookup-Counts fsops ops devs old s w)

  -- Where the table of devices is in order, the current directory, if there is one, lies in a file
  -- system, and VOP_RECLAIM takes out of memory every vnode that had no reference: vfs_remove,
  -- vfs_mkdir, vfs_rmdir, vfs_symlink, vfs_readlink, vfs_rename and vfs_link return, for any paths
  -- and any result of the file system's lookups and of the operation itself, with every reference
  -- count, the current directory and the boot file system as before.
  pub pathops-Counts :
      (in_dir : ℕ → Name → ℕ) (make : ℕ → Name → ℕ → ℕ) (sym_at : ℕ → Name → Name → ℕ) (at : ℕ → ℕ)
      (move : ℕ → Name → ℕ → Name → ℕ) (name : ℕ → Name → ℕ → ℕ) (mode : ℕ) (old path : Name)
      (s : Vnodes)
      → IsWorking fsops ops devs s
      → Counts s s.refs nothing (remove in_dir path s)
        × Counts s s.refs nothing (mkdir make path mode s)
        × Counts s s.refs nothing (rmdir in_dir path s)
        × Counts s s.refs nothing (symlink sym_at old path s)
        × Counts s s.refs nothing (readlink at path s)
        × Counts s s.refs nothing (rename move old path s)
        × Counts s s.refs nothing (link name old path s)
  unfolding in_parent remove mkdir rmdir symlink
  pathops-Counts in_dir make sym_at at move name mode old path s w = (
    in_parent-Counts (λ d. code (in_dir d.0 d.1)) path s w,
    in_parent-Counts (λ d. code (make d.0 d.1 mode)) path s w,
    in_parent-Counts (λ d. code (in_dir d.0 d.1)) path s w,
    in_parent-Counts (λ d. code (sym_at d.0 d.1 old)) path s w,
    readlink-Counts at path s w,
    rename-Counts move old path s w,
    link-Counts name old path s w,
  )
