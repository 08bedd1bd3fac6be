-- ===== src/Vfs/Lookup.antt =====
-- vfs/vfslookup.c, vfs/vfscwd.c and the reference counts of vfs/vnode.c: from a path to a vnode. What
-- the file systems answer through their vnode operations is a parameter; a vnode that VOP_LOOKUP or
-- VOP_LOOKPARENT hands back comes with a reference, and so does the vnode of FSOP_GETROOT. The count
-- of a vnode that is not in memory is 0.
pub mod Split
pub mod Counts
pub mod Refs
pub mod Cwd
use cs.Base.{
  length, ℕ, zero, suc, ◌+◌, ◌-◌, Bool, true, false, List, [], ◌∷◌, ◌++◌, ◌||◌, Option, none, some,
  take, drop, Run, ret, panic, fault, Result, ok, err, and_then, ltb, ◌==◌, if◌then◌else◌,
}
use cs.Vfs.{Name, KnownDev, FsOps, getroot, einval}

abbrev pub enoent : ℕ
enoent = 19

abbrev pub enotdir : ℕ
enotdir = 17

-- vn_fs, what VOP_GETTYPE, VOP_LOOKUP and VOP_LOOKPARENT return, whether a vnode is a directory by
-- its type, and the vn_refcount of a vnode after VOP_RECLAIM at its last reference: 0 where that
-- takes the vnode out of memory, and 1 where it fails or, as for a device, leaves the vnode alone.
-- What it returns is only printed.
pub record VnodeOps : Type 0 where
  pub fs_of : ℕ → Option ℕ
  pub gettype : ℕ → Result Bool
  pub lookup : ℕ → Name → Result ℕ
  pub lookparent : ℕ → Name → ℕ → Result (ℕ × Name)
  pub reclaim : ℕ → ℕ

-- vn_refcount of each vnode, p_cwd of the process, and bootfs_vnode
pub record Vnodes : Type 0 where
  pub refs : ℕ → ℕ
  pub cwd : Option ℕ
  pub bootfs : Option ℕ

abbrev pub Op : Type 0 → Type 0
Op A = Vnodes → Run (Result A × Vnodes)

infixl 5 ◌>>=◌ ◌>>◌
abbrev pub ◌>>=◌ : {A B : Type 0} → Op A → (A → Op B) → Op B
o >>= f = λ s. and_then (o s) f

abbrev pub ◌>>◌ : {A B : Type 0} → Op A → Op B → Op B
o >> p = o >>= λ _. p

abbrev pub give : {A : Type 0} → Result A → Op A
give r = λ s. ret (r, s)

abbrev pub with_refs : Vnodes → (ℕ → ℕ) → Vnodes
with_refs s f = record s { refs = f }

-- vnode_incref
pub incref : ℕ → Op (Unit {0})
incref v s = ret (ok tt, with_refs s (λ j. if j == v then s.refs j + 1 else s.refs j))

-- vnode_decref
unfoldable pub decref : VnodeOps → ℕ → Op (Unit {0})
decref ops v s =
    if s.refs v == 0
    then panic
    else if ltb 1 (s.refs v)
    then ret (ok tt, with_refs s (λ j. if j == v then s.refs j - 1 else s.refs j))
    else ret (ok tt, with_refs s (λ j. if j == v then ops.reclaim v else s.refs j))

-- A vnode that comes with a reference
abbrev pub with_ref : ℕ → Op ℕ
with_ref v = incref v >> give (ok v)

abbrev pub referenced : Result ℕ → Op ℕ
referenced (ok v) = with_ref v
referenced (err e) = give (err e)

abbrev pub parent : Result (ℕ × Name) → Op (ℕ × Name)
parent (ok (v, name)) = incref v >> give (ok (v, name))
parent (err e) = give (err e)

abbrev pub or_enoent : Option ℕ → Op ℕ
or_enoent none = give (err enoent)
or_enoent (some v) = with_ref v

-- VOP_DECREF when the result of `r` is known, whatever it is
abbrev pub dropped : {A : Type 0} → VnodeOps → ℕ → Result A → Op A
dropped ops v r = decref ops v >> give r

abbrev pub and_drop :
    {A : Type 0} → VnodeOps → ℕ → Run (Result A × Vnodes) → Run (Result A × Vnodes)
and_drop ops v (ret (r, s)) = dropped ops v r s
and_drop ops v panic = panic
and_drop ops v fault = fault

-- vfs_getcurdir
pub getcurdir : Op ℕ
getcurdir s = or_enoent s.cwd s

-- The first colon or slash, with its index
pub first_mark : Name → Option (ℕ × ℕ)
first_mark [] = none
first_mark (c ∷ cs) =
    let rest = elim (first_mark cs) as (λ _. Option (ℕ × ℕ)) [
      | none ↦ none
      | some m ↦ some (m.0, suc m.1)
    ] in
    if c == 58 then some (58, 0) else if c == 47 then some (47, 0) else rest

pub skip_slashes : Name → Name
skip_slashes [] = []
skip_slashes (c ∷ cs) = let rest = skip_slashes cs in if c == 47 then rest else c ∷ cs

-- Where a lookup begins: at the current directory, a named device, the boot file system, or the root
-- of the current directory's file system.
pub data Start : Type 0 where
  here : Start
  device : Name → Start
  boot : Start
  volume : Start

-- The part of getdevice that reads the path: where to begin, and the subpath.
pub split : Name → Start × Name
split path = elim (first_mark path) [
  | none ↦ (here, path)
  | some m ↦
      if m.0 == 58
      then (if m.1 == 0
          then (volume, skip_slashes (drop 1 path))
          else (device (take m.1 path), skip_slashes (drop (suc m.1) path)))
      else if m.1 == 0
      then (boot, skip_slashes (drop 1 path))
      else (here, path)
]

-- FSOP_GETROOT of the file system that a vnode is in, which it must be in one
abbrev pub root_from : FsOps → VnodeOps → ℕ → Option ℕ → Op ℕ
root_from fsops ops v none s = panic
root_from fsops ops v (some fs) s =
    (with_ref (fsops.root fs) >>= λ r. decref ops v >> give (ok r)) s

-- The part of getdevice that chooses the vnode.
pub start_at : FsOps → VnodeOps → List KnownDev → Start → Op ℕ
start_at fsops ops devs here = getcurdir
start_at fsops ops devs (device name) =
    λ s. elim (getroot fsops name devs) [ ret r ↦ referenced r s | panic ↦ panic | fault ↦ fault ]
start_at fsops ops devs boot = λ s. or_enoent s.bootfs s
start_at fsops ops devs volume = getcurdir >>= λ v. root_from fsops ops v (ops.fs_of v)

-- getdevice
pub getdevice : FsOps → VnodeOps → List KnownDev → Name → Op (ℕ × Name)
getdevice fsops ops devs path =
    start_at fsops ops devs (split path).0 >>= λ v. give (ok (v, (split path).1))

abbrev pub lookup_from : VnodeOps → ℕ → Name → Op ℕ
lookup_from ops v [] = give (ok v)
lookup_from ops v (c ∷ cs) = λ s. and_drop ops v (referenced (ops.lookup v (c ∷ cs)) s)

-- vfs_lookup
pub lookup : FsOps → VnodeOps → List KnownDev → Name → Op ℕ
lookup fsops ops devs path = getdevice fsops ops devs path >>= λ d. lookup_from ops d.0 d.1

abbrev pub lookparent_from : VnodeOps → ℕ → Name → ℕ → Op (ℕ × Name)
lookparent_from ops v [] buflen = λ s. and_drop ops v (ret (err einval, s))
lookparent_from ops v (c ∷ cs) buflen =
    λ s. and_drop ops v (parent (ops.lookparent v (c ∷ cs) buflen) s)

-- vfs_lookparent
pub lookparent : FsOps → VnodeOps → List KnownDev → Name → ℕ → Op (ℕ × Name)
lookparent fsops ops devs path buflen =
    getdevice fsops ops devs path >>= λ d. lookparent_from ops d.0 d.1 buflen

abbrev pub drop_old : VnodeOps → Option ℕ → Op (Unit {0})
drop_old ops none = give (ok tt)
drop_old ops (some v) = decref ops v

-- vfs_setcurdir
pub setcurdir : VnodeOps → ℕ → Op (Unit {0})
setcurdir ops dir s = elim (ops.gettype dir) [
  | err e ↦ ret (err e, s)
  | ok b ↦
      let move : Op (Unit {0}) =
        incref dir >> λ t. drop_old ops t.cwd (record t { cwd = some dir }) in
      if b then move s else ret (err enotdir, s)
]

-- vfs_clearcurdir
pub clearcurdir : VnodeOps → Op (Unit {0})
clearcurdir ops s = drop_old ops s.cwd (record s { cwd = none })

-- vfs_chdir
pub chdir : FsOps → VnodeOps → List KnownDev → Name → Op (Unit {0})
chdir fsops ops devs path =
    lookup fsops ops devs path >>= λ v. λ s. and_drop ops v (setcurdir ops v s)

-- change_bootfs
pub change_bootfs : VnodeOps → Option ℕ → Op (Unit {0})
change_bootfs ops newvn s = drop_old ops s.bootfs (record s { bootfs = newvn })

-- strchr(s, ':'): the name from its first colon on
abbrev pub strchr : Name → Option Name
strchr [] = none
strchr (c ∷ cs) = let rest = strchr cs in if c == 58 then some (c ∷ cs) else rest

-- vfs_setbootfs, where snprintf cuts the name to the room of its buffer
pub setbootfs : FsOps → VnodeOps → List KnownDev → Name → Op (Unit {0})
setbootfs fsops ops devs fsname =
    let tmp = take 254 fsname in
    let change : Name → Op (Unit {0}) =
      λ path. chdir fsops ops devs path >> getcurdir >>= λ v. change_bootfs ops (some v) in
    elim (strchr tmp) [
      | some s ↦ if ltb 0 (length s) then give (err einval) else change tmp
      | none ↦ change (tmp ++ 58 ∷ [])
    ]
