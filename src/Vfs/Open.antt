-- ===== src/Vfs/Open.antt =====
-- vfs_open and vfs_close of vfs/vfspath.c, with the open counts of vfs/vnode.c. What VOP_CREAT,
-- VOP_OPEN and VOP_TRUNCATE return is a parameter; a vnode of VOP_CREAT comes with a reference.
pub mod Counts
use cs.Base.{
  ℕ, ◌+◌, ◌-◌, ◌/◌, ◌%◌, Bool, true, false, List, Option, none, some, Run, ret, panic, fault,
  Result, ok, err, and_then, ◌==◌, ◌&&◌, if◌then◌else◌,
}
use cs.Vfs.{Name, KnownDev, FsOps, einval}
use cs.Vfs.Lookup.{VnodeOps, Vnodes, Op, ◌>>=◌, referenced, and_drop, decref, lookup, lookparent}
use cs.Vfs.PathOps.{name_buf}

-- VOP_CREAT of a directory for a name, whether it must be new, and a mode; VOP_OPEN for the flags;
-- VOP_TRUNCATE for a length
pub record OpenOps : Type 0 where
  pub creat : ℕ → Name → Bool → ℕ → Result ℕ
  pub vop_open : ℕ → ℕ → ℕ
  pub vop_truncate : ℕ → ℕ → ℕ

-- The vnodes with vn_opencount of each
pub record Opened : Type 0 where
  pub vnodes : Vnodes
  pub opens : ℕ → ℕ

-- openflags & O_ACCMODE, which is O_RDONLY, O_WRONLY, O_RDWR or 3
abbrev pub how : ℕ → ℕ
how flags = flags % 4

-- Whether O_CREAT, O_EXCL or O_TRUNC is in the flags.
abbrev pub o_creat : ℕ → Bool
o_creat flags = flags / 4 % 2 == 1

abbrev pub o_excl : ℕ → Bool
o_excl flags = flags / 8 % 2 == 1

abbrev pub o_trunc : ℕ → Bool
o_trunc flags = flags / 16 % 2 == 1

-- An operation on the reference counts
abbrev pub on_vnodes : {A : Type 0} → Op A → Opened → Run (Result A × Opened)
on_vnodes o st = elim (o st.vnodes) [
  | ret r ↦ ret (r.0, record st { vnodes = r.1 })
  | panic ↦ panic
  | fault ↦ fault
]

-- vnode_incopen
pub incopen : ℕ → Opened → Opened
incopen v st = record st { opens = λ j. if j == v then st.opens j + 1 else st.opens j }

-- vnode_decopen, where an error of VOP_CLOSE is only printed
unfoldable pub decopen : ℕ → Opened → Run (Result (Unit {0}) × Opened)
decopen v st =
    if st.opens v == 0
    then panic
    else ret (ok tt, record st { opens = λ j. if j == v then st.opens j - 1 else st.opens j })

-- vfs_close
unfoldable pub vfs_close : VnodeOps → ℕ → Opened → Run (Result (Unit {0}) × Opened)
vfs_close ops v st = and_then (decopen v st) (λ _. on_vnodes (decref ops v))

module _ (fsops : FsOps) (ops : VnodeOps) (o : OpenOps) (devs : List KnownDev) where
  -- The vnode of a path, which is created if the flags ask for it
  pub find : Name → ℕ → ℕ → Op ℕ
  find path flags mode =
      let create : Op ℕ = lookparent fsops ops devs path name_buf >>= λ d.
      λ s. and_drop ops d.0 (referenced (o.creat d.0 d.1 (o_excl flags) mode) s) in
      if o_creat flags then create else lookup fsops ops devs path

  -- The end of vfs_open, with the vnode in hand: O_TRUNC
  pub truncated : ℕ → ℕ → Opened → Run (Result ℕ × Opened)
  truncated v flags st =
      let result = if how flags == 0 then einval else o.vop_truncate v 0 in
      let refuse : Run (Result ℕ × Opened) =
        and_then (vfs_close ops v st) (λ _ t. ret (err result, t)) in
      if o_trunc flags then (if result == 0 then ret (ok v, st) else refuse) else ret (ok v, st)

  pub open_vnode : ℕ → ℕ → Opened → Run (Result ℕ × Opened)
  open_vnode flags v st =
      let result = o.vop_open v flags in
      let refuse : Run (Result ℕ × Opened) =
        and_then (on_vnodes (decref ops v) st) (λ _ t. ret (err result, t)) in
      let go_on : Run (Result ℕ × Opened) = truncated v flags (incopen v st) in
      if result == 0 then go_on else refuse

  -- vfs_open
  pub vfs_open : Name → ℕ → ℕ → Opened → Run (Result ℕ × Opened)
  vfs_open path flags mode st =
      let found : Run (Result ℕ × Opened) =
        and_then (on_vnodes (find path flags mode) st) (open_vnode flags) in
      if how flags == 3 then ret (err einval, st) else found
