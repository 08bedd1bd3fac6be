-- ===== src/Vfs/Open/Counts.antt =====
-- vfs_open gives one reference and one open, or nothing; vfs_close takes them back.
use cs.Base.{
  ℕ, ◌+◌, ◌-◌, List, Run, ret, panic, fault, Result, ok, err, and_then, ◌==◌, if◌then◌else◌, ◌≡◌,
  refl, ◌∙◌, inl, inr, Bool-cases, arith,
}
use cs.Vfs.{Name, KnownDev, FsOps, einval}
use cs.Vfs.Lookup.{VnodeOps, Vnodes, referenced, decref, lookparent}
use cs.Vfs.Lookup.Counts.{
  Counts, gained, failed, one, IsReclaiming, decref-ret, and_drop-Counts, then-Counts,
  referenced-Counts, Counts-base,
}
use cs.Vfs.Lookup.Refs.{IsWorking, lookup-Counts, lookparent-Counts}
use cs.Vfs.PathOps.{name_buf}
use cs.Vfs.Open.{
  OpenOps, Opened, how, o_creat, o_trunc, o_excl, on_vnodes, incopen, decopen, find, vfs_close,
  truncated, open_vnode, vfs_open,
}

-- The counts are `base` and `now`, and the current directory and the boot file system those of `s`.
pub record Has (s : Vnodes) (base now : ℕ → ℕ) (t : Opened) : Type 0 where
  pub refs : (j : ℕ) → t.vnodes.refs j ≡ base j
  pub opens : (j : ℕ) → t.opens j ≡ now j
  pub cwd : t.vnodes.cwd ≡ s.cwd
  pub bootfs : t.vnodes.bootfs ≡ s.bootfs

-- From the counts `refs` and `opens`: it returns, a vnode with one reference and one open more, or an
-- error with the counts as they were.
pub data Opens (s : Vnodes) (refs opens : ℕ → ℕ) : Run (Result ℕ × Opened) → Type 0 where
  opened :
      (v : ℕ) (t : Opened)
      → Has s (λ j. refs j + one v j) (λ j. opens j + one v j) t
      → Opens s refs opens (ret (ok v, t))
  refused : (e : ℕ) (t : Opened) → Has s refs opens t → Opens s refs opens (ret (err e, t))

drop-Has :
    (ops : VnodeOps) (v : ℕ) (s : Vnodes) (t : Opened) (refs opens : ℕ → ℕ)
    → IsReclaiming ops refs
    → Has s (λ j. refs j + one v j) opens t
    → (u : Opened) × (on_vnodes (decref ops v) t ≡ ret (ok tt, u)) × Has s refs opens u
drop-Has ops v s t refs opens reclaims h =
    let (u, e, r, c, b) = decref-ret ops v t.vnodes refs reclaims h.refs in
    (
      record t { vnodes = u },
      rw (e, on_vnodes) refl,
      record { refs = r; opens = h.opens; cwd = c ∙ h.cwd; bootfs = b ∙ h.bootfs },
    )

decopen-Has :
    (v : ℕ) (s : Vnodes) (t : Opened) (refs opens : ℕ → ℕ)
    → Has s refs (λ j. opens j + one v j) t
    → (u : Opened) × (decopen v t ≡ ret (ok tt, u)) × Has s refs opens u
unfolding decopen
decopen-Has v s t refs opens h = (
  record t { opens = λ j. if j == v then t.opens j - 1 else t.opens j },
  ground (arith, h.opens v),
  record { refs = h.refs; opens = λ j. ground (arith, h.opens j); cwd = h.cwd; bootfs = h.bootfs },
)

-- vfs_close of a vnode that has a reference and an open of the caller returns, and takes both back.
pub vfs_close-Has :
    (ops : VnodeOps) (v : ℕ) (s : Vnodes) (t : Opened) (refs opens : ℕ → ℕ)
    → IsReclaiming ops refs
    → Has s (λ j. refs j + one v j) (λ j. opens j + one v j) t
    → (u : Opened) × (vfs_close ops v t ≡ ret (ok tt, u)) × Has s refs opens u
unfolding vfs_close
vfs_close-Has ops v s t refs opens reclaims h =
    let (u, e, hu) = decopen-Has v s t (λ j. refs j + one v j) opens h in
    let (x, e', hx) = drop-Has ops v s u refs opens reclaims hu in (x, rw (e, e') refl, hx)

module _ (fsops : FsOps) (ops : VnodeOps) (o : OpenOps) (devs : List KnownDev) where
  find-Counts :
      (path : Name) (flags mode : ℕ) (s : Vnodes)
      → IsWorking fsops ops devs s
      → Counts s s.refs one (find fsops ops o devs path flags mode s)
  unfolding find
  find-Counts path flags mode s w = elim (Bool-cases (o_creat flags)) [
    | inr z ↦ rw z (lookup-Counts fsops ops devs path s w)
    | inl z ↦ rw z (
        then-Counts s s.refs (λ (d : ℕ × Name). one d.0) one _
          (λ d t h c b.
            let r = referenced (o.creat d.0 d.1 (o_excl flags) mode) t in
            and_drop-Counts ops d.0 t s.refs one w.reclaims r (
              Counts-base t t.refs (λ j. s.refs j + one d.0 j) one r h
                (referenced-Counts (o.creat d.0 d.1 (o_excl flags) mode) t)))
          (lookparent fsops ops devs path name_buf s)
          (lookparent-Counts fsops ops devs path name_buf s w))
  ]

  truncated-Opens :
      (v flags : ℕ) (s : Vnodes) (t : Opened) (refs opens : ℕ → ℕ)
      → IsReclaiming ops refs
      → Has s (λ j. refs j + one v j) (λ j. opens j + one v j) t
      → Opens s refs opens (truncated fsops ops o devs v flags t)
  unfolding truncated
  truncated-Opens v flags s t refs opens reclaims h =
      let result = if how flags == 0 then einval else o.vop_truncate v 0 in
      let (u, e, hu) = vfs_close-Has ops v s t refs opens reclaims h in
      elim (Bool-cases (o_trunc flags)) [
        | inr z ↦ rw z (opened v t h)
        | inl z ↦ elim (Bool-cases (result == 0)) [
          | inl y ↦ rw (z, y) (opened v t h)
          | inr y ↦ rw (z, y, e) (refused result u hu)
        ]
      ]

  open_vnode-Opens :
      (v flags : ℕ) (s : Vnodes) (t : Opened) (refs opens : ℕ → ℕ)
      → IsReclaiming ops refs
      → Has s (λ j. refs j + one v j) opens t
      → Opens s refs opens (open_vnode fsops ops o devs flags v t)
  unfolding open_vnode incopen
  open_vnode-Opens v flags s t refs opens reclaims h =
      let (u, e, hu) = drop-Has ops v s t refs opens reclaims h in
      elim (Bool-cases (o.vop_open v flags == 0)) [
        | inr z ↦ rw (z, e) (refused (o.vop_open v flags) u hu)
        | inl z ↦ rw z (
            truncated-Opens v flags s _ refs opens reclaims (record {
              refs = h.refs;
              opens = λ j. ground (arith, h.opens j);
              cwd = h.cwd;
              bootfs = h.bootfs;
            }))
      ]

  -- Where the table of devices is in order, the current directory, if there is one, lies in a file
  -- system, and VOP_RECLAIM takes out of memory every vnode that had no reference: vfs_open
  -- returns, for any path and flags and any result of VOP_LOOKUP, VOP_LOOKPARENT, VOP_CREAT,
  -- VOP_OPEN and VOP_TRUNCATE. With a vnode, that vnode has one reference and one open more than
  -- before and every other as many; with an error, every vnode has as many as before.
  pub vfs_open-Opens :
      (path : Name) (flags mode : ℕ) (st : Opened)
      → IsWorking fsops ops devs st.vnodes
      → Opens st.vnodes st.vnodes.refs st.opens (vfs_open fsops ops o devs path flags mode st)
  unfolding vfs_open
  vfs_open-Opens path flags mode st w = elim (Bool-cases (how flags == 3)) [
    | inl z ↦ rw z (
        refused einval st
          (record { refs = λ j. refl; opens = λ j. refl; cwd = refl; bootfs = refl }))
    | inr z ↦ rw z (
        go (find fsops ops o devs path flags mode st.vnodes)
          (find-Counts path flags mode st.vnodes w))
  ]
    where
      found : Run (Result ℕ × Vnodes) → Run (Result ℕ × Opened)
      found r = elim r [
        | ret r ↦ ret (r.0, record st { vnodes = r.1 })
        | panic ↦ panic
        | fault ↦ fault
      ]

      go :
          (r : Run (Result ℕ × Vnodes))
          → Counts st.vnodes st.vnodes.refs one r
          → Opens st.vnodes st.vnodes.refs st.opens
              (and_then (found r) (open_vnode fsops ops o devs flags))
      go r (gained v t h c b) =
          open_vnode-Opens v flags st.vnodes _ st.vnodes.refs st.opens w.reclaims
            (record { refs = h; opens = λ j. refl; cwd = c; bootfs = b })
      go r (failed e t h c b) =
          refused e _ (record { refs = h; opens = λ j. refl; cwd = c; bootfs = b })
