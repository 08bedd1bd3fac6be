-- ===== src/Vfs/Mount.antt =====
-- What vfs_mount does to the table of devices.
use cs.Base.{
  get_elem?-set_there, set-cases, ℕ, true, false, List, none, some, get_elem?, set, Run, ret,
  Result, ok, err, ◌⊎◌, inl, inr, ◌≡◌, ◌≢◌, refl, sym, Bool-cases, Option-cases, arith,
}
use mathlib.Core.Path.{subst}
use cs.Vfs.{Name, KnownDev, FsOps, is_some, samestring, mount, getroot, ebusy}
use cs.Vfs.Names.{named, same_refl, samestring-shared}
use cs.Vfs.Table.{IsDevice, IsTable, Apart, mounted}
use cs.Vfs.FindMount.{findmount-at}
use cs.Vfs.Add.{Apart-sym}
use cs.Vfs.Getroot.{getroot-Means}

-- The volume name of `fs` is none of the names in the table.
unfoldable pub IsFree : FsOps → List KnownDev → ℕ → Type 0
IsFree ops kds fs =
    (j : ℕ) (a : KnownDev) (n : Name)
    → get_elem? kds j ≡ some a
    → samestring (ops.volname fs) (some n) ≡ true
    → named ops a n ≡ false

mounted-named :
    (ops : FsOps) (kd : KnownDev) (fs : ℕ) (n : Name)
    → kd.fs ≡ none
    → named ops (record kd { fs = some fs }) n ≡ true
    → (samestring (ops.volname fs) (some n) ≡ true) ⊎ (named ops kd n ≡ true)
unfolding named
mounted-named ops kd fs n e h = elim (Bool-cases (samestring (ops.volname fs) (some n))) [
  | inl t ↦ inl t
  | inr t ↦ inr (ground (arith, e, h, t))
]

mounted-Apart :
    (ops : FsOps) (kds : List KnownDev) (i j : ℕ) (kd a : KnownDev) (fs : ℕ)
    → IsTable ops kds
    → IsFree ops kds fs
    → get_elem? kds i ≡ some kd
    → kd.fs ≡ none
    → j ≢ i
    → get_elem? kds j ≡ some a
    → Apart ops (record kd { fs = some fs }) a
unfolding Apart IsFree
mounted-Apart ops kds i j kd a fs h free e nofs ne f n y = elim (mounted-named ops kd fs n nofs y) [
  | inl t ↦ free j a n f t
  | inr t ↦ h.apart i j kd a (λ z. ne (sym z)) e f n t
]

mounted-IsDevice :
    (ops : FsOps) (kds : List KnownDev) (i : ℕ) (kd : KnownDev) (fs : ℕ)
    → IsTable ops kds
    → IsFree ops kds fs
    → get_elem? kds i ≡ some kd
    → IsDevice ops (record kd { fs = some fs })
unfolding IsFree named
mounted-IsDevice ops kds i kd fs h free e = record {
  mountable = (h.each i kd e).mountable;
  device = λ z. absurd (ground (arith, z));
  raw = (h.each i kd e).raw;
  vol = elim (Bool-cases (samestring (ops.volname fs) kd.rawname)) [
    | inl t ↦
        let (n, l, r) = samestring-shared (ops.volname fs) kd.rawname t in
        absurd (ground (arith, free i kd n e l, r))
    | inr t ↦ t
  ];
}

set-IsTable :
    (ops : FsOps) (kds : List KnownDev) (i : ℕ) (kd : KnownDev) (fs : ℕ)
    → IsTable ops kds
    → IsFree ops kds fs
    → get_elem? kds i ≡ some kd
    → kd.fs ≡ none
    → IsTable ops (set kds i (record kd { fs = some fs }))
set-IsTable ops kds i kd fs h free e nofs =
    let new = record kd { fs = some fs } in
    record {
      each = λ j a f. elim (set-cases kds i j kd a new e f) [
        | inl (z, q) ↦ subst (λ k. IsDevice ops k) q (mounted-IsDevice ops kds i kd fs h free e)
        | inr (z, q) ↦ h.each j a q
      ];
      apart = λ j l a b ne f g. elim (set-cases kds i j kd a new e f) [
        | inl (z, q) ↦ elim (set-cases kds i l kd b new e g) [
          | inl (z', q') ↦ absurd (ne (omega (arith, z, z')))
          | inr (z', q') ↦
              subst (λ k. Apart ops k b) q (mounted-Apart ops kds i l kd b fs h free e nofs z' q')
        ]
        | inr (z, q) ↦ elim (set-cases kds i l kd b new e g) [
          | inl (z', q') ↦
              subst (λ k. Apart ops a k) q'
                (Apart-sym ops new a (mounted-Apart ops kds i j kd a fs h free e nofs z q))
          | inr (z', q') ↦ h.apart j l a b ne q q'
        ]
      ];
    }

-- What vfs_mount does for the name of the mountable device `kd` at `i`.
pub data Mounts (ops : FsOps) (kds : List KnownDev) (i : ℕ) (kd : KnownDev) (dev : ℕ)
    (mountfunc : ℕ → Result ℕ) : Run (ℕ × List KnownDev) → Type 0 where
  busy : (fs : ℕ) → kd.fs ≡ some fs → Mounts ops kds i kd dev mountfunc (ret (ebusy, kds))
  refused :
      (e : ℕ)
      → kd.fs ≡ none
      → mountfunc dev ≡ err e
      → Mounts ops kds i kd dev mountfunc (ret (e, kds))
  mounts :
      (fs : ℕ)
      → kd.fs ≡ none
      → mountfunc dev ≡ ok fs
      → (IsFree ops kds fs
          → IsTable ops (set kds i (record kd { fs = some fs }))
            × (getroot ops kd.name (set kds i (record kd { fs = some fs }))
                ≡ ret (ok (ops.root fs))))
      → Mounts ops kds i kd dev mountfunc (ret (0, set kds i (record kd { fs = some fs })))

set-getroot :
    (ops : FsOps) (kds : List KnownDev) (i : ℕ) (kd : KnownDev) (fs : ℕ)
    → IsTable ops (set kds i (record kd { fs = some fs }))
    → get_elem? kds i ≡ some kd
    → getroot ops kd.name (set kds i (record kd { fs = some fs })) ≡ ret (ok (ops.root fs))
set-getroot ops kds i kd fs h e =
    getroot-Means ops (set kds i (record kd { fs = some fs })) i (record kd { fs = some fs })
      kd.name (ok (ops.root fs)) h (get_elem?-set_there kds i kd (record kd { fs = some fs }) e)
      (mounted fs refl (ground (arith, same_refl kd.name)))

Result-cases : (r : Result ℕ) → ((e : ℕ) × (r ≡ err e)) ⊎ ((a : ℕ) × (r ≡ ok a))
Result-cases (ok a) = inr (a, refl)
Result-cases (err e) = inl (e, refl)

-- In a table in order, vfs_mount of a mountable device returns EBUSY when it has a file system, or
-- the error of the mount function, with the table as it was; otherwise it returns 0 with the file
-- system in its place, and if no device has the name of the new volume the table is in order again
-- and the device's name gives the root of the file system.
pub mount-Mounts :
    (ops : FsOps) (kds : List KnownDev) (i : ℕ) (kd : KnownDev) (dev : ℕ) (mountfunc : ℕ → Result ℕ)
    → IsTable ops kds
    → get_elem? kds i ≡ some kd
    → is_some kd.rawname ≡ true
    → kd.device ≡ some dev
    → Mounts ops kds i kd dev mountfunc (mount kd.name mountfunc kds)
unfolding mount
mount-Mounts ops kds i kd dev mountfunc h e r d =
    let f = findmount-at ops kds i kd h e r in
    elim (Option-cases kd.fs) [
      | inr (fs, q) ↦
          let run : mount kd.name mountfunc kds ≡ ret (ebusy, kds) =
            rw (f, mount) (ground (arith, q)) in
          rw run (busy fs q)
      | inl q ↦ elim (Result-cases (mountfunc dev)) [
        | inl (x, m) ↦
            let run : mount kd.name mountfunc kds ≡ ret (x, kds) =
              rw (f, mount) (ground (arith, q, d, m)) in
            rw run (refused x q m)
        | inr (fs, m) ↦
            let new = set kds i (record kd { fs = some fs }) in
            let run : mount kd.name mountfunc kds ≡ ret (0, new) =
              rw (f, mount) (ground (arith, q, d, m)) in
            rw run (
              mounts fs q m (λ free.
                let t = set-IsTable ops kds i kd fs h free e q in
                (t, set-getroot ops kds i kd fs t e)))
      ]
    ]
