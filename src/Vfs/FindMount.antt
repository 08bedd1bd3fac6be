-- ===== src/Vfs/FindMount.antt =====
-- The device that vfs_mount and vfs_unmount find, and what is found after a change there.
use cs.Base.{
  ℕ, zero, suc, true, false, List, [], ◌∷◌, Option, none, some, get_elem?, set, set-set, ret,
  Result, ok, ◌⊎◌, inl, inr, ◌&&◌, ◌≡◌, refl, ap, Bool-cases, arith,
}
use cs.Vfs.{Name, KnownDev, FsOps, is_some, same, one_further, findmount, mount, unmount}
use cs.Vfs.Names.{named, same_refl, same_sym}
use cs.Vfs.Table.{IsTable, Apart}
use cs.Vfs.Getroot.{tail-IsTable}

mountable_named :
    (ops : FsOps) (k : KnownDev) (n : Name) → named ops k n ≡ false → same n k.name ≡ false
unfolding named
mountable_named ops k n h = ground (arith, h, same_sym n k.name)

-- The device is found under its own name.
pub findmount-at :
    (ops : FsOps) (kds : List KnownDev) (i : ℕ) (kd : KnownDev)
    → IsTable ops kds
    → get_elem? kds i ≡ some kd
    → is_some kd.rawname ≡ true
    → findmount kd.name kds ≡ some (i, kd)
unfolding findmount Apart named
findmount-at ops [] i kd h e r = absurd (ground (arith, e))
findmount-at ops (k ∷ kds) zero kd h e r =
    let eq : k ≡ kd = ground (arith, e) in rw eq (ground (arith, r, same_refl kd.name))
findmount-at ops (k ∷ kds) (suc i) kd h e r =
    let other : same kd.name k.name ≡ false =
      mountable_named ops k kd.name
        (h.apart (suc i) 0 kd k (omega arith) e refl kd.name (ground (arith, same_refl kd.name))) in
    let rest = findmount-at ops kds i kd (tail-IsTable ops k kds h) e r in
    ground (arith, other, rest)

Steps : Name → KnownDev → List KnownDev → ℕ → KnownDev → Type 0
Steps n k kds i kd =
    ((i ≡ 0) × (k ≡ kd) × ((is_some k.rawname && same n k.name) ≡ true))
    ⊎ ((j : ℕ) × (i ≡ suc j)
        × (findmount n kds ≡ some (j, kd))
        × ((is_some k.rawname && same n k.name) ≡ false))

further-eq :
    (o : Option (ℕ × KnownDev)) (i : ℕ) (kd : KnownDev)
    → one_further o ≡ some (i, kd)
    → (j : ℕ) × (i ≡ suc j) × (o ≡ some (j, kd))
further-eq none i kd e = absurd (ground (arith, e))
further-eq (some (j, d)) i kd e = (j, ground (arith, e), ground (arith, e))

findmount-Steps :
    (n : Name) (k : KnownDev) (kds : List KnownDev) (i : ℕ) (kd : KnownDev)
    → findmount n (k ∷ kds) ≡ some (i, kd)
    → Steps n k kds i kd
unfolding findmount Steps
findmount-Steps n k kds i kd e = elim (Bool-cases (is_some k.rawname && same n k.name)) [
  | inl t ↦ inl (ground (arith, e, t), ground (arith, e, t), t)
  | inr t ↦
      let (j, l, r) = further-eq (findmount n kds) i kd (ground (arith, e, t)) in inr (j, l, r, t)
]

-- Changing what is mounted there does not change what is found.
findmount-set :
    (n : Name) (kds : List KnownDev) (i : ℕ) (kd : KnownDev) (fs : Option ℕ)
    → findmount n kds ≡ some (i, kd)
    → findmount n (set kds i (record kd { fs = fs })) ≡ some (i, record kd { fs = fs })
unfolding findmount Steps
findmount-set n [] i kd fs e = absurd (ground (arith, e))
findmount-set n (k ∷ kds) i kd fs e = elim (findmount-Steps n k kds i kd e) [
  | inl (z, s, t) ↦ rw z (ground (arith, s, t))
  | inr (j, z, s, t) ↦ rw z (ground (arith, t, findmount-set n kds j kd fs s))
]

findmount-get :
    (n : Name) (kds : List KnownDev) (i : ℕ) (kd : KnownDev)
    → findmount n kds ≡ some (i, kd)
    → get_elem? kds i ≡ some kd
unfolding findmount Steps
findmount-get n [] i kd e = absurd (ground (arith, e))
findmount-get n (k ∷ kds) i kd e = elim (findmount-Steps n k kds i kd e) [
  | inl (z, s, t) ↦ rw z (ap some s)
  | inr (j, z, s, t) ↦ rw z (findmount-get n kds j kd s)
]

set_back :
    (kds : List KnownDev) (i : ℕ) (kd : KnownDev) → get_elem? kds i ≡ some kd → set kds i kd ≡ kds
set_back [] i kd e = refl
set_back (k ∷ kds) zero kd e = ground (arith, e)
set_back (k ∷ kds) (suc i) kd e = ap (λ ks. k ∷ ks) (set_back kds i kd e)

-- A file system that is mounted on a device with none, and then unmounted without an error, leaves
-- the table as it was.
pub unmount-mount :
    (ops : FsOps) (kds : List KnownDev) (i : ℕ) (kd : KnownDev) (dev fs : ℕ)
    (mountfunc : ℕ → Result ℕ)
    → IsTable ops kds
    → get_elem? kds i ≡ some kd
    → is_some kd.rawname ≡ true
    → kd.fs ≡ none
    → kd.device ≡ some dev
    → mountfunc dev ≡ ok fs
    → (mount kd.name mountfunc kds ≡ ret (0, set kds i (record kd { fs = some fs })))
      × (unmount kd.name (λ _. 0) (λ _. 0) (set kds i (record kd { fs = some fs })) ≡ ret (0, kds))
unfolding mount unmount
unmount-mount ops kds i kd dev fs mountfunc h e r nofs d m =
    let f = findmount-at ops kds i kd h e r in
    let g = findmount-set kd.name kds i kd (some fs) f in
    let k : record kd { fs = none } ≡ kd = ground (arith, nofs) in
    let back : set (set kds i (record kd { fs = some fs })) i (record kd { fs = none }) ≡ kds =
      rw (set-set kds i (record kd { fs = some fs }) (record kd { fs = none }))
        (rw k (set_back kds i kd e)) in
    (ground (arith, f, nofs, d, m), rw (g, unmount) (ground (arith, d, back)))
