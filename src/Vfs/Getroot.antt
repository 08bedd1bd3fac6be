-- ===== src/Vfs/Getroot.antt =====
-- vfs_getroot finds what a name means.
use cs.Base.{
  ℕ, zero, suc, Bool, true, false, List, [], ◌∷◌, some, get_elem?, Run, ret, panic, fault, Result,
  err, ◌≡◌, refl, ◌∙◌, arith,
}
use cs.Vfs.{Name, KnownDev, FsOps, volume, enodev, getroot}
use cs.Vfs.Names.{named, samestring-both}
use cs.Vfs.Table.{IsDevice, IsTable, Apart, Means, mounted, unmounted, plain, raw}

getroot-skips :
    (ops : FsOps) (n : Name) (kd : KnownDev) (kds : List KnownDev)
    → named ops kd n ≡ false
    → getroot ops n (kd ∷ kds) ≡ getroot ops n kds
unfolding getroot named
getroot-skips ops n kd kds h = ground (arith, h)

Means-named :
    (ops : FsOps) (kd : KnownDev) (n : Name) (r : Result ℕ)
    → Means ops kd n r
    → named ops kd n ≡ true
unfolding named
Means-named ops kd n r (mounted fs e h) = ground (arith, e, h)
Means-named ops kd n r (unmounted e e' h) = ground (arith, e, h)
Means-named ops kd n r (plain e e' h) = ground (arith, e, h)
Means-named ops kd n r (raw h) = ground (arith, h)

getroot-head :
    (ops : FsOps) (kd : KnownDev) (kds : List KnownDev) (n : Name) (r : Result ℕ)
    → IsDevice ops kd
    → Means ops kd n r
    → getroot ops n (kd ∷ kds) ≡ ret r
unfolding getroot
getroot-head ops kd kds n r d (mounted fs e h) = ground (arith, e, h)
getroot-head ops kd kds n r d (unmounted e e' h) = ground (arith, e, e', h)
getroot-head ops kd kds n r d (plain e e' h) = ground (arith, e, e', h, d.device)
getroot-head ops kd kds n r d (raw h) = ground (
  arith,
  h,
  d.mountable,
  d.raw,
  d.vol,
  samestring-both kd.rawname (some kd.name) n h,
  samestring-both (volume ops kd.fs) kd.rawname n,
)

pub tail-IsTable :
    (ops : FsOps) (kd : KnownDev) (kds : List KnownDev) → IsTable ops (kd ∷ kds) → IsTable ops kds
tail-IsTable ops kd kds h = record {
  each = λ i. h.each (suc i);
  apart = λ i j a b e. h.apart (suc i) (suc j) a b (λ k. e (omega (arith, k)));
}

-- In a table in order, vfs_getroot gives every name of a device what that name means there: the root
-- of the file system mounted on it, ENXIO for a device with none that wants one, and the device's own
-- vnode for a raw name or for a device that takes no file system.
pub getroot-Means :
    (ops : FsOps) (kds : List KnownDev) (i : ℕ) (kd : KnownDev) (n : Name) (r : Result ℕ)
    → IsTable ops kds
    → get_elem? kds i ≡ some kd
    → Means ops kd n r
    → getroot ops n kds ≡ ret r
unfolding Apart
getroot-Means ops [] i kd n r h e d = absurd (ground (arith, e))
getroot-Means ops (k ∷ kds) zero kd n r h e d =
    let eq : k ≡ kd = ground (arith, e) in
    let p : Means ops k n r = rw eq d in getroot-head ops k kds n r (h.each 0 k refl) p
getroot-Means ops (k ∷ kds) (suc i) kd n r h e d =
    getroot-skips ops n k kds
      (h.apart (suc i) 0 kd k (omega arith) e refl n (Means-named ops kd n r d))
    ∙ getroot-Means ops kds i kd n r (tail-IsTable ops k kds h) e d

-- A name that no device answers to gives ENODEV.
pub getroot-missing :
    (ops : FsOps) (kds : List KnownDev) (n : Name)
    → ((i : ℕ) (kd : KnownDev) → get_elem? kds i ≡ some kd → named ops kd n ≡ false)
    → getroot ops n kds ≡ ret (err enodev)
unfolding getroot
getroot-missing ops [] n h = refl
getroot-missing ops (k ∷ kds) n h =
    getroot-skips ops n k kds (h 0 k refl) ∙ getroot-missing ops kds n (λ i. h (suc i))

abbrev returns {ℓ} : {A : Type ℓ} → Run A → Bool
returns (ret a) = true
returns panic = false
returns fault = false

returns-ret {ℓ} : {A : Type ℓ} (r : Run A) → returns r ≡ true → (a : A) × (r ≡ ret a)
returns-ret (ret a) h = (a, refl)
returns-ret panic h = absurd (ground (arith, h))
returns-ret fault h = absurd (ground (arith, h))

getroot-returns :
    (ops : FsOps) (n : Name) (kds : List KnownDev)
    → IsTable ops kds
    → returns (getroot ops n kds) ≡ true
unfolding getroot
getroot-returns ops n [] h = refl
getroot-returns ops n (k ∷ kds) h =
    let d = h.each 0 k refl in
    ground (arith, d.mountable, d.device, getroot-returns ops n kds (tail-IsTable ops k kds h))

-- No KASSERT of vfs_getroot fails on a table in order.
pub getroot-ret :
    (ops : FsOps) (n : Name) (kds : List KnownDev)
    → IsTable ops kds
    → (r : Result ℕ) × (getroot ops n kds ≡ ret r)
getroot-ret ops n kds h = returns-ret (getroot ops n kds) (getroot-returns ops n kds h)
