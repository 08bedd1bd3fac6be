-- ===== src/Vfs/Add.antt =====
-- vfs_doadd: what a new device does to the table.
use cs.Base.{
  ℕ, zero, suc, ◌+◌, ◌<◌, Bool, true, false, List, [], ◌∷◌, ◌++◌, Option, none, some, get_elem?,
  length, ◌⊎◌, inl, inr, ◌&&◌, not, if◌then◌else◌, ◌≡◌, refl, Bool-cases, arith,
}
use mathlib.Core.Path.{subst}
use cs.Vfs.{
  Name, KnownDev, FsOps, Known, Memory, numbered, volume, clashes, badnames, doadd, adddev, addfs,
  mkrawname, enomem, eexist,
}
use cs.Vfs.Names.{named, clashes-apart, clashes-shared, same-mkrawname, samestring_sym}
use cs.Vfs.Table.{IsDevice, IsTable, Apart}

-- A device that shares a name with `a`, and that it is in the list.
unfoldable pub Clash : FsOps → KnownDev → List KnownDev → Type 0
Clash ops a kds =
    (i : ℕ) × (kd : KnownDev) × (n : Name) × (get_elem? kds i ≡ some kd)
    × (named ops kd n ≡ true)
    × (named ops a n ≡ true)

badnames-Clash :
    (ops : FsOps) (a : KnownDev) (kds : List KnownDev)
    → badnames ops (some a.name) a.rawname (volume ops a.fs) kds ≡ true
    → Clash ops a kds
unfolding badnames Clash
badnames-Clash ops a [] h = absurd (ground (arith, h))
badnames-Clash ops a (k ∷ kds) h =
    elim (Bool-cases (clashes ops (some a.name) a.rawname (volume ops a.fs) k)) [
      | inl e ↦ let (n, l, r) = clashes-shared ops a k e in (0, k, n, refl, l, r)
      | inr e ↦
          let (i, kd, n, g, l, r) = badnames-Clash ops a kds (ground (arith, h, e)) in
          (suc i, kd, n, g, l, r)
    ]

badnames-Apart :
    (ops : FsOps) (a : KnownDev) (kds : List KnownDev) (i : ℕ) (kd : KnownDev)
    → badnames ops (some a.name) a.rawname (volume ops a.fs) kds ≡ false
    → get_elem? kds i ≡ some kd
    → Apart ops a kd
unfolding badnames Apart
badnames-Apart ops a [] i kd h e = absurd (ground (arith, e))
badnames-Apart ops a (k ∷ kds) zero kd h e = λ n y.
    let eq : k ≡ kd = ground (arith, e) in
    let c : named ops k n ≡ false = clashes-apart ops a k n (ground (arith, h)) y in cc (eq, c)
badnames-Apart ops a (k ∷ kds) (suc i) kd h e = badnames-Apart ops a kds i kd (ground (arith, h)) e

-- Where an element of a longer list comes from.
last-cases :
    (kds : List KnownDev) (a : KnownDev) (i : ℕ) (kd : KnownDev)
    → get_elem? (kds ++ a ∷ []) i ≡ some kd
    → ((i < length kds) × (get_elem? kds i ≡ some kd)) ⊎ ((i ≡ length kds) × (a ≡ kd))
last-cases [] a zero kd e = inr (refl, ground (arith, e))
last-cases [] a (suc i) kd e = absurd (ground (arith, e))
last-cases (k ∷ kds) a zero kd e = inl (omega arith, e)
last-cases (k ∷ kds) a (suc i) kd e = elim (last-cases kds a i kd e) [
  | inl (l, g) ↦ inl (omega (arith, l), g)
  | inr (l, g) ↦ inr (omega (arith, l), g)
]

pub Apart-sym : (ops : FsOps) (a b : KnownDev) → Apart ops a b → Apart ops b a
unfolding Apart
Apart-sym ops a b h n y = ground (arith, y, h n)

pub append-IsTable :
    (ops : FsOps) (a : KnownDev) (kds : List KnownDev)
    → IsTable ops kds
    → IsDevice ops a
    → badnames ops (some a.name) a.rawname (volume ops a.fs) kds ≡ false
    → IsTable ops (kds ++ a ∷ [])
append-IsTable ops a kds h d free = record {
  each = λ i kd e. elim (last-cases kds a i kd e) [
    | inl (l, g) ↦ h.each i kd g
    | inr (l, g) ↦ subst (λ k. IsDevice ops k) g d
  ];
  apart = λ i j x y ne e f. elim (last-cases kds a i x e) [
    | inl (l, g) ↦ elim (last-cases kds a j y f) [
      | inl (l', g') ↦ h.apart i j x y ne g g'
      | inr (l', g') ↦
          subst (λ k. Apart ops x k) g' (Apart-sym ops a x (badnames-Apart ops a kds i x free g))
    ]
    | inr (l, g) ↦ elim (last-cases kds a j y f) [
      | inl (l', g') ↦ subst (λ k. Apart ops k y) g (badnames-Apart ops a kds j y free g')
      | inr (l', g') ↦ absurd (ne (omega (arith, l, l')))
    ]
  ];
}

-- What vfs_doadd may do to the table for the device `a`.
pub data Added (ops : FsOps) (mem : Memory) (a : KnownDev) (t : Known) : ℕ × Known → Type 0 where
  no_memory :
      (mem.name_ok && mem.raw_ok && mem.vnode_ok && mem.kd_ok && mem.room_ok) ≡ false
      → Added ops mem a t (enomem, t)
  taken : Clash ops a t.devs → Added ops mem a t (eexist, t)
  added :
      IsTable ops (t.devs ++ a ∷ [])
      → Added ops mem a t (
        0,
        record { devs = t.devs ++ a ∷ []; number = numbered a.device (length t.devs + 1) t.number },
      )

-- The tests of vfs_doadd in turn.
doadd_tests :
    (P : ℕ × Known → Type 0) (n m r v k b o : Bool) (t t' : Known)
    → ((n && r && v && k && o) ≡ false → P (enomem, t))
    → (b ≡ true → P (eexist, t))
    → (b ≡ false → P (0, t'))
    → P (
        if not n
        then (enomem, t)
        else if m && not r
        then (enomem, t)
        else if not v
        then (enomem, t)
        else if not k
        then (enomem, t)
        else if b
        then (eexist, t)
        else if not o
        then (enomem, t)
        else (0, t'))
doadd_tests P false m r v k b o t t' f g h = f refl
doadd_tests P true true false v k b o t t' f g h = f refl
doadd_tests P true true true false k b o t t' f g h = f refl
doadd_tests P true true true true false b o t t' f g h = f refl
doadd_tests P true true true true true true o t t' f g h = g refl
doadd_tests P true true true true true false false t t' f g h = f refl
doadd_tests P true true true true true false true t t' f g h = h refl
doadd_tests P true false r false k b o t t' f g h = f (ground arith)
doadd_tests P true false r true false b o t t' f g h = f (ground arith)
doadd_tests P true false r true true true o t t' f g h = g refl
doadd_tests P true false r true true false false t t' f g h = f (ground arith)
doadd_tests P true false r true true false true t t' f g h = h refl

-- The device that vfs_doadd fills in
abbrev pub device_of : ℕ → Name → Bool → Option ℕ → Option ℕ → KnownDev
device_of vnode dname mountable dev fs = record {
  name = dname;
  rawname = if mountable then some (mkrawname dname) else none;
  device = dev;
  vnode = vnode;
  fs = fs;
}

doadd-Added :
    (ops : FsOps) (mem : Memory) (vnode : ℕ) (dname : Name) (mountable : Bool) (dev fs : Option ℕ)
    (t : Known)
    → IsTable ops t.devs
    → IsDevice ops (device_of vnode dname mountable dev fs)
    → Added ops mem
        (device_of vnode dname mountable dev fs)
        t
        (doadd ops mem vnode dname mountable dev fs t)
unfolding doadd
doadd-Added ops mem vnode dname mountable dev fs t h d =
    let a = device_of vnode dname mountable dev fs in
    doadd_tests (Added ops mem a t) mem.name_ok mountable mem.raw_ok mem.vnode_ok mem.kd_ok
      (badnames ops (some dname) a.rawname (volume ops fs) t.devs) mem.room_ok t
      (record { devs = t.devs ++ a ∷ []; number = numbered dev (length t.devs + 1) t.number })
      no_memory (λ e. taken (badnames-Clash ops a t.devs e))
      (λ e. added (append-IsTable ops a t.devs h d e))

pub mountable-IsDevice :
    (ops : FsOps) (vnode : ℕ) (devname : Name) (dev : ℕ) (mountable : Bool)
    → IsDevice ops (device_of vnode devname mountable (some dev) none)
mountable-IsDevice ops vnode devname dev true = record {
  mountable = λ _. refl;
  device = λ _. refl;
  raw = same-mkrawname devname;
  vol = refl;
}
mountable-IsDevice ops vnode devname dev false = record {
  mountable = λ _. refl;
  device = λ _. refl;
  raw = refl;
  vol = refl;
}

-- vfs_adddev to a table in order, for a mountable device or not: it returns ENOMEM only when memory
-- is short, EEXIST only when a device there has a name of the new one's, and leaves the table as it
-- was; otherwise the device is at the end, numbered by its place, and the table is in order.
pub adddev-Added :
    (ops : FsOps) (mem : Memory) (vnode : ℕ) (devname : Name) (dev : ℕ) (mountable : Bool)
    (t : Known)
    → IsTable ops t.devs
    → Added ops mem
        (device_of vnode devname mountable (some dev) none)
        t
        (adddev ops mem vnode devname dev mountable t)
unfolding adddev
adddev-Added ops mem vnode devname dev mountable t h =
    doadd-Added ops mem vnode devname mountable (some dev) none t h
      (mountable-IsDevice ops vnode devname dev mountable)

-- The same for vfs_addfs, whose device is a file system from the start.
pub addfs-Added :
    (ops : FsOps) (mem : Memory) (vnode : ℕ) (devname : Name) (fs : ℕ) (t : Known)
    → IsTable ops t.devs
    → Added ops mem
        (device_of vnode devname false none (some fs))
        t
        (addfs ops mem vnode devname fs t)
unfolding addfs
addfs-Added ops mem vnode devname fs t h =
    doadd-Added ops mem vnode devname false none (some fs) t h (record {
      mountable = λ e. absurd (ground (arith, e));
      device = λ e. absurd (ground (arith, e));
      raw = refl;
      vol = samestring_sym (ops.volname fs) none;
    })
