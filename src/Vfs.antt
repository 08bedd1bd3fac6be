-- ===== src/Vfs.antt =====
-- vfs/vfslist.c: the named devices and the file systems mounted on them, under the big lock. Vnodes,
-- devices and file systems are numbers; a name is its characters. What a file system answers through
-- its functions (fs.h) is a parameter.
pub mod Names
pub mod Table
pub mod Getroot
pub mod Add
pub mod FindMount
pub mod Mount
pub mod BigLock
pub mod Lookup
pub mod PathOps
pub mod Open
mod Tests
use cs.Base.{
  ℕ, zero, suc, ◌+◌, Bool, true, false, not, ◌&&◌, ◌||◌, List, [], ◌∷◌, ◌++◌, Option, none, some,
  length, set, Run, ret, panic, fault, Result, ok, err, ◌==◌, if◌then◌else◌,
}

abbrev pub einval : ℕ
einval = 8

abbrev pub eexist : ℕ
eexist = 22

abbrev pub enodev : ℕ
enodev = 25

abbrev pub enxio : ℕ
enxio = 26

abbrev pub ebusy : ℕ
ebusy = 27

abbrev pub enomem : ℕ
enomem = 3

abbrev pub Name : Type 0
Name = List ℕ

-- struct knowndev
pub record KnownDev : Type 0 where
  pub name : Name
  pub rawname : Option Name
  pub device : Option ℕ
  pub vnode : ℕ
  pub fs : Option ℕ

-- FSOP_GETVOLNAME and the vnode of FSOP_GETROOT
pub record FsOps : Type 0 where
  pub volname : ℕ → Option Name
  pub root : ℕ → ℕ

-- strcmp(a, b) == 0
abbrev pub same : Name → Name → Bool
same [] [] = true
same [] (y ∷ ys) = false
same (x ∷ xs) [] = false
same (x ∷ xs) (y ∷ ys) = (x == y) && same xs ys

abbrev pub is_some {ℓ} : {A : Type ℓ} → Option A → Bool
is_some none = false
is_some (some a) = true

abbrev pub samestring : Option Name → Option Name → Bool
samestring none b = false
samestring (some a) none = false
samestring (some a) (some b) = same a b

abbrev pub samestring3 : Option Name → Option Name → Option Name → Option Name → Bool
samestring3 a b c d = samestring a b || samestring a c || samestring a d

-- FSOP_GETVOLNAME of a file system that may be absent
abbrev pub volume : FsOps → Option ℕ → Option Name
volume ops none = none
volume ops (some fs) = ops.volname fs

-- mkrawname: strcat(s, "raw")
abbrev pub mkrawname : Name → Name
mkrawname name = name ++ 114 ∷ 97 ∷ 119 ∷ []

-- The loop of vfs_getroot: the vnode it hands back.
pub getroot : FsOps → Name → List KnownDev → Run (Result ℕ)
getroot ops devname [] = ret (err enodev)
getroot ops devname (kd ∷ kds) =
    let rest = getroot ops devname kds in
    let device =
      if samestring kd.rawname (some devname)
      then (if is_some kd.device then ret (ok kd.vnode) else panic)
      else rest in
    let plain =
      if same kd.name devname
      then (if not (is_some kd.fs) && not (is_some kd.rawname) && is_some kd.device
          then ret (ok kd.vnode)
          else panic)
      else device in
    elim kd.fs [
      | some fs ↦
          if same kd.name devname || samestring (ops.volname fs) (some devname)
          then ret (ok (ops.root fs))
          else plain
      | none ↦ if is_some kd.rawname && same kd.name devname then ret (err enxio) else plain
    ]

-- vfs_getdevname
pub getdevname : ℕ → List KnownDev → Option Name
getdevname fs [] = none
getdevname fs (kd ∷ kds) =
    let rest = getdevname fs kds in
    elim kd.fs [ some f ↦ if f == fs then some kd.name else rest | none ↦ rest ]

-- The test of badnames on one device
abbrev pub clashes : FsOps → Option Name → Option Name → Option Name → KnownDev → Bool
clashes ops n1 n2 n3 kd =
    samestring3 (volume ops kd.fs) n1 n2 n3
    || samestring3 kd.rawname n1 n2 n3
    || samestring3 (some kd.name) n1 n2 n3

pub badnames : FsOps → Option Name → Option Name → Option Name → List KnownDev → Bool
badnames ops n1 n2 n3 [] = false
badnames ops n1 n2 n3 (kd ∷ kds) = clashes ops n1 n2 n3 kd || badnames ops n1 n2 n3 kds

-- The table, and d_devnumber of the devices
pub record Known : Type 0 where
  pub devs : List KnownDev
  pub number : ℕ → ℕ

abbrev pub numbered : Option ℕ → ℕ → (ℕ → ℕ) → ℕ → ℕ
numbered none n number j = number j
numbered (some dev) n number j = if j == dev then n else number j

-- What of vfs_doadd's requests for memory is granted: the name, the raw name, the vnode, the
-- structure, and room in the table.
pub record Memory : Type 0 where
  pub name_ok : Bool
  pub raw_ok : Bool
  pub vnode_ok : Bool
  pub kd_ok : Bool
  pub room_ok : Bool

-- vfs_doadd, where `vnode` is the one that dev_create_vnode makes
pub doadd : FsOps → Memory → ℕ → Name → Bool → Option ℕ → Option ℕ → Known → ℕ × Known
doadd ops mem vnode dname mountable dev fs t =
    let rawname = if mountable then some (mkrawname dname) else none in
    if not mem.name_ok
    then (enomem, t)
    else if mountable && not mem.raw_ok
    then (enomem, t)
    else if not mem.vnode_ok
    then (enomem, t)
    else if not mem.kd_ok
    then (enomem, t)
    else if badnames ops (some dname) rawname (volume ops fs) t.devs
    then (eexist, t)
    else if not mem.room_ok
    then (enomem, t)
    else (
      0,
      record {
        devs =
            t.devs
            ++ (record { name = dname; rawname = rawname; device = dev; vnode = vnode; fs = fs })
              ∷ [];
        number = numbered dev (length t.devs + 1) t.number;
      },
    )

-- vfs_adddev and vfs_addfs
pub adddev : FsOps → Memory → ℕ → Name → ℕ → Bool → Known → ℕ × Known
adddev ops mem vnode devname dev mountable = doadd ops mem vnode devname mountable (some dev) none

pub addfs : FsOps → Memory → ℕ → Name → ℕ → Known → ℕ × Known
addfs ops mem vnode devname fs = doadd ops mem vnode devname false none (some fs)

abbrev pub one_further : Option (ℕ × KnownDev) → Option (ℕ × KnownDev)
one_further none = none
one_further (some (i, kd)) = some (suc i, kd)

-- findmount: the device and its index
pub findmount : Name → List KnownDev → Option (ℕ × KnownDev)
findmount devname [] = none
findmount devname (kd ∷ kds) =
    let rest = one_further (findmount devname kds) in
    if is_some kd.rawname && same devname kd.name then some (0, kd) else rest

-- vfs_mount, where `made` is what the mount function returns for the device
pub mount : Name → (ℕ → Result ℕ) → List KnownDev → Run (ℕ × List KnownDev)
mount devname mountfunc kds = elim (findmount devname kds) [
  | none ↦ ret (enodev, kds)
  | some (i, kd) ↦ if is_some kd.fs then ret (ebusy, kds) else elim kd.device [
    | none ↦ panic
    | some dev ↦ elim (mountfunc dev) [
      | err e ↦ ret (e, kds)
      | ok fs ↦ ret (0, set kds i (record kd { fs = some fs }))
    ]
  ]
]

-- vfs_unmount, where `sync` and `unmount` are what FSOP_SYNC and FSOP_UNMOUNT return
pub unmount : Name → (ℕ → ℕ) → (ℕ → ℕ) → List KnownDev → Run (ℕ × List KnownDev)
unmount devname fs_sync fs_unmount kds = elim (findmount devname kds) [
  | none ↦ ret (enodev, kds)
  | some (i, kd) ↦ elim kd.fs [
    | none ↦ ret (einval, kds)
    | some fs ↦
        if not (is_some kd.device)
        then panic
        else if not (fs_sync fs == 0)
        then ret (fs_sync fs, kds)
        else if not (fs_unmount fs == 0)
        then ret (fs_unmount fs, kds)
        else ret (0, set kds i (record kd { fs = none }))
  ]
]

-- vfs_unmountall, where `fs_sync fs` is what the two tries of FSOP_SYNC return
pub unmountall : (ℕ → ℕ × ℕ) → (ℕ → ℕ) → List KnownDev → List KnownDev
unmountall fs_sync fs_unmount [] = []
unmountall fs_sync fs_unmount (kd ∷ kds) =
    let rest = unmountall fs_sync fs_unmount kds in
    elim kd.fs [
      | none ↦ kd ∷ rest
      | some fs ↦
          if not (is_some kd.rawname)
          then kd ∷ rest
          else if not ((fs_sync fs).0 == 0) && not ((fs_sync fs).1 == 0)
          then kd ∷ rest
          else if not (fs_unmount fs == 0)
          then kd ∷ rest
          else record kd { fs = none } ∷ rest
    ]
