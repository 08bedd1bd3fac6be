-- ===== src/Vfs/Table.antt =====
-- When the table of devices is in order: no two of them answer to the same name.
use cs.Base.{ℕ, true, false, List, none, some, get_elem?, Result, ok, err, ◌||◌, ◌≡◌, ◌≢◌}
use cs.Vfs.{Name, KnownDev, FsOps, same, is_some, samestring, volume, enxio}
use cs.Vfs.Names.{named}

pub record IsDevice (ops : FsOps) (kd : KnownDev) : Type 0 where
  pub mountable : is_some kd.rawname ≡ true → is_some kd.device ≡ true
  pub device : is_some kd.fs ≡ false → is_some kd.device ≡ true
  pub raw : samestring kd.rawname (some kd.name) ≡ false
  pub vol : samestring (volume ops kd.fs) kd.rawname ≡ false

unfoldable pub Apart : FsOps → KnownDev → KnownDev → Type 0
Apart ops a b = (n : Name) → named ops a n ≡ true → named ops b n ≡ false

pub record IsTable (ops : FsOps) (kds : List KnownDev) : Type 0 where
  pub each : (i : ℕ) (kd : KnownDev) → get_elem? kds i ≡ some kd → IsDevice ops kd
  pub apart :
      (i j : ℕ) (a b : KnownDev)
      → i ≢ j
      → get_elem? kds i ≡ some a
      → get_elem? kds j ≡ some b
      → Apart ops a b

-- What a name of a device means, after the comment on struct knowndev.
pub data Means (ops : FsOps) (kd : KnownDev) (n : Name) : Result ℕ → Type 0 where
  mounted :
      (fs : ℕ)
      → kd.fs ≡ some fs
      → (same kd.name n || samestring (ops.volname fs) (some n)) ≡ true
      → Means ops kd n (ok (ops.root fs))
  unmounted :
      kd.fs ≡ none → is_some kd.rawname ≡ true → same kd.name n ≡ true → Means ops kd n (err enxio)
  plain :
      kd.fs ≡ none
      → is_some kd.rawname ≡ false
      → same kd.name n ≡ true
      → Means ops kd n (ok kd.vnode)
  raw : samestring kd.rawname (some n) ≡ true → Means ops kd n (ok kd.vnode)
