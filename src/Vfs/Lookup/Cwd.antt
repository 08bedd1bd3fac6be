-- ===== src/Vfs/Lookup/Cwd.antt =====
-- vfs_chdir moves the reference that the current directory holds; vfs_setbootfs and its colon.
use cs.Base.{
  zero, suc, ap, [], ◌∷◌, ◌++◌, ◌<◌, length, ltb, inl, inr, Bool-cases, ℕ, ◌+◌, ◌-◌, ◌≤◌, Bool,
  true, false, List, Option, none, some, take, Run, ret, Result, ok, err, and_then, ◌==◌,
  if◌then◌else◌, ◌≡◌, refl, ◌∙◌, arith,
}
use cs.Vfs.{Name, KnownDev, FsOps, einval}
use cs.Vfs.Lookup.{
  VnodeOps, Vnodes, incref, and_drop, lookup, drop_old, setcurdir, chdir, setbootfs, strchr,
  enotdir,
}
use cs.Vfs.Lookup.Counts.{Counts, gained, failed, one, IsReclaiming, more-IsReclaiming, decref-ret}
use cs.Vfs.Lookup.Refs.{IsWorking, lookup-Counts}

-- The reference that the current directory holds
abbrev pub held : Option ℕ → ℕ → ℕ
held none j = 0
held (some v) j = one v j

-- The references other than that of the current directory
abbrev pub others : Vnodes → ℕ → ℕ
others s j = s.refs j - held s.cwd j

-- It becomes a directory that it holds a reference to, in place of the one to the old directory; or
-- nothing changes.
pub data Moves (s : Vnodes) : Run (Result (Unit {0}) × Vnodes) → Type 0 where
  moved :
      (v : ℕ) (t : Vnodes)
      → ((j : ℕ) → t.refs j + held s.cwd j ≡ s.refs j + one v j)
      → t.cwd ≡ some v
      → t.bootfs ≡ s.bootfs
      → Moves s (ret (ok tt, t))
  stays :
      (e : ℕ) (t : Vnodes)
      → ((j : ℕ) → t.refs j ≡ s.refs j)
      → t.cwd ≡ s.cwd
      → t.bootfs ≡ s.bootfs
      → Moves s (ret (err e, t))

drop_old-ret :
    (ops : VnodeOps) (o : Option ℕ) (s : Vnodes) (base : ℕ → ℕ)
    → IsReclaiming ops base
    → ((j : ℕ) → s.refs j ≡ base j + held o j)
    → (t : Vnodes) × (drop_old ops o s ≡ ret (ok tt, t))
      × ((j : ℕ) → t.refs j ≡ base j)
      × (t.cwd ≡ s.cwd)
      × (t.bootfs ≡ s.bootfs)
drop_old-ret ops none s base reclaims h = (s, refl, (λ j. omega (arith, h j)), refl, refl)
drop_old-ret ops (some v) s base reclaims h = decref-ret ops v s base reclaims h

-- vfs_setcurdir of a directory that a reference `one v` is held to, and the drop of that reference
refused-Moves :
    (ops : VnodeOps) (v e : ℕ) (s t : Vnodes)
    → IsReclaiming ops s.refs
    → ((j : ℕ) → t.refs j ≡ s.refs j + one v j)
    → t.cwd ≡ s.cwd
    → t.bootfs ≡ s.bootfs
    → Moves s (and_drop ops v (ret (err e, t)))
refused-Moves ops v e s t reclaims h c b =
    let (u, eq, refs, c', b') = decref-ret ops v t s.refs reclaims h in
    rw eq (stays e u refs (c' ∙ c) (b' ∙ b))

entered-Moves :
    (ops : VnodeOps) (v : ℕ) (s t : Vnodes)
    → IsReclaiming ops (others s)
    → ((j : ℕ) → held s.cwd j ≤ s.refs j)
    → ((j : ℕ) → t.refs j ≡ s.refs j + one v j + one v j)
    → t.cwd ≡ some v
    → t.bootfs ≡ s.bootfs
    → Moves s (and_drop ops v (drop_old ops s.cwd t))
entered-Moves ops v s t reclaims own h c b =
    let (u, eq, refs, c', b') =
      drop_old-ret ops s.cwd t (λ j. s.refs j + one v j + one v j - held s.cwd j)
        (more-IsReclaiming ops (others s) _ reclaims (λ j. omega (arith, own j)))
        (λ j. omega (arith, own j, h j)) in
    let (w, eq', refs', c'', b'') =
      decref-ret ops v u (λ j. s.refs j + one v j - held s.cwd j)
        (more-IsReclaiming ops (others s) _ reclaims (λ j. omega (arith, own j)))
        (λ j. omega (arith, refs j, own j)) in
    rw eq
      (rw eq' (moved v w (λ j. omega (arith, refs' j, own j)) (c'' ∙ (c' ∙ c)) (b'' ∙ (b' ∙ b))))

setcurdir-Moves :
    (ops : VnodeOps) (v : ℕ) (r : Result Bool) (s t : Vnodes)
    → ops.gettype v ≡ r
    → IsReclaiming ops (others s)
    → ((j : ℕ) → held s.cwd j ≤ s.refs j)
    → ((j : ℕ) → t.refs j ≡ s.refs j + one v j)
    → t.cwd ≡ s.cwd
    → t.bootfs ≡ s.bootfs
    → Moves s (and_drop ops v (setcurdir ops v t))
unfolding setcurdir incref
setcurdir-Moves ops v (err e) s t g reclaims own h c b =
    rw (g, setcurdir)
      (refused-Moves ops v e s t
        (more-IsReclaiming ops (others s) s.refs reclaims (λ j. omega arith)) h c b)
setcurdir-Moves ops v (ok false) s t g reclaims own h c b =
    rw (g, setcurdir)
      (refused-Moves ops v enotdir s t
        (more-IsReclaiming ops (others s) s.refs reclaims (λ j. omega arith)) h c b)
setcurdir-Moves ops v (ok true) s t g reclaims own h c b =
    let u : Vnodes = record t {
      refs = λ j. if j == v then t.refs j + 1 else t.refs j;
      cwd = some v;
    } in
    rw (g, setcurdir)
      (rw c (entered-Moves ops v s u reclaims own (λ j. ground (arith, h j)) refl b))

-- vfs_chdir returns, whatever the path, where vnodes are reclaimed also without the reference of the
-- current directory. Either the current directory is one that the path leads to,
-- with a reference more, and the old one has one less; or there is an error, and nothing changed.
pub chdir-Moves :
    (fsops : FsOps) (ops : VnodeOps) (devs : List KnownDev) (path : Name) (s : Vnodes)
    → IsWorking fsops ops devs s
    → ((j : ℕ) → held s.cwd j ≤ s.refs j)
    → IsReclaiming ops (others s)
    → Moves s (chdir fsops ops devs path s)
unfolding chdir
chdir-Moves fsops ops devs path s w own reclaims =
    go (lookup fsops ops devs path s) (lookup-Counts fsops ops devs path s w)
  where
    go :
        (r : Run (Result ℕ × Vnodes))
        → Counts s s.refs one r
        → Moves s (and_then r (λ v. λ t. and_drop ops v (setcurdir ops v t)))
    go r (gained v t h c b) = setcurdir-Moves ops v (ops.gettype v) s t refl reclaims own h c b
    go r (failed e t h c b) = stays e t h c b

-- What strchr finds starts with the colon.
strchr-some : (a b : Name) → (s : Name) × (strchr (a ++ 58 ∷ b) ≡ some s) × (0 < length s)
strchr-some [] b = (58 ∷ b, refl, omega arith)
strchr-some (c ∷ cs) b = elim (Bool-cases (c == 58)) [
  | inl z ↦ (c ∷ cs ++ 58 ∷ b, rw z refl, omega arith)
  | inr z ↦ let (s, e, l) = strchr-some cs b in (s, rw z e, l)
]

take-colon : (n : ℕ) (a b : Name) → length a < n → (d : Name) × (take n (a ++ 58 ∷ b) ≡ a ++ 58 ∷ d)
take-colon zero a b h = absurd (omega (arith, h))
take-colon (suc n) [] b h = (take n b, refl)
take-colon (suc n) (x ∷ xs) b h =
    let (d, e) = take-colon n xs b (omega (arith, h)) in (d, ap (λ t. x ∷ t) e)

-- vfs_setbootfs of a name with a colon among its first 254 characters, wherever it is and so at the
-- name's end too, gives EINVAL and changes nothing.
pub setbootfs-colon :
    (fsops : FsOps) (ops : VnodeOps) (devs : List KnownDev) (a b : Name) (s : Vnodes)
    → length a < 254
    → setbootfs fsops ops devs (a ++ 58 ∷ b) s ≡ ret (err einval, s)
unfolding setbootfs
setbootfs-colon fsops ops devs a b s h =
    let (d, e) = take-colon 254 a b h in
    let (t, f, l) = strchr-some a d in
    let z : ltb 0 (length t) ≡ true = ground (arith, l) in rw (e, setbootfs) (rw (f, z) refl)
