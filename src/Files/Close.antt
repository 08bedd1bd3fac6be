-- ===== src/Files/Close.antt =====
-- file_close frees an entry with the last of its descriptors.
use cs.Base.{
  ℕ, ◌-◌, ◌+◌, ◌≤◌, ◌<◌, ◌≡◌, ◌≢◌, refl, ap, ◌∙◌, sym, true, false, Option, none, some, Run, ret,
  panic, fault, Result, ok, err, leb, ◌==◌, inl, inr, Bool-cases, arith, put,
}
use cs.Base.Words.{sub_u32}
use cs.Vfs.Lookup.{VnodeOps, Vnodes}
use cs.Vfs.Lookup.Counts.{one, IsReclaiming}
use cs.Vfs.Open.{Opened}
use cs.Vfs.Open.Counts.{Has, vfs_close-Has}
use cs.Files.{Entry, Files, entry_of, let_go, file_close, ebadf}
use cs.Files.Uses.{uses, IsFiles, uses-closed, uses-less, uses-some, uses-le}

-- A descriptor that file_close refuses: it is out of range, not open, or its entry has no vnode.
pub data IsBad (f : Files) (fd : ℕ) : Type 0 where
  out_of_range : 128 ≤ fd → IsBad f fd
  not_open : f.table fd ≡ none → IsBad f fd
  no_vnode :
      (p : ℕ) (e : Entry) → f.table fd ≡ some p → f.entries p ≡ some e → e.vnode ≡ none → IsBad f fd

-- What file_close does, where the counts without the entry's own are `refs` and `opens`.
pub data Closing (s : Vnodes) (refs opens : ℕ → ℕ) (fd : ℕ) (f : Files)
    : Run (Result (Unit {0}) × Files) → Type 0 where
  bad : IsBad f fd → Closing s refs opens fd f (ret (err ebadf, f))
  one_less :
      (p : ℕ) (e : Entry) (f' : Files)
      → f.table fd ≡ some p
      → f.entries p ≡ some e
      → 1 < uses f.table 128 p
      → f'.table ≡ put f.table fd none
      → f'.entries ≡ put f.entries p (some (record e { count = uses f.table 128 p - 1 }))
      → f'.vfs ≡ f.vfs
      → IsFiles f'
      → Closing s refs opens fd f (ret (ok tt, f'))
  last :
      (p : ℕ) (f' : Files)
      → f.table fd ≡ some p
      → uses f.table 128 p ≡ 1
      → f'.table ≡ put f.table fd none
      → f'.entries ≡ put f.entries p none
      → Has s refs opens f'.vfs
      → IsFiles f'
      → Closing s refs opens fd f (ret (ok tt, f'))

-- The entry that a valid descriptor has.
data Finds (f : Files) (fd : ℕ) : Run (Result (ℕ × Entry × ℕ)) → Type 0 where
  invalid : IsBad f fd → Finds f fd (ret (err ebadf))
  valid :
      (p : ℕ) (e : Entry) (v : ℕ)
      → fd < 128
      → f.table fd ≡ some p
      → f.entries p ≡ some e
      → e.vnode ≡ some v
      → e.count ≡ uses f.table 128 p
      → Finds f fd (ret (ok (p, e, v)))

entry_of-Finds : (f : Files) (fd : ℕ) → IsFiles f → Finds f fd (entry_of fd f)
unfolding entry_of
entry_of-Finds f fd i = elim (Bool-cases (leb 128 fd)) [
  | inl z ↦ rw z (invalid (out_of_range (ground (arith, z))))
  | inr z ↦ rw z (go (ground (arith, z)) (f.table fd) refl)
]
  where
    of_vnode :
        fd < 128
        → (p : ℕ) (e : Entry) → f.table fd ≡ some p
        → f.entries p ≡ some e
        → e.count ≡ uses f.table 128 p
        → (w : Option ℕ) → e.vnode ≡ w
        → Finds f fd (elim w [ none ↦ ret (err ebadf) | some v ↦ ret (ok (p, e, v)) ])
    of_vnode b p e y m c none n = invalid (no_vnode p e y m n)
    of_vnode b p e y m c (some v) n = valid p e v b y m n c

    go :
        fd < 128
        → (o : Option ℕ) → f.table fd ≡ o
        → Finds f fd (elim o [
          | none ↦ ret (err ebadf)
          | some p ↦ elim (f.entries p) [
            | none ↦ fault
            | some e ↦ elim e.vnode [ none ↦ ret (err ebadf) | some v ↦ ret (ok (p, e, v)) ]
          ]
        ])
    go b none y = invalid (not_open y)
    go b (some p) y = let (e, m, c) = i.shared fd p b y in rw m (of_vnode b p e y m c e.vnode refl)

module _ (f : Files) (fd p : ℕ) (b : fd < 128) (y : f.table fd ≡ some p) (i : IsFiles f) where
  -- The table without the descriptor, where the entry is `x`
  closed : Option Entry → Opened → Files
  closed x t = record { table = put f.table fd none; entries = put f.entries p x; vfs = t }

  others-IsFiles :
      (x : Option Entry) (t : Opened)
      → ((g : ℕ)
          → g < 128
          → put f.table fd none g ≡ some p
          → (e : Entry) × (x ≡ some e) × (e.count ≡ uses (put f.table fd none) 128 p))
      → IsFiles (closed x t)
  unfolding closed
  others-IsFiles x t h = record { shared = shared }
    where
      shared :
          (g q : ℕ)
          → g < 128
          → put f.table fd none g ≡ some q
          → (e : Entry) × (put f.entries p x q ≡ some e)
            × (e.count ≡ uses (put f.table fd none) 128 q)
      shared g q c m = elim (Bool-cases (q == p)) [
        | inl z ↦
            let k : q ≡ p = ground (arith, z) in
            let (e, n, u) = h g c (m ∙ ap some k) in
            (e, ground (arith, z, n), u ∙ ap (uses (put f.table fd none) 128) (sym k))
        | inr z ↦
            let (e, n, u) = i.shared g q c (ground (arith, m)) in
            (e, ground (arith, z, n), ground (arith, z, u, uses-closed f.table fd p 128 q b y))
      ]

sole : (n u : ℕ) → n ≡ u → 0 < u → u ≤ 128 → (sub_u32 n 1 == 0) ≡ true → u ≡ 1
sole n u e lo hi z = let x : sub_u32 n 1 ≡ 0 = ground (arith, z) in omega (arith, e, lo, hi, x)

less : {a b : ℕ} → a + 1 ≡ b → a ≡ b - 1
less e = omega (arith, e)

several :
    (n u : ℕ)
    → n ≡ u
    → 0 < u
    → u ≤ 128
    → (sub_u32 n 1 == 0) ≡ false
    → (1 < u) × (sub_u32 n 1 + 1 ≡ u)
several n u e lo hi z =
    let x : sub_u32 n 1 ≢ 0 = ground (arith, z) in
    (omega (arith, e, lo, hi, x), omega (arith, e, lo, hi))

let_go-Closing :
    (ops : VnodeOps) (fd : ℕ) (f : Files) (s : Vnodes) (refs opens : ℕ → ℕ)
    → IsFiles f
    → IsReclaiming ops refs
    → ((p : ℕ) (e : Entry) (v : ℕ)
        → f.table fd ≡ some p
        → uses f.table 128 p ≡ 1
        → f.entries p ≡ some e
        → e.vnode ≡ some v
        → Has s (λ j. refs j + one v j) (λ j. opens j + one v j) f.vfs)
    → (p : ℕ) (e : Entry) (v : ℕ) → fd < 128
    → f.table fd ≡ some p
    → f.entries p ≡ some e
    → e.vnode ≡ some v
    → e.count ≡ uses f.table 128 p
    → Closing s refs opens fd f (let_go ops fd p e v f)
unfolding let_go closed
let_go-Closing ops fd f s refs opens i reclaims own p e v b y m n c =
    let low = uses-some f.table fd 128 p b y in
    let most = uses-le f.table 128 p in
    let k = uses-less f.table fd p 128 b y in
    elim (Bool-cases (sub_u32 e.count 1 == 0)) [
      | inl z ↦
          let u = sole (e.count) (uses f.table 128 p) c low most z in
          let (t, run, ht) = vfs_close-Has ops v s f.vfs refs opens reclaims (own p e v y u m n) in
          rw (z, run)
            (last p (closed f fd p b y i none t) y u refl refl ht (
              others-IsFiles f fd p b y i none t (λ g b' h.
                let a = uses-some (put f.table fd none) g 128 p b' h in
                absurd (omega (arith, a, k, u)))))
      | inr z ↦
          let (u, d) = several (e.count) (uses f.table 128 p) c low most z in
          rw z (
            one_less p e (closed f fd p b y i (some (record e { count = sub_u32 e.count 1 })) f.vfs)
              y m u refl (ap (λ x. put f.entries p (some (record e { count = x }))) (less d)) refl
              (others-IsFiles f fd p b y i (some (record e { count = sub_u32 e.count 1 })) f.vfs
                (λ g b' h. (record e { count = sub_u32 e.count 1 }, refl, omega (arith, d, k)))))
    ]

-- On entries with the numbers of their descriptors, where the vnode of an entry with one descriptor
-- has the reference and the open of that entry, and VOP_RECLAIM takes out of memory every vnode
-- that has no other reference: file_close returns. It gives EBADF for a descriptor that is out of
-- range, not open or has no vnode, and nothing changes. Otherwise the descriptor is closed: when
-- others share its entry, that stays as it was with one less in its count; when it is the last, the
-- entry is freed and the reference and the open are given back. The entries have the numbers of
-- their descriptors again.
pub file_close-Closing :
    (ops : VnodeOps) (fd : ℕ) (f : Files) (s : Vnodes) (refs opens : ℕ → ℕ)
    → IsFiles f
    → IsReclaiming ops refs
    → ((p : ℕ) (e : Entry) (v : ℕ)
        → f.table fd ≡ some p
        → uses f.table 128 p ≡ 1
        → f.entries p ≡ some e
        → e.vnode ≡ some v
        → Has s (λ j. refs j + one v j) (λ j. opens j + one v j) f.vfs)
    → Closing s refs opens fd f (file_close ops fd f)
unfolding file_close let_go
file_close-Closing ops fd f s refs opens i reclaims own = go (entry_of fd f) (entry_of-Finds f fd i)
  where
    go :
        (r : Run (Result (ℕ × Entry × ℕ)))
        → Finds f fd r
        → Closing s refs opens fd f (elim r [
          | ret r ↦ elim r [ err x ↦ ret (err x, f) | ok q ↦ let_go ops fd q.0 q.1 q.2 f ]
          | panic ↦ panic
          | fault ↦ fault
        ])
    go r (invalid x) = bad x
    go r (valid p e v b y m n c) =
        let_go-Closing ops fd f s refs opens i reclaims own p e v b y m n c
