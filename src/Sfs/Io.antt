-- ===== src/Sfs/Io.antt =====
-- The retry loop of sfs_rwblock.
use cs.Base.{
  ℕ, zero, suc, sym, ◌≤◌, ◌≡◌, ◌≢◌, refl, true, false, List, [], ◌∷◌, ◌++◌, Run, ret, panic, ap,
  if◌then◌else◌, replicate, ◌==◌, Bool-cases, inl, inr, ◌⊎◌, arith,
}
use cs.Sfs.{
  einval, eio, Mounted, Result, ok, err, Block, update, attempts, rwblock, sfs_rwblock, rblock,
  wblock,
}

-- The device never says EINVAL, as it does only for sectors off the disk or not aligned.
abbrev pub InRange : List ℕ → Type 0
InRange [] = Unit
InRange (e ∷ es) = (e ≢ einval) × InRange es

-- The loop ends with a code and what is left.
pub attempts_lem :
    (n : ℕ) (es : List ℕ)
    → InRange es
    → (e : ℕ) × (es' : List ℕ) × (attempts n es ≡ ret (e, es')) × InRange es'
unfolding attempts
attempts_lem n [] h = (0, [], refl, tt)
attempts_lem zero (e ∷ es) (h, hs) = (e, es, ground (arith, h), hs)
attempts_lem (suc n) (e ∷ es) (h, hs) = elim (Bool-cases (e == eio)) [
  | inl again ↦ let (f, fs, q, r) = attempts_lem n es hs in (f, fs, ground (arith, h, again, q), r)
  | inr other ↦ (e, es, ground (arith, h, other), hs)
]

-- What a call that succeeds leaves: the same state, with fewer outcomes pending.
abbrev pub later : Mounted → List ℕ → Mounted
later m es = record m { fs = record m.fs { pending = es } }

abbrev pub written : Mounted → List ℕ → ℕ → Block → Mounted
written m es block b = record m {
  fs = record m.fs { pending = es; disk = update m.fs.disk block b };
}

-- How an operation ends: with a value and a state, or with an error and another.
abbrev pub Either : {A : Type 0} → Run (Result A × Mounted) → A → Mounted → Mounted → Type 0
Either r a good bad = (r ≡ ret (ok a, good)) ⊎ ((e : ℕ) × (e ≢ 0) × (r ≡ ret (err e, bad)))

module _ (m : Mounted) (h : InRange m.fs.pending) where
  pub rwblock_lem : (es : List ℕ) × InRange es × Either (rwblock m) tt (later m es) (later m es)
  unfolding rwblock
  rwblock_lem = let (e, es, q, r) = attempts_lem 10 m.fs.pending h in (es, r, go e es q)
    where
      go :
          (e : ℕ) (es : List ℕ)
          → attempts 10 m.fs.pending ≡ ret (e, es)
          → Either (rwblock m) tt (later m es) (later m es)
      go zero es q = inl (rw (q, rwblock) refl)
      go (suc e) es q =
          let z : (suc e == 0) ≡ false = ground arith in
          inr (suc e, omega arith, rw (q, rwblock, z) refl)

  pub rblock_lem :
      (block : ℕ)
      → (es : List ℕ) × InRange es
        × Either (rblock block m) (m.fs.disk block) (later m es) (later m es)
  unfolding rblock
  rblock_lem block =
      let (es, r, s) = rwblock_lem in
      (es, r, elim s [ inl q ↦ inl (rw q refl) | inr (e, n, q) ↦ inr (e, n, rw q refl) ])

  pub wblock_lem :
      (b : Block) (block : ℕ)
      → (es : List ℕ) × InRange es
        × Either (wblock b block m) tt (written m es block b) (later m es)
  unfolding wblock
  wblock_lem b block =
      let (es, r, s) = rwblock_lem in
      (es, r, elim s [ inl q ↦ inl (rw q refl) | inr (e, n, q) ↦ inr (e, n, rw q refl) ])

-- What up to `n` tries after the first one make of the device's outcomes: `k` of them are I/O errors,
-- and the next one counts, be it another outcome or the last that is asked for.
pub data Tries (n : ℕ) (es : List ℕ) : Run (ℕ × List ℕ) → Type 0 where
  ends :
      (k e : ℕ) (later : List ℕ)
      → k ≤ n
      → es ≡ replicate k eio ++ e ∷ later
      → (e ≢ eio) ⊎ (k ≡ n)
      → Tries n es (ret (e, later))
  runs_out : (k : ℕ) → k ≤ n → es ≡ replicate k eio → Tries n es (ret (0, []))

attempts-Tries : (n : ℕ) (es : List ℕ) → InRange es → Tries n es (attempts n es)
unfolding attempts
attempts-Tries n [] h = runs_out 0 (omega arith) refl
attempts-Tries zero (e ∷ es) (h, hs) =
    let z : (e == einval) ≡ false = ground (arith, h) in
    rw z (ends 0 e es (omega arith) refl (inr refl))
attempts-Tries (suc n) (e ∷ es) (h, hs) =
    let z : (e == einval) ≡ false = ground (arith, h) in
    elim (Bool-cases (e == eio)) [
      | inr y ↦ rw (z, y) (ends 0 e es (omega arith) refl (inl (ground (arith, y))))
      | inl y ↦ rw (z, y) (go (attempts n es) (ground (arith, y)) (attempts-Tries n es hs))
    ]
  where
    go : (r : Run (ℕ × List ℕ)) → e ≡ eio → Tries n es r → Tries (suc n) (e ∷ es) r
    go r q (ends k x later b p c) =
        ends (suc k) x later (omega (arith, b)) (rw (q, p) refl)
          (elim c [ inl d ↦ inl d | inr d ↦ inr (ap suc d) ])
    go r q (runs_out k b p) = runs_out (suc k) (omega (arith, b)) (rw (q, p) refl)

-- How sfs_rwblock ends after an outcome of the device
abbrev pub outcome : Mounted → ℕ → List ℕ → Run (Result (Unit {0}) × Mounted)
outcome m e es = if e == 0 then ret (ok tt, later m es) else ret (err e, later m es)

-- What sfs_rwblock does.
pub data Retries (m : Mounted) : Run (Result (Unit {0}) × Mounted) → Type 0 where
  retries :
      (k e : ℕ) (es : List ℕ)
      → k ≤ 10
      → m.fs.pending ≡ replicate k eio ++ e ∷ es
      → (e ≢ eio) ⊎ (k ≡ 10)
      → Retries m (outcome m e es)
  retries_all :
      (k : ℕ) → k ≤ 10 → m.fs.pending ≡ replicate k eio → Retries m (ret (ok tt, later m []))

-- sfs_rwblock panics without the big lock. With it, and on a device that does not return EINVAL, it
-- asks the device again after each of the first ten I/O errors that come one after another, so at
-- most eleven times, and returns the first other outcome, or the eleventh I/O error; the outcomes
-- that come later are not asked for. A device with no outcome listed succeeds.
pub rwblock-Retries :
    (m : Mounted)
    → InRange m.fs.pending
    → (sfs_rwblock false m ≡ panic) × Retries m (sfs_rwblock true m)
unfolding sfs_rwblock rwblock
rwblock-Retries m h = (refl, go (attempts 10 m.fs.pending) refl (attempts-Tries 10 m.fs.pending h))
  where
    go :
        (r : Run (ℕ × List ℕ))
        → attempts 10 m.fs.pending ≡ r
        → Tries 10 m.fs.pending r
        → Retries m (rwblock m)
    go r q (ends k e es b p c) = rw (q, rwblock) (retries k e es b p c)
    go r q (runs_out k b p) = rw (q, rwblock) (retries_all k b p)

-- With nothing pending, the device does what it is asked.
module _ (m : Mounted) (quiet : m.fs.pending ≡ []) where
  rwblock_quiet : rwblock m ≡ ret (ok tt, m)
  unfolding attempts rwblock
  rwblock_quiet = rw (quiet, sym quiet) refl

  pub rblock_quiet : (block : ℕ) → rblock block m ≡ ret (ok (m.fs.disk block), m)
  unfolding rblock
  rblock_quiet block = rw rwblock_quiet refl

  pub wblock_quiet :
      (b : Block) (block : ℕ)
      → wblock b block m
        ≡ ret (ok tt, record m { fs = record m.fs { disk = update m.fs.disk block b } })
  unfolding wblock
  wblock_quiet b block = rw rwblock_quiet refl
