-- ===== src/Vfs/BigLock.antt =====
-- The big lock of vfs/vfslist.c, which its holder may take again. lock_acquire waits while another
-- thread holds the lock.
use cs.Base.{
  ℕ, zero, suc, ◌+◌, ◌-◌, ◌%◌, ◌^◌, ◌<◌, Bool, false, not, ◌||◌, Option, none, some, Run, ret,
  panic, ◌>>=◌, ◌==◌, if◌then◌else◌, ◌≡◌, ◌≢◌, refl, ap, ◌∙◌, arith,
}

pub record BigLock : Type 0 where
  pub holder : Option ℕ
  pub depth : ℕ

abbrev pub holds : ℕ → Option ℕ → Bool
holds i none = false
holds i (some j) = j == i

-- vfs_biglock_do_i_hold
pub do_i_hold : ℕ → BigLock → Bool
do_i_hold i l = holds i l.holder

-- vfs_biglock_acquire: none while the thread waits
pub acquire : ℕ → BigLock → Option BigLock
acquire i l =
    if do_i_hold i l then some (record l { depth = (l.depth + 1) % 2 ^ 32 }) else elim l.holder [
      | none ↦ some (record { holder = some i; depth = (l.depth + 1) % 2 ^ 32 })
      | some j ↦ none
    ]

-- vfs_biglock_release
pub release : ℕ → BigLock → Run BigLock
release i l =
    if not (do_i_hold i l) || (l.depth == 0)
    then panic
    else if l.depth == 1
    then ret (record { holder = none; depth = 0 })
    else ret (record l { depth = l.depth - 1 })

pub acquires : ℕ → ℕ → BigLock → Option BigLock
acquires zero i l = some l
acquires (suc n) i l = elim (acquire i l) [ none ↦ none | some l' ↦ acquires n i l' ]

pub releases : ℕ → ℕ → BigLock → Run BigLock
releases zero i l = ret l
releases (suc n) i l = release i l >>= releases n i

-- The lock free, or held by `i` at a depth that is not 0
abbrev pub lock_at : ℕ → ℕ → BigLock
lock_at i zero = record { holder = none; depth = 0 }
lock_at i (suc d) = record { holder = some i; depth = suc d }

acquire-lock_at : (i d : ℕ) → suc d < 2 ^ 32 → acquire i (lock_at i d) ≡ some (lock_at i (suc d))
unfolding acquire do_i_hold
acquire-lock_at i zero h = refl
acquire-lock_at i (suc d) h = ground arith

release-lock_at : (i d : ℕ) → release i (lock_at i (suc d)) ≡ ret (lock_at i d)
unfolding release do_i_hold
release-lock_at i zero = ground arith
release-lock_at i (suc d) = ground arith

acquires-lock_at :
    (n i d : ℕ) → d + n < 2 ^ 32 → acquires n i (lock_at i d) ≡ some (lock_at i (d + n))
unfolding acquires
acquires-lock_at zero i d h = ground arith
acquires-lock_at (suc n) i d h =
    let e : d + suc n ≡ suc d + n = omega arith in
    rw e (
      rw (acquire-lock_at i d (omega arith), acquires) (acquires-lock_at n i (suc d) (omega arith)))

releases-lock_at : (m i d : ℕ) → releases m i (lock_at i (d + m)) ≡ ret (lock_at i d)
unfolding releases
releases-lock_at zero i d = ground arith
releases-lock_at (suc m) i d =
    let e : d + suc m ≡ suc (d + m) = omega arith in
    let step : release i (lock_at i (d + suc m)) ≡ ret (lock_at i (d + m)) =
      ap (λ k. release i (lock_at i k)) e ∙ release-lock_at i (d + m) in
    ap (λ r. r >>= releases m i) step ∙ releases-lock_at m i d

-- A thread that is not kept out takes the lock as often as it likes, short of 2 ^ 32. After any part
-- of as many releases the lock is at the depth that is left, and it is free only when none is; while
-- it is held, any other thread waits for it, and panics if it releases it.
pub releases-acquires :
    (i j d n m : ℕ)
    → d + (n + m) < 2 ^ 32
    → i ≢ j
    → 0 < d + n
    → (acquires (n + m) i (lock_at i d) ≡ some (lock_at i (d + (n + m))))
      × (releases m i (lock_at i (d + (n + m))) ≡ ret (lock_at i (d + n)))
      × (acquire j (lock_at i (d + n)) ≡ none)
      × (release j (lock_at i (d + n)) ≡ panic)
unfolding acquire release do_i_hold
releases-acquires i j d n m h ne p =
    let e : d + (n + m) ≡ d + n + m = omega arith in
    (
      acquires-lock_at (n + m) i d h,
      rw e (releases-lock_at m i (d + n)),
      kept (d + n) p,
      stopped (d + n) p,
    )
  where
    kept : (k : ℕ) → 0 < k → acquire j (lock_at i k) ≡ none
    kept zero q = elim q [ ]
    kept (suc k) q = ground arith

    stopped : (k : ℕ) → 0 < k → release j (lock_at i k) ≡ panic
    stopped zero q = elim q [ ]
    stopped (suc k) q = ground arith
