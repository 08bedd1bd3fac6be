-- ===== src/Spl/Locks.antt =====
-- Spinlocks around a critical section.
use cs.Base.{ℕ, ◌+◌, ◌<◌, ◌^◌, ◌≡◌, refl, sym, true, false, none, some, ret, panic, arith, ◌==◌}
use cs.Spl.{Ipl, Spinlock, spinlock_acquire, spinlock_release, spinlock_do_i_hold}
use cs.Spl.Levels.{IsLevel, raised, splraise-eq, spllower-eq, restored}

-- A free spinlock.
abbrev pub IsFree : Spinlock → Type 0
IsFree lk = (lk.lock ≡ 0) × (lk.holder ≡ none)

-- On a free spinlock, for threads whose interrupt state is sound, spinlock_acquire succeeds at once
-- and the processor holds the lock with interrupts off; then another processor spins and the same
-- one panics. spinlock_release gives back the lock and the interrupt state as they were.
pub release-acquire :
    (cpu other : ℕ) (lk : Spinlock) (t v : Ipl)
    → IsFree lk
    → IsLevel t
    → IsLevel v
    → t.iplhigh_count + 1 < 2 ^ 31
    → v.iplhigh_count + 1 < 2 ^ 31
    → (other == cpu) ≡ false
    → (held : Spinlock) × (u : Ipl) × (spinlock_acquire cpu lk t ≡ ret (some (held, u)))
      × (u.irq_on ≡ false)
      × (spinlock_do_i_hold cpu held ≡ true)
      × (spinlock_acquire other held v ≡ ret none)
      × (spinlock_acquire cpu held v ≡ panic)
      × (spinlock_release cpu held u ≡ ret (lk, t))
unfolding spinlock_acquire spinlock_release spinlock_do_i_hold
release-acquire cpu other lk t v (f, g) it iv st sv ne =
    let up = splraise-eq t it.irq st in
    let up' = splraise-eq v iv.irq sv in
    let down = spllower-eq (raised t) refl (omega arith) (omega arith) in
    let same : (cpu == cpu) ≡ true = ground arith in
    let ne' : (cpu == other) ≡ false = ground (arith, ne) in
    (
      record { lock = 1; holder = some cpu },
      raised t,
      rw (up, g, f) refl,
      refl,
      same,
      rw (up', ne') refl,
      rw (up', same) refl,
      rw (same, down, restored t it.irq, sym f, sym g) refl,
    )
