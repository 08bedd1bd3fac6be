-- ===== src/Spl.antt =====
-- thread/spl.c and thread/spinlock.c: the interrupt level of the current thread, and spinlocks. A
-- processor is named by a number; `cpu` below is the one that runs, as CURCPU_EXISTS() once the boot
-- is done.
pub mod Levels
pub mod Locks
mod Tests
use cs.Base.{
  ℕ, ◌+◌, ◌%◌, ◌^◌, Bool, true, false, Option, none, some, Run, ret, panic, ◌>>=◌, ◌>>◌, kassert,
  ◌==◌, if◌then◌else◌, ltb,
}

-- t_curspl (IPL_NONE 0, IPL_HIGH 1) and t_iplhigh_count (an int, kept modulo 2^32) of the current
-- thread, and whether the processor takes interrupts.
pub record Ipl : Type 0 where
  pub curspl : ℕ
  pub iplhigh_count : ℕ
  pub irq_on : Bool

pub splraise : ℕ → ℕ → Ipl → Run Ipl
splraise oldspl newspl t = do
  kassert (oldspl == 0)
  kassert (newspl == 1)
  let off = if t.iplhigh_count == 0 then record t { irq_on = false } else t in
      ret (record off { iplhigh_count = (t.iplhigh_count + 1) % 2 ^ 32 })

pub spllower : ℕ → ℕ → Ipl → Run Ipl
spllower oldspl newspl t = do
  kassert (oldspl == 1)
  kassert (newspl == 0)
  let low = record t { iplhigh_count = (t.iplhigh_count + 4294967295) % 2 ^ 32 } in
      ret (if low.iplhigh_count == 0 then record low { irq_on = true } else low)

pub splx : ℕ → Ipl → Run (ℕ × Ipl)
splx spl t =
    if ltb t.curspl spl
    then (splraise t.curspl spl t >>= λ u. ret (t.curspl, record u { curspl = spl }))
    else if ltb spl t.curspl
    then (spllower t.curspl spl (record t { curspl = spl }) >>= λ u. ret (t.curspl, u))
    else ret (spl, t)

pub splhigh : Ipl → Run (ℕ × Ipl)
splhigh t = splx 1 t

-- struct spinlock: the lock word and the processor that holds it
pub record Spinlock : Type 0 where
  pub lock : ℕ
  pub holder : Option ℕ

pub spinlock_init : Spinlock
spinlock_init = record { lock = 0; holder = none }

abbrev pub is_cpu : Option ℕ → ℕ → Bool
is_cpu none cpu = false
is_cpu (some c) cpu = c == cpu

abbrev pub is_null : Option ℕ → Bool
is_null none = true
is_null (some c) = false

pub spinlock_cleanup : Spinlock → Run (Unit {0})
spinlock_cleanup lk = kassert (is_null lk.holder) >> kassert (lk.lock == 0)

-- spinlock_acquire; `none` when the word is taken, and the loop turns until another processor lets
-- go.
pub spinlock_acquire : ℕ → Spinlock → Ipl → Run (Option (Spinlock × Ipl))
spinlock_acquire cpu lk t = splraise 0 1 t >>= λ u.
    if is_cpu lk.holder cpu
    then panic
    else if lk.lock == 0
    then ret (some (record { lock = 1; holder = some cpu }, u))
    else ret none

pub spinlock_release : ℕ → Spinlock → Ipl → Run (Spinlock × Ipl)
spinlock_release cpu lk t = do
  kassert (is_cpu lk.holder cpu)
  u ← spllower 1 0 t
  ret (record { lock = 0; holder = none }, u)

pub spinlock_do_i_hold : ℕ → Spinlock → Bool
spinlock_do_i_hold cpu lk = is_cpu lk.holder cpu
