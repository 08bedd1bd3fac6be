-- ===== src/Sync/Lock/Mutex.antt =====
-- Mutual exclusion of lock_acquire and lock_release under any interleaving.
use cs.Base.{ℕ, ◌≡◌, refl, Bool, true, false, Option, none, some, arith}
use cs.Sync.Threads.{set_pc}
use cs.Sync.Lock.{
  Lock, Pc, test, bridge, got, critical, check, wake, done, create, do_i_hold, is_thread, Move,
  call_acquire, acquire, take, acquire_release, clear, System, pick, Reach, start, later,
}

-- Whether a thread has the lock: lock_acquire has set the holder and lock_release is not called yet.
abbrev pub owns : Pc → Bool
owns got = true
owns critical = true
owns _ = false

-- Whether a thread holds the spinlock lk_lock.
abbrev pub spins : Pc → Bool
spins test = true
spins bridge = true
spins got = true
spins check = true
spins wake = true
spins done = true
spins _ = false

-- What lock->held says of lock->holder.
abbrev pub held_of : Option ℕ → ℕ
held_of none = 0
held_of (some _) = 1

pub record Inv (l : Lock) (pc : ℕ → Pc) : Type 0 where
  pub owner : (i : ℕ) → owns (pc i) ≡ true → l.holder ≡ some i
  pub spinner : (i : ℕ) → spins (pc i) ≡ true → l.spin ≡ some i
  pub flag : l.held ≡ held_of l.holder

abbrev Guard : {i : ℕ} {l l' : Lock} {p p' : Pc} → Move i l p l' p' → Type 0
Guard {l = l} (acquire _) = l.spin ≡ none
Guard {l = l} (take _) = l.holder ≡ none
Guard {l = l} (acquire_release _) = l.spin ≡ none
Guard {i = i} {l = l} (clear _) = l.holder ≡ some i
Guard _ = Unit

is_thread-eq-some : (t : Option ℕ) (i : ℕ) → is_thread t i ≡ true → t ≡ some i
is_thread-eq-some none i h = ground (arith, h)
is_thread-eq-some (some j) i h = ground (arith, h)

holder-eq-some : (l : Lock) (i : ℕ) → do_i_hold l i ≡ true → l.holder ≡ some i
unfolding do_i_hold
holder-eq-some l i h = is_thread-eq-some l.holder i h

guard : {i : ℕ} {l l' : Lock} {p p' : Pc} (mv : Move i l p l' p') → Guard mv
guard (acquire h) = h
guard (take h) = h
guard (acquire_release h) = h
guard {i} {l} (clear h) = holder-eq-some l i h
guard _ = tt

module _ {l : Lock} {pc : ℕ → Pc} (inv : Inv l pc) (i : ℕ) where
  Move-flag : {p p' : Pc} {l' : Lock} → Move i l p l' p' → l'.held ≡ held_of l'.holder
  Move-flag call_acquire = inv.flag
  Move-flag mv = ground (arith, inv.flag)

  Move-spinner :
      {p p' : Pc} {l' : Lock}
      → Move i l p l' p'
      → pc i ≡ p
      → (j : ℕ) → spins (set_pc pc i p' j) ≡ true
      → l'.spin ≡ some j
  Move-spinner call_acquire e j h = ground (arith, inv.spinner j)
  Move-spinner mv e j h = ground (arith, guard mv, inv.spinner j, inv.spinner i)

  Move-owner :
      {p p' : Pc} {l' : Lock}
      → Move i l p l' p'
      → pc i ≡ p
      → (j : ℕ) → owns (set_pc pc i p' j) ≡ true
      → l'.holder ≡ some j
  Move-owner call_acquire e j h = ground (arith, inv.owner j)
  Move-owner mv e j h = ground (arith, guard mv, inv.owner j, inv.owner i)

pub Reach-Inv : {s : System} → Reach s → Inv s.lock s.pc
unfolding create
Reach-Inv start = record { owner = λ i h. cc; spinner = λ i h. cc; flag = refl }
Reach-Inv (later r (pick i mv)) =
    let inv = Reach-Inv r in
    record {
      owner = Move-owner inv i mv refl;
      spinner = Move-spinner inv i mv refl;
      flag = Move-flag inv i mv;
    }

-- In every state that threads can reach, whichever of them call lock_acquire and lock_release and in
-- whichever order they run, two threads that have the lock are the same thread.
pub owns_unique :
    {s : System} → Reach s → (i j : ℕ) → owns (s.pc i) ≡ true → owns (s.pc j) ≡ true → i ≡ j
owns_unique r i j hi hj = cc ((Reach-Inv r).owner i hi, (Reach-Inv r).owner j hj)

-- In every state that threads can reach, a thread that has the lock is its holder, so that
-- lock_do_i_hold says so, and lock->held is 1.
pub owns-do_i_hold :
    {s : System}
    → Reach s
    → (i : ℕ) → owns (s.pc i) ≡ true
    → (do_i_hold s.lock i ≡ true) × (s.lock.held ≡ 1)
unfolding do_i_hold
owns-do_i_hold r i h = let inv = Reach-Inv r in ground (arith, inv.owner i h, inv.flag)
