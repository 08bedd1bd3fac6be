-- ===== src/Sync/Lock/Progress.antt =====
-- A lock that is free and asked for can be taken.
use cs.Base.{
  ◌==◌, Bool-cases, ℕ, ◌≡◌, refl, inl, inr, ◌⊎◌, Bool, true, false, [], Option, none, some, arith,
}
use cs.Sync.Threads.{set_pc, NotIn}
use cs.Sync.Lock.{
  outside, critical, Lock, Pc, enter, test, bridge, drop, asleep, got, check, wake, done, create,
  do_i_hold, Move, call_acquire, acquire, unlock, sleep, woken, take, skip, wakeup, leave_release,
  System, pick, Reach, start, later,
}
use cs.Sync.Lock.Mutex.{spins, Reach-Inv}
use cs.Sync.Lock.Liveness.{waits, comes, coming, up, Reach-Live}

-- Whether a thread is in lock_acquire and has not got the lock yet.
abbrev pub wants : Pc → Bool
wants enter = true
wants test = true
wants bridge = true
wants drop = true
wants asleep = true
wants _ = false

-- Whether a thread is in a call of lock_acquire or lock_release.
abbrev pub calling : Pc → Bool
calling outside = false
calling critical = false
calling _ = true

-- The steps that lead from one state to another, all by threads that are in a call: none begins one.
pub data Leads : System → System → Type 0 where
  here : {s : System} → Leads s s
  next :
      {s u : System} (i : ℕ) {l : Lock} {p : Pc}
      → calling (s.pc i) ≡ true
      → Move i s.lock (s.pc i) l p
      → Leads (record { lock = l; pc = set_pc s.pc i p }) u
      → Leads s u

-- Such steps lead to a state where a thread that asked for the lock has it.
abbrev pub Taken : System → Type 0
Taken s = (t : System) × Leads s t × (k : ℕ) × (wants (s.pc k) ≡ true) × (t.lock.holder ≡ some k)

-- A spinlock that is held is held by a thread that stands where it holds it.
record Back (l : Lock) (pc : ℕ → Pc) : Type 0 where
  pub spinner : (i : ℕ) → l.spin ≡ some i → spins (pc i) ≡ true
  pub waiter : (i : ℕ) → l.chan_lock ≡ some i → waits (pc i) ≡ true

module _ {l : Lock} {pc : ℕ → Pc} (inv : Back l pc) (i : ℕ) where
  Move-spins :
      {p p' : Pc} {l' : Lock}
      → Move i l p l' p'
      → pc i ≡ p
      → (j : ℕ) → l'.spin ≡ some j
      → spins (set_pc pc i p' j) ≡ true
  Move-spins call_acquire e j h = ground (arith, inv.spinner j, h, e)
  Move-spins mv e j h = ground (arith, inv.spinner j, h, e)

  Move-waits :
      {p p' : Pc} {l' : Lock}
      → Move i l p l' p'
      → pc i ≡ p
      → (j : ℕ) → l'.chan_lock ≡ some j
      → waits (set_pc pc i p' j) ≡ true
  Move-waits call_acquire e j h = ground (arith, inv.waiter j, h, e)
  Move-waits mv e j h = ground (arith, inv.waiter j, h, e)

Reach-Back : {s : System} → Reach s → Back s.lock s.pc
unfolding create
Reach-Back start = record {
  spinner = λ i h. absurd (ground (arith, h));
  waiter = λ i h. absurd (ground (arith, h));
}
Reach-Back (later r (pick i mv)) =
    let inv = Reach-Back r in
    record { spinner = Move-spins inv i mv refl; waiter = Move-waits inv i mv refl }

abbrev after : System → ℕ → Lock → Pc → System
after s k l p = record { lock = l; pc = set_pc s.pc k p }

at_pc :
    (s : System) (k : ℕ) {l : Lock} {p p' : Pc}
    → s.pc k ≡ p
    → Move k s.lock p l p'
    → Move k s.lock (s.pc k) l p'
at_pc s k e mv = rw e mv

-- A thread in a call that asks for the lock after its move did so before.
asked :
    {i : ℕ} {l l' : Lock} {p p' : Pc}
    → Move i l p l' p'
    → calling p ≡ true
    → wants p' ≡ true
    → wants p ≡ true
asked call_acquire c w = absurd (ground (arith, c))
asked mv c w = ground (arith, c, w)

then-Taken :
    (s : System) (k : ℕ) {l : Lock} {p p' : Pc}
    → s.pc k ≡ p
    → calling p ≡ true
    → Move k s.lock p l p'
    → Taken (after s k l p')
    → Taken s
then-Taken s k {p' = p'} e c mv (u, ls, i, w, h) =
    (u, next k (rw e c) (at_pc s k e mv) ls, i, earlier (Bool-cases (i == k)), h)
  where
    earlier : ((i == k) ≡ true) ⊎ ((i == k) ≡ false) → wants (s.pc i) ≡ true
    earlier (inr z) = ground (arith, z, w)
    earlier (inl z) =
        let q : i ≡ k = ground (arith, z) in
        let x : wants p' ≡ true = ground (arith, z, w) in rw q (rw e (asked mv c x))

stepped :
    (s : System) (k : ℕ) {l : Lock} {p p' : Pc}
    → Reach s
    → s.pc k ≡ p
    → Move k s.lock p l p'
    → Reach (after s k l p')
stepped s k r e mv = later r (pick k (at_pc s k e mv))

set_pc-same : (pc : ℕ → Pc) (k : ℕ) (p : Pc) → set_pc pc k p k ≡ p
set_pc-same pc k p = ground arith

-- A thread that asks for the lock still does after another kind of move.
wants-kept :
    (s : System) (k : ℕ) (p : Pc) (j : ℕ)
    → (wants (s.pc k) ≡ false) ⊎ (wants p ≡ true)
    → wants (s.pc j) ≡ true
    → wants (set_pc s.pc k p j) ≡ true
wants-kept s k p j w h = ground (arith, w, h)

test-Taken : (s : System) (k : ℕ) → s.lock.holder ≡ none → s.pc k ≡ test → Taken s
test-Taken s k h e = (_, next k (rw e refl) (at_pc s k e (take h)) here, k, rw e refl, refl)

enter-Taken :
    (s : System) (k : ℕ) → s.lock.holder ≡ none → s.lock.spin ≡ none → s.pc k ≡ enter → Taken s
enter-Taken s k h f e =
    then-Taken s k e refl (acquire f) (test-Taken _ k h (set_pc-same s.pc k test))

up-Taken :
    (s : System) (k : ℕ)
    → s.lock.holder ≡ none
    → s.lock.spin ≡ none
    → s.pc k ≡ asleep
    → NotIn k s.lock.sleepers
    → Taken s
up-Taken s k h f e n =
    then-Taken s k e refl (woken n) (enter-Taken _ k h f (set_pc-same s.pc k enter))

-- The spinlock is free.
open-Taken :
    (s : System) (j : ℕ)
    → Reach s
    → s.lock.holder ≡ none
    → s.lock.spin ≡ none
    → wants (s.pc j) ≡ true
    → Taken s
open-Taken s j r h f w = elim ((Reach-Live r).free h) [
  | inr (coming k c) ↦ come k (s.pc k) refl c
  | inr (up k e n) ↦ up-Taken s k h f e n
  | inl (n, c) ↦ calm n c (s.pc j) refl w
]
  where
    spinning : (k : ℕ) → spins (s.pc k) ≡ true → Taken s
    spinning k c = absurd (ground (arith, (Reach-Inv r).spinner k c, f))

    come : (k : ℕ) (p : Pc) → s.pc k ≡ p → comes p ≡ true → Taken s
    come k enter e c = enter-Taken s k h f e
    come k test e c = spinning k (rw e refl)
    come k wake e c = spinning k (rw e refl)
    come k _ e c = absurd (ground (arith, c))

    calm :
        s.lock.sleepers ≡ []
        → ((i : ℕ) → waits (s.pc i) ≡ false)
        → (p : Pc) → s.pc j ≡ p
        → wants p ≡ true
        → Taken s
    calm n c enter e x = enter-Taken s j h f e
    calm n c test e x = spinning j (rw e refl)
    calm n c bridge e x = spinning j (rw e refl)
    calm n c drop e x = absurd (ground (arith, c j, e))
    calm n c asleep e x = up-Taken s j h f e (rw n tt)
    calm n c _ e x = absurd (ground (arith, x))

-- The spinlock is released by thread `k` in one move.
move-Taken :
    (s : System) (k j : ℕ) {l : Lock} {p p' : Pc}
    → Reach s
    → s.pc k ≡ p
    → calling p ≡ true
    → Move k s.lock p l p'
    → l.holder ≡ none
    → l.spin ≡ none
    → (wants p ≡ false) ⊎ (wants p' ≡ true)
    → wants (s.pc j) ≡ true
    → Taken s
move-Taken s k j {p' = p'} r e c mv h f w x =
    then-Taken s k e c mv (open-Taken _ j (stepped s k r e mv) h f (wants-kept s k p' j (rw e w) x))

done-Taken :
    (s : System) (k j : ℕ)
    → Reach s
    → s.lock.holder ≡ none
    → s.pc k ≡ done
    → wants (s.pc j) ≡ true
    → Taken s
done-Taken s k j r h e x = move-Taken s k j r e refl leave_release h refl (inl refl) x

-- Thread `k` is about to wake one up, and the lock of the channel is free.
wake-Taken :
    (s : System) (k j : ℕ)
    → Reach s
    → s.lock.holder ≡ none
    → s.lock.chan_lock ≡ none
    → s.pc k ≡ wake
    → wants (s.pc j) ≡ true
    → Taken s
wake-Taken s k j r h c e x = then-Taken s k e refl (wakeup c) (
    done-Taken _ k j (stepped s k r e (wakeup c)) h (set_pc-same s.pc k done)
      (wants-kept s k done j (inl (rw e refl)) x))

-- Thread `m` on its way to sleep has the lock of the channel.
sleep-Taken :
    (s : System) (k m j : ℕ)
    → Reach s
    → s.lock.holder ≡ none
    → s.pc m ≡ drop
    → s.pc k ≡ wake
    → wants (s.pc j) ≡ true
    → Taken s
sleep-Taken s k m j r h d e x = then-Taken s m d refl sleep (
    wake-Taken _ k j (stepped s m r d sleep) h refl (ground (arith, d, e))
      (wants-kept s m asleep j (inr refl) x))

-- Thread `k` has the spinlock.
held-Taken :
    (s : System) (k j : ℕ) (p : Pc)
    → Reach s
    → s.lock.holder ≡ none
    → s.pc k ≡ p
    → spins p ≡ true
    → wants (s.pc j) ≡ true
    → Taken s
unfolding do_i_hold
held-Taken s k j test r h e c x = test-Taken s k h e
held-Taken s k j bridge r h e c x = move-Taken s k j r e refl unlock h refl (inr refl) x
held-Taken s k j got r h e c x = absurd (ground (arith, (Reach-Inv r).owner k, e, h))
held-Taken s k j done r h e c x = done-Taken s k j r h e x
held-Taken s k j check r h e c x =
    let mv = skip (ground (arith, h)) in
    then-Taken s k e refl mv (
      done-Taken _ k j (stepped s k r e mv) h (set_pc-same s.pc k done)
        (wants-kept s k done j (inl (rw e refl)) x))
held-Taken s k j wake r h e c x = go s.lock.chan_lock refl
  where
    with_chan :
        (m : ℕ) → s.lock.chan_lock ≡ some m → (p : Pc) → s.pc m ≡ p → waits p ≡ true → Taken s
    with_chan m y bridge d w =
        absurd (ground (arith, (Reach-Inv r).spinner m, (Reach-Inv r).spinner k, d, e))
    with_chan m y drop d w = sleep-Taken s k m j r h d e x
    with_chan m y _ d w = absurd (ground (arith, w))

    go : (o : Option ℕ) → s.lock.chan_lock ≡ o → Taken s
    go none y = wake-Taken s k j r h y e x
    go (some m) y = with_chan m y (s.pc m) refl ((Reach-Back r).waiter m y)
held-Taken s k j _ r h e c x = absurd (ground (arith, c))

-- In every state that threads can reach where the lock has no holder and a thread is in
-- lock_acquire, asleep or not, some steps lead to a state where a thread that was in lock_acquire
-- has taken the lock, and they are all steps of threads that are in a call of lock_acquire or
-- lock_release already: no thread needs to call one of them for it.
pub wants-Taken :
    {s : System} → Reach s → s.lock.holder ≡ none → (j : ℕ) → wants (s.pc j) ≡ true → Taken s
wants-Taken {s} r h j x = go s.lock.spin refl
  where
    go : (o : Option ℕ) → s.lock.spin ≡ o → Taken s
    go none f = open-Taken s j r h f x
    go (some k) f = held-Taken s k j (s.pc k) r h refl ((Reach-Back r).spinner k f) x
