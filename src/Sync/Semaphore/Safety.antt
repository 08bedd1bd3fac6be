-- ===== src/Sync/Semaphore/Safety.antt =====
-- The invariant of a semaphore under any interleaving of P and V.
use cs.Base.{ℕ, ◌+◌, ◌-◌, ◌≤◌, ◌<◌, ◌≡◌, refl, Bool, true, false, none, some, arith}
use cs.Sync.Threads.{set_pc}
use cs.Sync.Semaphore.{
  Sem, Pc, p_test, p_bridge, p_sleep, p_leave, v_count, v_wake, v_leave, create, Move, call_p,
  acquire_p, block, take, acquire_v, wake, System, pick, Reach, start, later,
}

-- Whether a thread holds sem_lock, and the channel's spinlock.
abbrev pub holds : Pc → Bool
holds p_test = true
holds p_bridge = true
holds p_leave = true
holds v_count = true
holds v_wake = true
holds v_leave = true
holds _ = false

abbrev pub holds_chan : Pc → Bool
holds_chan p_bridge = true
holds_chan p_sleep = true
holds_chan _ = false

pub record Inv (initial : ℕ) (m : Sem) (pc : ℕ → Pc) : Type 0 where
  pub kept : m.count + m.taken ≡ initial + m.given
  pub owner : (i : ℕ) → holds (pc i) ≡ true → m.lock ≡ some i
  pub chan_owner : (i : ℕ) → holds_chan (pc i) ≡ true → m.chan_lock ≡ some i

-- The premise of a move, for the catch-all clauses below.
abbrev Guard : {i : ℕ} {m m' : Sem} {p p' : Pc} → Move i m p m' p' → Type 0
Guard {m = m} (acquire_p _) = m.lock ≡ none
Guard {m = m} (block _ _) = (m.count ≡ 0) × (m.chan_lock ≡ none)
Guard {m = m} (take _) = 0 < m.count
Guard {m = m} (acquire_v _) = m.lock ≡ none
Guard {m = m} (wake _) = m.chan_lock ≡ none
Guard _ = Unit

guard : {i : ℕ} {m m' : Sem} {p p' : Pc} (mv : Move i m p m' p') → Guard mv
guard (acquire_p h) = h
guard (block h k) = (h, k)
guard (take h) = h
guard (acquire_v h) = h
guard (wake h) = h
guard _ = tt

module _ {initial : ℕ} {m : Sem} {pc : ℕ → Pc} (inv : Inv initial m pc) (i : ℕ) where
  Move-kept : {p p' : Pc} {m' : Sem} → Move i m p m' p' → m'.count + m'.taken ≡ initial + m'.given
  Move-kept call_p = inv.kept
  Move-kept mv = ground (arith, guard mv, inv.kept)

  Move-owner :
      {p p' : Pc} {m' : Sem}
      → Move i m p m' p'
      → pc i ≡ p
      → (j : ℕ) → holds (set_pc pc i p' j) ≡ true
      → m'.lock ≡ some j
  Move-owner call_p e j h = ground (arith, inv.owner j)
  Move-owner mv e j h = ground (arith, guard mv, inv.owner j, inv.owner i)

  Move-chan_owner :
      {p p' : Pc} {m' : Sem}
      → Move i m p m' p'
      → pc i ≡ p
      → (j : ℕ) → holds_chan (set_pc pc i p' j) ≡ true
      → m'.chan_lock ≡ some j
  Move-chan_owner call_p e j h = ground (arith, inv.chan_owner j)
  Move-chan_owner mv e j h = ground (arith, guard mv, inv.chan_owner j, inv.chan_owner i)

pub Reach-Inv : {initial : ℕ} {s : System} → Reach initial s → Inv initial s.sem s.pc
unfolding create
Reach-Inv start = record { kept = omega arith; owner = λ i h. cc; chan_owner = λ i h. cc }
Reach-Inv (later r (pick i mv)) =
    let inv = Reach-Inv r in
    record {
      kept = Move-kept inv i mv;
      owner = Move-owner inv i mv refl;
      chan_owner = Move-chan_owner inv i mv refl;
    }

-- In every state that threads can reach by P and V, no more decrements of P have gone through than
-- the initial count and the increments of V allow, and the count is what is left.
pub taken-le :
    {initial : ℕ} {s : System}
    → Reach initial s
    → (s.sem.taken ≤ initial + s.sem.given) × (s.sem.count ≡ initial + s.sem.given - s.sem.taken)
taken-le r = omega (arith, (Reach-Inv r).kept)

-- In every state that threads can reach by P and V, two threads that hold the spinlock of a
-- semaphore are the same thread.
pub holds_unique :
    {initial : ℕ} {s : System}
    → Reach initial s
    → (i j : ℕ) → holds (s.pc i) ≡ true
    → holds (s.pc j) ≡ true
    → i ≡ j
holds_unique r i j hi hj = cc ((Reach-Inv r).owner i hi, (Reach-Inv r).owner j hj)
