-- ===== src/Sync/Semaphore.antt =====
-- struct semaphore with P and V. KASSERT(sem->sem_count > 0) of V fails when the int overflows; a
-- V that would do so stops the machine and has no step here.
pub mod Safety
mod Tests
use cs.Base.{ℕ, ◌+◌, ◌-◌, ◌<◌, ◌^◌, ◌≡◌, List, [], ◌∷◌, ◌++◌, Option, none, some}
use cs.Sync.Threads.{set_pc, NotIn, wakeone}

-- sem_count, the holders of sem_lock and of the channel's spinlock, and the sleepers. `taken` and
-- `given` count the decrements of P and the increments of V; the code does not keep them.
pub record Sem : Type 0 where
  pub count : ℕ
  pub lock : Option ℕ
  pub chan_lock : Option ℕ
  pub sleepers : List ℕ
  pub taken : ℕ
  pub given : ℕ

-- Where a thread stands.
pub data Pc : Type 0 where
  idle : Pc
  p_enter : Pc  -- before spinlock_acquire(&sem->sem_lock) of P
  p_test : Pc  -- at the test of the while loop, holding sem_lock
  p_bridge : Pc  -- after wchan_lock, holding both
  p_sleep : Pc  -- after spinlock_release, before wchan_sleep
  p_asleep : Pc
  p_leave : Pc  -- after sem_count--, holding sem_lock
  v_enter : Pc
  v_count : Pc  -- holding sem_lock
  v_wake : Pc  -- after sem_count++, before wchan_wakeone
  v_leave : Pc

-- sem_create with a count that is not negative
pub create : ℕ → Sem
create initial_count = record {
  count = initial_count;
  lock = none;
  chan_lock = none;
  sleepers = [];
  taken = 0;
  given = 0;
}

-- One step of thread `i` in P or V.
pub data Move (i : ℕ) (m : Sem) : Pc → Sem → Pc → Type 0 where
  call_p : Move i m idle m p_enter
  acquire_p : m.lock ≡ none → Move i m p_enter (record m { lock = some i }) p_test
  block :
      m.count ≡ 0 → m.chan_lock ≡ none → Move i m p_test (record m { chan_lock = some i }) p_bridge
  unlock : Move i m p_bridge (record m { lock = none }) p_sleep
  sleep : Move i m p_sleep (record m { sleepers = m.sleepers ++ i ∷ []; chan_lock = none }) p_asleep
  woken : NotIn i m.sleepers → Move i m p_asleep m p_enter
  take :
      0 < m.count → Move i m p_test (record m { count = m.count - 1; taken = m.taken + 1 }) p_leave
  leave_p : Move i m p_leave (record m { lock = none }) idle
  call_v : Move i m idle m v_enter
  acquire_v : m.lock ≡ none → Move i m v_enter (record m { lock = some i }) v_count
  give :
      m.count + 1 < 2 ^ 31
      → Move i m v_count (record m { count = m.count + 1; given = m.given + 1 }) v_wake
  wake : m.chan_lock ≡ none → Move i m v_wake (record m { sleepers = wakeone m.sleepers }) v_leave
  leave_v : Move i m v_leave (record m { lock = none }) idle

pub record System : Type 0 where
  pub sem : Sem
  pub pc : ℕ → Pc

pub data Step (s : System) : System → Type 0 where
  pick :
      (i : ℕ) {m : Sem} {p : Pc}
      → Move i s.sem (s.pc i) m p
      → Step s (record { sem = m; pc = set_pc s.pc i p })

-- The states that threads can bring a semaphore to.
pub data Reach (initial_count : ℕ) : System → Type 0 where
  start : Reach initial_count (record { sem = create initial_count; pc = λ _. idle })
  later : {s t : System} → Reach initial_count s → Step s t → Reach initial_count t
