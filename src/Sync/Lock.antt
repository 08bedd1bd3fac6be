-- ===== src/Sync/Lock.antt =====
-- struct lock with lock_acquire, lock_release and lock_do_i_hold. Any thread may call either function
-- at any time: a release by a thread that is not the holder changes nothing, and an acquisition by
-- the holder itself sleeps.
pub mod Mutex
pub mod Liveness
pub mod Progress
mod Tests
use cs.Base.{ℕ, ◌≡◌, ◌≢◌, Bool, true, false, List, [], ◌∷◌, ◌++◌, Option, none, some, ◌==◌}
use cs.Sync.Threads.{set_pc, NotIn, wakeone}

-- holder and held, the holders of lk_lock and of the channel's spinlock, and the sleepers
pub record Lock : Type 0 where
  pub holder : Option ℕ
  pub held : ℕ
  pub spin : Option ℕ
  pub chan_lock : Option ℕ
  pub sleepers : List ℕ

-- Where a thread stands.
pub data Pc : Type 0 where
  outside : Pc
  enter : Pc  -- before a spinlock_acquire of lock_acquire
  test : Pc  -- at the test of the while loop, holding lk_lock
  bridge : Pc  -- after wchan_lock, holding both
  drop : Pc  -- after spinlock_release, before wchan_sleep
  asleep : Pc
  got : Pc  -- after lock->held = 1, holding lk_lock
  critical : Pc  -- lock_acquire has returned
  let_go : Pc  -- before the spinlock_acquire of lock_release
  check : Pc  -- at lock_do_i_hold, holding lk_lock
  wake : Pc  -- after lock->holder = NULL, before wchan_wakeone
  done : Pc  -- before the spinlock_release of lock_release

-- The fields as lock_create sets them
pub create : Lock
create = record { holder = none; held = 0; spin = none; chan_lock = none; sleepers = [] }

-- lock_create, by whether kmalloc, kstrdup and wchan_create give something: the lock, and whether its
-- memory is already freed when it is returned
pub lock_create : Bool → Bool → Bool → Option (Lock × Bool)
lock_create false name chan = none
lock_create true false chan = none
lock_create true true false = some (create, true)
lock_create true true true = some (create, false)

-- Whether the pointer `t` is the thread `i`.
abbrev pub is_thread : Option ℕ → ℕ → Bool
is_thread none i = false
is_thread (some j) i = j == i

-- lock_do_i_hold, for the thread `i`
pub do_i_hold : Lock → ℕ → Bool
do_i_hold l i = is_thread l.holder i

-- One step of thread `i` in lock_acquire or lock_release.
pub data Move (i : ℕ) (l : Lock) : Pc → Lock → Pc → Type 0 where
  call_acquire : Move i l outside l enter
  call_again : Move i l critical l enter
  acquire : l.spin ≡ none → Move i l enter (record l { spin = some i }) test
  block :
      l.holder ≢ none → l.chan_lock ≡ none → Move i l test (record l { chan_lock = some i }) bridge
  unlock : Move i l bridge (record l { spin = none }) drop
  sleep : Move i l drop (record l { sleepers = l.sleepers ++ i ∷ []; chan_lock = none }) asleep
  woken : NotIn i l.sleepers → Move i l asleep l enter
  take : l.holder ≡ none → Move i l test (record l { holder = some i; held = 1 }) got
  leave : Move i l got (record l { spin = none }) critical
  call_release : Move i l critical l let_go
  call_release_outside : Move i l outside l let_go
  acquire_release : l.spin ≡ none → Move i l let_go (record l { spin = some i }) check
  clear : do_i_hold l i ≡ true → Move i l check (record l { holder = none; held = 0 }) wake
  skip : do_i_hold l i ≡ false → Move i l check l done
  wakeup : l.chan_lock ≡ none → Move i l wake (record l { sleepers = wakeone l.sleepers }) done
  leave_release : Move i l done (record l { spin = none }) outside

pub record System : Type 0 where
  pub lock : Lock
  pub pc : ℕ → Pc

pub data Step (s : System) : System → Type 0 where
  pick :
      (i : ℕ) {l : Lock} {p : Pc}
      → Move i s.lock (s.pc i) l p
      → Step s (record { lock = l; pc = set_pc s.pc i p })

-- The states that threads can bring a lock to.
pub data Reach : System → Type 0 where
  start : Reach (record { lock = create; pc = λ _. outside })
  later : {s t : System} → Reach s → Step s t → Reach t
