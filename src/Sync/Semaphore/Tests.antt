-- ===== src/Sync/Semaphore/Tests.antt =====
-- A run of P by thread 3 on a semaphore with count 1.
use cs.Base.{◌+◌, ◌-◌, ◌≤◌, ◌≡◌, refl, some, arith}
use cs.Sync.Threads.{set_pc}
use cs.Sync.Semaphore.{
  idle, p_enter, p_test, p_leave, create, acquire_p, call_p, take, System, pick, Reach, start,
  later,
}
use cs.Sync.Semaphore.Safety.{taken-le}

abbrev final : System
final = record {
  sem = record (create 1) { lock = some 3; count = 0; taken = 1 };
  pc = set_pc (set_pc (set_pc (λ _. idle) 3 p_enter) 3 p_test) 3 p_leave;
}

taken : Reach 1 final
unfolding create
taken =
    later (later (later start (pick 3 call_p)) (pick 3 (acquire_p refl)))
      (pick 3 (take (omega arith)))

taken-le_example :
    (final.sem.taken ≤ 1 + final.sem.given)
    × (final.sem.count ≡ 1 + final.sem.given - final.sem.taken)
taken-le_example = taken-le taken
