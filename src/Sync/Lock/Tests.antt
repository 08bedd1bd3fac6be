-- ===== src/Sync/Lock/Tests.antt =====
-- Runs of lock_acquire and lock_release.
use cs.Base.{ℕ, ◌≡◌, refl, none, some, true, false, [], ◌∷◌, arith}
use cs.Sync.Threads.{set_pc}
use cs.Sync.Lock.{
  outside, enter, test, got, critical, create, lock_create, acquire, call_acquire, take, leave,
  bridge, drop, asleep, let_go, check, wake, block, unlock, sleep, call_release, acquire_release,
  clear, do_i_hold, System, pick, Reach, start, later,
}
use cs.Sync.Lock.Mutex.{owns_unique}
use cs.Sync.Lock.Progress.{Taken, wants-Taken}

abbrev final : System
final = record {
  lock = record create { holder = some 7; held = 1 };
  pc = set_pc (set_pc (set_pc (set_pc (λ _. outside) 7 enter) 7 test) 7 got) 7 critical;
}

locked : Reach final
unfolding create
locked =
    later
      (later (later (later start (pick 7 call_acquire)) (pick 7 (acquire refl)))
        (pick 7 (take refl)))
      (pick 7 leave)

-- Without a channel, lock_create returns the lock that it has freed.
create_no_channel : lock_create true true false ≡ some (create, true)
unfolding lock_create
create_no_channel = refl

owns_unique_example : ◌≡◌ {A = ℕ} 7 7
owns_unique_example = owns_unique locked 7 7 refl refl

-- Thread 3 has the lock, thread 7 goes to sleep on it, and thread 3 is about to wake it up.
abbrev slept : System
slept = record {
  lock = record { holder = none; held = 0; spin = some 3; chan_lock = none; sleepers = 7 ∷ [] };
  pc =
      set_pc
        (set_pc
          (set_pc
            (set_pc
              (set_pc
                (set_pc
                  (set_pc
                    (set_pc
                      (set_pc (set_pc (set_pc (set_pc (λ _. outside) 3 enter) 3 test) 3 got) 3
                        critical)
                      7 enter)
                    7 test)
                  7 bridge)
                7 drop)
              7 asleep)
            3 let_go)
          3 check)
        3 wake;
}

slept-Reach : Reach slept
unfolding create do_i_hold
slept-Reach =
    let a =
      later
        (later (later (later start (pick 3 call_acquire)) (pick 3 (acquire refl)))
          (pick 3 (take refl)))
        (pick 3 leave) in
    let b =
      later (later (later a (pick 7 call_acquire)) (pick 7 (acquire refl)))
        (pick 7 (block (λ e. absurd (ground (arith, e))) refl)) in
    let c = later (later b (pick 7 unlock)) (pick 7 sleep) in
    later (later (later c (pick 3 call_release)) (pick 3 (acquire_release refl)))
      (pick 3 (clear refl))

wants-Taken_example : Taken slept
wants-Taken_example = wants-Taken slept-Reach refl 7 refl
