-- ===== src/Sync/Threads.antt =====
-- What the threads of thread/synch.c share: a program counter for each, and lists of sleepers.
use cs.Base.{ℕ, ◌≢◌, List, [], ◌∷◌, ◌==◌, if◌then◌else◌}

-- One thread's program counter is changed.
abbrev pub set_pc {ℓ} : {P : Type ℓ} → (ℕ → P) → ℕ → P → ℕ → P
set_pc pc i p j = if j == i then p else pc j

abbrev pub NotIn : ℕ → List ℕ → Type 0
NotIn i [] = Unit
NotIn i (j ∷ js) = (i ≢ j) × NotIn i js

-- wchan_wakeone: the longest sleeper is taken off, if there is one.
abbrev pub wakeone : List ℕ → List ℕ
wakeone [] = []
wakeone (i ∷ is) = is
