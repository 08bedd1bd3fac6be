-- ===== src/Queue/Tests.antt =====
-- Runs of lib/queue.c on small rings, and its theorems at them.
use cs.Base.{◌≡◌, refl, [], ◌∷◌, none, arith, ret}
use cs.Kmalloc.{zeros}
use cs.Queue.{Queue, addtail_with, double_until, move_from, grow_with, grow, addtail, enomem}
use cs.Queue.Segment.{Holds}
use cs.Queue.Ends.{Removes, remhead-Removes}
use cs.Queue.Grow.{Appends, addtail-Appends}

-- Three cells, two of them used, round the end.
abbrev wrapped : Queue
wrapped = record { size = 3; nextwrite = 1; nextread = 2; cells = 8 ∷ 9 ∷ 7 ∷ [] }

wrapped-Holds : Holds wrapped (7 ∷ 8 ∷ [])
wrapped-Holds = record {
  cells_length = refl;
  room = omega arith;
  read_in = omega arith;
  write_in = omega arith;
  segment = (refl, (refl, refl));
}

grows_when_full :
    addtail zeros.block wrapped 5
    ≡ ret (0, record { size = 6; nextwrite = 3; nextread = 0; cells = 7 ∷ 8 ∷ 5 ∷ 0 ∷ 0 ∷ 0 ∷ [] })
unfolding addtail addtail_with grow grow_with double_until move_from
grows_when_full = refl

no_room : addtail (λ n. none) wrapped 5 ≡ ret (enomem, wrapped)
unfolding addtail addtail_with grow grow_with double_until
no_room = refl

q_remhead_example : Removes wrapped (7 ∷ 8 ∷ [])
q_remhead_example = remhead-Removes (7 ∷ 8 ∷ []) wrapped-Holds

q_addtail_example : Appends zeros wrapped 5 (7 ∷ 8 ∷ []) (addtail zeros.block wrapped 5)
q_addtail_example = addtail-Appends zeros 5 (7 ∷ 8 ∷ []) wrapped-Holds (omega arith)
