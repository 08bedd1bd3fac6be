-- ===== src/ThreadList/Tests.antt =====
-- Runs of thread/threadlist.c in a small memory, and its theorems at them.
use cs.Base.{◌≡◌, refl, [], ◌∷◌, ret, arith}
use cs.ThreadList.{Memory, ThreadList, init, addtail, remove, insertbeforenode, count_up}
use cs.ThreadList.Insert.{between}
use cs.ThreadList.Seq.{IsList, IsFree, init-IsList, addtail-IsList}
use cs.ThreadList.Take.{Off, remove-IsList}

-- Thread nodes name themselves; nothing is linked. The list has its sentinels at 100 and 200.
abbrev blank : Memory
blank = record { next = λ _. 0; prev = λ _. 0; self = λ t. t; count = λ _. 0 }

abbrev list : ThreadList
list = record { head = 100; tail = 200 }

abbrev empty : Memory
empty = init blank list

empty-IsList : IsList empty list []
empty-IsList = init-IsList blank list (omega arith) (omega arith) (omega arith)

IsFree-1 : IsFree empty list [] 1
unfolding init
IsFree-1 = record { apart = omega arith; real = omega arith; named = refl }

-- The memory with thread 1 on the list, and then with thread 2 behind it.
abbrev one : Memory
one = count_up list (between empty 100 1 200)

abbrev two : Memory
two = count_up list (between one 1 2 200)

adds_one : addtail empty list 1 ≡ ret one
unfolding addtail insertbeforenode init
adds_one = refl

one-IsList : IsList one list (1 ∷ [])
one-IsList =
    let (m, e, h) = addtail-IsList [] empty-IsList IsFree-1 in
    let q : one ≡ m = cc (adds_one) in rw q h

IsFree-2 : IsFree one list (1 ∷ []) 2
unfolding init
IsFree-2 = record { apart = omega arith; real = omega arith; named = refl }

adds_two : addtail one list 2 ≡ ret two
unfolding addtail insertbeforenode init
adds_two = refl

two-IsList : IsList two list (1 ∷ 2 ∷ [])
two-IsList =
    let (m, e, h) = addtail-IsList (1 ∷ []) one-IsList IsFree-2 in
    let q : two ≡ m = cc (adds_two) in rw q h

addtail_example : (m' : Memory) × (addtail one list 2 ≡ ret m') × IsList m' list (1 ∷ 2 ∷ [])
addtail_example = addtail-IsList (1 ∷ []) one-IsList IsFree-2

remove_example : (m' : Memory) × (remove two list 1 ≡ ret m') × Off list [] 1 (2 ∷ []) m'
remove_example = remove-IsList [] 1 (2 ∷ []) two-IsList
