-- ===== src/Queue.antt =====
-- lib/queue.c: a queue of pointers in a ring that grows. An int of the source is a number below 2 ^
-- 31; the code keeps all of them from being negative.
pub mod Segment
pub mod Ends
pub mod Grow
mod Tests
use cs.Kmalloc.{words}
use cs.Base.{
  ℕ, zero, suc, ◌+◌, ◌*◌, ◌%◌, ◌^◌, Bool, true, false, not, ◌&&◌, List, Option, none, some, Run,
  ret, panic, fault, kassert, access, ◌>>=◌, ◌>>◌, ltb, ◌==◌, if◌then◌else◌, get_elem?, set,
}

-- `struct queue`. Its pointers are numbers, NULL is 0.
pub record Queue : Type 0 where
  pub size : ℕ
  pub nextwrite : ℕ
  pub nextread : ℕ
  pub cells : List ℕ

abbrev pub enomem : ℕ
enomem = 3

-- q_create, with the block that its second kmalloc returns; `none` is NULL.
pub create : Bool → Option (List ℕ) → ℕ → Option Queue
create false got size = none
create true none size = none
create true (some ws) size = some (record { size = size; nextwrite = 0; nextread = 0; cells = ws })

-- q_empty
pub is_empty : Queue → Bool
is_empty q = q.nextwrite == q.nextread

abbrev store_tail : Queue → ℕ → ℕ → Run (ℕ × Queue)
store_tail q ptr nextnext = do
  old ← access (get_elem? q.cells q.nextwrite)
  ret (0, record q { cells = set q.cells q.nextwrite ptr; nextwrite = nextnext })

-- q_addtail, given q_grow: the return value and the queue.
pub addtail_with : (Queue → ℕ → Run (ℕ × Queue)) → Queue → ℕ → Run (ℕ × Queue)
addtail_with grow q ptr =
    let nextnext = (q.nextwrite + 1) % q.size in
    let growing = (do
      (result, q') ← grow q (q.size + 1)
      if result == 0 then store_tail q' ptr ((q'.nextwrite + 1) % q'.size) else ret (result, q')) in
    kassert (ltb 0 q.size)
    >> (if nextnext == q.nextread then growing else store_tail q ptr nextnext)

-- The loop that doubles nsize, with fuel. A product of 2 ^ 31 or more turns negative, which the
-- KASSERT catches, as it does a product of 0.
pub double_until : ℕ → ℕ → ℕ → Run ℕ
double_until zero target nsize = fault
double_until (suc f) target nsize =
    let rest = double_until f target (nsize * 2) in
    if ltb nsize target
    then kassert (ltb 0 (nsize * 2) && ltb (nsize * 2) (2 ^ 31)) >> rest
    else ret nsize

-- The loop that moves what the old ring holds from index `i` on, with fuel, given q_addtail.
pub move_from : (Queue → ℕ → Run (ℕ × Queue)) → Queue → ℕ → ℕ → Queue → Run Queue
move_from addtail old zero i q = fault
move_from addtail old (suc f) i q =
    let rest = (do
      x ← access (get_elem? old.cells i)
      (result, q') ← addtail q x
      kassert (result == 0)
      move_from addtail old f ((i + 1) % old.size) q') in
    if i == old.nextwrite then ret q else rest

-- q_grow, given q_addtail and the kmalloc of the new ring. The loops have fuel for every int, and for
-- every element.
pub grow_with : (ℕ → Option (List ℕ)) → (Queue → ℕ → Run (ℕ × Queue)) → Queue → ℕ → Run (ℕ × Queue)
grow_with kmalloc addtail q targetsize = do
  nsize ← double_until 32 targetsize q.size
  elim (kmalloc (words nsize)) as (λ _. Run (ℕ × Queue)) [
    | none ↦ ret (enomem, q)
    | some ws ↦
        move_from addtail q (q.size + 1) q.nextread
          (record { size = nsize; nextwrite = 0; nextread = 0; cells = ws })
        >>= λ q'. ret (0, q')
  ]

-- q_grow and q_addtail call one another: `depth` calls of q_grow, one inside the other.
pub grow : (ℕ → Option (List ℕ)) → ℕ → Queue → ℕ → Run (ℕ × Queue)
grow kmalloc zero q targetsize = fault
grow kmalloc (suc depth) q targetsize =
    grow_with kmalloc (addtail_with (grow kmalloc depth)) q targetsize

-- q_addtail. One call of q_grow is enough, since the queue that it fills has room.
pub addtail : (ℕ → Option (List ℕ)) → Queue → ℕ → Run (ℕ × Queue)
addtail kmalloc = addtail_with (grow kmalloc 1)

-- q_preallocate
pub preallocate : (ℕ → Option (List ℕ)) → Queue → ℕ → Run (ℕ × Queue)
preallocate kmalloc q size =
    kassert (ltb 0 q.size) >> (if ltb q.size size then grow kmalloc 1 q size else ret (0, q))

-- q_remhead
pub remhead : Queue → Run (ℕ × Queue)
unfolding is_empty
remhead q = do
  kassert (ltb 0 q.size)
  kassert (not (is_empty q))
  x ← access (get_elem? q.cells q.nextread)
  ret (x, record q { nextread = (q.nextread + 1) % q.size })

-- q_destroy: what it checks before it frees the queue.
pub destroy : Queue → Run (Unit {0})
unfolding is_empty
destroy q = kassert (is_empty q)

-- q_getguy
pub getguy : Queue → ℕ → Run ℕ
getguy q index = kassert (ltb index q.size) >> access (get_elem? q.cells index)

-- q_peek
pub peek : Queue → Run ℕ
unfolding is_empty
peek q =
    kassert (ltb 0 q.size) >> (if is_empty q then ret 0 else access (get_elem? q.cells q.nextread))

-- The loop of q_len, with fuel.
pub count_from : ℕ → Queue → ℕ → ℕ → Run ℕ
count_from zero q tmp count = fault
count_from (suc f) q tmp count =
    let rest = count_from f q ((tmp + 1) % q.size) (count + 1) in
    if tmp == q.nextwrite then ret count else rest

-- q_len: the loop ends within q->size rounds.
pub len : Queue → Run ℕ
len q = count_from (q.size + 1) q q.nextread 0
