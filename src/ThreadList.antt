-- ===== src/ThreadList.antt =====
-- thread/threadlist.c: doubly linked lists of threads with a sentinel at each end.
-- Memory is a function from the address of a `struct threadlistnode` to its fields; NULL is 0. A
-- thread is named by the address of its t_listnode, so `&t->t_listnode` is `t`. DEBUGASSERT is off.
pub mod Links
pub mod Insert
pub mod Remove
pub mod Seq
pub mod Take
mod Tests
use cs.Base.{
  ℕ, ◌+◌, ◌-◌, Bool, Option, none, some, not, Run, ret, panic, fault, kassert, ◌>>=◌, ◌>>◌, ◌==◌,
  if◌then◌else◌,
}

-- Fields of nodes in memory, and tl_count of each list, by the address of its tl_head.
pub record Memory : Type 0 where
  pub next : ℕ → ℕ
  pub prev : ℕ → ℕ
  pub self : ℕ → ℕ
  pub count : ℕ → ℕ

-- `struct threadlist`: the addresses of its two sentinels.
pub record ThreadList : Type 0 where
  pub head : ℕ
  pub tail : ℕ

abbrev pub update : (ℕ → ℕ) → ℕ → ℕ → ℕ → ℕ
update f p v q = if q == p then v else f q

-- The use of a pointer, which must not be NULL.
abbrev pub deref : ℕ → Run (Unit {0})
deref p = if p == 0 then fault else ret tt

abbrev pub store_next : Memory → ℕ → ℕ → Run Memory
store_next m p v = deref p >> ret (record m { next = update m.next p v })

abbrev pub store_prev : Memory → ℕ → ℕ → Run Memory
store_prev m p v = deref p >> ret (record m { prev = update m.prev p v })

-- threadlistnode_init
pub node_init : Memory → ℕ → ℕ → Run Memory
node_init m tln t =
    kassert (not (t == 0))
    >> ret (record m {
      next = update m.next tln 0;
      prev = update m.prev tln 0;
      self = update m.self tln t;
    })

-- threadlistnode_cleanup
pub node_cleanup : Memory → ℕ → Run (Unit {0})
node_cleanup m tln = do
  kassert (m.next tln == 0)
  kassert (m.prev tln == 0)
  kassert (not (m.self tln == 0))

-- threadlist_init
pub init : Memory → ThreadList → Memory
init m tl = record m {
  next = update (update m.next tl.head tl.tail) tl.tail 0;
  prev = update (update m.prev tl.head 0) tl.tail tl.head;
  self = update (update m.self tl.head 0) tl.tail 0;
  count = update m.count tl.head 0;
}

-- threadlist_isempty
pub isempty : Memory → ThreadList → Bool
isempty m tl = m.count tl.head == 0

-- threadlist_cleanup: what it checks.
pub cleanup : Memory → ThreadList → Run (Unit {0})
unfolding isempty
cleanup m tl = do kassert (isempty m tl); kassert (m.count tl.head == 0)

-- threadlist_insertafternode, one assignment at a time.
pub insertafternode : Memory → ℕ → ℕ → Run Memory
insertafternode m onlist t = do
  m1 ← store_prev m t onlist
  deref onlist
  m2 ← store_next m1 t (m1.next onlist)
  m3 ← store_next m2 (m2.prev t) t
  store_prev m3 (m3.next t) t

-- threadlist_insertbeforenode
pub insertbeforenode : Memory → ℕ → ℕ → Run Memory
insertbeforenode m t onlist = do
  deref onlist
  m1 ← store_prev m t (m.prev onlist)
  m2 ← store_next m1 t onlist
  m3 ← store_next m2 (m2.prev t) t
  store_prev m3 (m3.next t) t

-- threadlist_removenode
pub removenode : Memory → ℕ → Run Memory
removenode m tln = do
  deref tln
  m1 ← store_next m (m.prev tln) (m.next tln)
  m2 ← store_prev m1 (m1.next tln) (m1.prev tln)
  m3 ← store_prev m2 tln 0
  store_next m3 tln 0

-- tl->tl_count++ and tl->tl_count--. The count is unsigned; it is decremented only when positive.
abbrev pub count_up : ThreadList → Memory → Memory
count_up tl m = record m { count = update m.count tl.head (m.count tl.head + 1) }

abbrev pub count_down : ThreadList → Memory → Memory
count_down tl m = record m { count = update m.count tl.head (m.count tl.head - 1) }

-- threadlist_addhead
pub addhead : Memory → ThreadList → ℕ → Run Memory
addhead m tl t = do m' ← insertafternode m tl.head t; ret (count_up tl m')

-- threadlist_addtail
pub addtail : Memory → ThreadList → ℕ → Run Memory
addtail m tl t = do m' ← insertbeforenode m t tl.tail; ret (count_up tl m')

-- threadlist_remhead; 0 is NULL.
pub remhead : Memory → ThreadList → Run (ℕ × Memory)
remhead m tl =
    let tln = m.next tl.head in
    deref tln
    >> (if m.next tln == 0
        then ret (0, m)
        else (do m' ← removenode m tln; ret (m'.self tln, count_down tl m')))

-- threadlist_remtail
pub remtail : Memory → ThreadList → Run (ℕ × Memory)
remtail m tl =
    let tln = m.prev tl.tail in
    deref tln
    >> (if m.prev tln == 0
        then ret (0, m)
        else (do m' ← removenode m tln; ret (m'.self tln, count_down tl m')))

-- threadlist_insertafter
pub insertafter : Memory → ThreadList → ℕ → ℕ → Run Memory
insertafter m tl onlist addee = do m' ← insertafternode m onlist addee; ret (count_up tl m')

-- threadlist_insertbefore
pub insertbefore : Memory → ThreadList → ℕ → ℕ → Run Memory
insertbefore m tl addee onlist = do m' ← insertbeforenode m addee onlist; ret (count_up tl m')

-- threadlist_remove
pub remove : Memory → ThreadList → ℕ → Run Memory
remove m tl t = do m' ← removenode m t; ret (count_down tl m')
