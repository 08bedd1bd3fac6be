-- ===== src/ThreadList/Seq.antt =====
-- The sequence of threads that a list in memory stands for, and what each operation makes of it.
use cs.Base.{ℕ, ◌+◌, ◌≡◌, ◌≢◌, List, [], ◌∷◌, ◌++◌, refl, sym, ap, ◌∙◌, ret, arith, length}
use mathlib.Core.List.{append_assoc, append-nil}
use cs.ThreadList.{
  Memory, ThreadList, insertafternode, insertbeforenode, addhead, addtail, insertafter,
  insertbefore, init, count_up,
}
use cs.ThreadList.Links.{
  Linked, NotIn, Distinct, last, NotIn-append, NotIn-last, Linked-at, NotIn-insert, NotIn-at,
  Distinct-insert, Distinct-at,
}
use cs.ThreadList.Insert.{between, insertafternode_lem, insertbeforenode_lem, Linked-between}

-- Each thread's node names the thread.
abbrev pub Selves : Memory → List ℕ → Type 0
Selves m [] = Unit
Selves m (t ∷ ts) = (m.self t ≡ t) × Selves m ts

-- The nodes from the first of `ts` to the tail sentinel.
abbrev pub ending : ThreadList → List ℕ → List ℕ
ending tl ts = ts ++ tl.tail ∷ []

-- The list holds the threads `ts`, in this order.
pub record IsList (m : Memory) (tl : ThreadList) (ts : List ℕ) : Type 0 where
  pub chain : Linked m tl.head (ending tl ts)
  pub distinct : Distinct (tl.head ∷ ending tl ts)
  pub no_null : NotIn 0 (tl.head ∷ ending tl ts)
  pub head_prev : m.prev tl.head ≡ 0
  pub tail_next : m.next tl.tail ≡ 0
  pub selves : Selves m ts
  pub counted : m.count tl.head ≡ length ts

-- A thread that may be put on the list: on none of its nodes, and initialised.
pub record IsFree (m : Memory) (tl : ThreadList) (ts : List ℕ) (t : ℕ) : Type 0 where
  pub apart : NotIn t (tl.head ∷ ending tl ts)
  pub real : t ≢ 0
  pub named : m.self t ≡ t

Selves-insert :
    (m : Memory) (t : ℕ) (us vs : List ℕ)
    → m.self t ≡ t
    → Selves m (us ++ vs)
    → Selves m (us ++ t ∷ vs)
Selves-insert m t [] vs e h = (e, h)
Selves-insert m t (u ∷ us) vs e h = (h.0, Selves-insert m t us vs e h.1)

pub Selves-delete :
    (m : Memory) (t : ℕ) (us vs : List ℕ)
    → Selves m (us ++ t ∷ vs)
    → (m.self t ≡ t) × Selves m (us ++ vs)
Selves-delete m t [] vs h = h
Selves-delete m t (u ∷ us) vs h = let (e, h') = Selves-delete m t us vs h.1 in (e, (h.0, h'))

-- The node before a place of the list, and the node after it.
abbrev pub before : ThreadList → List ℕ → ℕ
before tl us = last tl.head us

abbrev pub after : ThreadList → List ℕ → ℕ
after tl [] = tl.tail
after tl (v ∷ vs) = v

abbrev pub rest : ThreadList → List ℕ → List ℕ
rest tl [] = []
rest tl (v ∷ vs) = ending tl vs

pub after-rest : (tl : ThreadList) (vs : List ℕ) → ending tl vs ≡ after tl vs ∷ rest tl vs
after-rest tl [] = refl
after-rest tl (v ∷ vs) = refl

pub split :
    (tl : ThreadList) (us vs : List ℕ) → ending tl (us ++ vs) ≡ us ++ after tl vs ∷ rest tl vs
split tl us vs = append_assoc us vs (tl.tail ∷ []) ∙ ap (λ t. us ++ t) (after-rest tl vs)

pub split_with :
    (tl : ThreadList) (us : List ℕ) (t : ℕ) (vs : List ℕ)
    → ending tl (us ++ t ∷ vs) ≡ us ++ t ∷ after tl vs ∷ rest tl vs
split_with tl us t vs =
    append_assoc us (t ∷ vs) (tl.tail ∷ []) ∙ ap (λ r. us ++ t ∷ r) (after-rest tl vs)

pub tail-ne-before :
    (tl : ThreadList) (us vs : List ℕ)
    → Distinct (tl.head ∷ ending tl (us ++ vs))
    → tl.tail ≢ before tl us
tail-ne-before tl us vs d =
    let all = Distinct-at tl.tail (tl.head ∷ (us ++ vs)) [] d in
    let (front, _) = NotIn-append tl.tail (tl.head ∷ (us ++ vs)) [] all in
    let (front', _) = NotIn-append tl.tail (tl.head ∷ us) vs front in
    NotIn-last tl.tail tl.head us front'

pub length-insert : (t : ℕ) (us vs : List ℕ) → length (us ++ t ∷ vs) ≡ length (us ++ vs) + 1
length-insert t [] vs = omega arith
length-insert t (u ∷ us) vs = omega (arith, length-insert t us vs)

-- Where an insertion takes place: between two nodes of the list.
record Gap (m : Memory) (t x y : ℕ) : Type 0 where
  next_is : m.next x ≡ y
  prev_is : m.prev y ≡ x
  left_real : x ≢ 0
  right_real : y ≢ 0
  left_apart : x ≢ t
  right_apart : y ≢ t

module _ {m : Memory} {tl : ThreadList} (us vs : List ℕ) {t : ℕ} (list : IsList m tl (us ++ vs))
    (free : IsFree m tl (us ++ vs) t) where
  abbrev x : ℕ
  x = before tl us

  abbrev y : ℕ
  y = after tl vs

  abbrev nodes : List ℕ
  nodes = us ++ y ∷ rest tl vs

  apart' : NotIn t (tl.head ∷ nodes)
  apart' = rw (split tl us vs) at (free.apart)

  no_null' : NotIn 0 (tl.head ∷ nodes)
  no_null' = rw (split tl us vs) at (list.no_null)

  distinct' : Distinct (tl.head ∷ nodes)
  distinct' = rw (split tl us vs) at (list.distinct)

  chain' : Linked m tl.head nodes
  chain' = rw (split tl us vs) at (list.chain)

  gap : Gap m t x y
  gap =
      let (n, p) = Linked-at m tl.head us y (rest tl vs) chain' in
      let (z, _) = NotIn-append 0 (tl.head ∷ us) (y ∷ rest tl vs) no_null' in
      let (a, _) = NotIn-append t (tl.head ∷ us) (y ∷ rest tl vs) apart' in
      record {
        next_is = n;
        prev_is = p;
        left_real = λ e. NotIn-last 0 tl.head us z (sym e);
        right_real = λ e. NotIn-at 0 y (tl.head ∷ us) (rest tl vs) no_null' (sym e);
        left_apart = λ e. NotIn-last t tl.head us a (sym e);
        right_apart = λ e. NotIn-at t y (tl.head ∷ us) (rest tl vs) apart' (sym e);
      }

  abbrev result : Memory
  result = count_up tl (between m x t y)

  inserted : IsList result tl (us ++ t ∷ vs)
  inserted = record {
    chain =
        rw (split_with tl us t vs)
          (Linked-between m t y (rest tl vs) tl.head us apart' distinct' chain');
    distinct =
        rw (split_with tl us t vs)
          (Distinct-insert t (tl.head ∷ us) (y ∷ rest tl vs) apart' distinct');
    no_null =
        rw (split_with tl us t vs)
          (NotIn-insert 0 t (tl.head ∷ us) (y ∷ rest tl vs) (λ e. free.real (sym e)) no_null');
    head_prev =
        ground
          (arith, list.head_prev, free.apart.0, NotIn-at tl.head y us (rest tl vs) distinct'.0);
    tail_next = ground (
      arith,
      list.tail_next,
      tail-ne-before tl us vs list.distinct,
      NotIn-at t tl.tail (tl.head ∷ (us ++ vs)) [] free.apart,
    );
    selves = Selves-insert m t us vs free.named list.selves;
    counted = ground (arith, list.counted, length-insert t us vs);
  }

  insertafternode-Gap : insertafternode m x t ≡ ret (between m x t y)
  insertafternode-Gap =
      insertafternode_lem m x t y gap.next_is gap.left_real free.real gap.right_real gap.left_apart

  insertbeforenode-Gap : insertbeforenode m t y ≡ ret (between m x t y)
  insertbeforenode-Gap =
      insertbeforenode_lem m x t y gap.prev_is gap.left_real free.real gap.right_real gap.left_apart
        gap.right_apart

  -- threadlist_insertafter, given the node before a place of the list, and threadlist_insertbefore,
  -- given the node after it, put a free thread at that place, and both leave the same memory.
  pub insert-IsList :
      (m' : Memory) × (insertafter m tl (before tl us) t ≡ ret m')
      × (insertbefore m tl t (after tl vs) ≡ ret m')
      × IsList m' tl (us ++ t ∷ vs)
  unfolding insertafter insertbefore
  insert-IsList = (result, rw insertafternode-Gap, rw insertbeforenode-Gap, inserted)

module _ {m : Memory} {tl : ThreadList} (ts : List ℕ) {t : ℕ} (list : IsList m tl ts)
    (free : IsFree m tl ts t) where
  -- threadlist_addhead of a thread that is not on the list returns and puts it before all others.
  pub addhead-IsList : (m' : Memory) × (addhead m tl t ≡ ret m') × IsList m' tl (t ∷ ts)
  unfolding addhead
  addhead-IsList =
      (result [] ts list free, rw (insertafternode-Gap [] ts list free), inserted [] ts list free)

  -- threadlist_addtail of a thread that is not on the list returns and puts it behind all others.
  pub addtail-IsList : (m' : Memory) × (addtail m tl t ≡ ret m') × IsList m' tl (ts ++ t ∷ [])
  unfolding addtail
  addtail-IsList =
      let list' : IsList m tl (ts ++ []) = rw (append-nil ts) list in
      let free' : IsFree m tl (ts ++ []) t = rw (append-nil ts) free in
      (
        result ts [] list' free',
        rw (insertbeforenode-Gap ts [] list' free'),
        inserted ts [] list' free',
      )

-- threadlist_init makes an empty list of any two nodes.
pub init-IsList :
    (m : Memory) (tl : ThreadList)
    → tl.head ≢ 0
    → tl.tail ≢ 0
    → tl.head ≢ tl.tail
    → IsList (init m tl) tl []
unfolding init
init-IsList m tl h t ne = record {
  chain = (ground arith, ground arith, tt);
  distinct = ((ne, tt), (tt, tt));
  no_null = ((λ e. h (sym e)), ((λ e. t (sym e)), tt));
  head_prev = ground arith;
  tail_next = ground arith;
  selves = tt;
  counted = ground arith;
}
