-- ===== src/ThreadList/Take.antt =====
-- What the operations that take a thread off a list make of the sequence.
use cs.Base.{ℕ, ◌≡◌, ◌≢◌, List, [], ◌∷◌, ◌++◌, sym, ret, arith}
use cs.ThreadList.{Memory, ThreadList, removenode, remhead, remtail, remove, count_down}
use cs.ThreadList.Links.{
  Linked, NotIn, Distinct, NotIn-append, NotIn-last, Linked-at, Linked-drop, NotIn-delete, NotIn-at,
  Distinct-delete, Distinct-at,
}
use cs.ThreadList.Remove.{without, removenode_lem, Linked-without}
use cs.ThreadList.Seq.{
  IsList, IsFree, before, after, rest, ending, split, split_with, Selves-delete, tail-ne-before,
  length-insert,
}

-- What is left when thread `t` has been taken off between `us` and `vs`: a list of the others, and
-- `t` in a state in which it may be put on the list again.
abbrev pub Off : ThreadList → List ℕ → ℕ → List ℕ → Memory → Type 0
Off tl us t vs m' =
    IsList m' tl (us ++ vs) × IsFree m' tl (us ++ vs) t × (m'.next t ≡ 0) × (m'.prev t ≡ 0)

module _ {m : Memory} {tl : ThreadList} (us : List ℕ) (t : ℕ) (vs : List ℕ)
    (list : IsList m tl (us ++ t ∷ vs)) where
  abbrev x : ℕ
  x = before tl us

  abbrev y : ℕ
  y = after tl vs

  abbrev nodes : List ℕ
  nodes = us ++ t ∷ y ∷ rest tl vs

  no_null' : NotIn 0 (tl.head ∷ nodes)
  no_null' = rw (split_with tl us t vs) at (list.no_null)

  distinct' : Distinct (tl.head ∷ nodes)
  distinct' = rw (split_with tl us t vs) at (list.distinct)

  chain' : Linked m tl.head nodes
  chain' = rw (split_with tl us t vs) at (list.chain)

  -- `t` stands nowhere else.
  alone : NotIn t (tl.head ∷ (us ++ y ∷ rest tl vs))
  alone = Distinct-at t (tl.head ∷ us) (y ∷ rest tl vs) distinct'

  t_real : t ≢ 0
  t_real e = NotIn-at 0 t (tl.head ∷ us) (y ∷ rest tl vs) no_null' (sym e)

  x_real : x ≢ 0
  x_real e =
      let (z, _) = NotIn-append 0 (tl.head ∷ us) (t ∷ y ∷ rest tl vs) no_null' in
      NotIn-last 0 tl.head us z (sym e)

  left_of : m.prev t ≡ x
  left_of = (Linked-at m tl.head us t (y ∷ rest tl vs) chain').1

  right_of : m.next t ≡ y
  right_of = (Linked-drop m tl.head us t (y ∷ rest tl vs) chain').0

  y_real : y ≢ 0
  y_real e =
      NotIn-at 0 y (tl.head ∷ us) (rest tl vs)
        (NotIn-delete 0 t (tl.head ∷ us) (y ∷ rest tl vs) no_null') (sym e)

  named : m.self t ≡ t
  named = (Selves-delete m t us vs list.selves).0

  removenode-IsList : removenode m t ≡ ret (without m x t y)
  removenode-IsList =
      let (z, _) = NotIn-append t (tl.head ∷ us) (y ∷ rest tl vs) alone in
      removenode_lem m x t y left_of right_of x_real t_real y_real
        (λ e. NotIn-last t tl.head us z (sym e))
        (λ e. NotIn-at t y (tl.head ∷ us) (rest tl vs) alone (sym e))

  abbrev pub taken : Memory
  taken = count_down tl (without m x t y)

  removed : IsList taken tl (us ++ vs)
  removed =
      let d : Distinct (tl.head ∷ (us ++ y ∷ rest tl vs)) =
        Distinct-delete t (tl.head ∷ us) (y ∷ rest tl vs) distinct' in
      let d' : Distinct (tl.head ∷ ending tl (us ++ vs)) = rw (split tl us vs) d in
      record {
        chain = rw (split tl us vs) (Linked-without m t y (rest tl vs) tl.head us distinct' chain');
        distinct = d';
        no_null = rw (split tl us vs) (NotIn-delete 0 t (tl.head ∷ us) (y ∷ rest tl vs) no_null');
        head_prev = ground (arith, list.head_prev, alone.0, NotIn-at tl.head y us (rest tl vs) d.0);
        tail_next = ground (arith, list.tail_next, tail-ne-before tl us vs d', tail_apart);
        selves = (Selves-delete m t us vs list.selves).1;
        counted = ground (arith, list.counted, length-insert t us vs);
      }
    where
      tail_apart : tl.tail ≢ t
      tail_apart e =
          let alone' : NotIn t (tl.head ∷ ending tl (us ++ vs)) = rw (split tl us vs) alone in
          NotIn-at t tl.tail (tl.head ∷ (us ++ vs)) [] alone' (sym e)

  -- The thread is off the list, and may be put on one again.
  freed : IsFree taken tl (us ++ vs) t × (taken.next t ≡ 0) × (taken.prev t ≡ 0)
  freed = (
    record {
      apart = rw (split tl us vs) alone;
      real = t_real;
      named = (Selves-delete m t us vs list.selves).0;
    },
    ground arith,
    ground arith,
  )

  off : Off tl us t vs taken
  off = (removed, freed.0, freed.1, freed.2)

  -- On a list of threads, threadlist_remove of a thread that is on it, wherever it stands, returns,
  -- takes that thread off and leaves the others in order.
  pub remove-IsList : (m' : Memory) × (remove m tl t ≡ ret m') × Off tl us t vs m'
  unfolding remove
  remove-IsList = (taken, rw removenode-IsList, off)

-- What threadlist_remhead does with a list.
abbrev pub TakesHead : Memory → ThreadList → List ℕ → Type 0
TakesHead m tl [] = remhead m tl ≡ ret (0, m)
TakesHead m tl (t ∷ ts) = (m' : Memory) × (remhead m tl ≡ ret (t, m')) × Off tl [] t ts m'

-- threadlist_remhead takes off and returns the first thread; on an empty list it returns NULL and
-- changes nothing.
pub remhead-TakesHead :
    {m : Memory} {tl : ThreadList} (ts : List ℕ) → IsList m tl ts → TakesHead m tl ts
unfolding remhead
remhead-TakesHead [] list = ground (arith, list.chain.0, list.tail_next, list.no_null)
remhead-TakesHead {m} {tl} (t ∷ ts) list = (
  taken [] t ts list,
  ground (
    arith,
    list.chain.0,
    t_real [] t ts list,
    right_of [] t ts list,
    y_real [] t ts list,
    removenode-IsList [] t ts list,
    named [] t ts list,
  ),
  off [] t ts list,
)

-- threadlist_remtail of a list that is not empty takes off and returns the last thread.
pub remtail-IsList :
    {m : Memory} {tl : ThreadList} (us : List ℕ) (t : ℕ)
    → IsList m tl (us ++ t ∷ [])
    → (m' : Memory) × (remtail m tl ≡ ret (t, m')) × Off tl us t [] m'
unfolding remtail
remtail-IsList {m} {tl} us t list = (
  taken us t [] list,
  ground (
    arith,
    (Linked-drop m tl.head us t (tl.tail ∷ []) (chain' us t [] list)).1,
    y_real us t [] list,
    t_real us t [] list,
    left_of us t [] list,
    x_real us t [] list,
    removenode-IsList us t [] list,
    named us t [] list,
  ),
  off us t [] list,
)

-- threadlist_remtail on an empty list returns NULL and changes nothing.
pub remtail_empty : {m : Memory} {tl : ThreadList} → IsList m tl [] → remtail m tl ≡ ret (0, m)
unfolding remtail
remtail_empty list = ground (arith, list.chain.1, list.head_prev, list.no_null)
