-- ===== src/ThreadList/Insert.antt =====
-- Insertion between two neighbours of a chain.
use cs.Base.{ℕ, ◌≡◌, ◌≢◌, List, [], ◌∷◌, ◌++◌, sym, ret, arith}
use cs.ThreadList.{Memory, update, insertafternode, insertbeforenode}
use cs.ThreadList.Links.{Linked, NotIn, Distinct, last, NotIn-append, NotIn-last, Linked-frame}

-- The memory with node `t` between the nodes `x` and `y`, after the writes of
-- threadlist_insertafternode; those of threadlist_insertbeforenode give the same.
abbrev pub between : Memory → ℕ → ℕ → ℕ → Memory
between m x t y = record m {
  next = update (update m.next t y) x t;
  prev = update (update m.prev t x) y t;
}

pub insertafternode_lem :
    (m : Memory) (x t y : ℕ)
    → m.next x ≡ y
    → x ≢ 0
    → t ≢ 0
    → y ≢ 0
    → x ≢ t
    → insertafternode m x t ≡ ret (between m x t y)
unfolding insertafternode
insertafternode_lem m x t y e hx ht hy ne = ground arith

pub insertbeforenode_lem :
    (m : Memory) (x t y : ℕ)
    → m.prev y ≡ x
    → x ≢ 0
    → t ≢ 0
    → y ≢ 0
    → x ≢ t
    → y ≢ t
    → insertbeforenode m t y ≡ ret (between m x t y)
unfolding insertbeforenode
insertbeforenode_lem m x t y e hx ht hy ne ne' = ground arith

module _ (m : Memory) (t y : ℕ) (vs : List ℕ) where
  -- A chain stays one when a node that is not in it is put between two neighbours.
  pub Linked-between :
      (a : ℕ) (us : List ℕ)
      → NotIn t (a ∷ (us ++ y ∷ vs))
      → Distinct (a ∷ (us ++ y ∷ vs))
      → Linked m a (us ++ y ∷ vs)
      → Linked (between m (last a us) t y) a (us ++ t ∷ y ∷ vs)
  Linked-between a [] ht d l =
      let at : a ≢ t = λ e. ht.0 (sym e) in
      let ty : t ≢ y = ht.1.0 in
      let ay : a ≢ y = d.0.0 in
      (
        ground arith,
        ground arith,
        (
          ground arith,
          ground arith,
          Linked-frame m (between m a t y) a t y y vs (λ r p q. ground arith)
              (λ r p q. ground arith) d.0 ht.1 d.1.0 l.2,
        ),
      )
  Linked-between a (u ∷ us) ht d l =
      let at : a ≢ t = λ e. ht.0 (sym e) in
      let ut : u ≢ t = λ e. ht.1.0 (sym e) in
      let ax : a ≢ last u us =
        let (hu, hv) = NotIn-append a (u ∷ us) (y ∷ vs) d.0 in NotIn-last a u us hu in
      let uy : u ≢ y = let (hu, hv) = NotIn-append u us (y ∷ vs) d.1.0 in hv.0 in
      (ground (arith, l.0), ground (arith, l.1), Linked-between u us ht.1 d.1 l.2)
