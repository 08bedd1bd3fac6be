-- ===== src/ThreadList/Remove.antt =====
-- Removal of a node from a chain.
use cs.Base.{ℕ, ◌≡◌, ◌≢◌, List, [], ◌∷◌, ◌++◌, ret, arith}
use cs.ThreadList.{Memory, update, removenode}
use cs.ThreadList.Links.{Linked, Distinct, last, NotIn-append, NotIn-last, Linked-frame}

-- The memory without node `t`, whose neighbours were `x` and `y`.
abbrev pub without : Memory → ℕ → ℕ → ℕ → Memory
without m x t y = record m {
  next = update (update m.next x y) t 0;
  prev = update (update m.prev y x) t 0;
}

pub removenode_lem :
    (m : Memory) (x t y : ℕ)
    → m.prev t ≡ x
    → m.next t ≡ y
    → x ≢ 0
    → t ≢ 0
    → y ≢ 0
    → x ≢ t
    → y ≢ t
    → removenode m t ≡ ret (without m x t y)
unfolding removenode
removenode_lem m x t y e e' hx ht hy ne ne' = ground arith

module _ (m : Memory) (t y : ℕ) (vs : List ℕ) where
  -- A chain stays one when a node between two others is taken out.
  pub Linked-without :
      (a : ℕ) (us : List ℕ)
      → Distinct (a ∷ (us ++ t ∷ y ∷ vs))
      → Linked m a (us ++ t ∷ y ∷ vs)
      → Linked (without m (last a us) t y) a (us ++ y ∷ vs)
  Linked-without a [] d l =
      let at : a ≢ t = d.0.0 in
      let ty : t ≢ y = d.1.0.0 in
      (
        ground arith,
        ground arith,
        Linked-frame m (without m a t y) a t y y vs (λ r p q. ground arith) (λ r p q. ground arith)
            d.0.1 d.1.0 d.1.1.0 l.2.2,
      )
  Linked-without a (u ∷ us) d l =
      let ax : a ≢ last u us =
        let (hu, hv) = NotIn-append a (u ∷ us) (t ∷ y ∷ vs) d.0 in NotIn-last a u us hu in
      let at : a ≢ t = let (hu, hv) = NotIn-append a (u ∷ us) (t ∷ y ∷ vs) d.0 in hv.0 in
      let ut : u ≢ t = let (hu, hv) = NotIn-append u us (t ∷ y ∷ vs) d.1.0 in hv.0 in
      let uy : u ≢ y = let (hu, hv) = NotIn-append u us (t ∷ y ∷ vs) d.1.0 in hv.1.0 in
      (ground (arith, l.0), ground (arith, l.1), Linked-without u us d.1 l.2)
