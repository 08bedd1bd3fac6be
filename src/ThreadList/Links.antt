-- ===== src/ThreadList/Links.antt =====
-- Chains of nodes linked in both directions.
use cs.Base.{ℕ, ◌≡◌, ◌≢◌, List, [], ◌∷◌, ◌++◌, sym, ◌∙◌}
use cs.ThreadList.{Memory}

-- From node `a` on the nodes are linked, in both directions, in the order given.
abbrev pub Linked : Memory → ℕ → List ℕ → Type 0
Linked m a [] = Unit
Linked m a (b ∷ rs) = (m.next a ≡ b) × (m.prev b ≡ a) × Linked m b rs

abbrev pub NotIn : ℕ → List ℕ → Type 0
NotIn r [] = Unit
NotIn r (q ∷ qs) = (r ≢ q) × NotIn r qs

-- No node stands twice in a list.
abbrev pub Distinct : List ℕ → Type 0
Distinct [] = Unit
Distinct (r ∷ rs) = NotIn r rs × Distinct rs

-- The last node of a chain.
abbrev pub last : ℕ → List ℕ → ℕ
last a [] = a
last a (b ∷ rs) = last b rs

pub NotIn-append : (r : ℕ) (us vs : List ℕ) → NotIn r (us ++ vs) → NotIn r us × NotIn r vs
NotIn-append r [] vs h = (tt, h)
NotIn-append r (u ∷ us) vs h = let (hu, hv) = NotIn-append r us vs h.1 in ((h.0, hu), hv)

pub NotIn-last : (r a : ℕ) (us : List ℕ) → NotIn r (a ∷ us) → r ≢ last a us
NotIn-last r a [] h = h.0
NotIn-last r a (u ∷ us) h = NotIn-last r u us h.1

-- Writes to nodes that are not in a chain leave it linked. The next pointer of its last node and
-- the prev pointer of its first do not matter.
pub Linked-frame :
    (m m' : Memory) (x t y a : ℕ) (rs : List ℕ)
    → ((r : ℕ) → r ≢ x → r ≢ t → m'.next r ≡ m.next r)
    → ((r : ℕ) → r ≢ y → r ≢ t → m'.prev r ≡ m.prev r)
    → NotIn x (a ∷ rs)
    → NotIn t (a ∷ rs)
    → NotIn y rs
    → Linked m a rs
    → Linked m' a rs
Linked-frame m m' x t y a [] fn fp hx ht hy l = tt
Linked-frame m m' x t y a (b ∷ rs) fn fp hx ht hy l = (
  fn a (λ e. hx.0 (sym e)) (λ e. ht.0 (sym e)) ∙ l.0,
  fp b (λ e. hy.0 (sym e)) (λ e. ht.1.0 (sym e)) ∙ l.1,
  Linked-frame m m' x t y b rs fn fp hx.1 ht.1 hy.1 l.2,
)

-- The neighbours of a place in a chain.
pub Linked-at :
    (m : Memory) (a : ℕ) (us : List ℕ) (y : ℕ) (vs : List ℕ)
    → Linked m a (us ++ y ∷ vs)
    → (m.next (last a us) ≡ y) × (m.prev y ≡ last a us)
Linked-at m a [] y vs l = (l.0, l.1)
Linked-at m a (u ∷ us) y vs l = Linked-at m u us y vs l.2

pub Linked-drop :
    (m : Memory) (a : ℕ) (us : List ℕ) (y : ℕ) (vs : List ℕ)
    → Linked m a (us ++ y ∷ vs)
    → Linked m y vs
Linked-drop m a [] y vs l = l.2
Linked-drop m a (u ∷ us) y vs l = Linked-drop m u us y vs l.2

pub NotIn-insert : (r t : ℕ) (us vs : List ℕ) → r ≢ t → NotIn r (us ++ vs) → NotIn r (us ++ t ∷ vs)
NotIn-insert r t [] vs e h = (e, h)
NotIn-insert r t (u ∷ us) vs e h = (h.0, NotIn-insert r t us vs e h.1)

pub NotIn-delete : (r t : ℕ) (us vs : List ℕ) → NotIn r (us ++ t ∷ vs) → NotIn r (us ++ vs)
NotIn-delete r t [] vs h = h.1
NotIn-delete r t (u ∷ us) vs h = (h.0, NotIn-delete r t us vs h.1)

pub NotIn-at : (r t : ℕ) (us vs : List ℕ) → NotIn r (us ++ t ∷ vs) → r ≢ t
NotIn-at r t [] vs h = h.0
NotIn-at r t (u ∷ us) vs h = NotIn-at r t us vs h.1

pub Distinct-insert :
    (t : ℕ) (us vs : List ℕ) → NotIn t (us ++ vs) → Distinct (us ++ vs) → Distinct (us ++ t ∷ vs)
Distinct-insert t [] vs h d = (h, d)
Distinct-insert t (u ∷ us) vs h d =
    (NotIn-insert u t us vs (λ e. h.0 (sym e)) d.0, Distinct-insert t us vs h.1 d.1)

pub Distinct-delete : (t : ℕ) (us vs : List ℕ) → Distinct (us ++ t ∷ vs) → Distinct (us ++ vs)
Distinct-delete t [] vs d = d.1
Distinct-delete t (u ∷ us) vs d = (NotIn-delete u t us vs d.0, Distinct-delete t us vs d.1)

-- A node of a list without repetitions does not stand elsewhere in it.
pub Distinct-at : (t : ℕ) (us vs : List ℕ) → Distinct (us ++ t ∷ vs) → NotIn t (us ++ vs)
Distinct-at t [] vs d = d.0
Distinct-at t (u ∷ us) vs d = ((λ e. NotIn-at u t us vs d.0 (sym e)), Distinct-at t us vs d.1)
