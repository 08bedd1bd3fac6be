-- ===== src/Queue/Segment.antt =====
-- The elements that a ring holds between two of its indices, and the queue that a ring stands for.
use cs.Base.{
  ℕ, suc, ◌+◌, ◌-◌, ◌%◌, ◌<◌, ◌≡◌, ◌≢◌, sym, ap, ◌∙◌, List, [], ◌∷◌, ◌++◌, some, get_elem?, set,
  length, get_elem?-set_self, get_elem?-set_ne, arith,
}
use native.Mathlib.Nat.{mod-add-mod, mod-eq_of_lt, mod-eq-sub-mod}
use native.Mathlib.Decide.{dec_lt}
use cs.Queue.{Queue}

-- Round a ring of `n` cells from index `i` to index `j`, the cells hold `xs`.
abbrev pub Segment : List ℕ → ℕ → ℕ → ℕ → List ℕ → Type 0
Segment cells n i j [] = i ≡ j
Segment cells n i j (x ∷ xs) = (get_elem? cells i ≡ some x) × Segment cells n ((i + 1) % n) j xs

-- A ring that holds the queue `xs`, oldest element first. One cell always stays unused.
pub record Holds (q : Queue) (xs : List ℕ) : Type 0 where
  pub cells_length : length q.cells ≡ q.size
  pub room : length xs < q.size
  pub read_in : q.nextread < q.size
  pub write_in : q.nextwrite < q.size
  pub segment : Segment q.cells q.size q.nextread q.nextwrite xs

pub mod-ne : (n i k : ℕ) → i < n → 0 < k → k < n → (i + k) % n ≢ i
mod-ne n i k h pos lt = elim (dec_lt (i + k) n) [
  | yes p ↦ omega (arith, mod-eq_of_lt p)
  | no p ↦ omega (
    arith,
    mod-eq-sub-mod {n = i + k} {m = n} (omega arith),
    mod-eq_of_lt {n = i + k - n} {m = n} (omega arith),
  )
]

pub next_in : (n i : ℕ) → i < n → (i + 1) % n < n
next_in n i h = omega arith

step_shift : (n i k : ℕ) → ((i + 1) % n + k) % n ≡ (i + suc k) % n
step_shift n i k = rw mod-add-mod (ap (λ t. t % n) (omega arith))

-- A segment ends as many cells on as it has elements.
pub Segment-end :
    (cells : List ℕ) (n i j : ℕ) (xs : List ℕ)
    → i < n
    → Segment cells n i j xs
    → (i + length xs) % n ≡ j
Segment-end cells n i j [] h s = rw (← s) (ap (λ t. t % n) (omega arith) ∙ mod-eq_of_lt h)
Segment-end cells n i j (x ∷ xs) h s =
    sym (step_shift n i (length xs)) ∙ Segment-end cells n ((i + 1) % n) j xs (next_in n i h) s.1

-- Only an empty segment ends where it begins.
pub Segment-ne :
    (cells : List ℕ) (n i j x : ℕ) (xs : List ℕ)
    → i < n
    → length (x ∷ xs) < n
    → Segment cells n i j (x ∷ xs)
    → i ≢ j
Segment-ne cells n i j x xs h lt s e =
    mod-ne n i (length (x ∷ xs)) h (omega arith) lt (Segment-end cells n i j (x ∷ xs) h s ∙ sym e)

-- A write at the end of a segment makes it longer by one element.
pub Segment-snoc :
    (cells : List ℕ) (n i j x : ℕ) (xs : List ℕ)
    → length cells ≡ n
    → i < n
    → j < n
    → length xs < n
    → Segment cells n i j xs
    → Segment (set cells j x) n i ((j + 1) % n) (xs ++ x ∷ [])
Segment-snoc cells n i j x [] e hi hj lt s =
    (rw s (get_elem?-set_self cells j x (omega arith)), ap (λ t. (t + 1) % n) s)
Segment-snoc cells n i j x (y ∷ ys) e hi hj lt s = (
  get_elem?-set_ne cells x (λ q. Segment-ne cells n i j y ys hi lt s (sym q)) ∙ s.0,
  Segment-snoc cells n ((i + 1) % n) j x ys e (next_in n i hi) hj (omega arith) s.1,
)

-- Where the cell after the next write lies.
pub next_write :
    {q : Queue} (xs : List ℕ)
    → Holds q xs
    → (q.nextwrite + 1) % q.size ≡ (q.nextread + suc (length xs)) % q.size
next_write {q} xs h =
    rw (← Segment-end q.cells q.size q.nextread q.nextwrite xs h.read_in h.segment)
      (rw mod-add-mod (ap (λ t. t % q.size) (omega arith)))

round_trip : (n i : ℕ) → i < n → (i + n) % n ≡ i
round_trip n i h = grind arith

-- The test of q_addtail for a full ring tells whether one cell only is unused.
pub not_full :
    {q : Queue} (xs : List ℕ)
    → Holds q xs
    → length xs + 1 < q.size
    → (q.nextwrite + 1) % q.size ≢ q.nextread
not_full {q} xs h room =
    rw (next_write xs h)
      (mod-ne q.size q.nextread (suc (length xs)) h.read_in (omega arith) (omega arith))

pub full :
    {q : Queue} (xs : List ℕ)
    → Holds q xs
    → length xs + 1 ≡ q.size
    → (q.nextwrite + 1) % q.size ≡ q.nextread
full {q} xs h e =
    let k : suc (length xs) ≡ q.size = omega arith in
    rw (next_write xs h, k) (round_trip q.size q.nextread h.read_in)
