-- ===== src/Kheap/Pool.antt =====
-- What the heap stands for: a list of pages, each with the numbers of its free blocks.
use cs.Base.{
  ℕ, ◌+◌, ◌*◌, ◌%◌, ◌^◌, ◌<◌, ◌≡◌, ◌≢◌, Bool, true, false, ◌&&◌, List, [], ◌∷◌, some, map,
  get_elem?, ◌==◌, ltb, if◌then◌else◌, mem, distinct,
}
use cs.Kheap.{size}
use cs.Kheap.Sizes.{blocks}

pub record Page : Type 0 where
  pub ix : ℕ
  pub base : ℕ
  pub typ : ℕ
  pub free : List ℕ

-- Every number is below `n`.
abbrev pub below : ℕ → List ℕ → Bool
below n [] = true
below n (x ∷ xs) = ltb x n && below n xs

pub record IsPage (p : Page) : Type 0 where
  pub typ : p.typ < 8
  pub ix : p.ix < 256
  pub aligned : p.base % 4096 ≡ 0
  pub low : 0 < p.base
  pub high : p.base + 4096 < 2 ^ 32
  pub once : distinct p.free ≡ true
  pub inside : below (blocks p.typ) p.free ≡ true

pub record IsPool (ps : List Page) : Type 0 where
  pub each : (i : ℕ) (p : Page) → get_elem? ps i ≡ some p → IsPage p
  pub apart :
      (i j : ℕ) (p q : Page)
      → i ≢ j
      → get_elem? ps i ≡ some p
      → get_elem? ps j ≡ some q
      → (p.ix ≢ q.ix) × (p.base ≢ q.base)

-- The block at `a`, of the type `t`, is handed out.
pub record IsLive (ps : List Page) (a t : ℕ) : Type 0 where
  pub at : ℕ
  pub page : Page
  pub block : ℕ
  pub there : get_elem? ps at ≡ some page
  pub typ : page.typ ≡ t
  pub address : a ≡ page.base + block * size page.typ
  pub inside : block < blocks page.typ
  pub used : mem block page.free ≡ false

-- The indices of the pages of a type
abbrev pub of_type : ℕ → List Page → List ℕ
of_type t [] = []
of_type t (p ∷ ps) = let rest = of_type t ps in if p.typ == t then p.ix ∷ rest else rest

abbrev pub indices : List Page → List ℕ
indices ps = map (λ p. p.ix) ps
