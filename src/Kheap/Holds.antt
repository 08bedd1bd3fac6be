-- ===== src/Kheap/Holds.antt =====
-- When the kernel heap stands for a list of pages.
use cs.Base.{
  ℕ, ◌+◌, ◌*◌, ◌≤◌, ◌<◌, ◌≡◌, ◌∙◌, true, List, [], ◌∷◌, some, length, get_elem?, arith, mem,
}
use cs.Kheap.{Heap, size, invalid_offset}
use cs.Kheap.Sizes.{blocks, block_fits}
use cs.Kheap.Pool.{Page, IsPage, IsPool, below, of_type, indices}

-- The word of a free block: where the next one is, or 0
abbrev pub link_to : ℕ → ℕ → List ℕ → ℕ
link_to base s [] = 0
link_to base s (k ∷ ks) = base + k * s

abbrev pub Chain : (ℕ → ℕ) → ℕ → ℕ → List ℕ → Type 0
Chain m base s [] = Unit
Chain m base s (k ∷ ks) = (m (base + k * s) ≡ link_to base s ks) × Chain m base s ks

abbrev pub offset_of : ℕ → List ℕ → ℕ
offset_of s [] = invalid_offset
offset_of s (k ∷ ks) = k * s

pub record Rep (h : Heap) (p : Page) : Type 0 where
  pub page : (h.refs p.ix).page ≡ p.base
  pub typ : (h.refs p.ix).blktype ≡ p.typ
  pub nfree : (h.refs p.ix).nfree ≡ length p.free
  pub start : (h.refs p.ix).freelist_offset ≡ offset_of (size p.typ) p.free
  pub inuse : h.inuse p.ix ≡ true
  pub chain : Chain h.mem p.base (size p.typ) p.free

pub record Holds (h : Heap) (ps : List Page) : Type 0 where
  pub pool : IsPool ps
  pub all : h.allbase ≡ indices ps
  pub typed : (t : ℕ) → h.sizebases t ≡ of_type t ps
  pub reps : (i : ℕ) (p : Page) → get_elem? ps i ≡ some p → Rep h p

-- A free list stays as long as the words of its blocks do.
pub Chain-same :
    (m m' : ℕ → ℕ) (base s : ℕ) (ks : List ℕ)
    → ((k : ℕ) → mem k ks ≡ true → m' (base + k * s) ≡ m (base + k * s))
    → Chain m base s ks
    → Chain m' base s ks
Chain-same m m' base s [] same c = tt
Chain-same m m' base s (k ∷ ks) same (e, c) =
    (same k (ground arith) ∙ e, Chain-same m m' base s ks (λ j h. same j (ground (arith, h))) c)

pub below-mem : (n : ℕ) (ks : List ℕ) (k : ℕ) → below n ks ≡ true → mem k ks ≡ true → k < n
below-mem n [] k h m = absurd (ground (arith, m))
below-mem n (x ∷ xs) k h m = ground (arith, h, m, below-mem n xs k)

-- Blocks of a page lie in it.
pub block_at :
    (p : Page) (k : ℕ) → IsPage p → mem k p.free ≡ true → k * size p.typ + size p.typ ≤ 4096
block_at p k h m = block_fits k p.typ (below-mem (blocks p.typ) p.free k h.inside m)
