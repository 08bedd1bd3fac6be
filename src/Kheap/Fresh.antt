-- ===== src/Kheap/Fresh.antt =====
-- A new page: its blocks are linked from the last to the first.
use cs.Base.{
  ℕ, zero, suc, ◌+◌, ◌-◌, ◌*◌, ◌%◌, ◌^◌, ◌≤◌, ◌<◌, ◌≡◌, ◌≢◌, refl, ap, sym, ◌∙◌, inl, inr, ◌⊎◌,
  true, false, List, [], ◌∷◌, some, length, get_elem?, ltb, ◌==◌, Bool-cases, arith, put, mem,
  distinct,
}
use mathlib.Core.Path.{subst}
use cs.Kheap.{Heap, size, link_blocks, new_page}
use cs.Kheap.Sizes.{blocks, size_lem, block_step, block_fits, blocks_lem}
use cs.Kheap.Pool.{Page, IsPage, IsPool, below}
use cs.Kheap.Holds.{Chain, offset_of, Rep, Holds, block_at}
use cs.Kheap.Change.{Rep-same}

abbrev pub down : ℕ → List ℕ
down zero = []
down (suc n) = n ∷ down n

length-down : (n : ℕ) → length (down n) ≡ n
length-down zero = refl
length-down (suc n) = ap suc (length-down n)

mem-down : (k n : ℕ) → n ≤ k → mem k (down n) ≡ false
mem-down k zero h = refl
mem-down k (suc n) h = ground (arith, mem-down k n)

distinct-down : (n : ℕ) → distinct (down n) ≡ true
distinct-down zero = refl
distinct-down (suc n) = ground (arith, distinct-down n, mem-down n n (omega arith))

below-down : (m n : ℕ) → n ≤ m → below m (down n) ≡ true
below-down m zero h = refl
below-down m (suc n) h = ground (arith, below-down m n)

module _ (base t : ℕ) (high : base + 4096 < 2 ^ 32) where
  -- An address that is none of the blocks that are linked
  link_blocks-other :
      (r i : ℕ) (m : ℕ → ℕ) (a : ℕ)
      → i + r ≤ blocks t
      → ((j : ℕ) → i ≤ j → j < i + r → a ≢ base + j * size t)
      → link_blocks r i base (size t) m a ≡ m a
  unfolding link_blocks
  link_blocks-other zero i m a h ne = refl
  link_blocks-other (suc r) i m a h ne =
      let f = block_fits i t (omega (arith, h)) in
      let (s, _, _) = size_lem t in
      let w : (base + i * size t) % 2 ^ 32 ≡ base + i * size t = omega (arith, f, s, high) in
      link_blocks-other r (i + 1) _ a (omega (arith, h))
        (λ j b c. ne j (omega (arith, b)) (omega (arith, c)))
      ∙ ground (arith, w, ne i (omega arith) (omega arith))

  link_blocks-at :
      (r i k : ℕ) (m : ℕ → ℕ)
      → i + r ≤ blocks t
      → 0 < i
      → i ≤ k
      → k < i + r
      → link_blocks r i base (size t) m (base + k * size t) ≡ base + (k - 1) * size t
  unfolding link_blocks
  link_blocks-at zero i k m h p a b = absurd (omega (arith, a, b))
  link_blocks-at (suc r) i k m h p a b = elim (Bool-cases (k == i)) [
    | inr z ↦
        link_blocks-at r (i + 1) k _ (omega (arith, h)) (omega arith) (ground (arith, a, z))
          (omega (arith, b))
    | inl z ↦
        let e : k ≡ i = ground (arith, z) in
        let f = block_fits i t (omega (arith, h)) in
        let g = block_step (i - 1) i t (omega (arith, p)) in
        let (s, _, _) = size_lem t in
        let w : (base + i * size t) % 2 ^ 32 ≡ base + i * size t = omega (arith, f, s, high) in
        let w' : (base + (i - 1) * size t) % 2 ^ 32 ≡ base + (i - 1) * size t =
          omega (arith, f, g, s, high) in
        rw e (
          link_blocks-other r (i + 1) _ (base + i * size t) (omega (arith, h))
            (λ j c d q. omega (arith, q, block_step i j t (omega (arith, c)), s))
          ∙ ground (arith, w, w'))
  ]

  -- The blocks below `n` in a memory where each links to the one before
  Chain-down :
      (m : ℕ → ℕ) (n : ℕ)
      → m base ≡ 0
      → ((k : ℕ) → 0 < k → k < n → m (base + k * size t) ≡ base + (k - 1) * size t)
      → Chain m base (size t) (down n)
  Chain-down m zero z h = tt
  Chain-down m (suc zero) z h = (ap m (omega arith) ∙ z, tt)
  Chain-down m (suc (suc n)) z h =
      let e : suc n - 1 ≡ n = omega arith in
      (
        h (suc n) (omega arith) (omega arith) ∙ ap (λ k. base + k * size t) e,
        Chain-down m (suc n) z (λ k a b. h k a (omega (arith, b))),
      )

  abbrev fresh_mem : (ℕ → ℕ) → ℕ → ℕ
  fresh_mem m = link_blocks (blocks t - 1) 1 base (size t) (put m base 0)

  fresh-Chain : (m : ℕ → ℕ) → Chain (fresh_mem m) base (size t) (down (blocks t))
  fresh-Chain m =
      let (two, _, _) = blocks_lem t in
      let (s, _, _) = size_lem t in
      Chain-down (fresh_mem m) (blocks t)
        (link_blocks-other (blocks t - 1) 1 (put m base 0) base (omega (arith, two))
            (λ j c d q. omega (arith, q, block_step 0 j t (omega (arith, c)), s))
          ∙ ground arith)
        (λ k a b.
          link_blocks-at (blocks t - 1) 1 k (put m base 0) (omega (arith, two)) (omega arith)
            (omega (arith, a)) (omega (arith, b, two)))

  fresh-other : (m : ℕ → ℕ) (a : ℕ) → (a < base) ⊎ (base + 4096 ≤ a) → fresh_mem m a ≡ m a
  fresh-other m a out =
      let (two, _, _) = blocks_lem t in
      let (s, _, _) = size_lem t in
      link_blocks-other (blocks t - 1) 1 (put m base 0) a (omega (arith, two))
        (λ j c d q. ground (arith, out, q, block_fits j t (omega (arith, d, two)), s))
      ∙ ground (arith, out)

abbrev pub fresh_page : ℕ → ℕ → ℕ → Page
fresh_page i base t = record { ix = i; base = base; typ = t; free = down (blocks t) }

-- What is asked of a page that alloc_kpages returns: it is a page, and none of the heap's.
pub record IsFresh (ps : List Page) (base : ℕ) : Type 0 where
  pub aligned : base % 4096 ≡ 0
  pub low : 0 < base
  pub high : base + 4096 < 2 ^ 32
  pub unused : (i : ℕ) (p : Page) → get_elem? ps i ≡ some p → p.base ≢ base

offset_of-down : (s n : ℕ) → 0 < n → offset_of s (down n) ≡ (n - 1) * s
offset_of-down s zero h = absurd (omega (arith, h))
offset_of-down s (suc n) h = let e : n ≡ suc n - 1 = omega arith in ap (λ k. k * s) e

fresh-IsPage :
    (ps : List Page) (i base t : ℕ)
    → IsFresh ps base
    → t < 8
    → i < 256
    → IsPage (fresh_page i base t)
fresh-IsPage ps i base t f ht hi = record {
  typ = ht;
  ix = hi;
  aligned = f.aligned;
  low = f.low;
  high = f.high;
  once = distinct-down (blocks t);
  inside = below-down (blocks t) (blocks t) (omega arith);
}

fresh-Rep :
    (h : Heap) (ps : List Page) (i base t : ℕ)
    → IsFresh ps base
    → h.inuse i ≡ true
    → Rep (new_page i base t h) (fresh_page i base t)
unfolding new_page
fresh-Rep h ps i base t f u =
    let (two, _, _) = blocks_lem t in
    record {
      page = ground arith;
      typ = ground arith;
      nfree = ground (arith, length-down (blocks t));
      start = ground (arith, offset_of-down (size t) (blocks t) (omega (arith, two)));
      inuse = u;
      chain = fresh-Chain base t f.high h.mem;
    }

fresh-IsPool :
    (ps : List Page) (i base t : ℕ)
    → IsFresh ps base
    → t < 8
    → i < 256
    → ((j : ℕ) (p : Page) → get_elem? ps j ≡ some p → p.ix ≢ i)
    → IsPool ps
    → IsPool (fresh_page i base t ∷ ps)
fresh-IsPool ps i base t f ht hi ne h = record { each = each; apart = apart }
  where
    each : (j : ℕ) (p : Page) → get_elem? (fresh_page i base t ∷ ps) j ≡ some p → IsPage p
    each zero p e =
        let q : fresh_page i base t ≡ p = ground (arith, e) in
        subst (λ r. IsPage r) q (fresh-IsPage ps i base t f ht hi)
    each (suc j) p e = h.each j p e

    apart :
        (j k : ℕ) (p q : Page)
        → j ≢ k
        → get_elem? (fresh_page i base t ∷ ps) j ≡ some p
        → get_elem? (fresh_page i base t ∷ ps) k ≡ some q
        → (p.ix ≢ q.ix) × (p.base ≢ q.base)
    apart zero zero p q d e g = absurd (d refl)
    apart zero (suc k) p q d e g =
        let z : fresh_page i base t ≡ p = ground (arith, e) in
        subst (λ (r : Page). (r.ix ≢ q.ix) × (r.base ≢ q.base)) z
          ((λ y. ne k q g (sym y)), (λ y. f.unused k q g (sym y)))
    apart (suc j) zero p q d e g =
        let z : fresh_page i base t ≡ q = ground (arith, g) in
        subst (λ (r : Page). (p.ix ≢ r.ix) × (p.base ≢ r.base)) z
          ((λ y. ne j p e y), (λ y. f.unused j p e y))
    apart (suc j) (suc k) p q d e g = h.apart j k p q (λ y. d (ap suc y)) e g

-- Pages that are not the same have no address in common.
pub outside :
    (p : Page) (base k : ℕ)
    → IsPage p
    → base % 4096 ≡ 0
    → p.base ≢ base
    → mem k p.free ≡ true
    → (p.base + k * size p.typ < base) ⊎ (base + 4096 ≤ p.base + k * size p.typ)
outside p base k i a ne m =
    let f = block_at p k i m in
    let (s, _, _) = size_lem p.typ in
    elim (Bool-cases (ltb p.base base)) [
      | inl z ↦ inl (ground (arith, f, s, i.aligned, a, z))
      | inr z ↦ inr (ground (arith, i.aligned, a, z, ne))
    ]

-- A new page from alloc_kpages and a page reference that was not in use go on the lists.
pub new_page-Holds :
    (h : Heap) (ps : List Page) (i base t : ℕ)
    → Holds h ps
    → IsFresh ps base
    → t < 8
    → i < 256
    → h.inuse i ≡ false
    → Holds (new_page i base t (record h { inuse = put h.inuse i true })) (fresh_page i base t ∷ ps)
unfolding new_page
new_page-Holds h ps i base t old f ht hi clear = record {
  pool = fresh-IsPool ps i base t f ht hi ne old.pool;
  all = ap (λ is. i ∷ is) old.all;
  typed = λ u. ground (arith, old.typed u, old.typed t);
  reps = reps;
}
  where
    h' : Heap
    h' = new_page i base t (record h { inuse = put h.inuse i true })

    ne : (j : ℕ) (p : Page) → get_elem? ps j ≡ some p → p.ix ≢ i
    ne j p e y = ground (arith, (old.reps j p e).inuse, ap h.inuse y, clear)

    reps : (j : ℕ) (p : Page) → get_elem? (fresh_page i base t ∷ ps) j ≡ some p → Rep h' p
    reps zero p e =
        let q : fresh_page i base t ≡ p = ground (arith, e) in
        subst (λ r. Rep h' r) q
          (fresh-Rep (record h { inuse = put h.inuse i true }) ps i base t f (ground arith))
    reps (suc j) p e =
        Rep-same h h' p (old.reps j p e) (ground (arith, ne j p e)) (ground (arith, ne j p e))
          (λ k m.
            fresh-other base t f.high h.mem (p.base + k * size p.typ)
              (outside p base k (old.pool.each j p e) f.aligned (f.unused j p e) m))
