-- ===== src/Kheap/Alloc.antt =====
-- subpage_kmalloc hands out a block that was not handed out, and keeps all that were.
use cs.Base.{
  ℕ, suc, ◌+◌, ◌-◌, ◌*◌, ◌%◌, ◌≤◌, ◌<◌, ◌≡◌, ◌≢◌, refl, ap, ◌∙◌, inl, inr, ◌⊎◌, true, false, List,
  [], ◌∷◌, Option, none, some, get_elem?, Run, ret, panic, fault, ◌==◌, arith, put,
}
use cs.Kheap.{
  Heap, size, find_page, doalloc, new_page, grow, alloc_type, subpage_kmalloc, allocpageref,
}
use cs.Kheap.Sizes.{blocks, blocks_lem, size-cases, blocktype-first}
use cs.Kheap.Pool.{Page, IsPage, IsLive}
use cs.Kheap.Holds.{Holds}
use cs.Kheap.Take.{doalloc-Holds, Search, absent, present, find_page-Search}
use cs.Kheap.Flags.{Marks, none_left, marks, allocpageref-Marks}
use cs.Kheap.Fresh.{down, fresh_page, IsFresh, new_page-Holds}
use cs.Kheap.Taken.{taken-IsLive, taken-was_free, taken-keeps}

-- What subpage_kmalloc for a block of the type `t` does, where alloc_kpages returns `prpage`. No
-- block is given only when every page of the type is full, and there is no page to be had or no
-- page reference for it.
pub data Gives (h : Heap) (ps : List Page) (prpage t : ℕ) : Run (ℕ × Heap) → Type 0 where
  no_block :
      ((i : ℕ) (p : Page) → get_elem? ps i ≡ some p → p.typ ≡ t → p.free ≡ [])
      → (prpage ≡ 0) ⊎ ((i : ℕ) → i < 256 → h.inuse i ≡ true)
      → Gives h ps prpage t (ret (0, h))
  gives :
      (a : ℕ) (h' : Heap) (ps' : List Page)
      → Holds h' ps'
      → 0 < a
      → a % 16 ≡ 0
      → IsLive ps' a t
      → ((u : ℕ) → ¬ IsLive ps a u)
      → ((b u : ℕ) → IsLive ps b u → IsLive ps' b u)
      → Gives h ps prpage t (ret (a, h'))

aligned_block :
    (p : Page) (k : ℕ)
    → IsPage p
    → (0 < p.base + k * size p.typ) × ((p.base + k * size p.typ) % 16 ≡ 0)
aligned_block p k i =
    let a = i.aligned in
    let l = i.low in
    let P : ℕ → Type 0 = λ s. (0 < p.base + k * s) × ((p.base + k * s) % 16 ≡ 0) in
    size-cases P (omega (arith, a, l)) (omega (arith, a, l)) (omega (arith, a, l))
      (omega (arith, a, l)) (omega (arith, a, l)) (omega (arith, a, l)) (omega (arith, a, l))
      (omega (arith, a, l)) p.typ

doalloc-Gives :
    (h : Heap) (ps : List Page) (prpage t j : ℕ) (p : Page) (k : ℕ) (ks : List ℕ)
    → Holds h ps
    → get_elem? ps j ≡ some p
    → p.typ ≡ t
    → p.free ≡ k ∷ ks
    → Gives h ps prpage t (doalloc p.ix h)
doalloc-Gives h ps prpage t j p k ks old e y f =
    let (run, new) = doalloc-Holds h ps j p k ks old e f in
    let (pos, al) = aligned_block p k (old.pool.each j p e) in
    rw run (
      gives _ _ _ new pos al (taken-IsLive ps j p k ks old.pool e f t y)
        (taken-was_free ps j p k ks old.pool e f) (taken-keeps ps j p k ks old.pool e f))

-- A block of the old pages in a pool with a page more
later-IsLive : (q : Page) (ps : List Page) (b u : ℕ) → IsLive ps b u → IsLive (q ∷ ps) b u
later-IsLive q ps b u l = record {
  at = suc l.at;
  page = l.page;
  block = l.block;
  there = l.there;
  typ = l.typ;
  address = l.address;
  inside = l.inside;
  used = l.used;
}

older-Gives :
    (h h' : Heap) (q : Page) (ps : List Page) (prpage t : ℕ) (r : Run (ℕ × Heap))
    → q.typ ≡ t
    → q.free ≢ []
    → Gives h' (q ∷ ps) prpage t r
    → Gives h ps prpage t r
older-Gives h h' q ps prpage t r y ne (no_block full why) = absurd (ne (full 0 q refl y))
older-Gives h h' q ps prpage t r y ne (gives a g ps' new pos al live was keeps) =
    gives a g ps' new pos al live (λ u l. was u (later-IsLive q ps a u l))
      (λ b u l. keeps b u (later-IsLive q ps b u l))

abbrev with_ref : ℕ → ℕ → Heap → Run (Option (ℕ × Heap)) → Run (ℕ × Heap)
with_ref prpage t h (ret none) = ret (0, h)
with_ref prpage t h (ret (some r)) = doalloc r.0 (new_page r.0 prpage t r.1)
with_ref prpage t h panic = panic
with_ref prpage t h fault = fault

with_ref-Gives :
    (h : Heap) (ps : List Page) (prpage t : ℕ) (r : Run (Option (ℕ × Heap)))
    → Holds h ps
    → IsFresh ps prpage
    → t < 8
    → ((i : ℕ) (p : Page) → get_elem? ps i ≡ some p → p.typ ≡ t → p.free ≡ [])
    → Marks h r
    → Gives h ps prpage t (with_ref prpage t h r)
with_ref-Gives h ps prpage t r old f ht full (none_left all) = no_block full (inr all)
with_ref-Gives h ps prpage t r old f ht full (marks i b c before) =
    let h' = new_page i prpage t (record h { inuse = put h.inuse i true }) in
    let q = fresh_page i prpage t in
    let new = new_page-Holds h ps i prpage t old f ht b c in
    let (n, e) = last_block t in
    older-Gives h h' q ps prpage t (doalloc i h') refl (λ z. ground (arith, e, z))
      (doalloc-Gives h' (q ∷ ps) prpage t 0 q n (down n) new refl refl e)
  where
    last_block : (t : ℕ) → (n : ℕ) × (down (blocks t) ≡ n ∷ down n)
    last_block t =
        let (two, _, _) = blocks_lem t in
        let e : blocks t ≡ suc (blocks t - 1) = omega (arith, two) in (blocks t - 1, ap down e)

grow-Gives :
    (h : Heap) (ps : List Page) (prpage t : ℕ)
    → Holds h ps
    → (prpage ≡ 0) ⊎ IsFresh ps prpage
    → t < 8
    → ((i : ℕ) (p : Page) → get_elem? ps i ≡ some p → p.typ ≡ t → p.free ≡ [])
    → Gives h ps prpage t (grow prpage t h)
unfolding grow
grow-Gives h ps prpage t old (inl z) ht full =
    let run : grow prpage t h ≡ ret (0, h) = ground (arith, z) in rw run (no_block full (inl z))
grow-Gives h ps prpage t old (inr f) ht full =
    let run : grow prpage t h ≡ with_ref prpage t h (allocpageref h) =
      let some_page : (prpage == 0) ≡ false = ground (arith, f.low) in
      rw some_page (by_cases (allocpageref h)) in
    rw run (with_ref-Gives h ps prpage t (allocpageref h) old f ht full (allocpageref-Marks h))
  where
    by_cases :
        (r : Run (Option (ℕ × Heap)))
        → elim r [
          | ret none ↦ ret (0, h)
          | ret (some r) ↦ doalloc r.0 (new_page r.0 prpage t r.1)
          | panic ↦ panic
          | fault ↦ fault
        ]
          ≡ with_ref prpage t h r
    by_cases (ret none) = refl
    by_cases (ret (some r)) = refl
    by_cases panic = refl
    by_cases fault = refl

alloc_type-Gives :
    (h : Heap) (ps : List Page) (prpage t : ℕ)
    → Holds h ps
    → (prpage ≡ 0) ⊎ IsFresh ps prpage
    → t < 8
    → Gives h ps prpage t (alloc_type prpage t h)
unfolding alloc_type
alloc_type-Gives h ps prpage t old page ht =
    let (o, run, s) = find_page-Search h t ps old.reps in
    let run' = ap (find_page h t) (old.typed t) ∙ run in rw (run', alloc_type) (go o s)
  where
    go :
        (o : Option ℕ)
        → Search t ps o
        → Gives h ps prpage t (elim (ret o) as (λ _. Run (ℕ × Heap)) [
          | ret none ↦ grow prpage t h
          | ret (some pr) ↦ doalloc pr h
          | panic ↦ panic
          | fault ↦ fault
        ])
    go o (absent full) = grow-Gives h ps prpage t old page ht full
    go o (present j p k ks e y f) = doalloc-Gives h ps prpage t j p k ks old e y f

-- subpage_kmalloc of at most 2048 bytes, on a heap in order and with a page of alloc_kpages that the
-- heap does not have, or none, returns. It gives a block of the smallest type that is large enough,
-- aligned to 16 bytes, that was not handed out, and every block that was handed out still is; or 0,
-- with the heap as it was, when every page of the type is full and there is no page to be had or no
-- page reference for it.
pub subpage_kmalloc-Gives :
    (h : Heap) (ps : List Page) (prpage sz : ℕ)
    → Holds h ps
    → (prpage ≡ 0) ⊎ IsFresh ps prpage
    → sz ≤ 2048
    → (t : ℕ) × (sz ≤ size t)
      × ((u : ℕ) → u < t → size u < sz)
      × Gives h ps prpage t (subpage_kmalloc prpage sz h)
unfolding subpage_kmalloc
subpage_kmalloc-Gives h ps prpage sz old page small =
    let (t, run, ht, fits, first) = blocktype-first sz small in
    (t, fits, first, rw run (alloc_type-Gives h ps prpage t old page ht))
