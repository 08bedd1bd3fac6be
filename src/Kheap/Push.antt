-- ===== src/Kheap/Push.antt =====
-- subpage_kfree finds the page of a block and puts the block on its free list.
use cs.Base.{
  ℕ, zero, suc, ◌+◌, ◌*◌, ◌/◌, ◌%◌, ◌^◌, ◌≤◌, ◌<◌, ◌≡◌, ◌≢◌, refl, ap, sym, ◌∙◌, inl, inr, ◌⊎◌,
  true, false, List, [], ◌∷◌, none, some, set, get_elem?, ret, ◌==◌, if◌then◌else◌, arith, put, mem,
}
use cs.Kheap.{Heap, size, invalid_offset, fill_deadbeef, find_owner, push}
use cs.Kheap.Sizes.{blocks, size_lem, block_step, block_fits}
use cs.Kheap.Pool.{Page, IsPage, IsPool, below, indices}
use cs.Kheap.Holds.{link_to, Chain-same, offset_of, Rep, Holds}
use cs.Kheap.Change.{Holds-set, Rep-same}
use cs.Kheap.Fresh.{outside}

pub tail-IsPool : (q : Page) (ps : List Page) → IsPool (q ∷ ps) → IsPool ps
tail-IsPool q ps h = record {
  each = λ i. h.each (suc i);
  apart = λ i j a b ne. h.apart (suc i) (suc j) a b (λ e. ne (omega (arith, e)));
}

find_owner-skips :
    (h : Heap) (a : ℕ) (q : Page) (is : List ℕ)
    → Rep h q
    → IsPage q
    → (a < q.base) ⊎ (q.base + 4096 ≤ a)
    → find_owner h a (q.ix ∷ is) ≡ find_owner h a is
unfolding find_owner
find_owner-skips h a q is r i out = ground (arith, r.page, r.typ, i.typ, out)

find_owner-stops :
    (h : Heap) (a : ℕ) (q : Page) (is : List ℕ)
    → Rep h q
    → IsPage q
    → q.base ≤ a
    → a < q.base + 4096
    → find_owner h a (q.ix ∷ is) ≡ ret (some q.ix)
unfolding find_owner
find_owner-stops h a q is r i lo hi = ground (arith, r.page, r.typ, i.typ, lo, hi)

pub find_owner-at :
    (h : Heap) (a : ℕ) (ps : List Page) (j : ℕ) (p : Page)
    → IsPool ps
    → ((i : ℕ) (q : Page) → get_elem? ps i ≡ some q → Rep h q)
    → get_elem? ps j ≡ some p
    → p.base ≤ a
    → a < p.base + 4096
    → find_owner h a (indices ps) ≡ ret (some p.ix)
find_owner-at h a [] j p pool reps e lo hi = absurd (ground (arith, e))
find_owner-at h a (q ∷ ps) zero p pool reps e lo hi =
    let z : q ≡ p = ground (arith, e) in
    let x = ap (λ (r : Page). r.base) z in
    find_owner-stops h a q (indices ps) (reps 0 q refl) (pool.each 0 q refl) (omega (arith, x, lo))
      (omega (arith, x, hi))
    ∙ ap (λ (r : Page). ret (some r.ix)) z
find_owner-at h a (q ∷ ps) (suc j) p pool reps e lo hi =
    let i = pool.each 0 q refl in
    let k = pool.each (suc j) p e in
    let (_, ne) = pool.apart 0 (suc j) q p (λ y. omega (arith, y)) refl e in
    find_owner-skips h a q (indices ps) (reps 0 q refl) i
      (ground (arith, i.aligned, k.aligned, ne, lo, hi))
    ∙ find_owner-at h a ps j p (tail-IsPool q ps pool) (λ l. reps (suc l)) e lo hi

-- No page has the address.
pub find_owner-none :
    (h : Heap) (a : ℕ) (ps : List Page)
    → IsPool ps
    → ((i : ℕ) (q : Page) → get_elem? ps i ≡ some q → Rep h q)
    → ((i : ℕ) (q : Page) → get_elem? ps i ≡ some q → (a < q.base) ⊎ (q.base + 4096 ≤ a))
    → find_owner h a (indices ps) ≡ ret none
unfolding find_owner
find_owner-none h a [] pool reps out = refl
find_owner-none h a (q ∷ ps) pool reps out =
    find_owner-skips h a q (indices ps) (reps 0 q refl) (pool.each 0 q refl) (out 0 q refl)
    ∙ find_owner-none h a ps (tail-IsPool q ps pool) (λ l. reps (suc l)) (λ l. out (suc l))

fill_deadbeef-other :
    (n ptr : ℕ) (m : ℕ → ℕ) (a : ℕ) → (a < ptr) ⊎ (ptr + n * 4 ≤ a) → fill_deadbeef n ptr m a ≡ m a
unfolding fill_deadbeef
fill_deadbeef-other zero ptr m a out = refl
fill_deadbeef-other (suc n) ptr m a out =
    fill_deadbeef-other n (ptr + 4) _ a (ground (arith, out)) ∙ ground (arith, out)

different : (k l : ℕ) → k ≢ l → (k < l) ⊎ (l < k)
different k l ne = ground (arith, ne)

pub put-other : (f : ℕ → ℕ) (i v a : ℕ) → a ≢ i → put f i v a ≡ f a
put-other f i v a ne = ground (arith, ne)

put-same : (f : ℕ → ℕ) (i v a : ℕ) → a ≡ i → put f i v a ≡ v
put-same f i v a e = ground (arith, e)

abbrev pub with_block : Page → ℕ → Page
with_block p k = record p { free = k ∷ p.free }

module _ (h : Heap) (p : Page) (k : ℕ) (r : Rep h p) (i : IsPage p) (hk : k < blocks p.typ)
    (out : mem k p.free ≡ false) where
  abbrev off : ℕ
  off = k * size p.typ

  pub pushed : Heap
  pushed = push p.ix off h

  address : ((h.refs p.ix).page + off) % 2 ^ 32 ≡ p.base + off
  address =
      let (s, _, _) = size_lem p.typ in omega (arith, r.page, i.high, block_fits k p.typ hk, s)

  -- The words outside the block stay.
  pub pushed-other :
      (a : ℕ) → (a < p.base + off) ⊎ (p.base + off + size p.typ ≤ a) → pushed.mem a ≡ h.mem a
  unfolding pushed push
  pushed-other a o =
      let (s, _, d) = size_lem p.typ in
      let z = ap size r.typ in
      let ptr = ((h.refs p.ix).page + off) % 2 ^ 32 in
      let ne : a ≢ ptr = λ y. ground (arith, y, address, o, s) in
      let far : (a < ptr) ⊎ (ptr + size (h.refs p.ix).blktype / 4 * 4 ≤ a) =
        ground (arith, address, o, z, d) in
      put-other (fill_deadbeef (size (h.refs p.ix).blktype / 4) ptr h.mem) ptr _ a ne
      ∙ fill_deadbeef-other (size (h.refs p.ix).blktype / 4) ptr h.mem a far

  next_eq :
      (ks : List ℕ)
      → below (blocks p.typ) ks ≡ true
      → (h.refs p.ix).freelist_offset ≡ offset_of (size p.typ) ks
      → (if (h.refs p.ix).freelist_offset == invalid_offset
          then 0
          else ((h.refs p.ix).page + (h.refs p.ix).freelist_offset) % 2 ^ 32)
        ≡ link_to p.base (size p.typ) ks
  next_eq [] b e = ground (arith, e)
  next_eq (x ∷ ks) b e =
      let (s, _, _) = size_lem p.typ in
      let f = block_fits x p.typ (ground (arith, b)) in far (x * size p.typ) e (omega (arith, f, s))
    where
      far :
          (o : ℕ)
          → (h.refs p.ix).freelist_offset ≡ o
          → o < 4096
          → (if (h.refs p.ix).freelist_offset == invalid_offset
              then 0
              else ((h.refs p.ix).page + (h.refs p.ix).freelist_offset) % 2 ^ 32)
            ≡ p.base + o
      far o e l = ground (arith, e, l, r.page, i.high)

  pub pushed-at : pushed.mem (p.base + off) ≡ link_to p.base (size p.typ) p.free
  unfolding pushed push
  pushed-at =
      put-same
        (fill_deadbeef (size (h.refs p.ix).blktype / 4) (((h.refs p.ix).page + off) % 2 ^ 32) h.mem)
        _ _ (p.base + off) (sym address)
      ∙ next_eq p.free i.inside r.start

  -- A free block of the page is another one.
  pub free-other :
      (l : ℕ)
      → mem l p.free ≡ true
      → (p.base + l * size p.typ < p.base + off)
        ⊎ (p.base + off + size p.typ ≤ p.base + l * size p.typ)
  free-other l m =
      let (s, _, _) = size_lem p.typ in
      elim (different l k (λ y. ground (arith, ap (λ x. mem x p.free) y, out, m))) [
        | inl z ↦ inl (omega (arith, block_step l k p.typ z, s))
        | inr z ↦ inr (omega (arith, block_step k l p.typ z))
      ]

  pub pushed-Rep : Rep pushed (with_block p k)
  unfolding pushed push
  pushed-Rep = record {
    page = ground (arith, r.page);
    typ = ground (arith, r.typ);
    nfree = ground (arith, r.nfree);
    start = ground arith;
    inuse = r.inuse;
    chain = (
      pushed-at,
      Chain-same h.mem pushed.mem p.base (size p.typ) p.free
          (λ l m. pushed-other (p.base + l * size p.typ) (free-other l m)) r.chain,
    );
  }

  pub with_block-IsPage : IsPage (with_block p k)
  with_block-IsPage = record {
    typ = i.typ;
    ix = i.ix;
    aligned = i.aligned;
    low = i.low;
    high = i.high;
    once = ground (arith, out, i.once);
    inside = ground (arith, hk, i.inside);
  }

-- A free block of another page is outside the block.
apart_page :
    (p q : Page) (k l : ℕ)
    → IsPage p
    → IsPage q
    → k < blocks p.typ
    → q.base ≢ p.base
    → mem l q.free ≡ true
    → (q.base + l * size q.typ < p.base + k * size p.typ)
      ⊎ (p.base + k * size p.typ + size p.typ ≤ q.base + l * size q.typ)
apart_page p q k l i j hk ne m =
    let f = block_fits k p.typ hk in
    elim (outside q p.base l j i.aligned ne m) [
      | inl z ↦ inl (omega (arith, z))
      | inr z ↦ inr (omega (arith, z, f))
    ]

-- The block goes on the free list of its page, and the other pages stay.
pub pushed-Holds :
    (h : Heap) (ps : List Page) (j : ℕ) (p : Page) (k : ℕ)
    → (old : Holds h ps) → (e : get_elem? ps j ≡ some p) → (hk : k < blocks p.typ)
    → (out : mem k p.free ≡ false)
    → Holds (push p.ix (k * size p.typ) h) (set ps j (with_block p k))
unfolding pushed push
pushed-Holds h ps j p k old e hk out =
    let r = old.reps j p e in
    let i = old.pool.each j p e in
    Holds-set ps j p (with_block p k) e refl refl h (pushed h p k r i hk out) old refl
      (with_block-IsPage h p k r i hk out) refl (λ t. refl) (pushed-Rep h p k r i hk out)
      (λ l q ne g.
        let (x, b) = old.pool.apart l j q p ne g e in
        Rep-same h (pushed h p k r i hk out) q (old.reps l q g) (ground (arith, x)) refl (λ m z.
          pushed-other h p k r i hk out (q.base + m * size q.typ)
            (apart_page p q k m i (old.pool.each l q g) hk b z)))
