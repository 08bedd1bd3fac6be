-- ===== src/Kheap/Take.antt =====
-- subpage_kmalloc on a page with a free block: the first block of its free list is handed out.
use cs.Base.{
  ℕ, zero, suc, ◌+◌, ◌*◌, ◌%◌, ◌^◌, ◌<◌, ◌≡◌, refl, ap, sym, ◌∙◌, inl, inr, ◌⊎◌, true, List, [],
  ◌∷◌, Option, none, some, length, set, get_elem?, ret, ltb, ◌==◌, Bool-cases, arith, put, mem,
  distinct,
}
use mathlib.Core.Path.{subst}
use cs.Kheap.{Heap, PageRef, size, invalid_offset, shorten, doalloc, find_page}
use cs.Kheap.Sizes.{blocks, size_lem}
use cs.Kheap.Pool.{Page, IsPage, below, of_type}
use cs.Kheap.Holds.{link_to, Chain, offset_of, Rep, Holds, block_at}
use cs.Kheap.Change.{Holds-set, Rep-same}

abbrev pub without : Page → List ℕ → Page
without p ks = record p { free = ks }

abbrev pub shortened : PageRef → ℕ → List ℕ → PageRef
shortened r s ks = record r { nfree = length ks; freelist_offset = offset_of s ks }

shorten-more :
    (r : PageRef) (b off n : ℕ)
    → r.page ≡ b
    → r.nfree ≡ suc (suc n)
    → 0 < b
    → b + 4096 < 2 ^ 32
    → off < 4096
    → shorten r (b + off) ≡ ret (record r { nfree = suc n; freelist_offset = off })
unfolding shorten
shorten-more r b off n e f low high small = ground (arith, e, f, low, high, small)

shorten-last :
    (r : PageRef)
    → r.nfree ≡ 1
    → shorten r 0 ≡ ret (record r { nfree = 0; freelist_offset = invalid_offset })
unfolding shorten
shorten-last r f = ground (arith, f)

shorten_lem :
    (h : Heap) (p : Page) (k : ℕ) (ks : List ℕ)
    → Rep h p
    → IsPage p
    → p.free ≡ k ∷ ks
    → shorten (h.refs p.ix) (link_to p.base (size p.typ) ks)
      ≡ ret (shortened (h.refs p.ix) (size p.typ) ks)
shorten_lem h p k [] r i e = shorten-last (h.refs p.ix) (r.nfree ∙ ap length e)
shorten_lem h p k (k' ∷ ks) r i e =
    let here : mem k' (k ∷ k' ∷ ks) ≡ true = ground arith in
    let inside = block_at p k' i (ap (mem k') e ∙ here) in
    let (small, _, _) = size_lem p.typ in
    let o : k' * size p.typ < 4096 = omega (arith, inside, small) in
    shorten-more (h.refs p.ix) p.base (k' * size p.typ) (length ks) r.page (r.nfree ∙ ap length e)
      i.low i.high o

abbrev pub taken : Heap → Page → List ℕ → Heap
taken h p ks = record h { refs = put h.refs p.ix (shortened (h.refs p.ix) (size p.typ) ks) }

doalloc-step :
    (h : Heap) (pr b off w : ℕ) (r' : PageRef)
    → (h.refs pr).page ≡ b
    → (h.refs pr).freelist_offset ≡ off
    → b + 4096 < 2 ^ 32
    → off < 4096
    → h.mem (b + off) ≡ w
    → shorten (h.refs pr) w ≡ ret r'
    → doalloc pr h ≡ ret (b + off, record h { refs = put h.refs pr r' })
unfolding doalloc
doalloc-step h pr b off w r' e f high small m s =
    let a : ((h.refs pr).page + (h.refs pr).freelist_offset) % 2 ^ 32 ≡ b + off =
      ground (arith, e, f, high, small) in
    let t : ltb (h.refs pr).freelist_offset 4096 ≡ true = ground (arith, f, small) in
    let w' : h.mem (((h.refs pr).page + (h.refs pr).freelist_offset) % 2 ^ 32) ≡ w =
      ap h.mem a ∙ m in
    rw t (rw w' (rw s (ap (λ x. ret (x, record h { refs = put h.refs pr r' })) a)))

pub doalloc_lem :
    (h : Heap) (p : Page) (k : ℕ) (ks : List ℕ)
    → Rep h p
    → IsPage p
    → p.free ≡ k ∷ ks
    → doalloc p.ix h ≡ ret (p.base + k * size p.typ, taken h p ks)
doalloc_lem h p k ks r i e =
    let here : mem k (k ∷ ks) ≡ true = ground arith in
    let inside = block_at p k i (ap (mem k) e ∙ here) in
    let (small, _, _) = size_lem p.typ in
    let o : k * size p.typ < 4096 = omega (arith, inside, small) in
    let c = subst (λ f. Chain h.mem p.base (size p.typ) f) e r.chain in
    doalloc-step h p.ix p.base (k * size p.typ) (link_to p.base (size p.typ) ks)
      (shortened (h.refs p.ix) (size p.typ) ks) r.page (r.start ∙ ap (offset_of (size p.typ)) e)
      i.high o c.0 (shorten_lem h p k ks r i e)

pub taken-Rep :
    (h : Heap) (p : Page) (k : ℕ) (ks : List ℕ)
    → Rep h p
    → p.free ≡ k ∷ ks
    → Rep (taken h p ks) (without p ks)
taken-Rep h p k ks r e =
    let c = subst (λ f. Chain h.mem p.base (size p.typ) f) e r.chain in
    let same : put h.refs p.ix (shortened (h.refs p.ix) (size p.typ) ks) p.ix
        ≡ shortened (h.refs p.ix) (size p.typ) ks =
      ground arith in
    record {
      page = ap (λ (x : PageRef). x.page) same ∙ r.page;
      typ = ap (λ (x : PageRef). x.blktype) same ∙ r.typ;
      nfree = ap (λ (x : PageRef). x.nfree) same;
      start = ap (λ (x : PageRef). x.freelist_offset) same;
      inuse = r.inuse;
      chain = c.1;
    }

without-IsPage :
    (p : Page) (k : ℕ) (ks : List ℕ) → IsPage p → p.free ≡ k ∷ ks → IsPage (without p ks)
without-IsPage p k ks i e =
    let o : distinct (k ∷ ks) ≡ true = ap distinct (sym e) ∙ i.once in
    let b : below (blocks p.typ) (k ∷ ks) ≡ true = ap (below (blocks p.typ)) (sym e) ∙ i.inside in
    record {
      typ = i.typ;
      ix = i.ix;
      aligned = i.aligned;
      low = i.low;
      high = i.high;
      once = ground (arith, o);
      inside = ground (arith, b);
    }

-- doalloc on the page at `j` hands out the first of its free blocks.
pub doalloc-Holds :
    (h : Heap) (ps : List Page) (j : ℕ) (p : Page) (k : ℕ) (ks : List ℕ)
    → Holds h ps
    → get_elem? ps j ≡ some p
    → p.free ≡ k ∷ ks
    → (doalloc p.ix h ≡ ret (p.base + k * size p.typ, taken h p ks))
      × Holds (taken h p ks) (set ps j (without p ks))
doalloc-Holds h ps j p k ks old e f =
    let r = old.reps j p e in
    let i = old.pool.each j p e in
    (
      doalloc_lem h p k ks r i f,
      Holds-set ps j p (without p ks) e refl refl h (taken h p ks) old refl
          (without-IsPage p k ks i f) refl (λ t. refl) (taken-Rep h p k ks r f)
          (λ l q ne g.
            let (x, _) = old.pool.apart l j q p ne g e in
            Rep-same h (taken h p ks) q (old.reps l q g) (ground (arith, x)) refl (λ m z. refl)),
    )

-- The first page of a type with a free block, and where it is.
pub data Search (t : ℕ) (ps : List Page) : Option ℕ → Type 0 where
  absent :
      ((i : ℕ) (p : Page) → get_elem? ps i ≡ some p → p.typ ≡ t → p.free ≡ []) → Search t ps none
  present :
      (j : ℕ) (p : Page) (k : ℕ) (ks : List ℕ)
      → get_elem? ps j ≡ some p
      → p.typ ≡ t
      → p.free ≡ k ∷ ks
      → Search t ps (some p.ix)

Search-later :
    (t : ℕ) (q : Page) (ps : List Page) (o : Option ℕ)
    → (q.typ ≡ t → q.free ≡ [])
    → Search t ps o
    → Search t (q ∷ ps) o
Search-later t q ps o h (absent f) = absent later
  where
    later : (i : ℕ) (p : Page) → get_elem? (q ∷ ps) i ≡ some p → p.typ ≡ t → p.free ≡ []
    later zero p e x =
        let z : q ≡ p = ground (arith, e) in
        ap (λ (r : Page). r.free) (sym z) ∙ h (ap (λ (r : Page). r.typ) z ∙ x)
    later (suc i) p e x = f i p e x
Search-later t q ps o h (present j p k ks e x f) = present (suc j) p k ks e x f

find_page-here :
    (h : Heap) (t : ℕ) (q : Page) (is : List ℕ) (k : ℕ) (ks : List ℕ)
    → Rep h q
    → q.typ ≡ t
    → q.free ≡ k ∷ ks
    → find_page h t (q.ix ∷ is) ≡ ret (some q.ix)
unfolding find_page
find_page-here h t q is k ks r x f = let n = r.nfree ∙ ap length f in ground (arith, n, r.typ, x)

find_page-next :
    (h : Heap) (t : ℕ) (q : Page) (is : List ℕ)
    → Rep h q
    → q.typ ≡ t
    → q.free ≡ []
    → find_page h t (q.ix ∷ is) ≡ find_page h t is
unfolding find_page
find_page-next h t q is r x f = let n = r.nfree ∙ ap length f in ground (arith, n, r.typ, x)

find_page-nil : (h : Heap) (t : ℕ) → find_page h t [] ≡ ret none
unfolding find_page
find_page-nil h t = refl

List-cases : (ks : List ℕ) → (ks ≡ []) ⊎ ((k : ℕ) × (js : List ℕ) × (ks ≡ k ∷ js))
List-cases [] = inl refl
List-cases (k ∷ ks) = inr (k, ks, refl)

pub find_page-Search :
    (h : Heap) (t : ℕ) (ps : List Page)
    → ((i : ℕ) (p : Page) → get_elem? ps i ≡ some p → Rep h p)
    → (o : Option ℕ) × (find_page h t (of_type t ps) ≡ ret o) × Search t ps o
find_page-Search h t [] reps =
    (none, find_page-nil h t, absent (λ i p e. absurd (ground (arith, e))))
find_page-Search h t (q ∷ ps) reps =
    let (o, e, s) = find_page-Search h t ps (λ i. reps (suc i)) in
    let r = reps 0 q refl in
    elim (Bool-cases (q.typ == t)) [
      | inl x ↦
          let y : q.typ ≡ t = ground (arith, x) in
          let l : of_type t (q ∷ ps) ≡ q.ix ∷ of_type t ps = ground (arith, x) in
          elim (List-cases q.free) [
            | inl f ↦ (
              o,
              ap (find_page h t) l ∙ (find_page-next h t q (of_type t ps) r y f ∙ e),
              Search-later t q ps o (λ _. f) s,
            )
            | inr (k, ks, f) ↦ (
              some q.ix,
              ap (find_page h t) l ∙ find_page-here h t q (of_type t ps) k ks r y f,
              present 0 q k ks refl y f,
            )
          ]
      | inr x ↦
          let l : of_type t (q ∷ ps) ≡ of_type t ps = ground (arith, x) in
          (
            o,
            ap (find_page h t) l ∙ e,
            Search-later t q ps o (λ y. absurd (ground (arith, x, y))) s,
          )
    ]
