-- ===== src/Kheap/Use.antt =====
-- What callers write into the blocks that kmalloc gave them.
use cs.Base.{
  ℕ, ◌+◌, ◌*◌, ◌%◌, ◌<◌, ◌≡◌, ◌≢◌, ap, sym, ◌∙◌, inl, inr, true, List, some, get_elem?, ltb, ◌==◌,
  Bool-cases, arith, put, mem,
}
use cs.Kheap.{Heap, size}
use cs.Kheap.Sizes.{block_step, block_fits, size_lem}
use cs.Kheap.Pool.{Page, IsPage, IsLive}
use cs.Kheap.Holds.{Rep, Holds, Chain-same, block_at}
use cs.Kheap.Push.{put-other}

abbrev pub written : ℕ → ℕ → Heap → Heap
written a v h = record h { mem = put h.mem a v }

apart_in : (b c x y : ℕ) → b % 4096 ≡ 0 → c % 4096 ≡ 0 → b ≢ c → x < 4096 → y < 4096 → b + x ≢ c + y
apart_in b c x y p q ne hx hy e = ne (omega (arith, p, q, hx, hy, e))

-- A free block of the page of a live block
same_page :
    (p : Page) (k k' o : ℕ)
    → (k' ≢ k)
    → o < size p.typ
    → p.base + k' * size p.typ ≢ p.base + k * size p.typ + o
same_page p k k' o ne ho e = elim (Bool-cases (ltb k k')) [
  | inl z ↦ let f = block_step k k' p.typ (ground (arith, z)) in absurd (omega (arith, f, ho, e))
  | inr z ↦
      let f = block_step k' k p.typ (ground (arith, z, ne)) in absurd (omega (arith, f, ho, e))
]

-- A word of a block that is handed out is none of the heap's: writing it keeps the heap in order.
pub written-Holds :
    (h : Heap) (ps : List Page) (a t o v : ℕ)
    → Holds h ps
    → IsLive ps a t
    → o < size t
    → Holds (written (a + o) v h) ps
written-Holds h ps a t o v old l ho = record {
  pool = old.pool;
  all = old.all;
  typed = old.typed;
  reps = reps;
}
  where
    small : (q : Page) → IsPage q → 0 < size q.typ
    small q i = let (x, _, _) = size_lem q.typ in omega (arith, x)

    free_word :
        (i : ℕ) (q : Page)
        → get_elem? ps i ≡ some q
        → (k : ℕ) → mem k q.free ≡ true
        → q.base + k * size q.typ ≢ a + o
    free_word i q e k m w = elim (Bool-cases (i == l.at)) [
      | inl z ↦
          let s : q ≡ l.page = ground (arith, z, e, l.there) in
          same_page l.page l.block k o (λ x. ground (arith, x, m, s, l.used)) (rw l.typ ho)
            (ap (λ p. p.base + k * size p.typ) (sym s) ∙ w ∙ ap (λ x. x + o) l.address)
      | inr z ↦
          let (_, ne) = old.pool.apart i l.at q l.page (λ x. ground (arith, x, z)) e l.there in
          let f = block_at q k (old.pool.each i q e) m in
          let s = small q (old.pool.each i q e) in
          let g = block_fits l.block l.page.typ l.inside in
          let c : o < size l.page.typ = rw l.typ ho in
          apart_in q.base l.page.base (k * size q.typ) (l.block * size l.page.typ + o)
            (old.pool.each i q e).aligned (old.pool.each l.at l.page l.there).aligned ne
            (omega (arith, f, s)) (omega (arith, g, c))
            (w ∙ ap (λ x. x + o) l.address ∙ omega arith)
    ]

    reps : (i : ℕ) (q : Page) → get_elem? ps i ≡ some q → Rep (written (a + o) v h) q
    reps i q e =
        let r = old.reps i q e in
        record {
          page = r.page;
          typ = r.typ;
          nfree = r.nfree;
          start = r.start;
          inuse = r.inuse;
          chain =
              Chain-same h.mem (put h.mem (a + o) v) q.base (size q.typ) q.free
                (λ k m. put-other h.mem (a + o) v (q.base + k * size q.typ) (free_word i q e k m))
                r.chain;
        }
