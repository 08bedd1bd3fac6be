-- ===== src/Kheap/Taken.antt =====
-- The blocks that are handed out after one more is.
use cs.Base.{
  ℕ, ◌+◌, ◌*◌, ◌<◌, ◌≡◌, ◌≢◌, refl, ap, sym, ◌∙◌, inl, inr, true, false, List, ◌∷◌, some, set,
  get_elem?, get_elem?-set_there, get_elem?-set_ne, ltb, ◌==◌, Bool-cases, arith, mem, distinct,
  some-eq,
}
use mathlib.Core.Path.{subst}
use cs.Kheap.{size}
use cs.Kheap.Sizes.{blocks, size_lem, block_step, block_fits}
use cs.Kheap.Pool.{Page, IsPage, IsPool, IsLive}
use cs.Kheap.Holds.{below-mem}
use cs.Kheap.Take.{without}

-- Blocks of one type on a page with the same address are the same.
pub same_block : (k k' t : ℕ) → k * size t ≡ k' * size t → k ≡ k'
same_block k k' t e =
    let (s, _, _) = size_lem t in
    elim (Bool-cases (ltb k k')) [
      | inl z ↦ absurd (omega (arith, block_step k k' t (ground (arith, z)), e, s))
      | inr z ↦ elim (Bool-cases (ltb k' k)) [
        | inl w ↦ absurd (omega (arith, block_step k' k t (ground (arith, w)), e, s))
        | inr w ↦ ground (arith, z, w)
      ]
    ]

-- Blocks of pages with different addresses are different.
pub apart_blocks :
    (p q : Page) (k l : ℕ)
    → IsPage p
    → IsPage q
    → k < blocks p.typ
    → l < blocks q.typ
    → p.base ≢ q.base
    → p.base + k * size p.typ ≢ q.base + l * size q.typ
apart_blocks p q k l i j a b ne e =
    let (s, _, _) = size_lem p.typ in
    let (r, _, _) = size_lem q.typ in
    ground (arith, i.aligned, j.aligned, block_fits k p.typ a, block_fits l q.typ b, s, r, ne, e)

module _ (ps : List Page) (j : ℕ) (p : Page) (k : ℕ) (ks : List ℕ) (pool : IsPool ps)
    (there : get_elem? ps j ≡ some p) (free : p.free ≡ k ∷ ks) where
  abbrev after : List Page
  after = set ps j (without p ks)

  inside : k < blocks p.typ
  inside =
      let here : mem k (k ∷ ks) ≡ true = ground arith in
      below-mem (blocks p.typ) p.free k (pool.each j p there).inside (ap (mem k) free ∙ here)

  pub taken-IsLive : (t : ℕ) → p.typ ≡ t → IsLive after (p.base + k * size p.typ) t
  taken-IsLive t y =
      let o : distinct (k ∷ ks) ≡ true = ap distinct (sym free) ∙ (pool.each j p there).once in
      record {
        at = j;
        page = without p ks;
        block = k;
        there = get_elem?-set_there ps j p (without p ks) there;
        typ = y;
        address = refl;
        inside = inside;
        used = ground (arith, o);
      }

  pub taken-was_free : (u : ℕ) → ¬ IsLive ps (p.base + k * size p.typ) u
  taken-was_free u l = elim (Bool-cases (l.at == j)) [
    | inl z ↦
        let i : l.at ≡ j = ground (arith, z) in
        let same : l.page ≡ p = some-eq (sym l.there ∙ (ap (get_elem? ps) i ∙ there)) in
        let base = ap (λ (x : Page). x.base) same in
        let typ = ap (λ (x : Page). x.typ) same in
        let m : k * size p.typ ≡ l.block * size p.typ =
          omega (arith, l.address, base, ap (λ x. l.block * size x) typ) in
        let b = same_block k l.block p.typ m in
        let was : mem k (k ∷ ks) ≡ false =
          ap (λ x. mem x (k ∷ ks)) b
          ∙ (ap (mem l.block) (sym free)
              ∙ (ap (λ (x : Page). mem l.block x.free) (sym same) ∙ l.used)) in
        absurd (ground (arith, was))
    | inr z ↦
        let (_, ne) = pool.apart j l.at p l.page (λ y. ground (arith, z, y)) there l.there in
        apart_blocks p l.page k l.block (pool.each j p there) (pool.each l.at l.page l.there) inside
          l.inside ne l.address
  ]

  pub taken-keeps : (b u : ℕ) → IsLive ps b u → IsLive after b u
  taken-keeps b u l = elim (Bool-cases (l.at == j)) [
    | inl z ↦
        let i : l.at ≡ j = ground (arith, z) in
        let same : l.page ≡ p = some-eq (sym l.there ∙ (ap (get_elem? ps) i ∙ there)) in
        let was : mem l.block (k ∷ ks) ≡ false =
          ap (mem l.block) (sym free)
          ∙ (ap (λ (x : Page). mem l.block x.free) (sym same) ∙ l.used) in
        record {
          at = j;
          page = without p ks;
          block = l.block;
          there = get_elem?-set_there ps j p (without p ks) there;
          typ = ap (λ (x : Page). x.typ) (sym same) ∙ l.typ;
          address = l.address ∙ ap (λ (x : Page). x.base + l.block * size x.typ) same;
          inside = subst (λ (x : Page). l.block < blocks x.typ) same l.inside;
          used = ground (arith, was);
        }
    | inr z ↦ record {
      at = l.at;
      page = l.page;
      block = l.block;
      there = get_elem?-set_ne ps (without p ks) (λ y. ground (arith, z, y)) ∙ l.there;
      typ = l.typ;
      address = l.address;
      inside = l.inside;
      used = l.used;
    }
  ]
