-- ===== src/Kheap/Freed.antt =====
-- The blocks that are handed out after one is freed, and after its page is given back.
use cs.Base.{
  ℕ, ◌+◌, ◌-◌, ◌*◌, ◌<◌, ◌≡◌, ◌≢◌, ap, sym, ◌∙◌, inl, inr, false, List, ◌∷◌, some, length, set,
  get_elem?, get_elem?-set_there, get_elem?-set_ne, ltb, ◌==◌, if◌then◌else◌, Bool-cases, arith,
  some-eq, mem,
}
use mathlib.Core.Path.{subst}
use cs.Kheap.{size}
use cs.Kheap.Sizes.{blocks}
use cs.Kheap.Pool.{Page, IsPool, IsLive}
use cs.Kheap.Taken.{same_block, apart_blocks}
use cs.Kheap.Count.{mem-full}
use cs.Kheap.Push.{with_block}
use cs.Kheap.Drop.{remove_at, before, was_at, get_elem?-remove_at, some-lt}

module _ (ps : List Page) (j : ℕ) (p : Page) (k : ℕ) (pool : IsPool ps)
    (there : get_elem? ps j ≡ some p) (hk : k < blocks p.typ) where
  abbrev after : List Page
  after = set ps j (with_block p k)

  abbrev addr : ℕ
  addr = p.base + k * size p.typ

  after_there : get_elem? after j ≡ some (with_block p k)
  after_there = get_elem?-set_there ps j p (with_block p k) there

  pub pushed-not-IsLive : (u : ℕ) → ¬ IsLive after addr u
  pushed-not-IsLive u l = elim (Bool-cases (l.at == j)) [
    | inl z ↦
        let i : l.at ≡ j = ground (arith, z) in
        let same : l.page ≡ with_block p k =
          some-eq (sym l.there ∙ (ap (get_elem? after) i ∙ after_there)) in
        let base = ap (λ (x : Page). x.base) same in
        let typ = ap (λ (x : Page). x.typ) same in
        let m : k * size p.typ ≡ l.block * size p.typ =
          omega (arith, l.address, base, ap (λ x. l.block * size x) typ) in
        let b = same_block k l.block p.typ m in
        let was : mem k (k ∷ p.free) ≡ false =
          ap (λ x. mem x (k ∷ p.free)) b
          ∙ (ap (λ (x : Page). mem l.block x.free) (sym same) ∙ l.used) in
        absurd (ground (arith, was))
    | inr z ↦
        let ne : l.at ≢ j = λ y. ground (arith, z, y) in
        let g = sym (get_elem?-set_ne ps (with_block p k) (λ y. ne (sym y))) ∙ l.there in
        let (_, apart) = pool.apart j l.at p l.page (λ y. ne (sym y)) there g in
        apart_blocks p l.page k l.block (pool.each j p there) (pool.each l.at l.page g) hk l.inside
          apart l.address
  ]

  pub pushed-keeps : (b u : ℕ) → b ≢ addr → IsLive ps b u → IsLive after b u
  pushed-keeps b u ne l = elim (Bool-cases (l.at == j)) [
    | inl z ↦
        let i : l.at ≡ j = ground (arith, z) in
        let same : l.page ≡ p = some-eq (sym l.there ∙ (ap (get_elem? ps) i ∙ there)) in
        let address = l.address ∙ ap (λ (x : Page). x.base + l.block * size x.typ) same in
        let other : k ≢ l.block = λ y. ne (address ∙ ap (λ x. p.base + x * size p.typ) (sym y)) in
        let out = ap (λ (x : Page). mem l.block x.free) (sym same) ∙ l.used in
        record {
          at = j;
          page = with_block p k;
          block = l.block;
          there = after_there;
          typ = ap (λ (x : Page). x.typ) (sym same) ∙ l.typ;
          address = address;
          inside = subst (λ (x : Page). l.block < blocks x.typ) same l.inside;
          used = not_in out other;
        }
    | inr z ↦ record {
      at = l.at;
      page = l.page;
      block = l.block;
      there = get_elem?-set_ne ps (with_block p k) (λ y. ground (arith, z, y)) ∙ l.there;
      typ = l.typ;
      address = l.address;
      inside = l.inside;
      used = l.used;
    }
  ]
    where
      not_in : {m : ℕ} → mem m p.free ≡ false → k ≢ m → mem m (k ∷ p.free) ≡ false
      not_in o ne = ground (arith, o, ne)

-- Where an element other than the one at `j` is in the rest
abbrev position : ℕ → ℕ → ℕ
position i j = if ltb i j then i else i - 1

before-position : (i j : ℕ) → (i == j) ≡ false → before j (position i j) ≡ i
before-position i j z = ground (arith, z)

module _ (ps : List Page) (j : ℕ) (p : Page) (pool : IsPool ps)
    (there : get_elem? ps j ≡ some p) where
  pub dropped-not-IsLive : (a u : ℕ) → ¬ IsLive ps a u → ¬ IsLive (remove_at j ps) a u
  dropped-not-IsLive a u h l = h (record {
    at = before j l.at;
    page = l.page;
    block = l.block;
    there = was_at ps j p there l.at l.page l.there;
    typ = l.typ;
    address = l.address;
    inside = l.inside;
    used = l.used;
  })

  pub dropped-keeps :
      length p.free ≡ blocks p.typ → (b u : ℕ) → IsLive ps b u → IsLive (remove_at j ps) b u
  dropped-keeps full b u l = elim (Bool-cases (l.at == j)) [
    | inl z ↦
        let i : l.at ≡ j = ground (arith, z) in
        let same : l.page ≡ p = some-eq (sym l.there ∙ (ap (get_elem? ps) i ∙ there)) in
        let w = pool.each j p there in
        let inside = subst (λ (x : Page). l.block < blocks x.typ) same l.inside in
        let has = mem-full (blocks p.typ) l.block p.free w.once w.inside full inside in
        let out = ap (λ (x : Page). mem l.block x.free) (sym same) ∙ l.used in
        absurd (ground (arith, has, out))
    | inr z ↦ record {
      at = position l.at j;
      page = l.page;
      block = l.block;
      there =
          get_elem?-remove_at ps j (position l.at j) (some-lt ps j p there)
          ∙ (ap (get_elem? ps) (before-position l.at j z) ∙ l.there);
      typ = l.typ;
      address = l.address;
      inside = l.inside;
      used = l.used;
    }
  ]
