-- ===== src/Kheap/Change.antt =====
-- A change to one page of the heap.
use cs.Base.{
  ℕ, zero, suc, ◌≡◌, ◌≢◌, ap, sym, ◌∙◌, inl, inr, List, [], ◌∷◌, some, set, get_elem?, set-cases,
  ◌+◌, ◌*◌, true, arith, mem,
}
use mathlib.Core.Path.{subst}
use cs.Kheap.{Heap, PageRef, size}
use cs.Kheap.Pool.{Page, IsPage, IsPool, of_type, indices}
use cs.Kheap.Holds.{Rep, Holds, Chain-same}

pub indices-set :
    (ps : List Page) (j : ℕ) (p p' : Page)
    → get_elem? ps j ≡ some p
    → p'.ix ≡ p.ix
    → indices (set ps j p') ≡ indices ps
indices-set [] j p p' e x = absurd (ground (arith, e))
indices-set (q ∷ ps) zero p p' e x = ground (arith, e, x)
indices-set (q ∷ ps) (suc j) p p' e x = ap (λ is. q.ix ∷ is) (indices-set ps j p p' e x)

pub of_type-set :
    (t : ℕ) (ps : List Page) (j : ℕ) (p p' : Page)
    → get_elem? ps j ≡ some p
    → p'.ix ≡ p.ix
    → p'.typ ≡ p.typ
    → of_type t (set ps j p') ≡ of_type t ps
of_type-set t [] j p p' e x y = absurd (ground (arith, e))
of_type-set t (q ∷ ps) zero p p' e x y = ground (arith, e, x, y)
of_type-set t (q ∷ ps) (suc j) p p' e x y = ground (arith, of_type-set t ps j p p' e x y)

module _ (ps : List Page) (j : ℕ) (p p' : Page) (e : get_elem? ps j ≡ some p) (x : p'.ix ≡ p.ix)
    (b : p'.base ≡ p.base) where
  set-IsPool : IsPool ps → IsPage p' → IsPool (set ps j p')
  set-IsPool h new = record {
    each = λ i q f. elim (set-cases ps j i p q p' e f) [
      | inl (z, w) ↦ subst (λ r. IsPage r) w new
      | inr (z, w) ↦ h.each i q w
    ];
    apart = λ i k q r ne f g. elim (set-cases ps j i p q p' e f) [
      | inl (z, w) ↦ elim (set-cases ps j k p r p' e g) [
        | inl (z', w') ↦ absurd (ne (z ∙ sym z'))
        | inr (z', w') ↦
            let (u, v) = h.apart j k p r (λ y. z' (sym y)) e w' in
            subst (λ (s : Page). (s.ix ≢ r.ix) × (s.base ≢ r.base)) w
              ((λ y. u (sym x ∙ y)), (λ y. v (sym b ∙ y)))
      ]
      | inr (z, w) ↦ elim (set-cases ps j k p r p' e g) [
        | inl (z', w') ↦
            let (u, v) = h.apart i j q p z w e in
            subst (λ (s : Page). (q.ix ≢ s.ix) × (q.base ≢ s.base)) w'
              ((λ y. u (y ∙ x)), (λ y. v (y ∙ b)))
        | inr (z', w') ↦ h.apart i k q r ne w w'
      ]
    ];
  }

  pub Holds-set :
      (h h' : Heap)
      → Holds h ps
      → p'.typ ≡ p.typ
      → IsPage p'
      → h'.allbase ≡ h.allbase
      → ((t : ℕ) → h'.sizebases t ≡ h.sizebases t)
      → Rep h' p'
      → ((i : ℕ) (q : Page) → i ≢ j → get_elem? ps i ≡ some q → Rep h' q)
      → Holds h' (set ps j p')
  Holds-set h h' old y new a s rep others = record {
    pool = set-IsPool old.pool new;
    all = a ∙ (old.all ∙ sym (indices-set ps j p p' e x));
    typed = λ t. s t ∙ (old.typed t ∙ sym (of_type-set t ps j p p' e x y));
    reps = λ i q f. elim (set-cases ps j i p q p' e f) [
      | inl (z, w) ↦ subst (λ r. Rep h' r) w rep
      | inr (z, w) ↦ others i q z w
    ];
  }

-- A page whose reference and whose free blocks are as before.
pub Rep-same :
    (h h' : Heap) (q : Page)
    → Rep h q
    → h'.refs q.ix ≡ h.refs q.ix
    → h'.inuse q.ix ≡ h.inuse q.ix
    → ((k : ℕ)
        → mem k q.free ≡ true
        → h'.mem (q.base + k * size q.typ) ≡ h.mem (q.base + k * size q.typ))
    → Rep h' q
Rep-same h h' q old r u same = record {
  page = ap (λ (x : PageRef). x.page) r ∙ old.page;
  typ = ap (λ (x : PageRef). x.blktype) r ∙ old.typ;
  nfree = ap (λ (x : PageRef). x.nfree) r ∙ old.nfree;
  start = ap (λ (x : PageRef). x.freelist_offset) r ∙ old.start;
  inuse = u ∙ old.inuse;
  chain = Chain-same h.mem h'.mem q.base (size q.typ) q.free same old.chain;
}
