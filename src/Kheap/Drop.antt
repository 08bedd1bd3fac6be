-- ===== src/Kheap/Drop.antt =====
-- A page of which every block is free is taken off the lists.
use cs.Base.{
  ℕ, zero, suc, ◌<◌, ◌≡◌, ◌≢◌, refl, ap, sym, ◌∙◌, inl, inr, false, List, [], ◌∷◌, some, length,
  get_elem?, ltb, ◌==◌, if◌then◌else◌, Bool-cases, arith, put,
}
use cs.Kheap.{Heap, unlink}
use cs.Kheap.Pool.{Page, IsPool, of_type, indices}
use cs.Kheap.Holds.{Holds}
use cs.Kheap.Change.{Rep-same}
use cs.Kheap.Push.{tail-IsPool}

abbrev pub remove_at {ℓ} : {A : Type ℓ} → ℕ → List A → List A
remove_at i [] = []
remove_at zero (x ∷ xs) = xs
remove_at (suc i) (x ∷ xs) = x ∷ remove_at i xs

-- Where an element of the rest was
abbrev pub before : ℕ → ℕ → ℕ
before i j = if ltb j i then j else suc j

pub get_elem?-remove_at {ℓ} :
    {A : Type ℓ} (xs : List A) (i j : ℕ)
    → i < length xs
    → get_elem? (remove_at i xs) j ≡ get_elem? xs (before i j)
get_elem?-remove_at [] i j h = absurd (omega (arith, h))
get_elem?-remove_at (x ∷ xs) zero j h = ground arith
get_elem?-remove_at (x ∷ xs) (suc i) zero h = ground arith
get_elem?-remove_at (x ∷ xs) (suc i) (suc j) h = ground (arith, get_elem?-remove_at xs i j)

pub some-lt {ℓ} :
    {A : Type ℓ} (xs : List A) (i : ℕ) (a : A) → get_elem? xs i ≡ some a → i < length xs
some-lt [] i a e = absurd (ground (arith, e))
some-lt (x ∷ xs) zero a e = omega arith
some-lt (x ∷ xs) (suc i) a e = omega (arith, some-lt xs i a e)

unlink-indices :
    (ps : List Page) (j : ℕ) (p : Page)
    → IsPool ps
    → get_elem? ps j ≡ some p
    → unlink p.ix (indices ps) ≡ indices (remove_at j ps)
unfolding unlink
unlink-indices [] j p h e = absurd (ground (arith, e))
unlink-indices (q ∷ ps) zero p h e =
    let z : q ≡ p = ground (arith, e) in let i = ap (λ (r : Page). r.ix) z in ground (arith, i)
unlink-indices (q ∷ ps) (suc j) p h e =
    let (ne, _) = h.apart 0 (suc j) q p (λ y. omega (arith, y)) refl e in
    ground (arith, ne, unlink-indices ps j p (tail-IsPool q ps h) e)

unlink-of_type :
    (ps : List Page) (j : ℕ) (p : Page)
    → IsPool ps
    → get_elem? ps j ≡ some p
    → unlink p.ix (of_type p.typ ps) ≡ of_type p.typ (remove_at j ps)
unfolding unlink
unlink-of_type [] j p h e = absurd (ground (arith, e))
unlink-of_type (q ∷ ps) zero p h e =
    let z : q ≡ p = ground (arith, e) in
    let i = ap (λ (r : Page). r.ix) z in let t = ap (λ (r : Page). r.typ) z in ground (arith, i, t)
unlink-of_type (q ∷ ps) (suc j) p h e =
    let (ne, _) = h.apart 0 (suc j) q p (λ y. omega (arith, y)) refl e in
    ground (arith, ne, unlink-of_type ps j p (tail-IsPool q ps h) e)

of_type-remove_at :
    (ps : List Page) (j t : ℕ) (p : Page)
    → get_elem? ps j ≡ some p
    → p.typ ≢ t
    → of_type t (remove_at j ps) ≡ of_type t ps
of_type-remove_at [] j t p e ne = refl
of_type-remove_at (q ∷ ps) zero t p e ne =
    let z : q ≡ p = ground (arith, e) in let y = ap (λ (r : Page). r.typ) z in ground (arith, y, ne)
of_type-remove_at (q ∷ ps) (suc j) t p e ne = ground (arith, of_type-remove_at ps j t p e ne)

module _ (ps : List Page) (j : ℕ) (p : Page) (there : get_elem? ps j ≡ some p) where
  pub was_at :
      (i : ℕ) (q : Page)
      → get_elem? (remove_at j ps) i ≡ some q
      → get_elem? ps (before j i) ≡ some q
  was_at i q e = sym (get_elem?-remove_at ps j i (some-lt ps j p there)) ∙ e

  removed-IsPool : IsPool ps → IsPool (remove_at j ps)
  removed-IsPool h = record {
    each = λ i q e. h.each (before j i) q (was_at i q e);
    apart = λ i k q r ne e f.
        h.apart (before j i) (before j k) q r (λ y. ground (arith, y, ne)) (was_at i q e)
          (was_at k r f);
  }

  abbrev pub dropped : Heap → Heap
  dropped h = record h {
    sizebases = put h.sizebases p.typ (unlink p.ix (h.sizebases p.typ));
    allbase = unlink p.ix h.allbase;
    inuse = put h.inuse p.ix false;
  }

  typed-eq :
      (h : Heap) → Holds h ps → (t : ℕ) → (dropped h).sizebases t ≡ of_type t (remove_at j ps)
  typed-eq h old t = elim (Bool-cases (t == p.typ)) [
    | inl z ↦
        let e : t ≡ p.typ = ground (arith, z) in
        rw e (ground (arith, old.typed p.typ, unlink-of_type ps j p old.pool there))
    | inr z ↦ ground (arith, z, old.typed t, of_type-remove_at ps j t p there)
  ]

  pub dropped-Holds : (h : Heap) → Holds h ps → Holds (dropped h) (remove_at j ps)
  dropped-Holds h old = record {
    pool = removed-IsPool old.pool;
    all = ap (unlink p.ix) old.all ∙ unlink-indices ps j p old.pool there;
    typed = typed-eq h old;
    reps = λ i q e.
        let f = was_at i q e in
        let (ne, _) = old.pool.apart (before j i) j q p (λ y. ground (arith, y)) f there in
        Rep-same h (dropped h) q (old.reps (before j i) q f) refl (ground (arith, ne))
          (λ k m. refl);
  }
