-- ===== src/Kheap/Count.antt =====
-- A list of different numbers below `n` has at most `n` of them.
use cs.Base.{
  ℕ, zero, suc, ◌≤◌, ◌<◌, ◌≡◌, refl, ap, sym, ◌∙◌, inl, inr, true, false, List, [], ◌∷◌, length,
  ◌==◌, if◌then◌else◌, Bool-cases, arith, mem, distinct,
}
use cs.Kheap.Pool.{below}

del : ℕ → List ℕ → List ℕ
del n [] = []
del n (x ∷ xs) = let rest = del n xs in if x == n then xs else x ∷ rest

mem-del : (n k : ℕ) (ks : List ℕ) → mem k ks ≡ false → mem k (del n ks) ≡ false
unfolding del
mem-del n k [] h = refl
mem-del n k (x ∷ xs) h = ground (arith, h, mem-del n k xs)

distinct-del : (n : ℕ) (ks : List ℕ) → distinct ks ≡ true → distinct (del n ks) ≡ true
unfolding del
distinct-del n [] h = refl
distinct-del n (x ∷ xs) h = ground (arith, h, distinct-del n xs, mem-del n x xs)

below-less : (n : ℕ) (ks : List ℕ) → below (suc n) ks ≡ true → mem n ks ≡ false → below n ks ≡ true
below-less n [] h m = refl
below-less n (x ∷ xs) h m = ground (arith, h, m, below-less n xs)

below-del :
    (n : ℕ) (ks : List ℕ)
    → below (suc n) ks ≡ true
    → distinct ks ≡ true
    → mem n ks ≡ true
    → below n (del n ks) ≡ true
unfolding del
below-del n [] h d m = refl
below-del n (x ∷ xs) h d m = elim (Bool-cases (x == n)) [
  | inl z ↦
      let e : x ≡ n = ground (arith, z) in
      let out : mem n xs ≡ false = ap (λ y. mem y xs) (sym e) ∙ ground (arith, d) in
      ground (arith, h, z, below-less n xs, out)
  | inr z ↦ ground (arith, h, d, m, z, below-del n xs)
]

length-del : (n : ℕ) (ks : List ℕ) → mem n ks ≡ true → length ks ≡ suc (length (del n ks))
unfolding del
length-del n [] m = absurd (ground (arith, m))
length-del n (x ∷ xs) m = ground (arith, m, length-del n xs)

none_below : (ks : List ℕ) → below 0 ks ≡ true → ks ≡ []
none_below [] h = refl
none_below (x ∷ xs) h = absurd (ground (arith, h))

pub length-distinct : (n : ℕ) (ks : List ℕ) → distinct ks ≡ true → below n ks ≡ true → length ks ≤ n
length-distinct zero ks d b = omega (arith, ap length (none_below ks b))
length-distinct (suc n) ks d b = elim (Bool-cases (mem n ks)) [
  | inl m ↦ omega (
    arith,
    length-del n ks m,
    length-distinct n (del n ks) (distinct-del n ks d) (below-del n ks b d m),
  )
  | inr m ↦ omega (arith, length-distinct n ks d (below-less n ks b m))
]

-- With as many as `n`, it has them all.
pub mem-full :
    (n k : ℕ) (ks : List ℕ)
    → distinct ks ≡ true
    → below n ks ≡ true
    → length ks ≡ n
    → k < n
    → mem k ks ≡ true
mem-full n k ks d b l h = elim (Bool-cases (mem k ks)) [
  | inl m ↦ m
  | inr m ↦
      let more : length (k ∷ ks) ≤ n =
        length-distinct n (k ∷ ks) (ground (arith, d, m)) (ground (arith, b, h)) in
      absurd (omega (arith, more, l))
]
