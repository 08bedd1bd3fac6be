-- ===== src/Kheap/Flags.antt =====
-- allocpageref takes the first page reference that is not in use.
use cs.Base.{
  ℕ, zero, suc, ◌+◌, ◌*◌, ◌≤◌, ◌<◌, ◌≡◌, refl, ap, ◌∙◌, inl, inr, Bool, true, false, Option, none,
  some, Run, ret, ltb, ◌==◌, if◌then◌else◌, Bool-cases, arith, put,
}
use mathlib.Core.Path.{subst}
use cs.Kheap.{Heap, all_set, find_bit, find_word, allocpageref}

-- A search of the flags from `lo` up to `hi`
pub data Finds (inuse : ℕ → Bool) (lo hi : ℕ) : Option ℕ → Type 0 where
  full : ((k : ℕ) → lo ≤ k → k < hi → inuse k ≡ true) → Finds inuse lo hi none
  first :
      (i : ℕ)
      → lo ≤ i
      → i < hi
      → inuse i ≡ false
      → ((k : ℕ) → lo ≤ k → k < i → inuse k ≡ true)
      → Finds inuse lo hi (some i)

-- The flags before a search are set.
Finds-more :
    (inuse : ℕ → Bool) (lo mid hi : ℕ) (o : Option ℕ)
    → lo ≤ mid
    → ((k : ℕ) → lo ≤ k → k < mid → inuse k ≡ true)
    → Finds inuse mid hi o
    → Finds inuse lo hi o
Finds-more inuse lo mid hi o l h (full f) = full (λ k a b. elim (Bool-cases (ltb k mid)) [
  | inl z ↦ h k a (ground (arith, z))
  | inr z ↦ f k (ground (arith, z)) b
])
Finds-more inuse lo mid hi o l h (first i a b c f) = first i (omega (arith, l, a)) b c (λ k d e.
    elim (Bool-cases (ltb k mid)) [
      | inl z ↦ h k d (ground (arith, z))
      | inr z ↦ f k (ground (arith, z)) e
    ])

find_bit-Finds : (inuse : ℕ → Bool) (n i : ℕ) → Finds inuse i (i + n) (find_bit inuse n i)
unfolding find_bit
find_bit-Finds inuse zero i = full (λ k a b. absurd (omega (arith, a, b)))
find_bit-Finds inuse (suc n) i = go (inuse i) refl (find_bit-Finds inuse n (i + 1))
  where
    go :
        (b : Bool)
        → inuse i ≡ b
        → Finds inuse (i + 1) (i + 1 + n) (find_bit inuse n (i + 1))
        → Finds inuse i (i + suc n) (if b then find_bit inuse n (i + 1) else some i)
    go false e f = first i (omega arith) (omega arith) e (λ k a b. absurd (omega (arith, a, b)))
    go true e f =
        let hi : i + 1 + n ≡ i + suc n = omega arith in
        Finds-more inuse i (i + 1) (i + suc n) (find_bit inuse n (i + 1)) (omega arith)
          (λ k a b. let q : k ≡ i = omega (arith, a, b) in ap inuse q ∙ e)
          (subst (λ h. Finds inuse (i + 1) h (find_bit inuse n (i + 1))) hi f)

all_set-eq :
    (inuse : ℕ → Bool) (n i : ℕ)
    → all_set inuse n i ≡ true
    → (k : ℕ) → i ≤ k
    → k < i + n
    → inuse k ≡ true
unfolding all_set
all_set-eq inuse zero i h k a b = absurd (omega (arith, a, b))
all_set-eq inuse (suc n) i h k a b = elim (Bool-cases (k == i)) [
  | inl z ↦ let e : k ≡ i = ground (arith, z) in ground (arith, h, ap inuse e)
  | inr z ↦
      all_set-eq inuse n (i + 1) (ground (arith, h)) k (ground (arith, a, z)) (omega (arith, b))
]

all_set-of :
    (inuse : ℕ → Bool) (n i : ℕ)
    → ((k : ℕ) → i ≤ k → k < i + n → inuse k ≡ true)
    → all_set inuse n i ≡ true
unfolding all_set
all_set-of inuse zero i h = refl
all_set-of inuse (suc n) i h = ground (
  arith,
  h i (omega arith) (omega arith),
  all_set-of inuse n (i + 1) (λ k a b. h k (omega (arith, a)) (omega (arith, b))),
)

pub find_word-Finds :
    (inuse : ℕ → Bool) (n w : ℕ)
    → (o : Option ℕ) × (find_word inuse n w ≡ ret o) × Finds inuse (w * 32) ((w + n) * 32) o
unfolding find_word
find_word-Finds inuse zero w = (none, refl, full (λ k a b. absurd (omega (arith, a, b))))
find_word-Finds inuse (suc n) w = elim (Bool-cases (all_set inuse 32 (w * 32))) [
  | inl a ↦
      let (o, e, f) = find_word-Finds inuse n (w + 1) in
      let hi : (w + 1 + n) * 32 ≡ (w + suc n) * 32 = omega arith in
      (
        o,
        rw a e,
        Finds-more inuse (w * 32) ((w + 1) * 32) ((w + suc n) * 32) o (omega arith)
            (λ k b c. all_set-eq inuse 32 (w * 32) a k b (omega (arith, c)))
            (subst (λ h. Finds inuse ((w + 1) * 32) h o) hi f),
      )
  | inr a ↦ inside a (find_bit inuse 32 (w * 32)) refl (find_bit-Finds inuse 32 (w * 32))
]
  where
    inside :
        all_set inuse 32 (w * 32) ≡ false
        → (q : Option ℕ) → find_bit inuse 32 (w * 32) ≡ q
        → Finds inuse (w * 32) (w * 32 + 32) q
        → (o : Option ℕ) × (find_word inuse (suc n) w ≡ ret o)
          × Finds inuse (w * 32) ((w + suc n) * 32) o
    inside a q e (full f) = absurd (ground (arith, a, all_set-of inuse 32 (w * 32) f))
    inside a q e (first i b c d f) = (some i, rw a (rw e refl), first i b (omega (arith, c)) d f)

-- What allocpageref does: no page reference is left and nothing changes, or the first that is not in
-- use is marked.
pub data Marks (h : Heap) : Run (Option (ℕ × Heap)) → Type 0 where
  none_left : ((k : ℕ) → k < 256 → h.inuse k ≡ true) → Marks h (ret none)
  marks :
      (i : ℕ)
      → i < 256
      → h.inuse i ≡ false
      → ((k : ℕ) → k < i → h.inuse k ≡ true)
      → Marks h (ret (some (i, record h { inuse = put h.inuse i true })))

pub allocpageref-Marks : (h : Heap) → Marks h (allocpageref h)
unfolding allocpageref
allocpageref-Marks h = let (o, e, f) = find_word-Finds h.inuse 8 0 in rw (e, allocpageref) (go o f)
  where
    go :
        (o : Option ℕ)
        → Finds h.inuse 0 256 o
        → Marks h (elim o [
          | none ↦ ret none
          | some i ↦ ret (some (i, record h { inuse = put h.inuse i true }))
        ])
    go o (full f) = none_left (λ k b. f k (omega arith) b)
    go o (first i a b c f) = marks i b c (λ k d. f k (omega arith) d)
