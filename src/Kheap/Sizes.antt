-- ===== src/Kheap/Sizes.antt =====
-- Block sizes: blocks of a page do not overlap, and an offset that is a multiple of the size is a
-- block.
use cs.Base.{
  ℕ, zero, suc, ◌+◌, ◌*◌, ◌/◌, ◌%◌, ◌≤◌, ◌<◌, ◌≡◌, ret, leb, ◌==◌, ap, inl, inr, Bool-cases, arith,
}
use cs.Kheap.{size, blocktype, blocktype_from}

pub size-cases :
    (P : ℕ → Type 0)
    → P 16
    → P 32
    → P 64
    → P 128
    → P 256
    → P 512
    → P 1024
    → P 2048
    → (t : ℕ) → P (size t)
size-cases P a b c d e f g h zero = a
size-cases P a b c d e f g h (suc zero) = b
size-cases P a b c d e f g h (suc (suc zero)) = c
size-cases P a b c d e f g h (suc (suc (suc zero))) = d
size-cases P a b c d e f g h (suc (suc (suc (suc zero)))) = e
size-cases P a b c d e f g h (suc (suc (suc (suc (suc zero))))) = f
size-cases P a b c d e f g h (suc (suc (suc (suc (suc (suc zero)))))) = g
size-cases P a b c d e f g h (suc (suc (suc (suc (suc (suc (suc t))))))) = h

-- How many blocks a page has
abbrev pub blocks : ℕ → ℕ
blocks t = 4096 / size t

pub size_lem : (t : ℕ) → (16 ≤ size t) × (size t ≤ 2048) × (size t % 16 ≡ 0)
size_lem =
    let P : ℕ → Type 0 = λ s. (16 ≤ s) × (s ≤ 2048) × (s % 16 ≡ 0) in
    size-cases P (omega arith) (omega arith) (omega arith) (omega arith) (omega arith) (omega arith)
      (omega arith) (omega arith)

pub block_step : (k k' t : ℕ) → k < k' → k * size t + size t ≤ k' * size t
block_step k k' t h =
    size-cases (λ s. k * s + s ≤ k' * s) (omega arith) (omega arith) (omega arith) (omega arith)
      (omega arith) (omega arith) (omega arith) (omega arith) t

pub block_fits : (k t : ℕ) → k < blocks t → k * size t + size t ≤ 4096
block_fits k t =
    size-cases (λ s. k < 4096 / s → k * s + s ≤ 4096) (λ h. omega (arith, h))
      (λ h. omega (arith, h)) (λ h. omega (arith, h)) (λ h. omega (arith, h))
      (λ h. omega (arith, h)) (λ h. omega (arith, h)) (λ h. omega (arith, h))
      (λ h. omega (arith, h)) t

pub block_div : (k t : ℕ) → (k * size t % size t ≡ 0) × (k * size t / size t ≡ k)
block_div k t =
    size-cases (λ s. (k * s % s ≡ 0) × (k * s / s ≡ k)) (omega arith) (omega arith) (omega arith)
      (omega arith) (omega arith) (omega arith) (omega arith) (omega arith) t

pub blocks_lem : (t : ℕ) → (2 ≤ blocks t) × (blocks t ≤ 256) × (blocks t * size t ≡ 4096)
blocks_lem =
    let P : ℕ → Type 0 = λ s. (2 ≤ 4096 / s) × (4096 / s ≤ 256) × (4096 / s * s ≡ 4096) in
    size-cases P (omega arith) (omega arith) (omega arith) (omega arith) (omega arith) (omega arith)
      (omega arith) (omega arith)

blocktype_from-first :
    (n i sz : ℕ)
    → sz ≤ 2048
    → i + n ≡ 7
    → (t : ℕ) × (blocktype_from (suc n) i sz ≡ ret t)
      × (t < 8)
      × (sz ≤ size t)
      × ((u : ℕ) → i ≤ u → u < t → size u < sz)
unfolding blocktype_from
blocktype_from-first zero i sz h e =
    let seven : i ≡ 7 = omega (arith, e) in
    let z : size i ≡ 2048 = ap size seven in
    (
      i,
      ground (arith, h, z),
      omega (arith, e),
      ground (arith, h, z),
      λ u a b. absurd (omega (arith, a, b)),
    )
blocktype_from-first (suc n) i sz h e = elim (Bool-cases (leb sz (size i))) [
  | inl l ↦ (
    i,
    ground (arith, l),
    omega (arith, e),
    ground (arith, l),
    λ u a b. absurd (omega (arith, a, b)),
  )
  | inr l ↦
      let (t, r, below, fits, first) = blocktype_from-first n (i + 1) sz h (omega (arith, e)) in
      (
        t,
        ground (arith, l, r),
        below,
        fits,
        λ u a b. elim (Bool-cases (u == i)) [
          | inl q ↦ let x : u ≡ i = ground (arith, q) in rw x (ground (arith, l))
          | inr q ↦ first u (ground (arith, a, q)) b
        ],
      )
]

-- blocktype gives the first type whose blocks are large enough, for a size of at most 2048.
pub blocktype-first :
    (sz : ℕ)
    → sz ≤ 2048
    → (t : ℕ) × (blocktype sz ≡ ret t) × (t < 8) × (sz ≤ size t) × ((u : ℕ) → u < t → size u < sz)
unfolding blocktype
blocktype-first sz h =
    let (t, r, below, fits, first) = blocktype_from-first 7 0 sz h (omega arith) in
    (t, r, below, fits, λ u. first u (omega arith))
