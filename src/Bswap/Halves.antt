-- ===== src/Bswap/Halves.antt =====
-- join32to64 and split64to32 are inverse to one another.
use cs.Base.{ℕ, ◌*◌, ◌/◌, ◌%◌, ◌^◌, ◌≡◌, ◌<◌, arith}
use cs.Base.Bits.{and_word, or_word}
use cs.Bswap.{join32to64, split64to32}

-- Splitting a value joined of two 32-bit words gives back both words, and joining the halves of a
-- 64-bit value gives back the value.
pub split64to32-join32to64 :
    (x1 x2 x : ℕ)
    → x1 < 2 ^ 32
    → x2 < 2 ^ 32
    → x < 2 ^ 64
    → (split64to32 (join32to64 x1 x2) ≡ (x1, x2))
      × (let (y1, y2) = split64to32 x in join32to64 y1 y2 ≡ x)
unfolding join32to64 split64to32
split64to32-join32to64 x1 x2 x h1 h2 h =
    let s : x1 * 2 ^ 32 % 2 ^ 64 ≡ x1 * 2 ^ 32 = omega arith in
    let t : x / 2 ^ 32 % 2 ^ 32 * 2 ^ 32 % 2 ^ 64 ≡ x / 2 ^ 32 * 2 ^ 32 = omega arith in
    (
      rw (s, or_word x1 x2 h2, and_word) (ground arith),
      rw (and_word, t, or_word (x / 2 ^ 32) (x % 2 ^ 32) (omega arith)) (omega arith),
    )
