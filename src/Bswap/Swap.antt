-- ===== src/Bswap/Swap.antt =====
-- What the byte swaps do to the bytes of their argument.
use Prim.Native.Nat.{bit_and, bit_or}
use cs.Base.{◌↔◌, sym, ℕ, ◌+◌, ◌*◌, ◌/◌, ◌%◌, ◌^◌, ◌≡◌, ◌<◌, ap, ◌∙◌, refl, arith}
use cs.Base.Words.{byte-and_255}
use cs.Base.Bits.{
  and_above, and_byte, or_below, or_above, or_split, or_zero, or_scaled, Scales-8, Scales-16,
  Scales-32, Scales-40, Scales-48,
}
use cs.Bswap.{bswap16, bswap32, bswap64}

-- The numbers whose bytes are given, the highest first.
abbrev pub word2 : ℕ → ℕ → ℕ
word2 b1 b0 = b1 * 256 + b0

abbrev pub word4 : ℕ → ℕ → ℕ → ℕ → ℕ
word4 b3 b2 b1 b0 = ((b3 * 256 + b2) * 256 + b1) * 256 + b0

module _ (b3 b2 b1 b0 : ℕ) (h3 : b3 < 256) (h2 : b2 < 256) (h1 : b1 < 256) (h0 : b0 < 256) where
  abbrev w : ℕ
  w = word4 b3 b2 b1 b0

  byte0 : bit_and w 0xff ≡ b0
  byte0 = and_byte _ b0 h0

  byte1 : bit_and w 0xff00 ≡ b1 * 2 ^ 8
  byte1 = and_above _ 0xff b0 h0 ∙ ap (λ t. t * 256) (and_byte _ b1 h1)

  byte2 : bit_and w 0xff0000 ≡ b2 * 2 ^ 16
  byte2 =
      and_above _ 0xff00 b0 h0
      ∙ ap (λ t. t * 256) (and_above _ 0xff b1 h1 ∙ ap (λ t. t * 256) (and_byte _ b2 h2))
      ∙ omega arith

  byte3 : bit_and w 0xff000000 ≡ b3 * 2 ^ 24
  byte3 =
      and_above _ 0xff0000 b0 h0
      ∙ ap (λ t. t * 256)
          (and_above _ 0xff00 b1 h1
            ∙ ap (λ t. t * 256) (and_above _ 0xff b2 h2 ∙ ap (λ t. t * 256) (byte-and_255 b3 h3)))
      ∙ omega arith

  -- bswap32 of a word made of four bytes is the word of the same bytes in the opposite order.
  pub bswap32-word4 : bswap32 w ≡ word4 b0 b1 b2 b3
  unfolding bswap32
  bswap32-word4 =
      let s0 : b0 * 2 ^ 24 % 2 ^ 32 ≡ b0 * 2 ^ 24 = omega arith in
      let s1 : b1 * 2 ^ 8 * 2 ^ 8 % 2 ^ 32 ≡ b1 * 2 ^ 16 = omega arith in
      let s2 : b2 * 2 ^ 16 / 2 ^ 8 ≡ b2 * 2 ^ 8 = omega arith in
      let s3 : b3 * 2 ^ 24 / 2 ^ 24 ≡ b3 = omega arith in
      rw (byte0, byte1, byte2, byte3, s0, s1, s2, s3)
        (rw (or_scaled (2 ^ 16) _ refl Scales-16 b0 b1 h1)
          (rw (or_scaled (2 ^ 8) _ refl Scales-8 (b0 * 256 + b1) b2 h2, or_below _ b3 h3) refl))

-- bswap16 swaps the two bytes of its argument.
pub bswap16-word2 : (b1 b0 : ℕ) → b1 < 256 → b0 < 256 → bswap16 (word2 b1 b0) ≡ word2 b0 b1
unfolding bswap16
bswap16-word2 b1 b0 h1 h0 =
    let low : bit_and (word2 b1 b0) 0xff ≡ b0 = and_byte b1 b0 h0 in
    let high : bit_and (word2 b1 b0) 0xff00 ≡ b1 * 256 =
      and_above b1 0xff b0 h0 ∙ ap (λ t. t * 256) (byte-and_255 b1 h1) in
    let s0 : b0 * 2 ^ 8 % 2 ^ 32 ≡ b0 * 256 = omega arith in
    let s1 : b1 * 256 / 2 ^ 8 ≡ b1 = omega arith in
    rw (low, high, s0, s1, or_below b0 b1 h1) (omega arith)

abbrev pub word8 : ℕ → ℕ → ℕ → ℕ → ℕ → ℕ → ℕ → ℕ → ℕ
word8 b7 b6 b5 b4 b3 b2 b1 b0 = (((word4 b7 b6 b5 b4 * 256 + b3) * 256 + b2) * 256 + b1) * 256 + b0

above4 :
    (a b3 b2 b1 b0 m : ℕ)
    → b3 < 256
    → b2 < 256
    → b1 < 256
    → b0 < 256
    → bit_and ((((a * 256 + b3) * 256 + b2) * 256 + b1) * 256 + b0) (m * 256 * 256 * 256 * 256)
      ≡ bit_and a m * 2 ^ 32
above4 a b3 b2 b1 b0 m h3 h2 h1 h0 =
    and_above _ (m * 256 * 256 * 256) b0 h0
    ∙ ap (λ t. t * 256)
        (and_above _ (m * 256 * 256) b1 h1
          ∙ ap (λ t. t * 256)
              (and_above _ (m * 256) b2 h2 ∙ ap (λ t. t * 256) (and_above a m b3 h3)))
    ∙ omega arith

module _ (b7 b6 b5 b4 b3 b2 b1 b0 : ℕ) (h7 : b7 < 256) (h6 : b6 < 256) (h5 : b5 < 256)
    (h4 : b4 < 256) (h3 : b3 < 256) (h2 : b2 < 256) (h1 : b1 < 256) (h0 : b0 < 256) where
  abbrev d : ℕ
  d = word8 b7 b6 b5 b4 b3 b2 b1 b0

  abbrev top : ℕ
  top = word4 b7 b6 b5 b4

  d0 : bit_and d 0xff ≡ b0
  d0 = and_byte _ b0 h0

  d1 : bit_and d 0xff00 ≡ b1 * 2 ^ 8
  d1 = and_above _ 0xff b0 h0 ∙ ap (λ t. t * 256) (and_byte _ b1 h1)

  d2 : bit_and d 0xff0000 ≡ b2 * 2 ^ 16
  d2 =
      and_above _ 0xff00 b0 h0
      ∙ ap (λ t. t * 256) (and_above _ 0xff b1 h1 ∙ ap (λ t. t * 256) (and_byte _ b2 h2))
      ∙ omega arith

  d3 : bit_and d 0xff000000 ≡ b3 * 2 ^ 24
  d3 =
      and_above _ 0xff0000 b0 h0
      ∙ ap (λ t. t * 256)
          (and_above _ 0xff00 b1 h1
            ∙ ap (λ t. t * 256) (and_above _ 0xff b2 h2 ∙ ap (λ t. t * 256) (and_byte _ b3 h3)))
      ∙ omega arith

  d4 : bit_and d 0xff00000000 ≡ b4 * 2 ^ 32
  d4 =
      above4 top b3 b2 b1 b0 0xff h3 h2 h1 h0 ∙ ap (λ t. t * 2 ^ 32) (byte0 b7 b6 b5 b4 h7 h6 h5 h4)

  d5 : bit_and d 0xff0000000000 ≡ b5 * 2 ^ 40
  d5 =
      above4 top b3 b2 b1 b0 0xff00 h3 h2 h1 h0
      ∙ ap (λ t. t * 2 ^ 32) (byte1 b7 b6 b5 b4 h7 h6 h5 h4)
      ∙ omega arith

  d6 : bit_and d 0xff000000000000 ≡ b6 * 2 ^ 48
  d6 =
      above4 top b3 b2 b1 b0 0xff0000 h3 h2 h1 h0
      ∙ ap (λ t. t * 2 ^ 32) (byte2 b7 b6 b5 b4 h7 h6 h5 h4)
      ∙ omega arith

  d7 : bit_and d 0xff00000000000000 ≡ b7 * 2 ^ 56
  d7 =
      above4 top b3 b2 b1 b0 0xff000000 h3 h2 h1 h0
      ∙ ap (λ t. t * 2 ^ 32) (byte3 b7 b6 b5 b4 h7 h6 h5 h4)
      ∙ omega arith

  upper : ℕ
  upper = bit_or (bit_or (bit_or (b0 * 2 ^ 56) (b1 * 2 ^ 48)) (b2 * 2 ^ 40)) (b3 * 2 ^ 32)

  upper_eq : upper ≡ word4 b0 b1 b2 b3 * 2 ^ 32
  unfolding upper
  upper_eq = rw (or_scaled (2 ^ 48) _ refl Scales-48 b0 b1 h1) (
      rw (or_scaled (2 ^ 40) _ refl Scales-40 (b0 * 256 + b1) b2 h2)
        (rw (or_scaled (2 ^ 32) _ refl Scales-32 ((b0 * 256 + b1) * 256 + b2) b3 h3) refl))

  -- The fifth byte lands on the sixth.
  overlap :
      bit_or (word4 b0 b1 b2 b3 * 2 ^ 32) (b4 * 2 ^ 40) ≡ word4 b0 b1 (bit_or b2 b4) b3 * 2 ^ 32
  overlap =
      let q : b4 * 2 ^ 40 ≡ b4 * 256 * 2 ^ 32 = omega arith in
      let both : bit_or ((b0 * 256 + b1) * 256 + b2) b4 ≡ (b0 * 256 + b1) * 256 + bit_or b2 b4 =
        ap (bit_or ((b0 * 256 + b1) * 256 + b2)) (omega arith)
        ∙ or_split (b0 * 256 + b1) 0 b2 b4 h2 h4
        ∙ ap (λ t. t * 256 + bit_or b2 b4) (or_zero (b0 * 256 + b1)) in
      rw
        (
          q,
          Scales-32 (word4 b0 b1 b2 b3) (b4 * 256),
          or_above ((b0 * 256 + b1) * 256 + b2) b4 b3 h3,
          both,
        )
        refl

  -- bswap64 reverses the order of the bytes of its argument, except that the two bytes b4 and b5
  -- do not reach their places: b4 is merged into the byte b2, and b5 is lost.
  pub bswap64-word8 : bswap64 d ≡ word8 b0 b1 (bit_or b2 b4) b3 0 0 b6 b7
  unfolding bswap64 upper
  bswap64-word8 =
      let s0 : b0 * 2 ^ 56 % 2 ^ 64 ≡ b0 * 2 ^ 56 = omega arith in
      let s1 : b1 * 2 ^ 8 * 2 ^ 40 % 2 ^ 64 ≡ b1 * 2 ^ 48 = omega arith in
      let s2 : b2 * 2 ^ 16 * 2 ^ 24 % 2 ^ 64 ≡ b2 * 2 ^ 40 = omega arith in
      let s3 : b3 * 2 ^ 24 * 2 ^ 8 % 2 ^ 64 ≡ b3 * 2 ^ 32 = omega arith in
      let s4 : b4 * 2 ^ 32 * 2 ^ 8 % 2 ^ 64 ≡ b4 * 2 ^ 40 = omega arith in
      let s5 : b5 * 2 ^ 40 * 2 ^ 24 % 2 ^ 64 ≡ 0 = omega arith in
      let s6 : b6 * 2 ^ 48 / 2 ^ 40 ≡ b6 * 2 ^ 8 = omega arith in
      let s7 : b7 * 2 ^ 56 / 2 ^ 56 ≡ b7 = omega arith in
      let lift : word4 b0 b1 (bit_or b2 b4) b3 * 2 ^ 32
          ≡ word4 b0 b1 (bit_or b2 b4) b3 * 2 ^ 16 * 2 ^ 16 =
        omega arith in
      rw (d0, d1, d2, d3, d4, d5, d6, d7, s0, s1, s2, s3, s4, s5, s6, s7)
        (rw (upper_eq, overlap, or_zero (word4 b0 b1 (bit_or b2 b4) b3 * 2 ^ 32), lift)
          (rw (or_scaled (2 ^ 8) _ refl Scales-8 (word4 b0 b1 (bit_or b2 b4) b3 * 2 ^ 16) b6 h6)
            (rw (or_below _ b7 h7) (omega arith))))

  -- bswap64 of a number made of eight bytes, the highest b7 and the lowest b0, is the number of the
  -- bytes in the opposite order exactly when its bytes b4 and b5 are zero.
  pub bswap64-reverses_iff : (bswap64 d ≡ word8 b0 b1 b2 b3 b4 b5 b6 b7) ↔ ((b4 ≡ 0) × (b5 ≡ 0))
  bswap64-reverses_iff = (
    λ e. omega (arith, sym bswap64-word8 ∙ e),
    λ z. bswap64-word8 ∙ rw (z.0, z.1) (ap (λ t. word8 b0 b1 t b3 0 0 b6 b7) (or_zero b2)),
  )
