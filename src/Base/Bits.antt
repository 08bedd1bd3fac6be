-- ===== src/Base/Bits.antt =====
-- `&` and `|` at variables, a byte at a time, from the digits that the native operations stand for.
use Prim.Native.Nat.{
  ℕ, zero, suc, ◌+◌, ◌*◌, ◌/◌, ◌%◌, ◌^◌, ◌≤◌, ◌<◌, min, max, bit_and, bit_or, digits,
  bit_and-bitwise, bit_or-bitwise,
}
use mathlib.Core.Path.{◌≡◌, refl, ap, ap₂, ◌∙◌, sym}
use native.Mathlib.Omega.{arith}
use cs.Base.Words.{byte-and_255}

module _ (low : ℕ → ℕ) (f : ℕ → ℕ → ℕ) where
  -- More fuel than the first number changes nothing.
  digits_more : (n m a b : ℕ) → a ≤ n → a ≤ m → digits low f n a b ≡ digits low f m a b
  digits_more zero zero zero b h k = refl
  digits_more zero (suc m) zero b h k = refl
  digits_more (suc n) zero zero b h k = refl
  digits_more (suc n) (suc m) zero b h k = refl
  digits_more zero m (suc a) b h k = absurd (omega arith)
  digits_more (suc n) zero (suc a) b h k = absurd (omega arith)
  digits_more (suc n) (suc m) (suc a) b h k =
      ap (λ t. t * 2 + f (suc a % 2) (b % 2))
        (digits_more n m (suc a / 2) (b / 2) (omega arith) (omega arith))

pub zero-and : (b : ℕ) → bit_and 0 b ≡ 0
zero-and b = bit_and-bitwise 0 b

pub zero-or : (b : ℕ) → bit_or 0 b ≡ b
zero-or b = bit_or-bitwise 0 b

-- The lowest bit of `&` and of `|`.
and_step : (a b : ℕ) → bit_and a b ≡ bit_and (a / 2) (b / 2) * 2 + min (a % 2) (b % 2)
and_step zero b = omega (arith, zero-and b, zero-and (b / 2))
and_step (suc a) b =
    bit_and-bitwise (suc a) b
    ∙ ap (λ t. t * 2 + min (suc a % 2) (b % 2))
        (digits_more (λ _. 0) min a (suc a / 2) (suc a / 2) (b / 2) (omega arith) (omega arith)
          ∙ sym (bit_and-bitwise (suc a / 2) (b / 2)))

or_step : (a b : ℕ) → bit_or a b ≡ bit_or (a / 2) (b / 2) * 2 + max (a % 2) (b % 2)
or_step zero b = omega (arith, zero-or b, zero-or (b / 2))
or_step (suc a) b =
    bit_or-bitwise (suc a) b
    ∙ ap (λ t. t * 2 + max (suc a % 2) (b % 2))
        (digits_more (λ t. t) max a (suc a / 2) (suc a / 2) (b / 2) (omega arith) (omega arith)
          ∙ sym (bit_or-bitwise (suc a / 2) (b / 2)))

-- `g` works apart on the parts of its numbers above and below `m`.
abbrev pub Splits : (ℕ → ℕ → ℕ) → ℕ → Type 0
Splits g m = (a b c d : ℕ) → c < m → d < m → g (a * m + c) (b * m + d) ≡ g a b * m + g c d

module _ (g : ℕ → ℕ → ℕ) where
  -- Two splits at `m` make one at its square.
  twice :
      (m : ℕ)
      → Splits g m
      → (a b c c' d d' : ℕ) → c < m
      → c' < m
      → d < m
      → d' < m
      → g ((a * m + c) * m + c') ((b * m + d) * m + d')
        ≡ g a b * (m * m) + g (c * m + c') (d * m + d')
  twice m split a b c c' d d' hc hc' hd hd' =
      rw (split (a * m + c) (b * m + d) c' d' hc' hd', split a b c d hc hd, split c d c' d' hc' hd')
        (omega arith)

  Splits-4 : Splits g 2 → Splits g 4
  Splits-4 split a b c d hc hd =
      let q : (a * 2 + c / 2) * 2 + c % 2 ≡ a * 4 + c = omega arith in
      let r : (b * 2 + d / 2) * 2 + d % 2 ≡ b * 4 + d = omega arith in
      let q' : c / 2 * 2 + c % 2 ≡ c = omega arith in
      let r' : d / 2 * 2 + d % 2 ≡ d = omega arith in
      rw (q, r, q', r') at
        (twice 2 split a b (c / 2) (c % 2) (d / 2) (d % 2) (omega arith) (omega arith) (omega arith)
          (omega arith))

  Splits-16 : Splits g 4 → Splits g 16
  Splits-16 split a b c d hc hd =
      let q : (a * 4 + c / 4) * 4 + c % 4 ≡ a * 16 + c = omega arith in
      let r : (b * 4 + d / 4) * 4 + d % 4 ≡ b * 16 + d = omega arith in
      let q' : c / 4 * 4 + c % 4 ≡ c = omega arith in
      let r' : d / 4 * 4 + d % 4 ≡ d = omega arith in
      rw (q, r, q', r') at
        (twice 4 split a b (c / 4) (c % 4) (d / 4) (d % 4) (omega arith) (omega arith) (omega arith)
          (omega arith))

  Splits-256 : Splits g 16 → Splits g 256
  Splits-256 split a b c d hc hd =
      let q : (a * 16 + c / 16) * 16 + c % 16 ≡ a * 256 + c = omega arith in
      let r : (b * 16 + d / 16) * 16 + d % 16 ≡ b * 256 + d = omega arith in
      let q' : c / 16 * 16 + c % 16 ≡ c = omega arith in
      let r' : d / 16 * 16 + d % 16 ≡ d = omega arith in
      rw (q, r, q', r') at
        (twice 16 split a b (c / 16) (c % 16) (d / 16) (d % 16) (omega arith) (omega arith)
          (omega arith) (omega arith))

  Splits-65536 : Splits g 256 → Splits g 65536
  Splits-65536 split a b c d hc hd =
      let q : (a * 256 + c / 256) * 256 + c % 256 ≡ a * 65536 + c = omega arith in
      let r : (b * 256 + d / 256) * 256 + d % 256 ≡ b * 65536 + d = omega arith in
      let q' : c / 256 * 256 + c % 256 ≡ c = omega arith in
      let r' : d / 256 * 256 + d % 256 ≡ d = omega arith in
      rw (q, r, q', r') at
        (twice 256 split a b (c / 256) (c % 256) (d / 256) (d % 256) (omega arith) (omega arith)
          (omega arith) (omega arith))

  Splits-word : Splits g 65536 → Splits g 4294967296
  Splits-word split a b c d hc hd =
      let q : (a * 65536 + c / 65536) * 65536 + c % 65536 ≡ a * 4294967296 + c = omega arith in
      let r : (b * 65536 + d / 65536) * 65536 + d % 65536 ≡ b * 4294967296 + d = omega arith in
      let q' : c / 65536 * 65536 + c % 65536 ≡ c = omega arith in
      let r' : d / 65536 * 65536 + d % 65536 ≡ d = omega arith in
      rw (q, r, q', r') at
        (twice 65536 split a b (c / 65536) (c % 65536) (d / 65536) (d % 65536) (omega arith)
          (omega arith) (omega arith) (omega arith))

and_2 : Splits bit_and 2
and_2 a b c d hc hd =
    let qa : (a * 2 + c) / 2 ≡ a = omega arith in
    let qb : (b * 2 + d) / 2 ≡ b = omega arith in
    let qc : c / 2 ≡ 0 = omega arith in
    and_step (a * 2 + c) (b * 2 + d)
    ∙ rw (qa, qb) (omega (arith, and_step c d, ap (λ t. bit_and t (d / 2)) qc, zero-and (d / 2)))

or_2 : Splits bit_or 2
or_2 a b c d hc hd =
    let qa : (a * 2 + c) / 2 ≡ a = omega arith in
    let qb : (b * 2 + d) / 2 ≡ b = omega arith in
    let qc : c / 2 ≡ 0 = omega arith in
    or_step (a * 2 + c) (b * 2 + d)
    ∙ rw (qa, qb) (omega (arith, or_step c d, ap (λ t. bit_or t (d / 2)) qc, zero-or (d / 2)))

pub and_split : Splits bit_and 256
and_split = Splits-256 bit_and (Splits-16 bit_and (Splits-4 bit_and and_2))

pub or_split : Splits bit_or 256
or_split = Splits-256 bit_or (Splits-16 bit_or (Splits-4 bit_or or_2))

and_split_word : Splits bit_and (2 ^ 32)
and_split_word = Splits-word bit_and (Splits-65536 bit_and and_split)

or_split_word : Splits bit_or (2 ^ 32)
or_split_word = Splits-word bit_or (Splits-65536 bit_or or_split)

and_zero_fuel : (n a : ℕ) → a ≤ n → bit_and a 0 ≡ 0
and_zero_fuel n zero h = zero-and 0
and_zero_fuel zero (suc a) h = absurd (omega arith)
and_zero_fuel (suc n) (suc a) h =
    omega (arith, and_step (suc a) 0, and_zero_fuel n (suc a / 2) (omega arith))

pub and_zero : (a : ℕ) → bit_and a 0 ≡ 0
and_zero a = and_zero_fuel a a (omega arith)

or_zero_fuel : (n a : ℕ) → a ≤ n → bit_or a 0 ≡ a
or_zero_fuel n zero h = zero-or 0
or_zero_fuel zero (suc a) h = absurd (omega arith)
or_zero_fuel (suc n) (suc a) h =
    omega (arith, or_step (suc a) 0, or_zero_fuel n (suc a / 2) (omega arith))

pub or_zero : (a : ℕ) → bit_or a 0 ≡ a
or_zero a = or_zero_fuel a a (omega arith)

-- A mask with no low byte, and the mask of the low byte.
pub and_above : (a m c : ℕ) → c < 256 → bit_and (a * 256 + c) (m * 256) ≡ bit_and a m * 256
and_above a m c h =
    let q : m * 256 ≡ m * 256 + 0 = omega arith in
    rw q (omega (arith, and_split a m c 0 h (omega arith), and_zero c))

pub and_byte : (a c : ℕ) → c < 256 → bit_and (a * 256 + c) 255 ≡ c
and_byte a c h = omega (arith, and_split a 0 c 255 h (omega arith), and_zero a, byte-and_255 c h)

-- A byte put below, and above, what is there.
pub or_below : (a d : ℕ) → d < 256 → bit_or (a * 256) d ≡ a * 256 + d
or_below a d h =
    ap₂ bit_or (omega arith) (omega arith)
    ∙ or_split a 0 0 d (omega arith) h
    ∙ omega (arith, or_zero a, zero-or d)

pub or_above : (a b c : ℕ) → c < 256 → bit_or (a * 256 + c) (b * 256) ≡ bit_or a b * 256 + c
or_above a b c h =
    let q : b * 256 ≡ b * 256 + 0 = omega arith in
    rw q (omega (arith, or_split a b c 0 h (omega arith), or_zero c))

-- `|` of multiples of `m`.
abbrev pub Scales : ℕ → Type 0
Scales m = (a b : ℕ) → bit_or (a * m) (b * m) ≡ bit_or a b * m

Scales-one : Scales 1
Scales-one a b =
    let q : a * 1 ≡ a = omega arith in let r : b * 1 ≡ b = omega arith in rw (q, r) (omega arith)

Scales-up : (m n : ℕ) → m * 256 ≡ n → Scales m → Scales n
Scales-up m n e scales a b =
    let q : a * n ≡ (a * 256) * m = rw (← e) (omega arith) in
    let r : b * n ≡ (b * 256) * m = rw (← e) (omega arith) in
    let s : bit_or (a * 256) (b * 256) ≡ bit_or a b * 256 =
      ap₂ bit_or (omega arith) refl ∙ or_above a b 0 (omega arith) ∙ omega arith in
    rw (q, r, scales (a * 256) (b * 256), s, ← e) (omega arith)

pub Scales-8 : Scales (2 ^ 8)
Scales-8 = Scales-up 1 _ refl Scales-one

pub Scales-16 : Scales (2 ^ 16)
Scales-16 = Scales-up (2 ^ 8) _ refl Scales-8

pub Scales-24 : Scales (2 ^ 24)
Scales-24 = Scales-up (2 ^ 16) _ refl Scales-16

pub Scales-32 : Scales (2 ^ 32)
Scales-32 = Scales-up (2 ^ 24) _ refl Scales-24

pub Scales-40 : Scales (2 ^ 40)
Scales-40 = Scales-up (2 ^ 32) _ refl Scales-32

pub Scales-48 : Scales (2 ^ 48)
Scales-48 = Scales-up (2 ^ 40) _ refl Scales-40

-- A byte put just below a number, both scaled by `m`; `n` is 256 times `m`.
pub or_scaled :
    (m n : ℕ)
    → m * 256 ≡ n
    → Scales m
    → (a b : ℕ) → b < 256
    → bit_or (a * n) (b * m) ≡ (a * 256 + b) * m
or_scaled m n e scales a b h =
    let q : a * n ≡ (a * 256) * m = rw (← e) (omega arith) in
    rw (q, scales (a * 256) b, or_below a b h)

half-and_mask : (c : ℕ) → c < 65536 → bit_and c 0xffff ≡ c
half-and_mask c h =
    let q : c / 256 * 256 + c % 256 ≡ c = omega arith in
    omega (
      arith,
      rw q at (and_split (c / 256) 255 (c % 256) 255 (omega arith) (omega arith)),
      byte-and_255 (c / 256) (omega arith),
      byte-and_255 (c % 256) (omega arith),
    )

word-and_mask : (c : ℕ) → c < 2 ^ 32 → bit_and c 0xffffffff ≡ c
word-and_mask c h =
    let q : c / 65536 * 65536 + c % 65536 ≡ c = omega arith in
    omega (
      arith,
      rw q at (
          Splits-65536 bit_and and_split (c / 65536) 65535 (c % 65536) 65535 (omega arith)
            (omega arith)),
      half-and_mask (c / 65536) (omega arith),
      half-and_mask (c % 65536) (omega arith),
    )

-- The mask of a 32-bit word.
pub and_word : (x : ℕ) → bit_and x 0xffffffff ≡ x % 2 ^ 32
and_word x =
    let q : x / 2 ^ 32 * 2 ^ 32 + x % 2 ^ 32 ≡ x = omega arith in
    omega (
      arith,
      rw q at (and_split_word (x / 2 ^ 32) 0 (x % 2 ^ 32) 0xffffffff (omega arith) (omega arith)),
      and_zero (x / 2 ^ 32),
      word-and_mask (x % 2 ^ 32) (omega arith),
    )

-- A 32-bit word put below a number.
pub or_word : (a d : ℕ) → d < 2 ^ 32 → bit_or (a * 2 ^ 32) d ≡ a * 2 ^ 32 + d
or_word a d h =
    ap₂ bit_or (omega arith) (omega arith)
    ∙ or_split_word a 0 0 d (omega arith) h
    ∙ omega (arith, or_zero a, zero-or d)
