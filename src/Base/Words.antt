-- ===== src/Base/Words.antt =====
-- Machine words: wrap-around, the bits of a byte and the laws that a table over all bytes proves.
use Prim.Native.Nat.{bit_and, bit_or}
use cs.Base.Tests.{ltb, ◌==◌, if◌then◌else◌, ==_iff}
use Prim.Native.Nat.{ℕ, zero, suc, ◌+◌, ◌-◌, ◌%◌, ◌^◌, ◌<◌}
use mathlib.Core.Path.{◌≡◌, refl}
use mathlib.Core.Bool.{Bool, true, false, ◌&&◌, ◌||◌, not}
use native.Mathlib.Omega.{arith}

-- A value of a 32-bit unsigned type.
abbrev pub u32 : ℕ → ℕ
u32 n = n % 2 ^ 32

-- a - b of a 32-bit unsigned type, for operands below 2 ^ 32.
abbrev pub sub_u32 : ℕ → ℕ → ℕ
sub_u32 a b = (a + 2 ^ 32 - b) % 2 ^ 32

-- 1 << o, for a byte
pub mask : ℕ → ℕ
mask o = 2 ^ o

-- Whether bit `o` of a word is set.
unfoldable pub test_bit : ℕ → ℕ → Bool
unfolding mask
test_bit w o = not (bit_and w (mask o) == 0)

unfoldable pub set_bit : ℕ → ℕ → ℕ
unfolding mask
set_bit w o = bit_or w (mask o)

-- w & ~(1 << o), stored in a byte
unfoldable pub clear_bit : ℕ → ℕ → ℕ
unfolding mask
clear_bit w o = bit_and w (255 - mask o)

pub passes : ℕ → (ℕ → Bool) → Bool
passes zero test = true
passes (suc n) test = passes n test && test n

pub passes_at : (n : ℕ) (test : ℕ → Bool) (i : ℕ) → passes n test ≡ true → i < n → test i ≡ true
unfolding passes
passes_at zero test i ok below = elim below [ ]
passes_at (suc n) test i ok below = ground (arith, passes_at n test i)

abbrev same : Bool → Bool → Bool
same true b = b
same false b = not b

same-eq : (a b : Bool) → same a b ≡ true → a ≡ b
same-eq a b h = ground arith

-- What is checked of each byte, bit and other bit.
bit_facts : ℕ → ℕ → ℕ → Bool
unfolding test_bit set_bit clear_bit
bit_facts w o p =
    ltb (set_bit w o) 256
    && ltb (clear_bit w o) 256
    && same (test_bit (set_bit w o) p) (if p == o then true else test_bit w p)
    && same (test_bit (clear_bit w o) p) (if p == o then false else test_bit w p)
    && (test_bit w o || clear_bit (set_bit w o) o == w)
    && (not (test_bit w o) || set_bit (clear_bit w o) o == w)

bit_table : passes 256 (λ w. passes 8 (λ o. passes 8 (λ p. bit_facts w o p))) ≡ true
unfolding passes bit_facts
bit_table = refl

module _ {w o p : ℕ} (hw : w < 256) (ho : o < 8) (hp : p < 8) where
  bit_facts-true : bit_facts w o p ≡ true
  bit_facts-true = passes_at 8 _ p (passes_at 8 _ o (passes_at 256 _ w bit_table hw) ho) hp

  pub test_bit-set_bit : test_bit (set_bit w o) p ≡ (if p == o then true else test_bit w p)
  unfolding bit_facts
  test_bit-set_bit = same-eq _ _ (ground (arith, bit_facts-true))

  pub test_bit-clear_bit : test_bit (clear_bit w o) p ≡ (if p == o then false else test_bit w p)
  unfolding bit_facts
  test_bit-clear_bit = same-eq _ _ (ground (arith, bit_facts-true))

module _ {w o : ℕ} (hw : w < 256) (ho : o < 8) where
  fact : bit_facts w o 0 ≡ true
  fact = bit_facts-true hw ho (omega arith)

  pub set_bit-lt : set_bit w o < 256
  unfolding bit_facts
  set_bit-lt = ground (arith, fact)

  pub clear_bit-lt : clear_bit w o < 256
  unfolding bit_facts
  clear_bit-lt = ground (arith, fact)

  pub clear_bit-set_bit : test_bit w o ≡ false → clear_bit (set_bit w o) o ≡ w
  unfolding bit_facts
  clear_bit-set_bit h = ground (arith, fact)

  pub set_bit-clear_bit : test_bit w o ≡ true → set_bit (clear_bit w o) o ≡ w
  unfolding bit_facts
  set_bit-clear_bit h = ground (arith, fact)

-- A byte other than 0xff has a clear bit, and 0xff has none; a zero byte has no bit.
first_clear : ℕ → ℕ → ℕ → Bool
unfolding test_bit
first_clear zero o w = w == 255
first_clear (suc n) o w = not (test_bit w o) || first_clear n (o + 1) w

full_table : passes 256 (λ w. first_clear 8 0 w) ≡ true
unfolding passes first_clear
full_table = refl

pub full_of_bits : {w : ℕ} → w < 256 → ((o : ℕ) → o < 8 → test_bit w o ≡ true) → w ≡ 255
unfolding first_clear
full_of_bits {w} hw h = ground (
  arith,
  passes_at 256 first_clear_8 w full_table hw,
  h 0 (omega arith),
  h 1 (omega arith),
  h 2 (omega arith),
  h 3 (omega arith),
  h 4 (omega arith),
  h 5 (omega arith),
  h 6 (omega arith),
  h 7 (omega arith),
)
  where
    first_clear_8 : ℕ → Bool
    first_clear_8 v = first_clear 8 0 v

full_bits : passes 8 (test_bit 255) ≡ true
unfolding passes test_bit
full_bits = refl

pub test_bit_255 : (o : ℕ) → o < 8 → test_bit 255 o ≡ true
test_bit_255 o h = passes_at 8 (test_bit 255) o full_bits h

no_bits : passes 8 (λ p. not (test_bit 0 p)) ≡ true
unfolding passes test_bit
no_bits = refl

pub test_bit_0 : (o : ℕ) → o < 8 → test_bit 0 o ≡ false
test_bit_0 o h = ground (arith, passes_at 8 (λ p. not (test_bit 0 p)) o no_bits h)

mask_table : passes 256 (λ c. bit_and c 255 == c) ≡ true
unfolding passes
mask_table = refl

pub byte-and_255 : (c : ℕ) → c < 256 → bit_and c 255 ≡ c
byte-and_255 c h = (==_iff _ _).0 (passes_at 256 (λ c. bit_and c 255 == c) c mask_table h)
