-- ===== src/Bswap/Tests.antt =====
-- Runs of lib/bswap.c, and its theorems at numbers.
use cs.Base.{ℕ, ◌≡◌, ◌↔◌, refl, arith}
use cs.Bswap.{bswap32, bswap64}
use cs.Bswap.Swap.{bswap64-reverses_iff}

swap32 : bswap32 0x01020304 ≡ 0x04030201
unfolding bswap32
swap32 = refl

-- The bytes 04 and 03 of the argument are missing from the result.
swap64 : bswap64 0x0102030405060708 ≡ 0x0807060500000201
unfolding bswap64
swap64 = refl

bswap64_iff_example :
    (bswap64 0x0102030405060708 ≡ 0x0807060504030201) ↔ ((◌≡◌ {A = ℕ} 4 0) × (◌≡◌ {A = ℕ} 3 0))
bswap64_iff_example =
    bswap64-reverses_iff 1 2 3 4 5 6 7 8 (omega arith) (omega arith) (omega arith) (omega arith)
      (omega arith) (omega arith) (omega arith) (omega arith)
