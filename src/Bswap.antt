-- ===== src/Bswap.antt =====
-- lib/bswap.c: byte swaps, and 64-bit values as pairs of 32-bit words. `|` of masked and shifted
-- values is the native `bit_or`, `&` is `bit_and`; `<<` keeps the bits of its type.
pub mod Swap
pub mod Halves
mod Tests
use Prim.Native.Nat.{bit_and, bit_or}
use cs.Base.{ℕ, ◌*◌, ◌/◌, ◌%◌, ◌^◌}

abbrev pub shl32 : ℕ → ℕ → ℕ
shl32 x k = x * 2 ^ k % 2 ^ 32

abbrev pub shl64 : ℕ → ℕ → ℕ
shl64 x k = x * 2 ^ k % 2 ^ 64

abbrev pub shr : ℕ → ℕ → ℕ
shr x k = x / 2 ^ k

-- bswap16: the operands are ints, and the result is cut to 16 bits.
pub bswap16 : ℕ → ℕ
bswap16 val = bit_or (shl32 (bit_and val 0x00ff) 8) (shr (bit_and val 0xff00) 8) % 2 ^ 16

-- bswap32
pub bswap32 : ℕ → ℕ
bswap32 val =
    bit_or
      (bit_or (bit_or (shl32 (bit_and val 0x000000ff) 24) (shl32 (bit_and val 0x0000ff00) 8))
        (shr (bit_and val 0x00ff0000) 8))
      (shr (bit_and val 0xff000000) 24)

-- bswap64
pub bswap64 : ℕ → ℕ
bswap64 val =
    bit_or
      (bit_or
        (bit_or
          (bit_or
            (bit_or
              (bit_or
                (bit_or (shl64 (bit_and val 0x00000000000000ff) 56)
                  (shl64 (bit_and val 0x000000000000ff00) 40))
                (shl64 (bit_and val 0x0000000000ff0000) 24))
              (shl64 (bit_and val 0x00000000ff000000) 8))
            (shl64 (bit_and val 0x000000ff00000000) 8))
          (shl64 (bit_and val 0x0000ff0000000000) 24))
        (shr (bit_and val 0x00ff000000000000) 40))
      (shr (bit_and val 0xff00000000000000) 56)

-- join32to64 on the big-endian machines that OS/161 runs on
pub join32to64 : ℕ → ℕ → ℕ
join32to64 x1 x2 = bit_or (shl64 x1 32) x2

-- split64to32 on the same machines
pub split64to32 : ℕ → ℕ × ℕ
split64to32 x = (shr x 32 % 2 ^ 32, bit_and x 0xffffffff)
