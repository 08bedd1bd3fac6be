-- ===== src/Uio/Kernel.antt =====
-- uiomove on a uio that uio_kinit made.
use cs.Base.{
  ℕ, zero, suc, ◌+◌, ◌-◌, ◌%◌, ◌^◌, ◌≤◌, ◌<◌, ◌≡◌, refl, false, [], ◌∷◌, Option, ret, ◌==◌,
  if◌then◌else◌, ltb, arith,
}
use cs.CopyInOut.{Machine}
use cs.Uio.{Direction, uio_read, Uio, memmove, transfer, turns, space_ok, uiomove, uio_kinit}

-- What is left of a buffer of uio_kinit after `n` bytes.
abbrev pub advanced : ℕ → ℕ → ℕ → ℕ → Direction → Uio
advanced kbuf len pos n d = record (uio_kinit (kbuf + n) (len - n) (pos + n) d) { resid = len - n }

-- One turn of the loop moves `n` bytes that fit in the first block, and the next turn ends.
pub turns-one :
    (f ptr n kbuf len pos : ℕ) (m : Machine)
    → 0 < n
    → n ≤ len
    → len < 2 ^ 32
    → turns
        (suc (suc f))
        ptr
        n
        (uio_kinit kbuf len pos uio_read)
        (record { base = kbuf; len = len } ∷ [])
        m
      ≡ ret (0, advanced kbuf len pos n uio_read, memmove kbuf ptr n m)
unfolding turns uio_kinit transfer
turns-one f ptr n kbuf len pos m h0 hn hl =
    let a1 : (n == 0) ≡ false = ground (arith, h0) in
    let a2 : (len == 0) ≡ false = ground (arith, h0) in
    let a3 : (if ltb len n then len else n) ≡ n = ground (arith, hn) in
    let a4 : (if ltb n len then n else len) ≡ n = ground (arith, hn) in
    let a5 : n - n ≡ 0 = omega arith in
    let a6 : (len + 4294967296 - n) % 2 ^ 32 ≡ len - n = omega arith in rw (a4, a1, a2, a5, a6) refl

-- For a buffer set up by uio_kinit for reading, uiomove of a count that is not 0 and fits in it
-- returns 0, having moved the bytes into the buffer and the uio forward by the count.
pub uiomove-uio_kinit :
    (curas : Option ℕ) (ptr n kbuf len pos : ℕ) (m : Machine)
    → 0 < n
    → n ≤ len
    → len < 2 ^ 32
    → uiomove curas ptr n (uio_kinit kbuf len pos uio_read) m
      ≡ ret (0, advanced kbuf len pos n uio_read, memmove kbuf ptr n m)
unfolding uiomove uio_kinit space_ok
uiomove-uio_kinit curas ptr zero kbuf len pos m h0 hn hl = absurd (omega arith)
uiomove-uio_kinit curas ptr (suc n) kbuf len pos m h0 hn hl =
    let e : suc n + 1 + 1 ≡ suc (suc (suc n)) = omega arith in
    rw e (turns-one (suc n) ptr (suc n) kbuf len pos m h0 hn hl)
