-- ===== src/Bitmap.antt =====
-- lib/bitmap.c: a fixed-size array of bits kept in bytes, bit `i` in byte i / 8.
-- A kmalloc that may fail is a Bool argument: whether it gave a block.
pub mod Inv
pub mod Alloc
pub mod Mark
pub mod Create
mod Tests
use cs.Base.{
  ℕ, zero, suc, ◌+◌, ◌-◌, ◌*◌, ◌/◌, ◌%◌, Bool, true, false, not, List, Option, none, some, Run, ret,
  panic, fault, kassert, access, ◌>>=◌, ◌>>◌, ltb, ◌==◌, if◌then◌else◌, get_elem?, set, replicate,
}
use cs.Base.Words.{u32, test_bit, set_bit, clear_bit}

-- `struct bitmap`
pub record Bitmap : Type 0 where
  pub nbits : ℕ
  pub v : List ℕ

abbrev pub bits_per_word : ℕ
bits_per_word = 8

abbrev pub word_allbits : ℕ
word_allbits = 0xff

abbrev pub enospc : ℕ
enospc = 36

-- DIVROUNDUP of include/lib.h, in unsigned arithmetic
abbrev pub divroundup : ℕ → ℕ → ℕ
divroundup a b = u32 (a + b - 1) / b

-- The loop that marks the bits j, j + 1, … of byte `ix`, `n` of them.
pub mark_over : ℕ → ℕ → ℕ → List ℕ → Run (List ℕ)
mark_over zero j ix v = ret v
mark_over (suc n) j ix v = do
  w ← access (get_elem? v ix)
  mark_over n (j + 1) ix (set v ix (set_bit w j))

-- bitmap_create; `none` is NULL.
pub create : Bool → Bool → ℕ → Run (Option Bitmap)
create got_struct got_words nbits =
    let words = divroundup nbits bits_per_word in
    let zeroed = replicate words 0 in
    let ix = words - 1 in
    let overbits = nbits - ix * bits_per_word in
    if not got_struct
    then ret none
    else if not got_words
    then ret none
    else if ltb (nbits / bits_per_word) words
    then (do
      kassert (nbits / bits_per_word == ix)
      kassert (ltb 0 overbits)
      kassert (ltb overbits bits_per_word)
      v ← mark_over (bits_per_word - overbits) overbits ix zeroed
      ret (some (record { nbits = nbits; v = v })))
    else ret (some (record { nbits = nbits; v = zeroed }))

-- The inner loop of bitmap_alloc: the first clear bit of a byte from `offset` on.
pub find_offset : ℕ → ℕ → ℕ → Option ℕ
find_offset zero offset w = none
find_offset (suc n) offset w =
    let rest = find_offset n (offset + 1) w in if test_bit w offset then rest else some offset

-- What the outer loop of bitmap_alloc does at a byte that is not full: the return value, *index if
-- it is written, and the bitmap.
pub take_bit : Bitmap → ℕ → ℕ → Run (ℕ × Option ℕ × Bitmap)
take_bit b ix w = elim (find_offset bits_per_word 0 w) [
  | none ↦ panic
  | some offset ↦
      let index = ix * bits_per_word + offset in
      if ltb index b.nbits
      then ret (0, some index, record b { v = set b.v ix (set_bit w offset) })
      else panic
]

-- The outer loop of bitmap_alloc from byte `ix` on, with `n` rounds left.
pub alloc_from : ℕ → ℕ → Bitmap → Run (ℕ × Option ℕ × Bitmap)
alloc_from zero ix b = ret (enospc, none, b)
alloc_from (suc n) ix b =
    let rest = alloc_from n (ix + 1) b in
    elim (get_elem? b.v ix) [
      | none ↦ fault
      | some w ↦ if w == word_allbits then rest else take_bit b ix w
    ]

-- bitmap_alloc
pub alloc : Bitmap → Run (ℕ × Option ℕ × Bitmap)
alloc b = alloc_from (divroundup b.nbits bits_per_word) 0 b

-- bitmap_translate: the byte and the bit; the mask is 1 << the bit.
pub translate : ℕ → ℕ × ℕ
translate bitno = (bitno / bits_per_word, bitno % bits_per_word)

-- bitmap_mark
pub mark : Bitmap → ℕ → Run Bitmap
unfolding translate
mark b index =
    let (ix, offset) = translate index in
    do
      kassert (ltb index b.nbits)
      w ← access (get_elem? b.v ix)
      kassert (not (test_bit w offset))
      ret (record b { v = set b.v ix (set_bit w offset) })

-- bitmap_unmark
pub unmark : Bitmap → ℕ → Run Bitmap
unfolding translate
unmark b index =
    let (ix, offset) = translate index in
    do
      kassert (ltb index b.nbits)
      w ← access (get_elem? b.v ix)
      kassert (test_bit w offset)
      ret (record b { v = set b.v ix (clear_bit w offset) })

-- bitmap_isset, as the truth of the int that it returns
unfoldable pub isset : Bitmap → ℕ → Run Bool
unfolding translate
isset b index =
    let (ix, offset) = translate index in do w ← access (get_elem? b.v ix); ret (test_bit w offset)
