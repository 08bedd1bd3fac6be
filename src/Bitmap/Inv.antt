-- ===== src/Bitmap/Inv.antt =====
-- The representation invariant of `struct bitmap`, and the bits that it stands for.
use cs.Base.{
  ℕ, ◌+◌, ◌*◌, ◌/◌, ◌%◌, ◌^◌, ◌≤◌, ◌<◌, ◌≡◌, Bool, true, false, List, get_or, set, length,
  length-set, get_or-set, arith, ◌==◌, if◌then◌else◌,
}
use cs.Base.Words.{
  test_bit, set_bit, clear_bit, test_bit-set_bit, test_bit-clear_bit, set_bit-lt, clear_bit-lt,
}
use cs.Bitmap.{Bitmap}

-- The byte that holds bit `i`; one past the end reads as full.
abbrev pub word : List ℕ → ℕ → ℕ
word v i = get_or v i 0xff

-- Whether bit `i` is in use.
abbrev pub used : Bitmap → ℕ → Bool
used b i = test_bit (word b.v (i / 8)) (i % 8)

-- There are just enough bytes, and the bits past `nbits` are in use.
pub record IsValid (b : Bitmap) : Type 0 where
  pub small : b.nbits + 7 < 2 ^ 32
  pub enough : b.nbits ≤ length b.v * 8
  pub tight : length b.v * 8 < b.nbits + 8
  pub bytes : (i : ℕ) → word b.v i < 256
  pub over : (i : ℕ) → b.nbits ≤ i → used b i ≡ true

module _ (b : Bitmap) (i : ℕ) where
  abbrev pub with_set : Bitmap
  with_set = record b { v = set b.v (i / 8) (set_bit (word b.v (i / 8)) (i % 8)) }

  abbrev pub with_clear : Bitmap
  with_clear = record b { v = set b.v (i / 8) (clear_bit (word b.v (i / 8)) (i % 8)) }

module _ {b : Bitmap} (valid : IsValid b) (i : ℕ) (h : i < b.nbits) where
  pub in_range : i / 8 < length b.v
  in_range = omega (arith, valid.enough)

  pub used-with_set : (j : ℕ) → used (with_set b i) j ≡ (if j == i then true else used b j)
  used-with_set j = ground (
    arith,
    get_or-set b.v (i / 8) (set_bit (word b.v (i / 8)) (i % 8)) (j / 8) 0xff in_range,
    test_bit-set_bit {w = word b.v (i / 8)} {o = i % 8} {p = j % 8} (valid.bytes (i / 8))
        (omega arith) (omega arith),
  )

  pub used-with_clear : (j : ℕ) → used (with_clear b i) j ≡ (if j == i then false else used b j)
  used-with_clear j = ground (
    arith,
    get_or-set b.v (i / 8) (clear_bit (word b.v (i / 8)) (i % 8)) (j / 8) 0xff in_range,
    test_bit-clear_bit {w = word b.v (i / 8)} {o = i % 8} {p = j % 8} (valid.bytes (i / 8))
        (omega arith) (omega arith),
  )

  pub with_set-IsValid : IsValid (with_set b i)
  with_set-IsValid = record {
    small = valid.small;
    enough =
        omega (arith, valid.enough, length-set b.v (i / 8) (set_bit (word b.v (i / 8)) (i % 8)));
    tight = omega (arith, valid.tight, length-set b.v (i / 8) (set_bit (word b.v (i / 8)) (i % 8)));
    bytes = λ j. ground (
      arith,
      get_or-set b.v (i / 8) (set_bit (word b.v (i / 8)) (i % 8)) j 0xff in_range,
      set_bit-lt {w = word b.v (i / 8)} {o = i % 8} (valid.bytes (i / 8)) (omega arith),
      valid.bytes j,
    );
    over = λ j past. ground (arith, used-with_set j, valid.over j past);
  }

  pub with_clear-IsValid : IsValid (with_clear b i)
  with_clear-IsValid = record {
    small = valid.small;
    enough =
        omega (arith, valid.enough, length-set b.v (i / 8) (clear_bit (word b.v (i / 8)) (i % 8)));
    tight =
        omega (arith, valid.tight, length-set b.v (i / 8) (clear_bit (word b.v (i / 8)) (i % 8)));
    bytes = λ j. ground (
      arith,
      get_or-set b.v (i / 8) (clear_bit (word b.v (i / 8)) (i % 8)) j 0xff in_range,
      clear_bit-lt {w = word b.v (i / 8)} {o = i % 8} (valid.bytes (i / 8)) (omega arith),
      valid.bytes j,
    );
    over = λ j past. ground (arith, used-with_clear j, valid.over j past);
  }
