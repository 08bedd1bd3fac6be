-- ===== src/Bitmap/Create.antt =====
-- bitmap_create: what a fresh bitmap holds.
use cs.Base.{
  ℕ, zero, suc, ◌+◌, ◌-◌, ◌*◌, ◌/◌, ◌%◌, ◌^◌, ◌<◌, ◌≡◌, refl, true, false, some, ret, List, set,
  length, length-set, get_elem?-eq-get_or, get_or-set, get_or-replicate, get_or-ge,
  length-replicate, replicate, arith, ◌==◌, if◌then◌else◌, leb, ◌∙◌,
}
use cs.Base.Words.{test_bit, set_bit, test_bit-set_bit, set_bit-lt, test_bit_0, test_bit_255}
use cs.Bitmap.{Bitmap, mark_over, create, divroundup}
use native.Mathlib.Decide.{dec_lt}
use cs.Bitmap.Inv.{word, used, IsValid}

-- What the loop leaves: the bits from `j` on of byte `ix` set, and all else as it was.
record Marked (j ix : ℕ) (v v' : List ℕ) : Type 0 where
  length_eq : length v' ≡ length v
  bytes : (i : ℕ) → word v' i < 256
  bits :
      (i p : ℕ)
      → p < 8
      → test_bit (word v' i) p ≡ (
          if i == ix
          then (if leb j p then true else test_bit (word v i) p)
          else test_bit (word v i) p)

mark_over_lem :
    (n j ix : ℕ) (v : List ℕ)
    → ix < length v
    → j + n ≡ 8
    → ((i : ℕ) → word v i < 256)
    → (v' : List ℕ) × (mark_over n j ix v ≡ ret v') × Marked j ix v v'
unfolding mark_over
mark_over_lem zero j ix v inside e bytes =
    (v, refl, record { length_eq = refl; bytes = bytes; bits = λ i p h. ground arith })
mark_over_lem (suc n) j ix v inside e bytes =
    let w = word v ix in
    let stored = get_or-set v ix (set_bit w j) in
    let (v', q, m) =
      mark_over_lem n (j + 1) ix (set v ix (set_bit w j))
        (omega (arith, length-set v ix (set_bit w j))) (omega arith)
        (λ i. ground (
          arith,
          stored i 0xff inside,
          set_bit-lt {w = w} {o = j} (bytes ix) (omega arith),
          bytes i,
        )) in
    (
      v',
      rw (get_elem?-eq-get_or v ix 0xff inside) q,
      record {
        length_eq = m.length_eq ∙ length-set v ix (set_bit w j);
        bytes = m.bytes;
        bits = λ i p h. ground (
          arith,
          m.bits i p h,
          stored i 0xff inside,
          test_bit-set_bit {w = w} {o = j} {p = p} (bytes ix) (omega arith) h,
        );
      },
    )

-- A bitmap with every index below `nbits` free.
abbrev pub IsFresh : ℕ → Bitmap → Type 0
IsFresh nbits b = IsValid b × (b.nbits ≡ nbits) × ((i : ℕ) → i < nbits → used b i ≡ false)

module _ (nbits : ℕ) (small : nbits + 7 < 2 ^ 32) where
  abbrev words : ℕ
  words = divroundup nbits 8

  abbrev blank : List ℕ
  blank = replicate words 0

  blank-length : length blank ≡ words
  blank-length = length-replicate words 0

  blank_bytes : (i : ℕ) → word blank i < 256
  blank_bytes i = elim (dec_lt i words) [
    | yes h ↦ rw (get_or-replicate {A = ℕ} words 0 i 0xff h) (omega arith)
    | no h ↦ rw (get_or-ge blank i 0xff (omega (arith, blank-length))) (omega arith)
  ]

  blank_bits : (i p : ℕ) → p < 8 → test_bit (word blank i) p ≡ leb words i
  blank_bits i p hp = elim (dec_lt i words) [
    | yes h ↦ rw (get_or-replicate {A = ℕ} words 0 i 0xff h) (test_bit_0 p hp ∙ ground arith)
    | no h ↦
        rw (get_or-ge blank i 0xff (omega (arith, blank-length))) (test_bit_255 p hp ∙ ground arith)
  ]

  exact_IsFresh : words ≡ nbits / 8 → IsFresh nbits (record { nbits = nbits; v = blank })
  exact_IsFresh e = (
    record {
      small = small;
      enough = omega (arith, blank-length);
      tight = omega (arith, blank-length);
      bytes = blank_bytes;
      over = λ i h. blank_bits (i / 8) (i % 8) (omega arith) ∙ ground arith;
    },
    refl,
    λ i h. blank_bits (i / 8) (i % 8) (omega arith) ∙ ground arith,
  )

  Marked-IsFresh :
      (v' : List ℕ)
      → nbits / 8 < words
      → Marked (nbits - (words - 1) * 8) (words - 1) blank v'
      → IsFresh nbits (record { nbits = nbits; v = v' })
  Marked-IsFresh v' more m = (
    record {
      small = small;
      enough = omega (arith, blank-length, m.length_eq);
      tight = omega (arith, blank-length, m.length_eq);
      bytes = m.bytes;
      over =
          λ i h. m.bits (i / 8) (i % 8) (omega arith) ∙ ground (arith, blank_bits (i / 8) (i % 8));
    },
    refl,
    λ i h. m.bits (i / 8) (i % 8) (omega arith) ∙ ground (arith, blank_bits (i / 8) (i % 8)),
  )

  -- When both kmallocs succeed and nbits + 7 does not wrap, bitmap_create returns a valid bitmap of
  -- `nbits` bits, all of them free.
  pub create-IsFresh : (b : Bitmap) × (create true true nbits ≡ ret (some b)) × IsFresh nbits b
  unfolding create
  create-IsFresh = elim (dec_lt (nbits / 8) words) [
    | yes more ↦
        let (v', e, m) =
          mark_over_lem (8 - (nbits - (words - 1) * 8)) (nbits - (words - 1) * 8) (words - 1) blank
            (omega (arith, blank-length)) (omega arith) blank_bytes in
        (record { nbits = nbits; v = v' }, ground arith, Marked-IsFresh v' more m)
    | no same ↦ (record { nbits = nbits; v = blank }, ground arith, exact_IsFresh (omega arith))
  ]
