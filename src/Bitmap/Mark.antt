-- ===== src/Bitmap/Mark.antt =====
-- bitmap_mark, bitmap_unmark and bitmap_isset on a valid bitmap.
use cs.Base.{
  ℕ, ◌/◌, ◌%◌, ◌<◌, ◌≡◌, true, false, some, Option, ap, Run, ret, panic, access, ◌>>=◌, get_elem?,
  set, get_elem?-eq-get_or, get_or-set, set-set, set-get_or, arith, if◌then◌else◌, lt→ltb,
}
use cs.Base.Words.{set_bit, clear_bit-set_bit}
use cs.Bitmap.{Bitmap, mark, unmark, isset}
use cs.Bitmap.Inv.{
  word, used, IsValid, with_set, with_clear, used-with_set, with_set-IsValid, in_range,
}
use cs.Bitmap.{alloc}
use cs.Bitmap.Alloc.{Allocates, taken, exhausted, alloc-Allocates}

module _ {b : Bitmap} (valid : IsValid b) (i : ℕ) (h : i < b.nbits) where
  at : get_elem? b.v (i / 8) ≡ some (word b.v (i / 8))
  at = get_elem?-eq-get_or b.v (i / 8) 0xff (in_range valid i h)

  -- bitmap_isset at an index of the bitmap reads the bit.
  pub isset-eq-used : isset b i ≡ ret (used b i)
  unfolding isset
  isset-eq-used = rw (at, access)

  -- bitmap_mark at an index of the bitmap sets the bit if it is clear, and otherwise its KASSERT
  -- fails.
  pub mark_lem : mark b i ≡ (if used b i then panic else ret (with_set b i))
  unfolding mark
  mark_lem = rw (lt→ltb _ _ h, at) (ground arith)

  -- bitmap_unmark at an index of the bitmap clears the bit if it is set, and otherwise its KASSERT
  -- fails.
  pub unmark_lem : unmark b i ≡ (if used b i then ret (with_clear b i) else panic)
  unfolding unmark
  unmark_lem = rw (lt→ltb _ _ h, at) (ground arith)

  with_clear-with_set : used b i ≡ false → with_clear (with_set b i) i ≡ b
  with_clear-with_set free =
      ap (λ ws. record b { v = ws })
        (rw (self, set-set, clear_bit-set_bit (valid.bytes (i / 8)) (omega arith) free, set-get_or))
    where
      self :
          word (set b.v (i / 8) (set_bit (word b.v (i / 8)) (i % 8))) (i / 8)
          ≡ set_bit (word b.v (i / 8)) (i % 8)
      self = ground (
        arith,
        get_or-set b.v (i / 8) (set_bit (word b.v (i / 8)) (i % 8)) (i / 8) 0xff
            (in_range valid i h),
      )

module _ {b : Bitmap} (valid : IsValid b) where
  used-with_set_self : (i : ℕ) → i < b.nbits → used (with_set b i) i ≡ true
  used-with_set_self i h = ground (arith, used-with_set valid i h i)

  -- On a valid bitmap, bitmap_mark of a bit that is not in use and bitmap_unmark of it succeed and
  -- give back the bitmap, byte for byte.
  pub unmark-mark :
      (i : ℕ) → i < b.nbits → used b i ≡ false → (mark b i >>= λ c. unmark c i) ≡ ret b
  unmark-mark i h free =
      rw (mark_lem valid i h, free)
        (rw (unmark_lem (with_set-IsValid valid i h) i h, used-with_set_self i h)
          (ap ret (with_clear-with_set valid i h free)))

  -- bitmap_unmark of the bit that bitmap_alloc gave out of a valid bitmap gives back the bitmap,
  -- byte for byte.
  pub unmark-alloc : {i : ℕ} {c : Bitmap} → alloc b ≡ ret (0, some i, c) → unmark c i ≡ ret b
  unmark-alloc {i} {c} e = go (alloc-Allocates valid) e
    where
      go :
          {m : Run (ℕ × Option ℕ × Bitmap)}
          → Allocates b m
          → m ≡ ret (0, some i, c)
          → unmark c i ≡ ret b
      go (taken k h free low) q =
          let qc : with_set b k ≡ c = cc in
          let qi : k ≡ i = cc in
          rw (← qc, ← qi)
            (rw (unmark_lem (with_set-IsValid valid k h) k h, used-with_set_self k h)
              (ap ret (with_clear-with_set valid k h free)))
      go (exhausted all) q = absurd (cc)
