-- ===== src/Bitmap/Alloc.antt =====
-- bitmap_alloc: it takes the lowest clear bit, and fails only when every bit is in use.
use cs.Base.{
  ℕ, zero, suc, ◌+◌, ◌*◌, ◌/◌, ◌%◌, ◌≤◌, ◌<◌, ◌≡◌, inl, inr, refl, true, false, Option, none, some,
  Run, ret, length, get_elem?-eq-get_or, arith, ◌==◌, Bool-cases, lt→ltb, set, ◌≢◌, ◌∙◌,
}
use native.Mathlib.Decide.{dec_lt}
use cs.Base.Words.{test_bit, set_bit, full_of_bits, test_bit_255}
use cs.Bitmap.{Bitmap, find_offset, take_bit, alloc_from, alloc, enospc}
use cs.Bitmap.Inv.{word, used, IsValid, with_set, with_set-IsValid}

find_offset-some :
    (n o w : ℕ) {r : ℕ}
    → find_offset n o w ≡ some r
    → (o ≤ r) × (r < o + n) × (test_bit w r ≡ false)
unfolding find_offset
find_offset-some zero o w e = ground arith
find_offset-some (suc n) o w {r = r} e = ground (arith, find_offset-some n (o + 1) w {r = r})

find_offset_before :
    (n o w p : ℕ) {r : ℕ} → find_offset n o w ≡ some r → o ≤ p → p < r → test_bit w p ≡ true
unfolding find_offset
find_offset_before zero o w p e h k = ground arith
find_offset_before (suc n) o w p {r = r} e h k =
    ground (arith, find_offset_before n (o + 1) w p {r = r})

find_offset-none :
    (n o w p : ℕ) → find_offset n o w ≡ none → o ≤ p → p < o + n → test_bit w p ≡ true
unfolding find_offset
find_offset-none zero o w p e h k = absurd (omega arith)
find_offset-none (suc n) o w p e h k = elim (dec_lt o p) [
  | yes q ↦ ground (arith, find_offset-none n (o + 1) w p)
  | no q ↦ let same : p ≡ o = omega arith in ground arith
]

-- What bitmap_alloc may do with a bitmap: give out the lowest clear bit, or report that all are used.
pub data Allocates (b : Bitmap) : Run (ℕ × Option ℕ × Bitmap) → Type 0 where
  taken :
      (i : ℕ)
      → i < b.nbits
      → used b i ≡ false
      → ((j : ℕ) → j < i → used b j ≡ true)
      → Allocates b (ret (0, some i, with_set b i))
  exhausted : ((j : ℕ) → used b j ≡ true) → Allocates b (ret (enospc, none, b))

module _ {b : Bitmap} (valid : IsValid b) where
  used_at : (ix o : ℕ) → o < 8 → used b (ix * 8 + o) ≡ test_bit (word b.v ix) o
  used_at ix o h =
      let q : (ix * 8 + o) / 8 ≡ ix = omega arith in
      let r : (ix * 8 + o) % 8 ≡ o = omega arith in rw (q, r)

  used_of : (ix j : ℕ) → ix * 8 ≤ j → j < (ix + 1) * 8 → used b j ≡ test_bit (word b.v ix) (j % 8)
  used_of ix j h k = let q : j / 8 ≡ ix = omega arith in rw q

  in_bits : (i : ℕ) → used b i ≡ false → i < b.nbits
  in_bits i free = elim (dec_lt i b.nbits) [
    | yes h ↦ h
    | no h ↦ absurd (ground (arith, valid.over i (omega arith)))
  ]

  full_word :
      (ix j : ℕ)
      → ((k : ℕ) → k < ix * 8 → used b k ≡ true)
      → (word b.v ix == 0xff) ≡ true
      → j < (ix + 1) * 8
      → used b j ≡ true
  full_word ix j before full below = elim (dec_lt j (ix * 8)) [
    | yes h ↦ before j h
    | no h ↦
        let e : word b.v ix ≡ 0xff = ground arith in
        rw (used_of ix j (omega arith) below, e) (test_bit_255 (j % 8) (omega arith))
  ]

  taken_at :
      (ix o : ℕ)
      → o < 8
      → test_bit (word b.v ix) o ≡ false
      → ((p : ℕ) → p < o → test_bit (word b.v ix) p ≡ true)
      → ((j : ℕ) → j < ix * 8 → used b j ≡ true)
      → Allocates b
          (ret (0, some (ix * 8 + o), record b { v = set b.v ix (set_bit (word b.v ix) o) }))
  taken_at ix o h free below before =
      let q : (ix * 8 + o) / 8 ≡ ix = omega arith in
      let r : (ix * 8 + o) % 8 ≡ o = omega arith in
      let free' : used b (ix * 8 + o) ≡ false = used_at ix o h ∙ free in
      let t : Allocates b (ret (0, some (ix * 8 + o), with_set b (ix * 8 + o))) =
        taken (ix * 8 + o) (in_bits _ free') free' lowest in
      rw (q, r) at t
    where
      lowest : (j : ℕ) → j < ix * 8 + o → used b j ≡ true
      lowest j k = elim (dec_lt j (ix * 8)) [
        | yes early ↦ before j early
        | no late ↦ rw (used_of ix j (omega arith) (omega arith)) (below (j % 8) (omega arith))
      ]

  -- The inner loop finds a bit in a byte that is not full, so no KASSERT of the loop fails.
  Allocates-take_bit :
      (ix : ℕ)
      → ((j : ℕ) → j < ix * 8 → used b j ≡ true)
      → word b.v ix ≢ 0xff
      → Allocates b (take_bit b ix (word b.v ix))
  unfolding take_bit
  Allocates-take_bit ix before gap = go (find_offset 8 0 (word b.v ix)) refl
    where
      go :
          (r : Option ℕ)
          → find_offset 8 0 (word b.v ix) ≡ r
          → Allocates b (take_bit b ix (word b.v ix))
      go none e = absurd (
          gap (
            full_of_bits (valid.bytes ix)
              (λ o h. find_offset-none 8 0 _ o e (omega arith) (omega arith))))
      go (some o) e =
          let (ge, lt, free) = find_offset-some 8 0 (word b.v ix) e in
          let inside : ix * 8 + o < b.nbits = in_bits _ (used_at ix o (omega arith) ∙ free) in
          rw (e, take_bit, lt→ltb _ _ inside)
            (taken_at ix o (omega arith) free (λ p h. find_offset_before 8 0 _ p e (omega arith) h)
              before)

  -- One round of the loop, at a byte inside the array.
  Allocates-word :
      (n ix : ℕ)
      → ix < length b.v
      → ((j : ℕ) → j < ix * 8 → used b j ≡ true)
      → (((j : ℕ) → j < (ix + 1) * 8 → used b j ≡ true) → Allocates b (alloc_from n (ix + 1) b))
      → Allocates b (alloc_from (suc n) ix b)
  unfolding alloc_from
  Allocates-word n ix inside before rest =
      rw (get_elem?-eq-get_or b.v ix 0xff inside, alloc_from)
        (elim (Bool-cases (word b.v ix == 0xff)) [
          | inl full ↦ rw full (rest λ j below. full_word ix j before full below)
          | inr gap ↦ rw gap (Allocates-take_bit ix before (λ e. ground arith))
        ])

  -- The loop over the bytes that are left.
  Allocates-alloc_from :
      (n ix : ℕ)
      → ix + n ≡ length b.v
      → ((j : ℕ) → j < ix * 8 → used b j ≡ true)
      → Allocates b (alloc_from n ix b)
  Allocates-alloc_from zero ix e before =
      unfold alloc_from in
      exhausted λ j. elim (dec_lt j (ix * 8)) [
        | yes h ↦ before j h
        | no h ↦ valid.over j (omega (arith, valid.enough))
      ]
  Allocates-alloc_from (suc n) ix e before =
      Allocates-word n ix (omega arith) before
        (λ before'. Allocates-alloc_from n (ix + 1) (omega arith) before')

  -- bitmap_alloc on a valid bitmap never panics and never leaves the array: it gives out the lowest
  -- clear bit, and writes nothing but that bit, or, if every bit is in use, it returns ENOSPC and
  -- leaves the bitmap as it was.
  pub alloc-Allocates : Allocates b (alloc b)
  unfolding alloc
  alloc-Allocates =
      Allocates-alloc_from _ 0 (omega (arith, valid.small, valid.enough, valid.tight))
        (λ j h. absurd (omega arith))

  -- The bitmap that bitmap_alloc leaves of a valid one is valid, whatever it returned.
  pub alloc-IsValid : {r : ℕ × Option ℕ × Bitmap} → alloc b ≡ ret r → IsValid r.2
  alloc-IsValid {r} e = go alloc-Allocates e
    where
      go : {m : Run (ℕ × Option ℕ × Bitmap)} → Allocates b m → m ≡ ret r → IsValid r.2
      go (taken i h free low) e' =
          let q : with_set b i ≡ r.2 = cc in rw (← q) (with_set-IsValid valid i h)
      go (exhausted all) e' = let q : b ≡ r.2 = cc in rw (← q) valid
