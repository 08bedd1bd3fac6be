-- ===== src/Console/Input.antt =====
-- The ring of input characters is a queue of at most 31.
use cs.Base.{
  ℕ, ◌+◌, ◌-◌, ◌%◌, ◌<◌, ◌≡◌, ◌≢◌, ◌⊎◌, refl, ◌∙◌, List, [], ◌∷◌, ◌++◌, none, some, length,
  length-append, ◌==◌, inl, inr, Bool-cases, arith, put,
}
use cs.Console.{Con, con_input, getch_intr}

-- The characters from slot `i` on, around the ring
abbrev pub From : (ℕ → ℕ) → ℕ → List ℕ → Type 0
From chars i [] = Unit
From chars i (x ∷ xs) = (chars i ≡ x) × From chars ((i + 1) % 32) xs

pub record Holds (c : Con) (xs : List ℕ) : Type 0 where
  pub tail : c.tail < 32
  pub head : c.head ≡ (c.tail + length xs) % 32
  pub count : c.rsem ≡ length xs
  pub room : length xs < 32
  pub chars : From c.gotchars c.tail xs

-- The slot `n` after slot `i` is none of the `n` slots from `i` on.
From-put :
    (chars : ℕ → ℕ) (i a : ℕ) (xs : List ℕ) (h : ℕ)
    → i < 32
    → length xs < 32
    → h ≡ (i + length xs) % 32
    → From chars i xs
    → From (put chars h a) i (xs ++ a ∷ [])
From-put chars i a [] h b r e f = (ground (arith, b, e), tt)
From-put chars i a (x ∷ xs) h b r e (y, f) =
    let ne : i ≢ h = λ q. omega (arith, q, e, b, r) in
    (
      ground (arith, ne, y),
      From-put chars ((i + 1) % 32) a xs h (omega arith) (omega (arith, r)) (e ∙ omega arith) f,
    )

when_full : (h t n : ℕ) → t < 32 → n < 32 → h ≡ (t + n) % 32 → (h + 1) % 32 ≡ t → n ≡ 31
when_full h t n a b e f = omega (arith, a, b, e, f)

when_room : (h t n : ℕ) → t < 32 → n < 32 → h ≡ (t + n) % 32 → (h + 1) % 32 ≢ t → n < 31
when_room h t n a b e f = omega (arith, a, b, e, f)

-- con_input adds a character at the end, and drops it when there are 31.
con_input-Holds :
    (ch : ℕ) (c : Con) (xs : List ℕ)
    → Holds c xs
    → ((length xs < 31) × Holds (con_input ch c) (xs ++ ch % 256 ∷ []))
      ⊎ ((length xs ≡ 31) × (con_input ch c ≡ c))
unfolding con_input
con_input-Holds ch c xs h =
    let more = length-append xs (ch % 256 ∷ []) in
    elim (Bool-cases ((c.head + 1) % 32 == c.tail)) [
      | inl z ↦
          inr (
            when_full c.head c.tail (length xs) h.tail h.room h.head (ground (arith, z)),
            rw z refl,
          )
      | inr z ↦
          let less = when_room c.head c.tail (length xs) h.tail h.room h.head (ground (arith, z)) in
          inl (
            less,
            rw z (record {
              tail = h.tail;
              head = omega (arith, h.head, more, h.tail);
              count = omega (arith, h.count, more);
              room = omega (arith, more, less);
              chars = From-put c.gotchars c.tail (ch % 256) xs c.head h.tail h.room h.head h.chars;
            }),
          )
    ]

-- getch_intr waits on an empty ring, and else takes the first character off.
getch_intr-Holds :
    (c : Con) (xs : List ℕ)
    → Holds c xs
    → ((xs ≡ []) × (getch_intr c ≡ none))
      ⊎ ((x : ℕ) × (ys : List ℕ) × (xs ≡ x ∷ ys)
          × (c' : Con) × (getch_intr c ≡ some (x, c'))
          × Holds c' ys)
unfolding getch_intr
getch_intr-Holds c [] h = inl (refl, ground (arith, h.count))
getch_intr-Holds c (x ∷ xs) h =
    let (e, f) = h.chars in
    inr (
      x,
      xs,
      refl,
      record c { tail = (c.tail + 1) % 32; rsem = c.rsem - 1 },
      ground (arith, h.count, e),
      record {
        tail = omega arith;
        head = h.head ∙ omega arith;
        count = omega (arith, h.count);
        room = omega (arith, h.room);
        chars = f;
      },
    )

-- On a ring of fewer than 32 characters, with their number in the semaphore: con_input adds its
-- character at the end, or leaves the ring as it is when there are 31; and getch_intr waits when
-- there is none, or else gives the first one and leaves the others.
pub ring-Holds :
    (ch : ℕ) (c : Con) (xs : List ℕ)
    → Holds c xs
    → (((length xs < 31) × Holds (con_input ch c) (xs ++ ch % 256 ∷ []))
        ⊎ ((length xs ≡ 31) × (con_input ch c ≡ c)))
      × (((xs ≡ []) × (getch_intr c ≡ none))
          ⊎ ((x : ℕ) × (ys : List ℕ) × (xs ≡ x ∷ ys)
              × (c' : Con) × (getch_intr c ≡ some (x, c'))
              × Holds c' ys))
ring-Holds ch c xs h = (con_input-Holds ch c xs h, getch_intr-Holds c xs h)
