-- ===== src/Console/Tests.antt =====
-- Runs of dev/generic/console.c and lib/kgets.c.
use cs.Base.{
  ℕ, ◌+◌, ◌%◌, ◌<◌, ◌≡◌, ◌⊎◌, refl, List, [], ◌∷◌, Option, none, some, Run, ret, panic, fault,
  arith,
}
use cs.Console.{Con, con_input, getch_intr, kgets, edit, store, finish, back_over}
use cs.Console.Input.{Holds, ring-Holds}
use cs.Console.Line.{Gets, typed, kgets-typed}

-- Two characters around the end of the ring
abbrev two : Con
two = record { gotchars = λ i. 97 + i % 31; head = 1; tail = 31; rsem = 2 }

abbrev both : List ℕ
both = 97 ∷ 97 ∷ []

two-Holds : Holds two both
two-Holds = record {
  tail = omega arith;
  head = refl;
  count = refl;
  room = omega arith;
  chars = (refl, (refl, tt));
}

ring-Holds_example :
    (((2 < 31) × Holds (con_input 98 two) (97 ∷ 97 ∷ 98 ∷ []))
      ⊎ ((◌≡◌ {A = ℕ} 2 31) × (con_input 98 two ≡ two)))
    × (((both ≡ []) × (getch_intr two ≡ none))
        ⊎ ((x : ℕ) × (ys : List ℕ) × (both ≡ x ∷ ys)
            × (c' : Con) × (getch_intr two ≡ some (x, c'))
            × Holds c' ys))
ring-Holds_example = ring-Holds 98 two both two-Holds

-- "ab c" and ^W, backspace and newline
abbrev keys : List ℕ
keys = 97 ∷ 98 ∷ 32 ∷ 99 ∷ 23 ∷ 8 ∷ 10 ∷ []

kgets-typed_example : Gets 16 (typed 15 keys []) (kgets 16 keys 0 (λ i. 0))
kgets-typed_example = kgets-typed 16 keys (λ i. 0) (omega arith) (omega arith)

typed_keys : typed 15 keys [] ≡ some (98 ∷ 97 ∷ [])
typed_keys = refl

-- Where the characters are and how many, of what kgets gives
abbrev pos_of : Run (Option (ℕ × (ℕ → ℕ))) → Run (Option ℕ)
pos_of (ret none) = ret none
pos_of (ret (some q)) = ret (some q.0)
pos_of panic = panic
pos_of fault = fault

two_left : pos_of (kgets 16 keys 0 (λ i. 0)) ≡ ret (some 2)
unfolding kgets edit store finish back_over
two_left = refl

-- A buffer of no bytes: maxlen-1 is 2 ^ 32 - 1, and the first character goes past the end.
no_room : pos_of (kgets 0 keys 0 (λ i. 0)) ≡ fault
unfolding kgets edit store
no_room = refl
