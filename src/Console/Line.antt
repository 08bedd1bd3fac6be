-- ===== src/Console/Line.antt =====
-- kgets edits a line, and stays inside its buffer.
use cs.Base.{
  ℕ, ◌-◌, ◌^◌, ◌≤◌, ◌<◌, ◌≡◌, refl, ap, ◌∙◌, Bool, true, false, ◌&&◌, ◌||◌, List, [], ◌∷◌, Option,
  none, some, Run, ret, length, ltb, leb, ◌==◌, if◌then◌else◌, inl, inr, Bool-cases, arith, put,
}
use cs.Base.Words.{sub_u32}
use cs.Console.{store, back_over, is_space, is_word, edit, finish, kgets}

abbrev pub tail : List ℕ → List ℕ
tail [] = []
tail (c ∷ cs) = cs

abbrev pub drop_while : (ℕ → Bool) → List ℕ → List ℕ
drop_while test [] = []
drop_while test (c ∷ cs) = let rest = drop_while test cs in if test c then rest else c ∷ cs

-- What a key does to a line of at most `room` characters, its last one first.
abbrev pub edit_line : ℕ → ℕ → List ℕ → List ℕ
edit_line room ch line =
    if (leb 32 ch && ltb ch 127) && ltb (length line) room
    then ch ∷ line
    else if (ch == 8) || (ch == 127)
    then tail line
    else if ch == 21
    then []
    else if ch == 23
    then drop_while is_word (drop_while is_space line)
    else line

-- The line that some keys make of one: the newline ends it, and ^C gives the empty one.
abbrev pub typed : ℕ → List ℕ → List ℕ → Option (List ℕ)
typed room [] line = none
typed room (ch ∷ chs) line =
    let rest = typed room chs (edit_line room ch line) in
    if (ch == 10) || (ch == 13) then some line else if ch == 3 then some [] else rest

-- The buffer starts with the line.
abbrev pub Contents : (ℕ → ℕ) → List ℕ → Type 0
Contents buf [] = Unit
Contents buf (c ∷ cs) = (buf (length cs) ≡ c) × Contents buf cs

-- What kgets does where the line is `o`: it waits, or the buffer has the line with a null after it.
pub data Gets (maxlen : ℕ) : Option (List ℕ) → Run (Option (ℕ × (ℕ → ℕ))) → Type 0 where
  waits : Gets maxlen none (ret none)
  gets :
      (line : List ℕ) (buf : ℕ → ℕ)
      → length line < maxlen
      → Contents buf line
      → buf (length line) ≡ 0
      → Gets maxlen (some line) (ret (some (length line, buf)))

put-Contents :
    (buf : ℕ → ℕ) (i a : ℕ) (line : List ℕ)
    → length line ≤ i
    → Contents buf line
    → Contents (put buf i a) line
put-Contents buf i a [] h c = tt
put-Contents buf i a (x ∷ xs) h (e, c) =
    (ground (arith, h, e), put-Contents buf i a xs (omega (arith, h)) c)

drop_while-Contents :
    (test : ℕ → Bool) (buf : ℕ → ℕ) (line : List ℕ)
    → Contents buf line
    → (Contents buf (drop_while test line))
      × (back_over test buf (length line) ≡ length (drop_while test line))
      × (length (drop_while test line) ≤ length line)
unfolding back_over
drop_while-Contents test buf [] c = (tt, refl, omega arith)
drop_while-Contents test buf (x ∷ xs) (e, c) =
    let (d, b, l) = drop_while-Contents test buf xs c in
    elim (Bool-cases (test x)) [
      | inl z ↦ (rw z d, ground (arith, z, e, b), ground (arith, z, l))
      | inr z ↦ (rw z (e, c), ground (arith, z, e), ground (arith, z))
    ]

finish-Gets :
    (maxlen : ℕ) (line : List ℕ) (buf : ℕ → ℕ)
    → length line < maxlen
    → Contents buf line
    → Gets maxlen (some line) (finish maxlen (length line) buf)
unfolding finish store
finish-Gets maxlen line buf h c =
    let z : ltb (length line) maxlen ≡ true = ground (arith, h) in
    rw z (
      gets line (put buf (length line) 0) h (put-Contents buf (length line) 0 line (omega arith) c)
        (ground arith))

-- A turn of kgets, on a buffer with the line
abbrev Edits : ℕ → (ℕ → ℕ) → ℕ → List ℕ → Type 0
Edits maxlen buf ch line =
    (buf' : ℕ → ℕ) × (edit maxlen ch (length line) buf
      ≡ ret (length (edit_line (maxlen - 1) ch line), buf'))
    × (length (edit_line (maxlen - 1) ch line) < maxlen)
    × Contents buf' (edit_line (maxlen - 1) ch line)

room_lem : (maxlen : ℕ) → 0 < maxlen → maxlen < 2 ^ 32 → sub_u32 maxlen 1 ≡ maxlen - 1
room_lem maxlen lo hi = omega (arith, lo, hi)

-- A key that is printed
edit-printed :
    (maxlen ch : ℕ) (buf : ℕ → ℕ) (line : List ℕ)
    → 0 < maxlen
    → maxlen < 2 ^ 32
    → Contents buf line
    → ((leb 32 ch && ltb ch 127) && ltb (length line) (maxlen - 1)) ≡ true
    → Edits maxlen buf ch line
unfolding edit store
edit-printed maxlen ch buf line lo hi c z =
    let fits : ltb (length line) maxlen ≡ true = ground (arith, z) in
    (
      put buf (length line) ch,
      rw (room_lem maxlen lo hi)
          (rw (z, fits) (ap ret (ap (λ n. (n, put buf (length line) ch)) (omega arith)))),
      ground (arith, z),
      rw z (ground arith, put-Contents buf (length line) ch line (omega arith) c),
    )

-- The other keys
edit-other :
    (maxlen ch : ℕ) (buf : ℕ → ℕ) (line : List ℕ)
    → 0 < maxlen
    → maxlen < 2 ^ 32
    → length line < maxlen
    → Contents buf line
    → ((leb 32 ch && ltb ch 127) && ltb (length line) (maxlen - 1)) ≡ false
    → Edits maxlen buf ch line
unfolding edit store
edit-other maxlen ch buf line lo hi small c z =
    let room = room_lem maxlen lo hi in
    elim (Bool-cases ((ch == 8) || (ch == 127))) [
      | inl y ↦ erase line small c z y
      | inr y ↦ elim (Bool-cases (ch == 18)) [
        | inl x ↦
            let fits : ltb (length line) maxlen ≡ true = ground (arith, small) in
            let w : (ch == 21) ≡ false = ground (arith, x) in
            let v : (ch == 23) ≡ false = ground (arith, x) in
            rw room (
              rw (z, y, x, w, v, fits)
                (
                  put buf (length line) 0,
                  refl,
                  small,
                  put-Contents buf (length line) 0 line (omega arith) c,
                ))
        | inr x ↦ elim (Bool-cases (ch == 21)) [
          | inl w ↦ rw room (rw (z, y, x, w) (buf, refl, lo, tt))
          | inr w ↦ elim (Bool-cases (ch == 23)) [
            | inl v ↦
                let (d1, b1, l1) = drop_while-Contents is_space buf line c in
                let (d2, b2, l2) = drop_while-Contents is_word buf (drop_while is_space line) d1 in
                rw room (
                  rw (z, y, x, w, v)
                    (
                      buf,
                      ap (λ n. ret (n, buf)) (ap (back_over is_word buf) b1 ∙ b2),
                      omega (arith, l1, l2, small),
                      d2,
                    ))
            | inr v ↦ rw room (rw (z, y, x, w, v) (buf, refl, small, c))
          ]
        ]
      ]
    ]
  where
    erase :
        (line : List ℕ)
        → length line < maxlen
        → Contents buf line
        → ((leb 32 ch && ltb ch 127) && ltb (length line) (maxlen - 1)) ≡ false
        → ((ch == 8) || (ch == 127)) ≡ true
        → Edits maxlen buf ch line
    erase [] small c z y =
        let x : (ch == 18) ≡ false = ground (arith, y) in
        let w : (ch == 21) ≡ false = ground (arith, y) in
        let v : (ch == 23) ≡ false = ground (arith, y) in
        rw (room_lem maxlen lo hi) (rw (z, y, x, w, v) (buf, refl, small, tt))
    erase (k ∷ ks) small (e, c) z y =
        let some_left : ltb 0 (length (k ∷ ks)) ≡ true = ground arith in
        let one_less : length (k ∷ ks) - 1 ≡ length ks = omega arith in
        rw (room_lem maxlen lo hi)
          (rw (z, y, some_left, one_less) (buf, refl, omega (arith, small), c))

edit_lem :
    (maxlen ch : ℕ) (buf : ℕ → ℕ) (line : List ℕ)
    → 0 < maxlen
    → maxlen < 2 ^ 32
    → length line < maxlen
    → Contents buf line
    → Edits maxlen buf ch line
edit_lem maxlen ch buf line lo hi small c =
    elim (Bool-cases ((leb 32 ch && ltb ch 127) && ltb (length line) (maxlen - 1))) [
      | inl z ↦ edit-printed maxlen ch buf line lo hi c z
      | inr z ↦ edit-other maxlen ch buf line lo hi small c z
    ]

-- kgets, from a buffer with the line on
kgets-Gets :
    (maxlen : ℕ) (keys line : List ℕ) (buf : ℕ → ℕ)
    → 0 < maxlen
    → maxlen < 2 ^ 32
    → length line < maxlen
    → Contents buf line
    → Gets maxlen (typed (maxlen - 1) keys line) (kgets maxlen keys (length line) buf)
unfolding kgets
kgets-Gets maxlen [] line buf lo hi small c = waits
kgets-Gets maxlen (ch ∷ chs) line buf lo hi small c = elim (Bool-cases ((ch == 10) || (ch == 13))) [
  | inl z ↦ rw z (finish-Gets maxlen line buf small c)
  | inr z ↦ elim (Bool-cases (ch == 3)) [
    | inl y ↦ rw (z, y) (finish-Gets maxlen [] buf lo tt)
    | inr y ↦
        let (buf', run, small', c') = edit_lem maxlen ch buf line lo hi small c in
        rw (z, y, run) (kgets-Gets maxlen chs (edit_line (maxlen - 1) ch line) buf' lo hi small' c')
  ]
]

-- kgets with a buffer of at least one and less than 2 ^ 32 bytes does what the editing of a line of
-- maxlen - 1 characters does, whatever the keys: it waits as long as that has no result, and else
-- returns with the line in the buffer and a null after it. It writes nothing outside the buffer.
pub kgets-typed :
    (maxlen : ℕ) (keys : List ℕ) (buf : ℕ → ℕ)
    → 0 < maxlen
    → maxlen < 2 ^ 32
    → Gets maxlen (typed (maxlen - 1) keys []) (kgets maxlen keys 0 buf)
kgets-typed maxlen keys buf lo hi = kgets-Gets maxlen keys [] buf lo hi lo tt
