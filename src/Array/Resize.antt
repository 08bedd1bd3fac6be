-- ===== src/Array/Resize.antt =====
-- array_setsize and array_add: the elements are kept, and the array grows when it has to.
use cs.Base.{
  ℕ, zero, suc, ◌+◌, ◌^◌, ◌≤◌, ◌<◌, ◌≡◌, refl, sym, ap, ◌∙◌, List, [], ◌∷◌, ◌++◌, Option, none,
  some, Run, ret, ◌>>=◌, ltb, get_elem?, get_or, set, take, drop, length, length-append,
  get_elem?-eq-get_or, arith, Bool-cases, ltb→lt, inl, inr, take-append-drop, length-take,
  length-drop,
}
use cs.Kmalloc.{Words, words}
use cs.Base.Words.{u32}
use cs.Array.{Array, new_max, memcpy, setsize, add, enomem}
use cs.Array.Holds.{Holds, new_max_lem, get_elem?-append, set-append, take-append, leb_of_le}

new_max_any :
    (num max : ℕ)
    → max < 2 ^ 30
    → num ≤ 2 ^ 29
    → (n : ℕ) × (new_max 32 num max ≡ ret n) × (num ≤ n) × (n < 2 ^ 30)
unfolding new_max
new_max_any zero zero small fits = (0, refl, omega arith, omega arith)
new_max_any (suc num) zero small fits =
    let (n, e, enough, top) =
      new_max_lem 30 (suc num) 4 (omega arith) (omega arith) fits (omega arith) in
    (n, ground (arith, e), enough, top)
new_max_any num (suc max) small fits =
    new_max_lem 31 num (suc max) (omega arith) small fits (omega arith)

get_elem?-take : (n : ℕ) (v : List ℕ) (i : ℕ) → i < n → get_elem? (take n v) i ≡ get_elem? v i
get_elem?-take zero v i h = elim h [ ]
get_elem?-take (suc n) [] i h = refl
get_elem?-take (suc n) (x ∷ v) zero h = refl
get_elem?-take (suc n) (x ∷ v) (suc i) h = get_elem?-take n v i (omega arith)

-- Two lists have the same elements wherever both have one.
abbrev pub Agree : List ℕ → List ℕ → Type 0
Agree ys xs = (i : ℕ) → i < length ys → i < length xs → get_elem? ys i ≡ get_elem? xs i

set-last :
    (xs ys : List ℕ) (v : ℕ)
    → length ys ≡ length xs + 1
    → Agree ys xs
    → set ys (length xs) v ≡ xs ++ v ∷ []
set-last [] (y ∷ []) v l agree = refl
set-last [] (y ∷ z ∷ ys) v l agree = absurd (omega arith)
set-last [] [] v l agree = absurd (omega arith)
set-last (x ∷ xs) [] v l agree = absurd (omega arith)
set-last (x ∷ xs) (y ∷ ys) v l agree =
    let e : y ≡ x = cc (agree 0 (omega arith) (omega arith)) in
    rw (e, set-last xs ys v (omega arith) (λ i hy hx. agree (suc i) (omega arith) (omega arith)))

-- A block of `max` cells of which the first `num` count.
first_Holds :
    (v : List ℕ) (num max : ℕ)
    → num ≤ max
    → length v ≡ max
    → Holds (record { v = v; num = num; max = max }) (take num v) × (length (take num v) ≡ num)
first_Holds v num max le e =
    let l : length (take num v) ≡ num = omega (arith, length-take num v) in
    (
      record {
        unused = drop num v;
        cells = sym (take-append-drop num v);
        num_eq = sym l;
        max_eq = omega (arith, l, length-drop num v);
      },
      l,
    )

module _ (mem : Words) where
  -- What array_setsize may do: fail for lack of memory, which happens only past the capacity, and
  -- change nothing; or give the array the size asked for, with the elements that both sizes have.
  pub data Resizes (a : Array) (xs : List ℕ) (num : ℕ) : Run (ℕ × Array) → Type 0 where
    no_memory : (n : ℕ) → a.max < num → mem.block n ≡ none → Resizes a xs num (ret (enomem, a))
    resized :
        (a' : Array) (ys : List ℕ)
        → Holds a' ys
        → length ys ≡ num
        → Agree ys xs
        → Resizes a xs num (ret (0, a'))

  Resizes-within :
      {a : Array} (xs : List ℕ) (num : ℕ)
      → Holds a xs
      → num ≤ a.max
      → Resizes a xs num (ret (0, record a { num = num }))
  Resizes-within {a} xs num h le =
      let total : length a.v ≡ a.max =
        ap length h.cells ∙ length-append xs h.unused ∙ sym h.max_eq in
      let (h', l) = first_Holds a.v num a.max le total in
      resized (record a { num = num }) (take num a.v) h' l
        λ i hy hx.
          get_elem?-take num a.v i (omega (arith, l))
          ∙ ap (λ t. get_elem? t i) h.cells
          ∙ get_elem?-append h.unused xs i hx

  Resizes-block :
      {a : Array} (xs ws : List ℕ) (num newmax : ℕ)
      → Holds a xs
      → a.max < num
      → num ≤ newmax
      → length ws ≡ newmax
      → (v : List ℕ) × (memcpy ws a.v a.num ≡ ret v)
        × Resizes a xs num (ret (0, record { v = v; num = num; max = newmax }))
  unfolding memcpy
  Resizes-block {a} xs ws num newmax h more le e =
      let v = xs ++ drop (length xs) ws in
      let total : length v ≡ newmax =
        omega
          (arith, length-append xs (drop (length xs) ws), length-drop (length xs) ws, h.max_eq) in
      let (h', l) = first_Holds v num newmax le total in
      (
        v,
        rw
            (
              h.num_eq,
              h.cells,
              leb_of_le (length xs) (length ws) (omega (arith, h.max_eq)),
              leb_of_le (length xs) (length (xs ++ h.unused))
                  (omega (arith, length-append xs h.unused)),
            )
            (ap (λ t. ret (t ++ drop (length xs) ws)) (take-append h.unused xs (length xs) refl)),
        resized _ (take num v) h' l λ i hy hx.
            get_elem?-take num v i (omega (arith, l))
            ∙ get_elem?-append (drop (length xs) ws) xs i hx,
      )

  -- array_setsize on any array of fewer than 2 ^ 30 cells, to a size of at most 2 ^ 29, returns:
  -- either it has the size and keeps the elements that both sizes have, or kmalloc refused the
  -- growth that it needs, and it returns ENOMEM and changes nothing.
  pub setsize-Resizes :
      {a : Array} (xs : List ℕ) (num : ℕ)
      → Holds a xs
      → a.max < 2 ^ 30
      → num ≤ 2 ^ 29
      → Resizes a xs num (setsize mem.block a num)
  unfolding setsize
  setsize-Resizes {a} xs num h small fits = elim (Bool-cases (ltb a.max num)) [
    | inl more ↦
        let (n, e, enough, top) = new_max_any num a.max small fits in
        rw (more, e) (go n enough top (ltb→lt _ _ more) (mem.block n) refl)
    | inr fine ↦ rw fine (Resizes-within xs num h (ground arith))
  ]
    where
      go :
          (n : ℕ)
          → num ≤ n
          → n < 2 ^ 30
          → a.max < num
          → (got : Option (List ℕ)) → mem.block n ≡ got
          → Resizes a xs num (elim (mem.block (words n)) as (λ _. Run (ℕ × Array)) [
            | none ↦ ret (enomem, a)
            | some newptr ↦
                memcpy newptr a.v a.num >>= λ v. ret (0, record { v = v; num = num; max = n })
          ])
      go n enough top more none e =
          let w : words n ≡ n = omega (arith, top) in rw (w, e) (no_memory n more e)
      go n enough top more (some ws) e =
          let w : words n ≡ n = omega (arith, top) in
          let (v, c, r) = Resizes-block xs ws num n h more enough (mem.block_length n ws e) in
          rw (w, e, c) r

  -- What array_add may do: fail for lack of memory, which happens only on a full array, and change
  -- nothing; or append the element and give its index.
  pub data Adds (a : Array) (val : ℕ) (xs : List ℕ) : Run (ℕ × Option ℕ × Array) → Type 0 where
    refused :
        (n : ℕ) → a.max ≡ length xs → mem.block n ≡ none → Adds a val xs (ret (enomem, none, a))
    added : (a' : Array) → Holds a' (xs ++ val ∷ []) → Adds a val xs (ret (0, some (length xs), a'))

  -- array_add on any array of fewer than 2 ^ 29 cells returns: it appends the element and reports
  -- its index, or, full and refused by kmalloc, it returns ENOMEM and changes nothing.
  pub add-Adds :
      {a : Array} (val : ℕ) (xs : List ℕ)
      → Holds a xs
      → a.max < 2 ^ 29
      → Adds a val xs (add mem.block a val)
  unfolding add
  add-Adds {a} val xs h small =
      let n : u32 (a.num + 1) ≡ length xs + 1 = omega (arith, h.num_eq, h.max_eq) in
      go (rw n (setsize-Resizes xs (length xs + 1) h (omega arith) (omega (arith, h.max_eq)))) refl
    where
      go :
          {m : Run (ℕ × Array)}
          → Resizes a xs (length xs + 1) m
          → setsize mem.block a (u32 (a.num + 1)) ≡ m
          → Adds a val xs (add mem.block a val)
      go (no_memory n more null) e = rw e (refused n (omega (arith, h.max_eq)) null)
      go (resized a' ys h' l agree) e =
          let inside : get_elem? a'.v (length xs) ≡ some (get_or a'.v (length xs) 0) =
            get_elem?-eq-get_or a'.v (length xs) 0
              (omega (arith, ap length h'.cells, length-append ys h'.unused)) in
          let stored : set a'.v (length xs) val ≡ (xs ++ val ∷ []) ++ h'.unused =
            ap (λ t. set t (length xs) val) h'.cells
            ∙ set-append h'.unused ys (length xs) val (omega arith)
            ∙ ap (λ t. t ++ h'.unused) (set-last xs ys val l agree) in
          let r : add mem.block a val
              ≡ ret (0, some (length xs), record a' { v = set a'.v (length xs) val }) =
            ground (arith, e, inside, h.num_eq) in
          rw r (
            added _ (record {
              unused = h'.unused;
              cells = stored;
              num_eq = omega (arith, h'.num_eq, length-append xs (val ∷ []));
              max_eq = omega (arith, h'.max_eq, length-append xs (val ∷ []));
            }))
