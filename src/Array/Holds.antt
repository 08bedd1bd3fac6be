-- ===== src/Array/Holds.antt =====
-- The sequence that a `struct array` stands for, and what each operation does to it.
use cs.Base.{
  ℕ, zero, suc, ◌+◌, ◌-◌, ◌*◌, ◌^◌, ◌≤◌, ◌<◌, ◌≡◌, refl, ap, ◌∙◌, true, List, [], ◌∷◌, ◌++◌, ret,
  panic, access, ltb, leb, if◌then◌else◌, get_elem?, set, take, drop, length, length-append,
  get_elem?-eq-get_or, lt→ltb, arith, Bool-cases, ltb→lt, inl, inr, length-set, length-drop,
}
use cs.Base.Words.{u32}
use native.Mathlib.Nat.{pow-suc}
use cs.Array.{Array, get, put, new_max, remove}

-- The first `num` of `max` cells hold `xs`.
pub record Holds (a : Array) (xs : List ℕ) : Type 0 where
  pub unused : List ℕ
  pub cells : a.v ≡ xs ++ unused
  pub num_eq : a.num ≡ length xs
  pub max_eq : a.max ≡ length xs + length unused

module _ (ys : List ℕ) where
  pub get_elem?-append :
      (xs : List ℕ) (i : ℕ) → i < length xs → get_elem? (xs ++ ys) i ≡ get_elem? xs i
  get_elem?-append [] i h = elim h [ ]
  get_elem?-append (x ∷ xs) zero h = refl
  get_elem?-append (x ∷ xs) (suc i) h = get_elem?-append xs i (omega arith)

  pub set-append : (xs : List ℕ) (i v : ℕ) → i < length xs → set (xs ++ ys) i v ≡ set xs i v ++ ys
  set-append [] i v h = elim h [ ]
  set-append (x ∷ xs) zero v h = refl
  set-append (x ∷ xs) (suc i) v h = ap (λ t. x ∷ t) (set-append xs i v (omega arith))

  pub take-append : (xs : List ℕ) (n : ℕ) → n ≡ length xs → take n (xs ++ ys) ≡ xs
  take-append [] zero h = refl
  take-append [] (suc n) h = absurd (omega arith)
  take-append (x ∷ xs) zero h = absurd (omega arith)
  take-append (x ∷ xs) (suc n) h = ap (λ t. x ∷ t) (take-append xs n (omega arith))

-- A list without its element at an index.
abbrev pub erase_at : List ℕ → ℕ → List ℕ
erase_at [] i = []
erase_at (x ∷ xs) zero = xs
erase_at (x ∷ xs) (suc i) = x ∷ erase_at xs i

pub leb_of_le : (m n : ℕ) → m ≤ n → leb m n ≡ true
leb_of_le m n h = ground arith

-- array_get at an index of the array returns the element; elsewhere its assertion fails.
pub get-Holds :
    {a : Array} (xs : List ℕ) (i : ℕ)
    → Holds a xs
    → get a i ≡ (if ltb i (length xs) then access (get_elem? xs i) else panic)
unfolding get
get-Holds {a} xs i h = elim (Bool-cases (ltb i (length xs))) [
  | inl inside ↦
      rw (h.num_eq, inside, h.cells, get_elem?-append h.unused xs i (ltb→lt _ _ inside)) refl
  | inr out ↦ rw (h.num_eq, out) refl
]

-- array_set at an index of the array returns and replaces that element and no other.
pub put-Holds :
    {a : Array} (xs : List ℕ) (i v : ℕ)
    → Holds a xs
    → i < length xs
    → (a' : Array) × (put a i v ≡ ret a') × Holds a' (set xs i v) × (a'.max ≡ a.max)
unfolding put
put-Holds {a} xs i v h lt = (
  record a { v = set a.v i v },
  rw
      (
        h.num_eq,
        lt→ltb _ _ lt,
        h.cells,
        get_elem?-append h.unused xs i lt,
        get_elem?-eq-get_or xs i 0 lt,
      )
      refl,
  record {
    unused = h.unused;
    cells = rw h.cells (set-append h.unused xs i v lt);
    num_eq = omega (arith, h.num_eq, length-set xs i v);
    max_eq = omega (arith, h.max_eq, length-set xs i v);
  },
  refl,
)

erase-shift :
    (xs r d : List ℕ) (i : ℕ)
    → i < length xs
    → take i (xs ++ r) ++ (take (length xs - (i + 1)) (drop (i + 1) (xs ++ r)) ++ d)
      ≡ erase_at xs i ++ d
erase-shift [] r d i h = elim h [ ]
erase-shift (x ∷ xs) r d zero h =
    ap (λ t. t ++ d) (take-append r xs (suc (length xs) - 1) (omega arith))
erase-shift (x ∷ xs) r d (suc i) h =
    let e : suc i + 1 ≡ suc (i + 1) = omega arith in
    let k : suc (length xs) - suc (i + 1) ≡ length xs - (i + 1) = omega arith in
    rw (e, k) (ap (λ t. x ∷ t) (erase-shift xs r d i (omega arith)))

length-erase_at : (xs : List ℕ) (i : ℕ) → i < length xs → length (erase_at xs i) + 1 ≡ length xs
length-erase_at [] i h = elim h [ ]
length-erase_at (x ∷ xs) zero h = omega arith
length-erase_at (x ∷ xs) (suc i) h = omega (arith, length-erase_at xs i (omega arith))

-- array_remove at an index of the array returns, takes out that element and closes the gap; the room
-- is as it was.
pub remove-Holds :
    {a : Array} (xs : List ℕ) (i : ℕ)
    → Holds a xs
    → i < length xs
    → (a' : Array) × (remove a i ≡ ret a') × Holds a' (erase_at xs i) × (a'.max ≡ a.max)
unfolding remove
remove-Holds {a} xs i h lt =
    let gone = drop (a.num - 1) a.v in
    let total : length a.v ≡ length xs + length h.unused =
      ap length h.cells ∙ length-append xs h.unused in
    (
      record a {
        v = take i a.v ++ (take (a.num - (i + 1)) (drop (i + 1) a.v) ++ gone);
        num = a.num - 1;
      },
      rw
          (
            leb_of_le a.num a.max (omega arith),
            lt→ltb i a.num (omega (arith, h.num_eq)),
            leb_of_le a.num (length a.v) (omega (arith, total)),
          )
          refl,
      record {
        unused = gone;
        cells = rw (h.cells, h.num_eq) (erase-shift xs h.unused _ i lt);
        num_eq = omega (arith, h.num_eq, length-erase_at xs i lt);
        max_eq = omega (arith, length-drop (a.num - 1) a.v, total, length-erase_at xs i lt);
      },
      refl,
    )

-- The capacity that the loop of array_setsize finds is large enough, and the loop ends.
pub new_max_lem :
    (f num m : ℕ)
    → 0 < m
    → m < 2 ^ 30
    → num ≤ 2 ^ 29
    → num ≤ m * 2 ^ f
    → (n : ℕ) × (new_max (suc f) num m ≡ ret n) × (num ≤ n) × (n < 2 ^ 30)
unfolding new_max
new_max_lem zero num m pos small fits fuel = (m, ground arith, omega arith, small)
new_max_lem (suc f) num m pos small fits fuel = elim (Bool-cases (ltb m num)) [
  | inl more ↦
      let below = ltb→lt m num more in
      let fuel' : num ≤ m * (2 ^ f * 2) = rw pow-suc at fuel in
      let (n, e, enough, top) =
        new_max_lem f num (m * 2) (omega arith) (omega arith) fits (omega arith) in
      let wraps : u32 (m * 2) ≡ m * 2 = omega arith in (n, ground (arith, e), enough, top)
  | inr done ↦ (m, rw done, ground arith, small)
]
