-- ===== src/Files/Uses.antt =====
-- How many descriptors share an entry.
use cs.Base.{
  ℕ, zero, suc, ◌+◌, ◌≤◌, ◌<◌, ◌≡◌, ◌≢◌, refl, Option, none, some, ◌==◌, if◌then◌else◌, ltb, inl,
  inr, Bool-cases, arith, put,
}
use cs.Files.{Entry, Files}

abbrev pub points : ℕ → Option ℕ → ℕ
points p none = 0
points p (some q) = if q == p then 1 else 0

-- The descriptors below `n` with the entry `p`
pub uses : (ℕ → Option ℕ) → ℕ → ℕ → ℕ
uses table zero p = 0
uses table (suc n) p = points p (table n) + uses table n p

-- Every entry in the table is there, and has the number of its descriptors.
pub record IsFiles (f : Files) : Type 0 where
  pub shared :
      (fd p : ℕ)
      → fd < 128
      → f.table fd ≡ some p
      → (e : Entry) × (f.entries p ≡ some e) × (e.count ≡ uses f.table 128 p)

uses-above :
    (table : ℕ → Option ℕ) (fd : ℕ) (x : Option ℕ) (n p : ℕ)
    → n ≤ fd
    → uses (put table fd x) n p ≡ uses table n p
unfolding uses
uses-above table fd x zero p h = refl
uses-above table fd x (suc n) p h = ground (arith, h, uses-above table fd x n p)

-- A change of one descriptor
pub uses-put :
    (table : ℕ → Option ℕ) (fd : ℕ) (x : Option ℕ) (n p : ℕ)
    → fd < n
    → uses (put table fd x) n p + points p (table fd) ≡ uses table n p + points p x
unfolding uses
uses-put table fd x zero p h = absurd (ground (arith, h))
uses-put table fd x (suc n) p h = elim (Bool-cases (n == fd)) [
  | inl z ↦ ground (arith, z, uses-above table fd x n p)
  | inr z ↦ ground (arith, z, h, uses-put table fd x n p)
]

pub uses-le : (table : ℕ → Option ℕ) (n p : ℕ) → uses table n p ≤ n
unfolding uses
uses-le table zero p = omega arith
uses-le table (suc n) p = ground (arith, uses-le table n p)

-- An entry with a descriptor has one.
pub uses-some :
    (table : ℕ → Option ℕ) (fd n p : ℕ) → fd < n → table fd ≡ some p → 0 < uses table n p
unfolding uses
uses-some table fd zero p h e = absurd (ground (arith, h))
uses-some table fd (suc n) p h e = elim (Bool-cases (n == fd)) [
  | inl z ↦ ground (arith, z, e)
  | inr z ↦ ground (arith, z, h, uses-some table fd n p)
]

-- No descriptor has an entry that is not there.
pub uses-none :
    (table : ℕ → Option ℕ) (n p : ℕ) → ((fd : ℕ) → fd < n → table fd ≢ some p) → uses table n p ≡ 0
unfolding uses
uses-none table zero p h = refl
uses-none table (suc n) p h =
    ground (arith, h n (omega arith), uses-none table n p (λ fd b. h fd (omega (arith, b))))

-- A free descriptor gets the entry `p`.
pub uses-given :
    (table : ℕ → Option ℕ) (fd p n q : ℕ)
    → fd < n
    → table fd ≡ none
    → uses (put table fd (some p)) n q ≡ uses table n q + (if p == q then 1 else 0)
uses-given table fd p n q h e = ground (arith, e, uses-put table fd (some p) n q h)

-- A descriptor with the entry `p` is closed.
pub uses-closed :
    (table : ℕ → Option ℕ) (fd p n q : ℕ)
    → fd < n
    → table fd ≡ some p
    → uses (put table fd none) n q + (if p == q then 1 else 0) ≡ uses table n q
uses-closed table fd p n q h e = ground (arith, e, uses-put table fd none n q h)

pub uses-less :
    (table : ℕ → Option ℕ) (fd p n : ℕ)
    → fd < n
    → table fd ≡ some p
    → uses (put table fd none) n p + 1 ≡ uses table n p
uses-less table fd p n h e = ground (arith, uses-closed table fd p n p h e)

-- Three descriptors share the entry `p`.
abbrev pub first_three : ℕ → ℕ → Option ℕ
first_three p fd = if ltb fd 3 then some p else none

pub uses-first_three : (p n : ℕ) → uses (first_three p) (3 + n) p ≡ 3
unfolding uses
uses-first_three p zero = ground arith
uses-first_three p (suc n) = ground (arith, uses-first_three p n)
