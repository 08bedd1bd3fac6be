-- ===== src/Base/Outcome.antt =====
-- How a piece of kernel code ends: it returns, it fails a KASSERT or calls panic, or it leaves what C
-- defines (a read or write outside an object).
use Prim.Native.Nat.{ℕ}
use mathlib.Core.Path.{◌≡◌, refl}
use mathlib.Core.Bool.{Bool, true, false}
use mathlib.Core.Option.{Option, none, some}

pub data Run {ℓ} (A : Type ℓ) : Type ℓ where
  ret : A → Run A
  panic : Run A
  fault : Run A

-- A result, or an error code.
pub data Result (A : Type 0) : Type 0 where
  ok : A → Result A
  err : ℕ → Result A

-- What follows an operation on a state that may return an error.
abbrev pub and_then {ℓ} :
    {S : Type ℓ} {A B : Type 0}
    → Run (Result A × S)
    → (A → S → Run (Result B × S))
    → Run (Result B × S)
and_then (ret (ok a, s)) f = f a s
and_then (ret (err e, s)) f = ret (err e, s)
and_then panic f = panic
and_then fault f = fault

infixl 5 ◌>>=◌ ◌>>◌
abbrev pub ◌>>=◌ {ℓ κ} : {A : Type ℓ} {B : Type κ} → Run A → (A → Run B) → Run B
ret a >>= f = f a
panic >>= f = panic
fault >>= f = fault

abbrev pub ◌>>◌ {ℓ} : {B : Type ℓ} → Run (Unit {0}) → Run B → Run B
m >> k = m >>= λ _. k

-- KASSERT of kern/lib
abbrev pub kassert : Bool → Run (Unit {0})
kassert true = ret tt
kassert false = panic

-- A read of memory that may lie outside the object.
abbrev pub access {ℓ} : {A : Type ℓ} → Option A → Run A
access none = fault
access (some a) = ret a

pub >>=-eq-ret {ℓ κ} :
    {A : Type ℓ} {B : Type κ} (m : Run A) (f : A → Run B) {b : B}
    → (m >>= f) ≡ ret b
    → (a : A) × (m ≡ ret a) × (f a ≡ ret b)
>>=-eq-ret (ret a) f h = (a, refl, h)
>>=-eq-ret panic f h = cc
>>=-eq-ret fault f h = cc
