-- ===== src/Array.antt =====
-- lib/array.c and include/array.h: resizeable arrays of pointers. ARRAYASSERT is KASSERT.
-- A cell that the code has not written yet holds whatever the block held.
pub mod Holds
pub mod Resize
mod Tests
use cs.Kmalloc.{words}
use cs.Base.{
  ℕ, zero, suc, ◌+◌, ◌-◌, ◌*◌, ◌%◌, ◌^◌, Bool, true, false, not, ◌&&◌, List, [], ◌∷◌, ◌++◌, Option,
  none, some, Run, ret, panic, fault, kassert, access, ◌>>=◌, ◌>>◌, ltb, leb, ◌==◌, if◌then◌else◌,
  get_elem?, set, take, drop, length,
}
use cs.Base.Words.{u32}

-- `struct array`
pub record Array : Type 0 where
  pub v : List ℕ
  pub num : ℕ
  pub max : ℕ

abbrev pub enomem : ℕ
enomem = 3

-- array_init; v is NULL.
pub init : Array
init = record { v = []; num = 0; max = 0 }

-- array_create, given whether its kmalloc gave a block; `none` is NULL.
pub create : Bool → Option Array
unfolding init
create got = if got then some init else none

-- array_cleanup: what it checks, and what it leaves in the structure.
pub cleanup : Array → Run Array
cleanup a = kassert (a.num == 0) >> ret (record a { v = [] })

-- array_destroy
pub destroy : Array → Run (Unit {0})
unfolding cleanup
destroy a = do _ ← cleanup a; ret tt

-- array_num
pub num : Array → ℕ
num a = a.num

-- array_get
pub get : Array → ℕ → Run ℕ
get a index = kassert (ltb index a.num) >> access (get_elem? a.v index)

-- array_set
pub put : Array → ℕ → ℕ → Run Array
put a index val = do
  kassert (ltb index a.num)
  old ← access (get_elem? a.v index)
  ret (record a { v = set a.v index val })

-- The loop of array_setsize that finds the new capacity, with fuel; newmax is unsigned.
pub new_max : ℕ → ℕ → ℕ → Run ℕ
new_max zero num newmax = fault
new_max (suc f) num newmax =
    let rest = new_max f num (if newmax == 0 then 4 else u32 (newmax * 2)) in
    if ltb newmax num then rest else ret newmax

-- memcpy of the first `n` cells of `from` over those of `to`.
pub memcpy : List ℕ → List ℕ → ℕ → Run (List ℕ)
memcpy to from n =
    if leb n (length to) && leb n (length from) then ret (take n from ++ drop n to) else fault

-- array_setsize: the return value and the array.
pub setsize : (ℕ → Option (List ℕ)) → Array → ℕ → Run (ℕ × Array)
unfolding memcpy
setsize kmalloc a num =
    let grown = (do
      newmax ← new_max 32 num a.max
      elim (kmalloc (words newmax)) as (λ _. Run (ℕ × Array)) [
        | none ↦ ret (enomem, a)
        | some newptr ↦
            memcpy newptr a.v a.num >>= λ v. ret (0, record { v = v; num = num; max = newmax })
      ]) in
    if ltb a.max num then grown else ret (0, record a { num = num })

-- array_add: the return value, what goes through index_ret, and the array.
pub add : (ℕ → Option (List ℕ)) → Array → ℕ → Run (ℕ × Option ℕ × Array)
add kmalloc a val =
    let index = a.num in
    do
      (result, a') ← setsize kmalloc a (u32 (index + 1))
      elim (result == 0) as (λ _. Run (ℕ × Option ℕ × Array)) [
        | false ↦ ret (result, none, a')
        | true ↦ access (get_elem? a'.v index) >>= λ old.
            ret (0, some index, record a' { v = set a'.v index val })
      ]

-- array_remove. The memmove moves the cells after `index` down by one; the last of them stays as it
-- is.
pub remove : Array → ℕ → Run Array
remove a index = do
  kassert (leb a.num a.max)
  kassert (ltb index a.num)
  if leb a.num (length a.v)
      then ret (record a {
        v =
            take index a.v
            ++ (take (a.num - (index + 1)) (drop (index + 1) a.v) ++ drop (a.num - 1) a.v);
        num = a.num - 1;
      })
      else fault
