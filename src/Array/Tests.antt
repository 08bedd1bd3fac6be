-- ===== src/Array/Tests.antt =====
-- Runs of lib/array.c on a small array, and its theorems at it.
use cs.Base.{◌≡◌, refl, [], ◌∷◌, some, ret, panic, arith}
use cs.Kmalloc.{zeros}
use cs.Array.{Array, init, get, new_max, memcpy, setsize, add, remove}
use cs.Array.Holds.{Holds}
use cs.Array.Resize.{Resizes, setsize-Resizes}

-- Four cells, three of them in use.
abbrev three : Array
three = record { v = 5 ∷ 6 ∷ 7 ∷ 0 ∷ []; num = 3; max = 4 }

three-Holds : Holds three (5 ∷ 6 ∷ 7 ∷ [])
three-Holds = record { unused = 0 ∷ []; cells = refl; num_eq = refl; max_eq = omega arith }

first_add :
    add zeros.block init 9 ≡ ret (0, some 0, record { v = 9 ∷ 0 ∷ 0 ∷ 0 ∷ []; num = 1; max = 4 })
unfolding add setsize new_max memcpy init
first_add = refl

remove_first : remove three 0 ≡ ret (record { v = 6 ∷ 7 ∷ 7 ∷ 0 ∷ []; num = 2; max = 4 })
unfolding remove
remove_first = refl

get_past : get three 3 ≡ panic
unfolding get
get_past = refl

setsize_example : Resizes zeros three (5 ∷ 6 ∷ 7 ∷ []) 9 (setsize zeros.block three 9)
setsize_example = setsize-Resizes zeros (5 ∷ 6 ∷ 7 ∷ []) 9 three-Holds (omega arith) (omega arith)
