-- ===== src/Bitmap/Tests.antt =====
-- Runs of lib/bitmap.c on small bitmaps, and its theorems at them.
use cs.Base.{◌≡◌, refl, true, some, none, ret, panic, ◌∷◌, [], arith}
use cs.Base.Words.{test_bit, set_bit}
use cs.Bitmap.{Bitmap, create, mark_over, alloc, alloc_from, take_bit, find_offset, mark, enospc}
use cs.Bitmap.Inv.{IsValid, with_set-IsValid}
use cs.Bitmap.Alloc.{Allocates, alloc-Allocates}
use cs.Bitmap.Create.{create-IsFresh}

-- Ten bits: the six that are left over in the second byte are in use.
abbrev ten : Bitmap
ten = record { nbits = 10; v = 0 ∷ 252 ∷ [] }

abbrev ten_3 : Bitmap
ten_3 = record { nbits = 10; v = 8 ∷ 252 ∷ [] }

create-ten : create true true 10 ≡ ret (some ten)
unfolding create mark_over set_bit
create-ten = refl

ten-IsValid : IsValid ten
ten-IsValid =
    let (b, e, fresh) = create-IsFresh 10 (omega arith) in
    let q : ten ≡ b = cc (create-ten) in rw q (fresh.0)

ten_3-IsValid : IsValid ten_3
unfolding set_bit
ten_3-IsValid = with_set-IsValid ten-IsValid 3 (omega arith)

alloc-ten_3 : alloc ten_3 ≡ ret (0, some 0, record { nbits = 10; v = 9 ∷ 252 ∷ [] })
unfolding alloc alloc_from take_bit find_offset test_bit set_bit
alloc-ten_3 = refl

alloc_full : let b : Bitmap = record { nbits = 2; v = 255 ∷ [] } in alloc b ≡ ret (enospc, none, b)
unfolding alloc alloc_from
alloc_full = refl

mark_twice : mark ten_3 3 ≡ panic
unfolding mark test_bit
mark_twice = refl

alloc-Allocates_example : Allocates ten_3 (alloc ten_3)
alloc-Allocates_example = alloc-Allocates ten_3-IsValid
