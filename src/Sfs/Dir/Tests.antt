-- ===== src/Sfs/Dir/Tests.antt =====
-- A directory with "a", an empty slot and "b".
use cs.Base.{List, some, ok, ◌≡◌, refl, [], ◌∷◌, arith}
use cs.Sfs.Dir.{Entry, SlotIo, findname, find_from, link, unlink, inode_of, is_dir}
use cs.Sfs.Dir.Link.{Links, link-Links}
use cs.Sfs.Dir.Unlink.{Cleared, unlink-findname}

abbrev slots : List Entry
slots =
    (record { ino = 7; name = 97 ∷ [] })
    ∷ (record { ino = 0; name = [] })
    ∷ (record { ino = 9; name = 98 ∷ [] })
    ∷ []

abbrev slot_io : SlotIo
slot_io = record { read = λ i. 0; write = λ i. 0 }

link-Links_example : Links slot_io (99 ∷ []) 5 slots (link slot_io (99 ∷ []) 5 slots)
unfolding is_dir inode_of
link-Links_example = link-Links slot_io (99 ∷ []) 5 slots (λ i. refl) (omega arith) refl

unlink-findname_example :
    (es' : List Entry) × (unlink slot_io 2 slots ≡ (ok 2, es')) × Cleared (98 ∷ []) 9 slots es'
unfolding findname find_from is_dir inode_of
unlink-findname_example =
    unlink-findname slot_io (98 ∷ []) slots (record { hit = some (2, 9); empty = some 1 }) 2 9
      (λ i. refl) refl refl refl refl
