-- ===== src/Sfs/Dir/Find.antt =====
-- sfs_dir_findname finds what the directory has under a name, and the last empty slot.
use cs.Base.{
  ℕ, suc, true, not, ◌&&◌, List, [], ◌∷◌, Option, none, some, ret, ok, ◌==◌, if◌then◌else◌, ◌≡◌,
  refl, ap, arith,
}
use cs.Vfs.{Name, same, is_some}
use cs.Vfs.Names.{same-eq}
use cs.Sfs.Dir.{Entry, SlotIo, find_from, findname, inode_of, is_dir}

-- Reads succeed.
abbrev pub Reads : SlotIo → Type 0
Reads io = (i : ℕ) → io.read i ≡ 0

-- The slot of a name, from slot `i` on, and the last empty slot, or `d`
abbrev pub slot_of : Name → List Entry → ℕ → Option (ℕ × ℕ)
slot_of n [] i = none
slot_of n (e ∷ es) i =
    let rest = slot_of n es (suc i) in
    if not (e.ino == 0) && same e.name n then some (i, e.ino) else rest

abbrev pub last_empty : List Entry → ℕ → Option ℕ → Option ℕ
last_empty [] i d = d
last_empty (e ∷ es) i d =
    let free = last_empty es (suc i) (some i) in
    let rest = last_empty es (suc i) d in if e.ino == 0 then free else rest

pub inode_of-slot_of :
    (n : Name) (es : List Entry) (i : ℕ) → is_some (slot_of n es i) ≡ is_some (inode_of n es)
unfolding inode_of
inode_of-slot_of n [] i = refl
inode_of-slot_of n (e ∷ es) i = ground (arith, inode_of-slot_of n es (suc i))

pub slot_of-inode_of :
    (n : Name) (es : List Entry) (i k x : ℕ) → slot_of n es i ≡ some (k, x) → inode_of n es ≡ some x
unfolding inode_of
slot_of-inode_of n [] i k x h = absurd (ground (arith, h))
slot_of-inode_of n (e ∷ es) i k x h = ground (arith, h, slot_of-inode_of n es (suc i) k x)

pub same_names : (a b : Name) (es : List Entry) → same a b ≡ true → inode_of a es ≡ inode_of b es
same_names a b es h = ap (λ n. inode_of n es) (same-eq a b h)

-- Once the name is found, it is not found again.
find_from-rest :
    (io : SlotIo) (n : Name) (es : List Entry) (i : ℕ) (h : Option (ℕ × ℕ)) (d : Option ℕ)
    → Reads io
    → inode_of n es ≡ none
    → find_from io n es i (record { hit = h; empty = d })
      ≡ ret (ok (record { hit = h; empty = last_empty es i d }))
unfolding find_from inode_of
find_from-rest io n [] i h d r e = refl
find_from-rest io n (x ∷ es) i h d r e = ground (
  arith,
  r i,
  e,
  find_from-rest io n es (suc i) h d r,
  find_from-rest io n es (suc i) h (some i) r,
)

find_from-eq :
    (io : SlotIo) (n : Name) (es : List Entry) (i : ℕ) (d : Option ℕ)
    → Reads io
    → is_dir es ≡ true
    → find_from io n es i (record { hit = none; empty = d })
      ≡ ret (ok (record { hit = slot_of n es i; empty = last_empty es i d }))
unfolding find_from is_dir inode_of
find_from-eq io n [] i d r h = refl
find_from-eq io n (x ∷ es) i d r h = ground (
  arith,
  r i,
  h,
  same_names x.name n es,
  find_from-rest io n es (suc i) (some (i, x.ino)) d r,
  find_from-eq io n es (suc i) d r,
  find_from-eq io n es (suc i) (some i) r,
)

pub findname-eq :
    (io : SlotIo) (n : Name) (es : List Entry)
    → Reads io
    → is_dir es ≡ true
    → findname io n es ≡ ret (ok (record { hit = slot_of n es 0; empty = last_empty es 0 none }))
unfolding findname
findname-eq io n es r h = find_from-eq io n es 0 none r h
