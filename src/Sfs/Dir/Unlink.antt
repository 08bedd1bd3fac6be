-- ===== src/Sfs/Dir/Unlink.antt =====
-- sfs_dir_unlink takes a name out of the map.
use cs.Base.{
  err, ◌≢◌, ℕ, zero, suc, ◌+◌, ◌<◌, Bool, true, false, not, ◌&&◌, List, [], ◌∷◌, none, some, length,
  set, ret, ok, ◌==◌, if◌then◌else◌, ◌≡◌, ap, ◌∙◌, inl, inr, Bool-cases, arith,
}
use cs.Vfs.{Name, same, is_some}
use cs.Vfs.Names.{same-eq}
use cs.Sfs.Dir.{Entry, SlotIo, Found, writedir, findname, unlink, inode_of, is_dir, count}
use cs.Sfs.Dir.Find.{Reads, slot_of, same_names, findname-eq}
use cs.Sfs.Dir.Link.{same_of, is_some-none}

-- The slot `k` has the name.
abbrev pub used_at : Name → ℕ → List Entry → Bool
used_at n k [] = false
used_at n zero (e ∷ es) = not (e.ino == 0) && same e.name n
used_at n (suc k) (e ∷ es) = used_at n k es

-- The inode of the slot `k`
abbrev pub ino_at : ℕ → List Entry → ℕ
ino_at k [] = 0
ino_at zero (e ∷ es) = e.ino
ino_at (suc k) (e ∷ es) = ino_at k es

slot_of-used_at :
    (n : Name) (es : List Entry) (i k x : ℕ)
    → slot_of n es i ≡ some (k, x)
    → (j : ℕ) × (k ≡ i + j) × (used_at n j es ≡ true) × (ino_at j es ≡ x)
slot_of-used_at n [] i k x h = absurd (ground (arith, h))
slot_of-used_at n (e ∷ es) i k x h = elim (Bool-cases (not (e.ino == 0) && same e.name n)) [
  | inl z ↦ (0, ground (arith, h, z), z, ground (arith, h, z))
  | inr z ↦
      let (j, q, r, t) = slot_of-used_at n es (suc i) k x (ground (arith, h, z)) in
      (suc j, omega (arith, q), r, t)
]

used_at-inode_of :
    (n : Name) (k : ℕ) (es : List Entry) → used_at n k es ≡ true → is_some (inode_of n es) ≡ true
unfolding inode_of
used_at-inode_of n k [] h = absurd (ground (arith, h))
used_at-inode_of n zero (e ∷ es) h = ground (arith, h)
used_at-inode_of n (suc k) (e ∷ es) h = ground (arith, used_at-inode_of n k es h)

length-used_at : (n : Name) (k : ℕ) (es : List Entry) → used_at n k es ≡ true → k < length es
length-used_at n k [] h = absurd (ground (arith, h))
length-used_at n zero (e ∷ es) h = omega arith
length-used_at n (suc k) (e ∷ es) h = omega (arith, length-used_at n k es h)

same_left : (a b n : Name) → same a b ≡ true → same a n ≡ same b n
same_left a b n h = ap (λ x. same x n) (same-eq a b h)

abbrev pub clear : Entry
clear = record { ino = 0; name = [] }

inode_of-clear :
    (name : Name) (k : ℕ) (es : List Entry) (n : Name)
    → used_at name k es ≡ true
    → is_dir es ≡ true
    → inode_of n (set es k clear) ≡ (if same name n then none else inode_of n es)
unfolding inode_of is_dir
inode_of-clear name k [] n h d = absurd (ground (arith, h))
inode_of-clear name zero (e ∷ es) n h d =
    let gone = is_some-none (inode_of e.name es) (ground (arith, h, d)) in
    ground (arith, h, gone, same_names e.name n es, same_left e.name name n, same_of name n e)
inode_of-clear name (suc k) (e ∷ es) n h d = ground (
  arith,
  d,
  used_at-inode_of name k es h,
  inode_of-clear name k es n h,
  same_names e.name name es,
  same_of name n e,
)

is_dir-clear :
    (name : Name) (k : ℕ) (es : List Entry)
    → used_at name k es ≡ true
    → is_dir es ≡ true
    → is_dir (set es k clear) ≡ true
unfolding inode_of is_dir
is_dir-clear name k [] h d = absurd (ground (arith, h))
is_dir-clear name zero (e ∷ es) h d = ground (arith, d)
is_dir-clear name (suc k) (e ∷ es) h d =
    ground (arith, d, is_dir-clear name k es h, inode_of-clear name k es e.name h)

count-clear :
    (name : Name) (k : ℕ) (es : List Entry) (j : ℕ)
    → used_at name k es ≡ true
    → j ≢ 0
    → (if ino_at k es == j then 1 else 0) + count j (set es k clear) ≡ count j es
unfolding count
count-clear name k [] j h z = absurd (ground (arith, h))
count-clear name zero (e ∷ es) j h z = ground (arith, h, z)
count-clear name (suc k) (e ∷ es) j h z = ground (arith, count-clear name k es j h z)

used_at-ino_at :
    (name : Name) (k : ℕ) (es : List Entry) → used_at name k es ≡ true → ino_at k es ≢ 0
used_at-ino_at name k [] h z = absurd (ground (arith, h))
used_at-ino_at name zero (e ∷ es) h z = ground (arith, h, z)
used_at-ino_at name (suc k) (e ∷ es) h z = used_at-ino_at name k es h z

-- What clearing a slot of the inode `ino` that has the name leaves.
pub record Cleared (name : Name) (ino : ℕ) (es es' : List Entry) : Type 0 where
  pub unique : is_dir es' ≡ true
  pub names : (n : Name) → inode_of n es' ≡ (if same name n then none else inode_of n es)
  pub counts : (j : ℕ) → j ≢ 0 → (if ino == j then 1 else 0) + count j es' ≡ count j es
  pub used : ino ≢ 0

pub slot_of-Cleared :
    (name : Name) (es : List Entry) (slot ino : ℕ)
    → is_dir es ≡ true
    → slot_of name es 0 ≡ some (slot, ino)
    → (slot < length es) × Cleared name ino es (set es slot clear)
slot_of-Cleared name es slot ino d hit =
    let (j, q, u, x) = slot_of-used_at name es 0 slot ino hit in
    let eq : slot ≡ j = omega (arith, q) in
    let at : used_at name slot es ≡ true = ap (λ k. used_at name k es) eq ∙ u in
    let i : ino_at slot es ≡ ino = ap (λ k. ino_at k es) eq ∙ x in
    (
      length-used_at name slot es at,
      record {
        unique = is_dir-clear name slot es at d;
        names = λ n. inode_of-clear name slot es n at d;
        counts = λ j z. ground (arith, count-clear name slot es j at z, i);
        used = λ z. ground (arith, used_at-ino_at name slot es at, i, z);
      },
    )

pub unlink-ok :
    (io : SlotIo) (slot : ℕ) (es : List Entry)
    → (io.write slot == 0) ≡ true
    → slot < length es
    → unlink io slot es ≡ (ok slot, set es slot clear)
unfolding unlink writedir
unlink-ok io slot es w l = ground (arith, w, l)

pub unlink-err :
    (io : SlotIo) (slot : ℕ) (es : List Entry)
    → (io.write slot == 0) ≡ false
    → unlink io slot es ≡ (err (io.write slot), es)
unfolding unlink writedir
unlink-err io slot es w = ground (arith, w)

-- The slot that sfs_dir_findname reports for a name of a directory whose names are unique, cleared by
-- sfs_dir_unlink without an error: the names are still unique, the name is gone, and every other name
-- has what it had; its inode has one slot less and every other inode as many.
pub unlink-findname :
    (io : SlotIo) (name : Name) (es : List Entry) (f : Found) (slot ino : ℕ)
    → Reads io
    → is_dir es ≡ true
    → findname io name es ≡ ret (ok f)
    → f.hit ≡ some (slot, ino)
    → io.write slot ≡ 0
    → (es' : List Entry) × (unlink io slot es ≡ (ok slot, es')) × Cleared name ino es es'
unfolding unlink writedir
unlink-findname io name es f slot ino r d h e w =
    let run = findname-eq io name es r d in
    let hit : slot_of name es 0 ≡ some (slot, ino) = ground (arith, run, h, e) in
    let (l, c) = slot_of-Cleared name es slot ino d hit in
    (set es slot clear, ground (arith, w, l), c)
