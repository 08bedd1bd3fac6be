-- ===== src/Sfs/Dir/Link.antt =====
-- sfs_dir_link and sfs_dir_unlink on the directory as a map.
use cs.Base.{
  ℕ, zero, suc, ◌+◌, ◌<◌, ◌≤◌, Bool, true, false, List, [], ◌∷◌, ◌++◌, Option, none, some, length,
  set, Run, ret, Result, ok, err, ltb, ◌==◌, if◌then◌else◌, ◌≡◌, ◌≢◌, refl, ap, ◌⊎◌, inl, inr,
  Bool-cases, arith,
}
use cs.Vfs.{Name, same, is_some, eexist}
use cs.Vfs.Names.{same-eq, same_sym}
use cs.CopyInOut.{enametoolong}
use cs.Sfs.Dir.{Entry, SlotIo, writedir, slot_or, link, inode_of, is_dir, count}
use cs.Sfs.Dir.Find.{Reads, slot_of, last_empty, inode_of-slot_of, findname-eq}

-- The slot `k` is there and empty.
abbrev pub empty_at : ℕ → List Entry → Bool
empty_at k [] = false
empty_at zero (e ∷ es) = e.ino == 0
empty_at (suc k) (e ∷ es) = empty_at k es

last_empty-empty_at :
    (es : List Entry) (i k : ℕ) (d : Option ℕ)
    → last_empty es i d ≡ some k
    → (d ≡ some k) ⊎ ((j : ℕ) × (k ≡ i + j) × (empty_at j es ≡ true))
last_empty-empty_at [] i k d h = inl h
last_empty-empty_at (e ∷ es) i k d h = elim (Bool-cases (e.ino == 0)) [
  | inl z ↦ elim (last_empty-empty_at es (suc i) k (some i) (ground (arith, h, z))) [
    | inl q ↦ inr (0, ground (arith, q), z)
    | inr (j, q, r) ↦ inr (suc j, omega (arith, q), r)
  ]
  | inr z ↦ elim (last_empty-empty_at es (suc i) k d (ground (arith, h, z))) [
    | inl q ↦ inl q
    | inr (j, q, r) ↦ inr (suc j, omega (arith, q), r)
  ]
]

pub same_of : (name n : Name) (e : Entry) → same name n ≡ true → same e.name name ≡ same e.name n
same_of name n e h = ap (λ m. same e.name m) (same-eq name n h)

module _ (name : Name) (ino : ℕ) (used : ino ≢ 0) where
  abbrev new : Entry
  new = record { ino = ino; name = name }

  inode_of-set :
      (k : ℕ) (es : List Entry) (n : Name)
      → empty_at k es ≡ true
      → inode_of name es ≡ none
      → inode_of n (set es k new) ≡ (if same name n then some ino else inode_of n es)
  unfolding inode_of
  inode_of-set k [] n h a = absurd (ground (arith, h))
  inode_of-set zero (e ∷ es) n h a = ground (arith, h, a, used)
  inode_of-set (suc k) (e ∷ es) n h a =
      ground (arith, h, a, inode_of-set k es n h, same-eq name n, same_of name n e)

  is_dir-set :
      (k : ℕ) (es : List Entry)
      → empty_at k es ≡ true
      → inode_of name es ≡ none
      → is_dir es ≡ true
      → is_dir (set es k new) ≡ true
  unfolding is_dir inode_of
  is_dir-set k [] h a d = absurd (ground (arith, h))
  is_dir-set zero (e ∷ es) h a d = ground (arith, h, a, d, used)
  is_dir-set (suc k) (e ∷ es) h a d =
      ground (arith, h, a, d, is_dir-set k es h, inode_of-set k es e.name h, same_sym name e.name)

  inode_of-append :
      (es : List Entry) (n : Name)
      → inode_of name es ≡ none
      → inode_of n (es ++ new ∷ []) ≡ (if same name n then some ino else inode_of n es)
  unfolding inode_of
  inode_of-append [] n a = ground (arith, used)
  inode_of-append (e ∷ es) n a = ground (arith, a, inode_of-append es n, same_of name n e)

  is_dir-append :
      (es : List Entry)
      → inode_of name es ≡ none
      → is_dir es ≡ true
      → is_dir (es ++ new ∷ []) ≡ true
  unfolding is_dir inode_of
  is_dir-append [] a d = ground (arith, used)
  is_dir-append (e ∷ es) a d =
      ground (arith, a, d, is_dir-append es, inode_of-append es e.name, same_sym name e.name)

  count-set :
      (k : ℕ) (es : List Entry) (j : ℕ)
      → empty_at k es ≡ true
      → j ≢ 0
      → count j (set es k new) ≡ (if ino == j then 1 else 0) + count j es
  unfolding count
  count-set k [] j h z = absurd (ground (arith, h))
  count-set zero (e ∷ es) j h z = ground (arith, h, z)
  count-set (suc k) (e ∷ es) j h z = ground (arith, count-set k es j h z)

  count-append :
      (es : List Entry) (j : ℕ)
      → count j (es ++ new ∷ []) ≡ (if ino == j then 1 else 0) + count j es
  unfolding count
  count-append [] j = refl
  count-append (e ∷ es) j = ground (arith, count-append es j)

  slot_of-set :
      (k : ℕ) (es : List Entry) (n : Name) (i : ℕ)
      → empty_at k es ≡ true
      → same name n ≡ false
      → slot_of n (set es k new) i ≡ slot_of n es i
  slot_of-set k [] n i h z = absurd (ground (arith, h))
  slot_of-set zero (e ∷ es) n i h z = ground (arith, h, z)
  slot_of-set (suc k) (e ∷ es) n i h z = ground (arith, slot_of-set k es n (suc i) h z)

  slot_of-append :
      (es : List Entry) (n : Name) (i : ℕ)
      → same name n ≡ false
      → slot_of n (es ++ new ∷ []) i ≡ slot_of n es i
  slot_of-append [] n i z = ground (arith, z)
  slot_of-append (e ∷ es) n i z = ground (arith, slot_of-append es n (suc i) z)

length-empty_at : (k : ℕ) (es : List Entry) → empty_at k es ≡ true → k < length es
length-empty_at k [] h = absurd (ground (arith, h))
length-empty_at zero (e ∷ es) h = omega arith
length-empty_at (suc k) (e ∷ es) h = omega (arith, length-empty_at k es h)

-- What sfs_dir_link does to the slots `es`.
pub data Links (io : SlotIo) (name : Name) (ino : ℕ) (es : List Entry)
    : Run (Result ℕ × List Entry) → Type 0 where
  exists : is_some (inode_of name es) ≡ true → Links io name ino es (ret (err eexist, es))
  too_long : 60 ≤ length name → Links io name ino es (ret (err enametoolong, es))
  unwritten : (slot : ℕ) → io.write slot ≢ 0 → Links io name ino es (ret (err (io.write slot), es))
  linked :
      (slot : ℕ) (es' : List Entry)
      → inode_of name es ≡ none
      → is_dir es' ≡ true
      → ((n : Name) → inode_of n es' ≡ (if same name n then some ino else inode_of n es))
      → ((j : ℕ) → j ≢ 0 → count j es' ≡ (if ino == j then 1 else 0) + count j es)
      → ((n : Name) → same name n ≡ false → slot_of n es' 0 ≡ slot_of n es 0)
      → Links io name ino es (ret (ok slot, es'))

written-Links :
    (io : SlotIo) (name : Name) (ino : ℕ) (es : List Entry) (o : Option ℕ)
    → ino ≢ 0
    → inode_of name es ≡ none
    → is_dir es ≡ true
    → ((k : ℕ) → o ≡ some k → empty_at k es ≡ true)
    → Links io name ino es
        (ret (writedir io es (record { ino = ino; name = name }) (slot_or o (length es))))
unfolding writedir
written-Links io name ino es none used a d h = elim (Bool-cases (io.write (length es) == 0)) [
  | inl w ↦
      let new : Entry = record { ino = ino; name = name } in
      let run : writedir io es new (length es) ≡ (ok (length es), es ++ new ∷ []) =
        ground (arith, w) in
      rw run (
        linked (length es) (es ++ new ∷ []) a (is_dir-append name ino used es a d)
          (λ n. inode_of-append name ino used es n a) (λ j z. count-append name ino used es j)
          (λ n. slot_of-append name ino used es n 0))
  | inr w ↦
      let new : Entry = record { ino = ino; name = name } in
      let run : writedir io es new (length es) ≡ (err (io.write (length es)), es) =
        ground (arith, w) in
      rw run (unwritten (length es) (λ z. ground (arith, w, z)))
]
written-Links io name ino es (some k) used a d h = elim (Bool-cases (io.write k == 0)) [
  | inl w ↦
      let new : Entry = record { ino = ino; name = name } in
      let free = h k refl in
      let run : writedir io es new k ≡ (ok k, set es k new) =
        ground (arith, w, length-empty_at k es free) in
      rw run (
        linked k (set es k new) a (is_dir-set name ino used k es free a d)
          (λ n. inode_of-set name ino used k es n free a) (λ j. count-set name ino used k es j free)
          (λ n. slot_of-set name ino used k es n 0 free))
  | inr w ↦
      let new : Entry = record { ino = ino; name = name } in
      let run : writedir io es new k ≡ (err (io.write k), es) = ground (arith, w) in
      rw run (unwritten k (λ z. ground (arith, w, z)))
]

empty-slot : (es : List Entry) (k : ℕ) → last_empty es 0 none ≡ some k → empty_at k es ≡ true
empty-slot es k h = elim (last_empty-empty_at es 0 k none h) [
  | inl q ↦ absurd (ground (arith, q))
  | inr (j, q, r) ↦ let e : k ≡ j = omega (arith, q) in rw e r
]

pub is_some-none : (o : Option ℕ) → is_some o ≡ false → o ≡ none
is_some-none none h = refl
is_some-none (some a) h = absurd (ground (arith, h))

-- sfs_dir_link on a directory whose names are unique and whose slots can be read: EEXIST when the
-- name is there, ENAMETOOLONG when it has 60 characters or more, or the error of the write, with
-- the directory as it was; otherwise the names are still unique, the name has the inode, and every
-- other name has what it had; the inode has one slot more and every other inode as many, and every
-- other name is in the slot it was in.
pub link-Links :
    (io : SlotIo) (name : Name) (ino : ℕ) (es : List Entry)
    → Reads io
    → ino ≢ 0
    → is_dir es ≡ true
    → Links io name ino es (link io name ino es)
unfolding link
link-Links io name ino es r used d =
    let found = findname-eq io name es r d in
    let here = inode_of-slot_of name es 0 in
    elim (Bool-cases (is_some (slot_of name es 0))) [
      | inl h ↦
          let run : link io name ino es ≡ ret (err eexist, es) =
            rw (found, link) (ground (arith, h)) in
          rw run (exists (ground (arith, h, here)))
      | inr h ↦ elim (Bool-cases (ltb 60 (length name + 1))) [
        | inl l ↦
            let run : link io name ino es ≡ ret (err enametoolong, es) =
              rw (found, link) (ground (arith, h, l)) in
            rw run (too_long (ground (arith, l)))
        | inr l ↦
            let slot = slot_or (last_empty es 0 none) (length es) in
            let run : link io name ino es
                ≡ ret (writedir io es (record { ino = ino; name = name }) slot) =
              rw (found, link) (ground (arith, h, l)) in
            rw run (
              written-Links io name ino es (last_empty es 0 none) used
                (is_some-none (inode_of name es) (ground (arith, h, here))) d (empty-slot es))
      ]
    ]
