-- ===== src/Vfs/Names.antt =====
-- The names of a device, and when two devices share none.
use cs.Base.{
  Bool, true, false, [], ◌∷◌, Option, none, some, ◌≡◌, refl, inl, inr, ◌||◌, arith, Bool-cases,
}
use cs.Vfs.{Name, KnownDev, FsOps, same, samestring, samestring3, volume, clashes, mkrawname}

pub same-eq : (a b : Name) → same a b ≡ true → a ≡ b
same-eq [] [] h = refl
same-eq [] (y ∷ ys) h = absurd (ground (arith, h))
same-eq (x ∷ xs) [] h = absurd (ground (arith, h))
same-eq (x ∷ xs) (y ∷ ys) h =
    let e : x ≡ y = ground (arith, h) in cc (e, same-eq xs ys (ground (arith, h)))

pub same_refl : (a : Name) → same a a ≡ true
same_refl [] = refl
same_refl (x ∷ xs) = ground (arith, same_refl xs)

pub same_sym : (a b : Name) → same a b ≡ same b a
same_sym [] [] = refl
same_sym [] (y ∷ ys) = refl
same_sym (x ∷ xs) [] = refl
same_sym (x ∷ xs) (y ∷ ys) = ground (arith, same_sym xs ys)

-- Two strings that are both `n` are the same string.
pub samestring-both :
    (a b : Option Name) (n : Name)
    → samestring a (some n) ≡ true
    → samestring b (some n) ≡ true
    → samestring a b ≡ true
samestring-both none b n h k = h
samestring-both (some a) none n h k = absurd (ground (arith, k))
samestring-both (some a) (some b) n h k = rw (same-eq a n h) (rw (same-eq b n k) (same_refl n))

pub samestring_sym : (a b : Option Name) → samestring a b ≡ samestring b a
samestring_sym none none = refl
samestring_sym none (some b) = refl
samestring_sym (some a) none = refl
samestring_sym (some a) (some b) = same_sym a b

pub same-mkrawname : (a : Name) → same (mkrawname a) a ≡ false
same-mkrawname [] = refl
same-mkrawname (x ∷ xs) = ground (arith, same-mkrawname xs)

-- A device answers to its name, its raw name and the volume name of its file system.
unfoldable pub named : FsOps → KnownDev → Name → Bool
named ops kd n =
    samestring (volume ops kd.fs) (some n)
    || samestring kd.rawname (some n)
    || samestring (some kd.name) (some n)

pub clashes-apart :
    (ops : FsOps) (a b : KnownDev) (n : Name)
    → clashes ops (some a.name) a.rawname (volume ops a.fs) b ≡ false
    → named ops a n ≡ true
    → named ops b n ≡ false
unfolding named
clashes-apart ops a b n c h =
    let both = λ (x y : Option Name). samestring-both x y n in
    ground (
      arith,
      c,
      h,
      both (volume ops b.fs) (volume ops a.fs),
      both (volume ops b.fs) a.rawname,
      both (volume ops b.fs) (some a.name),
      both b.rawname (volume ops a.fs),
      both b.rawname a.rawname,
      both b.rawname (some a.name),
      both (some b.name) (volume ops a.fs),
      both (some b.name) a.rawname,
      both (some b.name) (some a.name),
    )

pub samestring-shared :
    (a b : Option Name)
    → samestring a b ≡ true
    → (n : Name) × (samestring a (some n) ≡ true) × (samestring b (some n) ≡ true)
samestring-shared none b h = absurd (ground (arith, h))
samestring-shared (some a) none h = absurd (ground (arith, h))
samestring-shared (some a) (some b) h = (b, h, same_refl b)

samestring3-shared :
    (ops : FsOps) (a : KnownDev) (x : Option Name)
    → samestring3 x (some a.name) a.rawname (volume ops a.fs) ≡ true
    → (n : Name) × (samestring x (some n) ≡ true) × (named ops a n ≡ true)
unfolding named
samestring3-shared ops a x h = elim (Bool-cases (samestring x (some a.name))) [
  | inl e ↦ let (n, l, r) = samestring-shared x (some a.name) e in (n, l, ground (arith, r))
  | inr e ↦ elim (Bool-cases (samestring x a.rawname)) [
    | inl f ↦ let (n, l, r) = samestring-shared x a.rawname f in (n, l, ground (arith, r))
    | inr f ↦
        let (n, l, r) = samestring-shared x (volume ops a.fs) (ground (arith, h, e, f)) in
        (n, l, ground (arith, r))
  ]
]

pub clashes-shared :
    (ops : FsOps) (a b : KnownDev)
    → clashes ops (some a.name) a.rawname (volume ops a.fs) b ≡ true
    → (n : Name) × (named ops b n ≡ true) × (named ops a n ≡ true)
unfolding named
clashes-shared ops a b h =
    elim (Bool-cases (samestring3 (volume ops b.fs) (some a.name) a.rawname (volume ops a.fs))) [
      | inl e ↦
          let (n, l, r) = samestring3-shared ops a (volume ops b.fs) e in (n, ground (arith, l), r)
      | inr e ↦
          elim (Bool-cases (samestring3 b.rawname (some a.name) a.rawname (volume ops a.fs))) [
            | inl f ↦
                let (n, l, r) = samestring3-shared ops a b.rawname f in (n, ground (arith, l), r)
            | inr f ↦
                let (n, l, r) = samestring3-shared ops a (some b.name) (ground (arith, h, e, f)) in
                (n, ground (arith, l), r)
          ]
    ]
