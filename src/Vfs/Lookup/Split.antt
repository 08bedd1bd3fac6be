-- ===== src/Vfs/Lookup/Split.antt =====
-- How getdevice reads a path: every form of a path that is written out is read back.
use cs.Base.{
  ℕ, zero, suc, Bool, true, [], ◌∷◌, ◌++◌, none, some, take, drop, replicate, length, ◌==◌, ◌||◌,
  ◌&&◌, not, ◌≡◌, refl, ap, ◌∙◌, arith,
}
use cs.Vfs.{Name}
use cs.Vfs.Lookup.{here, device, boot, volume, first_mark, skip_slashes, split}

-- A name in which nothing ends it: no colon and no slash.
abbrev pub plain : Name → Bool
plain [] = true
plain (c ∷ cs) = not ((c == 58) || (c == 47)) && plain cs

-- A path below the place where the lookup begins: it does not start with a slash.
abbrev pub below : Name → Bool
below [] = true
below (c ∷ cs) = not (c == 47)

-- What follows the first name of a relative path: nothing or a slash.
abbrev pub after : Name → Bool
after [] = true
after (c ∷ cs) = c == 47

slashes : (n : ℕ) (sub : Name) → below sub ≡ true → skip_slashes (replicate n 47 ++ sub) ≡ sub
unfolding skip_slashes
slashes zero [] h = refl
slashes zero (c ∷ cs) h = ground (arith, h)
slashes (suc n) sub h = slashes n sub h

first_mark-plain :
    (name rest : Name) → plain name ≡ true → first_mark (name ++ 58 ∷ rest) ≡ some (58, length name)
unfolding first_mark
first_mark-plain [] rest h = refl
first_mark-plain (c ∷ cs) rest h =
    rw (first_mark-plain cs rest (ground (arith, h)), first_mark) (ground (arith, h))

first_mark-slash :
    (name rest : Name) → plain name ≡ true → first_mark (name ++ 47 ∷ rest) ≡ some (47, length name)
unfolding first_mark
first_mark-slash [] rest h = refl
first_mark-slash (c ∷ cs) rest h =
    rw (first_mark-slash cs rest (ground (arith, h)), first_mark) (ground (arith, h))

first_mark-none : (name : Name) → plain name ≡ true → first_mark name ≡ none
unfolding first_mark
first_mark-none [] h = refl
first_mark-none (c ∷ cs) h =
    rw (first_mark-none cs (ground (arith, h)), first_mark) (ground (arith, h))

take-append : (xs ys : Name) → take (length xs) (xs ++ ys) ≡ xs
take-append [] ys = refl
take-append (x ∷ xs) ys = ap (λ zs. x ∷ zs) (take-append xs ys)

drop-append : (xs : Name) (y : ℕ) (ys : Name) → drop (suc (length xs)) (xs ++ y ∷ ys) ≡ ys
drop-append [] y ys = refl
drop-append (x ∷ xs) y ys = drop-append xs y ys

split-colon :
    (path : Name) (i : ℕ)
    → first_mark path ≡ some (58, suc i)
    → split path ≡ (device (take (suc i) path), skip_slashes (drop (suc (suc i)) path))
unfolding split
split-colon path i e = rw (e, split) (ground arith)

split-device :
    (x : ℕ) (xs : Name) (n : ℕ) (sub : Name)
    → plain (x ∷ xs) ≡ true
    → below sub ≡ true
    → split ((x ∷ xs) ++ 58 ∷ (replicate n 47 ++ sub)) ≡ (device (x ∷ xs), sub)
split-device x xs n sub h k =
    let rest = replicate n 47 ++ sub in
    let path = (x ∷ xs) ++ 58 ∷ rest in
    let front : take (suc (length xs)) path ≡ x ∷ xs = take-append (x ∷ xs) (58 ∷ rest) in
    let back : skip_slashes (drop (suc (suc (length xs))) path) ≡ sub =
      ap skip_slashes (drop-append (x ∷ xs) 58 rest) ∙ slashes n sub k in
    split-colon path (length xs) (first_mark-plain (x ∷ xs) rest h)
    ∙ ap (λ d. (device d, skip_slashes (drop (suc (suc (length xs))) path))) front
    ∙ ap (λ p. (device (x ∷ xs), p)) back

split-none : (path : Name) → first_mark path ≡ none → split path ≡ (here, path)
unfolding split
split-none path e = rw (e, split) refl

split-slash : (path : Name) (i : ℕ) → first_mark path ≡ some (47, suc i) → split path ≡ (here, path)
unfolding split
split-slash path i e = rw (e, split) (ground arith)

append_nil : (xs : Name) → xs ++ [] ≡ xs
append_nil [] = refl
append_nil (x ∷ xs) = ap (λ ys. x ∷ ys) (append_nil xs)

split-here :
    (x : ℕ) (xs rest : Name)
    → plain (x ∷ xs) ≡ true
    → after rest ≡ true
    → split ((x ∷ xs) ++ rest) ≡ (here, (x ∷ xs) ++ rest)
split-here x xs [] h k =
    split-none ((x ∷ xs) ++ []) (ap first_mark (append_nil (x ∷ xs)) ∙ first_mark-none (x ∷ xs) h)
split-here x xs (c ∷ cs) h k =
    let e : c ≡ 47 = ground (arith, k) in
    split-slash ((x ∷ xs) ++ c ∷ cs) (length xs)
      (ap (λ d. first_mark ((x ∷ xs) ++ d ∷ cs)) e ∙ first_mark-slash (x ∷ xs) cs h)

-- Every form of a path is read back: a device's name and a path below its root, a path below the boot
-- file system or below the root of the current one, with any number of slashes more, and a path whose
-- first name is no device, as a whole.
pub split-path :
    (x : ℕ) (xs : Name) (n : ℕ) (sub rest : Name)
    → plain (x ∷ xs) ≡ true
    → below sub ≡ true
    → after rest ≡ true
    → (split ((x ∷ xs) ++ 58 ∷ (replicate n 47 ++ sub)) ≡ (device (x ∷ xs), sub))
      × (split (47 ∷ (replicate n 47 ++ sub)) ≡ (boot, sub))
      × (split (58 ∷ (replicate n 47 ++ sub)) ≡ (volume, sub))
      × (split ((x ∷ xs) ++ rest) ≡ (here, (x ∷ xs) ++ rest))
unfolding split first_mark
split-path x xs n sub rest h k l = (
  split-device x xs n sub h k,
  ap (λ p. (boot, p)) (slashes n sub k),
  ap (λ p. (volume, p)) (slashes n sub k),
  split-here x xs rest h l,
)
