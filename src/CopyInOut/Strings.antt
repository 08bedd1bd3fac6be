-- ===== src/CopyInOut/Strings.antt =====
-- copystr, copyinstr and copyoutstr.
use cs.Base.{
  ℕ, zero, suc, ◌+◌, ◌-◌, ◌^◌, ◌≤◌, ◌<◌, ◌≡◌, ◌≢◌, ◌⊎◌, inl, inr, refl, sym, ap, Bool, true, false,
  none, some, arith, ◌==◌, if◌then◌else◌, ltb, leb,
}
use cs.CopyInOut.{
  efault, enametoolong, userspacetop, Machine, copycheck, store, movable, Result, guarded, refuse,
  Scan, found, bound, trapped, scan, min_of, finish, copystr, copyinstr, copyoutstr,
}
use cs.CopyInOut.Blocks.{copycheck_lem, Copies, copied, Apart}

-- The copy of the first `n` bytes, `i` of them made.
record Copying (m : Machine) (dest src i : ℕ) (m' : Machine) : Type 0 where
  content : (a : ℕ) → m'.bytes a ≡ copied m dest src i a
  readable : m'.readable ≡ m.readable
  writable : m'.writable ≡ m.writable

Copying-zero : (m : Machine) (dest src : ℕ) → Copying m dest src 0 m
Copying-zero m dest src = record { content = λ a. ground arith; readable = refl; writable = refl }

Copying-at :
    (m : Machine) (dest src : ℕ) {i j : ℕ} {m' : Machine}
    → i ≡ j
    → Copying m dest src i m'
    → Copying m dest src j m'
Copying-at m dest src e c = rw (sym e) c

Copying-store :
    (m m' : Machine) (dest src i : ℕ)
    → Apart dest src (suc i)
    → Copying m dest src i m'
    → Copying m dest src (suc i) (store m' (dest + i) (m'.bytes (src + i)))
Copying-store m m' dest src i ap c = record {
  content = λ a. ground (arith, c.content a, c.content (src + i), ap);
  readable = c.readable;
  writable = c.writable;
}

-- What a scan that began at index `i` finds: the first null of the source, no null in any of the
-- bytes, or a byte that traps.
abbrev ScanEnds : Machine → ℕ → ℕ → ℕ → ℕ → Scan → Type 0
ScanEnds m dest src i left (found n m') =
    (k : ℕ) × (n ≡ k + 1)
    × (i ≤ k)
    × (k < i + left)
    × (m.bytes (src + k) ≡ 0)
    × ((j : ℕ) → i ≤ j → j < k → m.bytes (src + j) ≢ 0)
    × Copying m dest src n m'
ScanEnds m dest src i left (bound m') =
    ((j : ℕ) → i ≤ j → j < i + left → m.bytes (src + j) ≢ 0) × Copying m dest src (i + left) m'
ScanEnds m dest src i left (trapped m') =
    (k : ℕ) × (i ≤ k)
    × (k < i + left)
    × (movable m (dest + k) (src + k) ≡ false)
    × Copying m dest src k m'

module _ (m : Machine) (dest src : ℕ) where
  no_null_from :
      (i n : ℕ)
      → m.bytes (src + i) ≢ 0
      → ((j : ℕ) → i + 1 ≤ j → j < n → m.bytes (src + j) ≢ 0)
      → (j : ℕ) → i ≤ j
      → j < n
      → m.bytes (src + j) ≢ 0
  no_null_from i n h hs j hi hj e = elim (le_cases i j hi) [
    | inl same ↦ h (rw same e)
    | inr more ↦ hs j more hj e
  ]
    where
      le_cases : (a b : ℕ) → a ≤ b → (a ≡ b) ⊎ (a + 1 ≤ b)
      le_cases a b ab = ground arith

  ScanEnds-step :
      (i left : ℕ) (r : Scan)
      → m.bytes (src + i) ≢ 0
      → ScanEnds m dest src (i + 1) left r
      → ScanEnds m dest src i (suc left) r
  ScanEnds-step i left (found n m') h (k, en, hi, hk, hz, hs, c) =
      (k, en, omega arith, omega arith, hz, no_null_from i k h hs, c)
  ScanEnds-step i left (bound m') h (hs, c) =
      let e : i + 1 + left ≡ i + suc left = omega arith in
      let hs' : ((j : ℕ) → i + 1 ≤ j → j < i + suc left → m.bytes (src + j) ≢ 0) =
        λ j a b. hs j a (rw e b) in
      (no_null_from i (i + suc left) h hs', Copying-at m dest src e c)
  ScanEnds-step i left (trapped m') h (k, hi, hk, hb, c) = (k, omega arith, omega arith, hb, c)

  module _ (i left : ℕ) (m' : Machine) (r : Scan) (ap : Apart dest src (i + suc left))
      (c : Copying m dest src i m') where
    same : m'.bytes (src + i) ≡ m.bytes (src + i)
    same = ground (arith, c.content (src + i), ap)

    more : Copying m dest src (i + 1) (store m' (dest + i) (m'.bytes (src + i)))
    more =
        Copying-at m dest src (omega arith) (Copying-store m m' dest src i (ground (arith, ap)) c)

    movable_same : movable m' (dest + i) (src + i) ≡ false → movable m (dest + i) (src + i) ≡ false
    movable_same h = rw (sym c.readable, sym c.writable) h

    ScanEnds-if :
        (b z : Bool)
        → movable m' (dest + i) (src + i) ≡ b
        → (m'.bytes (src + i) == 0) ≡ z
        → (m.bytes (src + i) ≢ 0 → ScanEnds m dest src (i + 1) left r)
        → ScanEnds m dest src i (suc left) (
            if b
            then (if z then found (i + 1) (store m' (dest + i) (m'.bytes (src + i))) else r)
            else trapped m')
    ScanEnds-if false z hb hz hr = (i, omega arith, omega arith, movable_same hb, c)
    ScanEnds-if true true hb hz hr = (
      i,
      omega arith,
      omega arith,
      omega arith,
      ground (arith, hz, same),
      λ j a b. absurd (omega arith),
      more,
    )
    ScanEnds-if true false hb hz hr =
        let h : m.bytes (src + i) ≢ 0 = ground (arith, hz, same) in ScanEnds-step i left r h (hr h)

  scan_lem :
      (left i : ℕ) (m' : Machine)
      → Apart dest src (i + left)
      → Copying m dest src i m'
      → ScanEnds m dest src i left (scan left m' dest src i)
  unfolding scan
  scan_lem zero i m' ap c = (λ j a b. absurd (omega arith), Copying-at m dest src (omega arith) c)
  scan_lem (suc left) i m' ap c =
      let m1 = store m' (dest + i) (m'.bytes (src + i)) in
      let r = scan left m1 dest src (i + 1) in
      ScanEnds-if i left m' r ap c (movable m' (dest + i) (src + i)) (m'.bytes (src + i) == 0) refl
        refl (λ h. scan_lem left (i + 1) m1 (ground (arith, ap)) (more i left m' r ap c))

-- The first `n` bytes of the source are not null.
abbrev pub NoNull : Machine → ℕ → ℕ → Type 0
NoNull m src n = (j : ℕ) → 0 ≤ j → j < n → m.bytes (src + j) ≢ 0

-- What the string functions leave, for the user address `user`. With 0, the string and its null are
-- copied, and the length with the null is stored. With ENAMETOOLONG, the `len` bytes hold no null and
-- are copied. Otherwise a part is copied and the error is EFAULT.
pub data Ends (m : Machine) (dest src user len : ℕ) (r : Result) : Type 0 where
  whole :
      (k : ℕ)
      → k < len
      → user + k < userspacetop
      → m.bytes (src + k) ≡ 0
      → NoNull m src k
      → r.error ≡ 0
      → r.got ≡ some (k + 1)
      → Copies m dest src (k + 1) r.machine
      → Ends m dest src user len r
  too_long :
      user + len ≤ userspacetop
      → NoNull m src len
      → r.error ≡ enametoolong
      → r.got ≡ none
      → Copies m dest src len r.machine
      → Ends m dest src user len r
  faulted :
      (k : ℕ)
      → k ≤ len
      → r.error ≡ efault
      → r.got ≡ none
      → Copies m dest src k r.machine
      → Ends m dest src user len r

Copies-of :
    {m m' : Machine} {dest src n : ℕ} (b : Bool)
    → Copying (guarded m) dest src n m'
    → Copies m dest src n (record m' { badfaultfunc = b })
Copies-of b c = record { content = c.content; readable = c.readable; writable = c.writable }

bounds :
    (user len stop : ℕ)
    → stop ≡ (if leb (user + len) userspacetop then len else userspacetop - user)
    → user < userspacetop
    → (user + len ≤ userspacetop) × (min_of len stop ≡ len) × (ltb stop len ≡ false)
      ⊎ (min_of len stop ≤ len) × (ltb stop len ≡ true)
bounds user len stop es hu = ground (arith, es)

finish-Ends :
    (m : Machine) (dest src user len stop : ℕ) (r : Scan)
    → stop ≡ (if leb (user + len) userspacetop then len else userspacetop - user)
    → user < userspacetop
    → ScanEnds (guarded m) dest src 0 (min_of len stop) r
    → Ends m dest src user len (finish len stop r)
unfolding finish
finish-Ends m dest src user len stop (found n m') es hu (k, en, hi, hk, hz, hs, c) =
    whole k (ground (arith, hk, es)) (ground (arith, hk, es)) hz hs refl (rw en refl)
      (Copies-of false (Copying-at (guarded m) dest src en c))
finish-Ends m dest src user len stop (bound m') es hu (hs, c) = elim (bounds user len stop es hu) [
  | inl (fits, e, t) ↦
      too_long fits (λ j a b. hs j a (ground (arith, b, e))) (rw t refl) refl
        (Copies-of false (Copying-at (guarded m) dest src (omega (arith, e)) c))
  | inr (e, t) ↦
      faulted (min_of len stop) e (rw t refl) refl
        (Copies-of false (Copying-at (guarded m) dest src (omega arith) c))
]
finish-Ends m dest src user len stop (trapped m') es hu (k, hi, hk, hb, c) =
    faulted k (ground (arith, hk, es)) refl refl (Copies-of false c)

-- copyinstr and copyoutstr, in the parts they have in common
move_string : Machine → ℕ → ℕ → ℕ → ℕ → Result
move_string m dest src user len =
    let c = copycheck user len in
    if c.error == 0 then copystr (guarded m) dest src len c.stoplen else refuse c.error m

move_string-Ends :
    (m : Machine) (dest src user len : ℕ)
    → user < 2 ^ 32
    → 0 < len
    → len < 2 ^ 32
    → Apart dest src len
    → Ends m dest src user len (move_string m dest src user len)
unfolding move_string copystr
move_string-Ends m dest src user len hu h0 hl ap =
    let (err, cases) = copycheck_lem user len hu h0 hl in
    elim cases [
      | inl (below, fits, e) ↦
          let err0 : (copycheck user len).error ≡ 0 = ground (arith, err) in
          let stop = (copycheck user len).stoplen in
          rw err0 (
            finish-Ends m dest src user len stop (scan (min_of len stop) (guarded m) dest src 0) e
              below
              (scan_lem (guarded m) dest src (min_of len stop) 0 (guarded m) (ground (arith, ap, e))
                (Copying-zero (guarded m) dest src)))
      | inr bad ↦ rw bad (
          faulted 0 (omega arith) refl refl
            (record { content = λ a. ground arith; readable = refl; writable = refl }))
    ]

-- For a user address, a length that is not 0 and a kernel buffer apart from the user's string,
-- copyinstr returns 0 with the whole string, its null included, copied to dest and its length
-- stored, the string ending below USERSPACETOP; or ENAMETOOLONG with `len` bytes copied that hold no
-- null; or EFAULT with a part copied. No byte outside the copy changes.
pub copyinstr-Ends :
    (m : Machine) (usersrc dest len : ℕ)
    → usersrc < 2 ^ 32
    → 0 < len
    → len < 2 ^ 32
    → Apart dest usersrc len
    → Ends m dest usersrc usersrc len (copyinstr m usersrc dest len)
unfolding copyinstr move_string
copyinstr-Ends m usersrc dest len = move_string-Ends m dest usersrc usersrc len

-- For a user address, a length that is not 0 and a kernel string apart from the user's buffer,
-- copyoutstr returns 0 with the whole string, its null included, copied below USERSPACETOP and its
-- length stored; or ENAMETOOLONG with `len` bytes copied that hold no null; or EFAULT with a part
-- copied. No byte outside the copy changes.
pub copyoutstr-Ends :
    (m : Machine) (src userdest len : ℕ)
    → userdest < 2 ^ 32
    → 0 < len
    → len < 2 ^ 32
    → Apart userdest src len
    → Ends m userdest src userdest len (copyoutstr m src userdest len)
unfolding copyoutstr move_string
copyoutstr-Ends m src userdest len = move_string-Ends m userdest src userdest len
