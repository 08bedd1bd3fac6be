-- ===== src/Files/Open.antt =====
-- file_open takes the first free descriptor, with one reference and one open of its vnode.
use cs.Base.{
  ℕ, zero, suc, ◌+◌, ◌≤◌, ◌<◌, ◌≡◌, ◌≢◌, refl, List, Option, none, some, Run, ret, panic, fault,
  Result, ok, err, ◌==◌, inl, inr, Bool-cases, arith, put,
}
use cs.Vfs.{Name, KnownDev, FsOps, einval}
use cs.Vfs.Lookup.{VnodeOps, Vnodes}
use cs.Vfs.Lookup.Counts.{one}
use cs.Vfs.Lookup.Refs.{IsWorking}
use cs.Vfs.Open.{OpenOps, Opened, how, vfs_open}
use cs.Vfs.Open.Counts.{Has, Opens, opened, refused, vfs_open-Opens}
use cs.Files.{Entry, Files, find_free, install, file_open, emfile}
use cs.Files.Uses.{uses, IsFiles, uses-given, uses-none}

-- A search of the descriptors from `lo` up to `hi`
data Searches (table : ℕ → Option ℕ) (lo hi : ℕ) : Option ℕ → Type 0 where
  full : ((fd : ℕ) → lo ≤ fd → fd < hi → table fd ≢ none) → Searches table lo hi none
  free :
      (fd : ℕ)
      → fd < hi
      → table fd ≡ none
      → ((k : ℕ) → lo ≤ k → k < fd → table k ≢ none)
      → Searches table lo hi (some fd)

taken_from :
    (table : ℕ → Option ℕ) (lo k : ℕ) (p : ℕ)
    → table lo ≡ some p
    → lo ≤ k
    → (lo + 1 ≤ k → table k ≢ none)
    → table k ≢ none
taken_from table lo k p e b rest n = elim (Bool-cases (k == lo)) [
  | inl z ↦ absurd (ground (arith, z, e, n))
  | inr z ↦ rest (ground (arith, z, b)) n
]

find_free-Searches :
    (table : ℕ → Option ℕ) (n lo : ℕ) → Searches table lo (lo + n) (find_free table n lo)
unfolding find_free
find_free-Searches table zero lo = full (λ fd a b. absurd (omega (arith, a, b)))
find_free-Searches table (suc n) lo =
    go (find_free table n (lo + 1)) (find_free-Searches table n (lo + 1)) (table lo) refl
  where
    later :
        (p : ℕ) (o : Option ℕ)
        → table lo ≡ some p
        → Searches table (lo + 1) (lo + 1 + n) o
        → Searches table lo (lo + suc n) o
    later p o e (full f) =
        full (λ fd a b. taken_from table lo fd p e a (λ c. f fd c (omega (arith, b))))
    later p o e (free fd b m f) =
        free fd (omega (arith, b)) m (λ k a c. taken_from table lo k p e a (λ d. f k d c))

    go :
        (r : Option ℕ)
        → Searches table (lo + 1) (lo + 1 + n) r
        → (o : Option ℕ) → table lo ≡ o
        → Searches table lo (lo + suc n) (elim o as (λ _. Option ℕ) [ none ↦ some lo | some p ↦ r ])
    go r q none e = free lo (omega arith) e (λ k a b. absurd (omega (arith, a, b)))
    go r q (some p) e = later p r e q

abbrev pub new_entry : ℕ → ℕ → Entry
new_entry v flags = record { vnode = some v; pos = 0; flags = flags; count = 1 }

-- What file_open does, where kmalloc returns `p` for the entry.
pub data Opening (s : Vnodes) (p flags : ℕ) (f : Files) : Run (Result ℕ × Files) → Type 0 where
  no_descriptor :
      ((fd : ℕ) → fd < 128 → f.table fd ≢ none) → Opening s p flags f (ret (err emfile, f))
  no_file :
      (e : ℕ) (t : Opened)
      → Has s s.refs f.vfs.opens t
      → Opening s p flags f (ret (err e, record f { vfs = t }))
  opening :
      (fd v : ℕ) (f' : Files)
      → fd < 128
      → f.table fd ≡ none
      → ((k : ℕ) → k < fd → f.table k ≢ none)
      → f'.table ≡ put f.table fd (some p)
      → f'.entries ≡ put f.entries p (some (new_entry v flags))
      → Has s (λ j. s.refs j + one v j) (λ j. f.vfs.opens j + one v j) f'.vfs
      → IsFiles f'
      → Opening s p flags f (ret (ok fd, f'))

abbrev with_entry : ℕ → ℕ → Entry → Opened → Files → Files
with_entry p fd e t f = record {
  table = put f.table fd (some p);
  entries = put f.entries p (some e);
  vfs = t;
}

no_use : (f : Files) (p : ℕ) → IsFiles f → f.entries p ≡ none → uses f.table 128 p ≡ 0
no_use f p i n =
    uses-none f.table 128 p (λ fd b e. let (x, y, _) = i.shared fd p b e in ground (arith, y, n))

with_entry-IsFiles :
    (f : Files) (p fd : ℕ) (e : Entry) (t : Opened)
    → IsFiles f
    → f.entries p ≡ none
    → fd < 128
    → f.table fd ≡ none
    → e.count ≡ 1
    → IsFiles (with_entry p fd e t f)
with_entry-IsFiles f p fd e t i n b y c = record { shared = shared }
  where
    shared :
        (fd' p' : ℕ)
        → fd' < 128
        → put f.table fd (some p) fd' ≡ some p'
        → (x : Entry) × (put f.entries p (some e) p' ≡ some x)
          × (x.count ≡ uses (put f.table fd (some p)) 128 p')
    shared fd' p' b' h = elim (Bool-cases (p' == p)) [
      | inl z ↦ (
        e,
        ground (arith, z),
        ground (arith, z, c, no_use f p i n, uses-given f.table fd p 128 p' b y),
      )
      | inr z ↦
          let h' : f.table fd' ≡ some p' = ground (arith, h, z) in
          let (x, m, k) = i.shared fd' p' b' h' in
          (x, ground (arith, z, m), ground (arith, z, k, uses-given f.table fd p 128 p' b y))
    ]

-- file_open with what vfs_open gave
abbrev with_vnode : ℕ → ℕ → ℕ → Files → Run (Result ℕ × Opened) → Run (Result ℕ × Files)
with_vnode p fd flags f r = elim r [
  | ret r ↦ elim r.0 [
    | ok v ↦ install (some p) fd v flags (record f { vfs = r.1 })
    | err e ↦ ret (err e, record f { vfs = r.1 })
  ]
  | panic ↦ panic
  | fault ↦ fault
]

module _ (fsops : FsOps) (ops : VnodeOps) (o : OpenOps) (devs : List KnownDev) where
  -- On entries with the numbers of their descriptors, with an entry from kmalloc that is not in
  -- use, where the table of devices is in order, the current directory, if there is one, lies in a
  -- file system, and VOP_RECLAIM takes out of memory every vnode that had no reference: file_open
  -- returns. It gives the first free descriptor, with an entry for the vnode at position 0, and the
  -- vnode has one reference and one open more; or EMFILE when no descriptor is free; or an error
  -- with the table as it was and the counts of all vnodes as they were. The entries still have the
  -- numbers of their descriptors.
  pub file_open-Opening :
      (p : ℕ) (filename : Name) (flags mode : ℕ) (f : Files)
      → IsFiles f
      → f.entries p ≡ none
      → IsWorking fsops ops devs f.vfs.vnodes
      → Opening f.vfs.vnodes p flags f (file_open fsops ops o devs (some p) filename flags mode f)
  unfolding file_open install
  file_open-Opening p filename flags mode f i n w = elim (Bool-cases (how flags == 3)) [
    | inl z ↦ rw z (
        no_file einval f.vfs
          (record { refs = λ j. refl; opens = λ j. refl; cwd = refl; bootfs = refl }))
    | inr z ↦ rw z (search (find_free f.table 128 0) (find_free-Searches f.table 128 0))
  ]
    where
      file :
          (fd : ℕ)
          → fd < 128
          → f.table fd ≡ none
          → ((k : ℕ) → k < fd → f.table k ≢ none)
          → (r : Run (Result ℕ × Opened)) → Opens f.vfs.vnodes f.vfs.vnodes.refs f.vfs.opens r
          → Opening f.vfs.vnodes p flags f (with_vnode p fd flags f r)
      file fd b m first r (opened v t h) =
          opening fd v _ b m first refl refl h
            (with_entry-IsFiles f p fd (new_entry v flags) t i n b m refl)
      file fd b m first r (refused e t h) = no_file e t h

      search :
          (x : Option ℕ)
          → Searches f.table 0 128 x
          → Opening f.vfs.vnodes p flags f (elim x [
            | none ↦ ret (err emfile, f)
            | some fd ↦
                with_vnode p fd flags f (vfs_open fsops ops o devs filename flags mode f.vfs)
          ])
      search x (full g) = no_descriptor (λ fd b. g fd (omega arith) b)
      search x (free fd b m g) =
          file fd b m (λ k c. g k (omega arith) c)
            (vfs_open fsops ops o devs filename flags mode f.vfs)
            (vfs_open-Opens fsops ops o devs filename flags mode f.vfs w)
