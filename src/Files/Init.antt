-- ===== src/Files/Init.antt =====
-- The table of a new process: the first three descriptors share one entry.
use cs.Base.{
  ℕ, ◌+◌, ◌<◌, ◌≡◌, refl, ap, sym, ◌∙◌, List, [], ◌∷◌, Option, none, some, Run, ret, panic, fault,
  Result, ok, err, ltb, if◌then◌else◌, arith, put,
}
use cs.Vfs.{KnownDev, FsOps}
use cs.Vfs.Lookup.{VnodeOps}
use cs.Vfs.Lookup.Counts.{one}
use cs.Vfs.Lookup.Refs.{IsWorking}
use cs.Vfs.Open.{OpenOps, Opened, vfs_open}
use cs.Vfs.Open.Counts.{Has, Opens, opened, refused, vfs_open-Opens}
use cs.Files.{Entry, Files, filetable_init}
use cs.Files.Uses.{uses, IsFiles, first_three, uses-first_three}

-- What filetable_init does: the console's vnode, if it could be opened, has one reference and one
-- open more, for an entry that descriptors 0, 1 and 2 share.
pub data Inits (p : ℕ) (st : Opened) : Run Files → Type 0 where
  with_console :
      (v : ℕ) (f : Files)
      → IsFiles f
      → f.table ≡ first_three p
      → f.entries p ≡ some (record { vnode = some v; pos = 0; flags = 2; count = 3 })
      → Has st.vnodes (λ j. st.vnodes.refs j + one v j) (λ j. st.opens j + one v j) f.vfs
      → Inits p st (ret f)
  without :
      (f : Files)
      → IsFiles f
      → f.table ≡ first_three p
      → f.entries p ≡ some (record { vnode = none; pos = 0; flags = 2; count = 3 })
      → Has st.vnodes st.vnodes.refs st.opens f.vfs
      → Inits p st (ret f)

abbrev pub initial : ℕ → (ℕ → Option Entry) → Option ℕ → Opened → Files
initial p entries w t = record {
  table = λ fd. if ltb fd 3 then some p else none;
  entries = put entries p (some (record { vnode = w; pos = 0; flags = 2; count = 3 }));
  vfs = t;
}

pub initial-IsFiles :
    (p : ℕ) (entries : ℕ → Option Entry) (w : Option ℕ) (t : Opened)
    → IsFiles (initial p entries w t)
initial-IsFiles p entries w t = record { shared = shared }
  where
    shared :
        (fd q : ℕ)
        → fd < 128
        → first_three p fd ≡ some q
        → (e : Entry) × (put entries p
              (some (record { vnode = w; pos = 0; flags = 2; count = 3 }))
              q
            ≡ some e)
          × (e.count ≡ uses (first_three p) 128 q)
    shared fd q b m =
        let k : q ≡ p = ground (arith, m) in
        (
          record { vnode = w; pos = 0; flags = 2; count = 3 },
          ground (arith, k),
          sym (ap (uses (first_three p) 128) k ∙ uses-first_three p 125),
        )

module _ (fsops : FsOps) (ops : VnodeOps) (o : OpenOps) (devs : List KnownDev) where
  -- filetable_init, where kmalloc gives memory for the entry, returns: descriptors 0, 1 and 2 and
  -- no others are open, on one entry at position 0 with the count 3. Its vnode is the console's,
  -- with one reference and one open more; or it has none, with the counts of all vnodes as they
  -- were, when vfs_open failed.
  pub filetable_init-Inits :
      (p : ℕ) (entries : ℕ → Option Entry) (st : Opened)
      → IsWorking fsops ops devs st.vnodes
      → Inits p st (filetable_init fsops ops o devs (some p) entries st)
  unfolding filetable_init
  filetable_init-Inits p entries st w =
      go (vfs_open fsops ops o devs (99 ∷ 111 ∷ 110 ∷ 58 ∷ []) 2 0 st)
        (vfs_open-Opens fsops ops o devs (99 ∷ 111 ∷ 110 ∷ 58 ∷ []) 2 0 st w)
    where
      go :
          (r : Run (Result ℕ × Opened))
          → Opens st.vnodes st.vnodes.refs st.opens r
          → Inits p st (elim r [
            | ret r ↦ ret (initial p entries (elim r.0 [ ok v ↦ some v | err e ↦ none ]) r.1)
            | panic ↦ panic
            | fault ↦ fault
          ])
      go r (opened v t h) =
          with_console v _ (initial-IsFiles p entries (some v) t) refl (ground arith) h
      go r (refused e t h) = without _ (initial-IsFiles p entries none t) refl (ground arith) h
