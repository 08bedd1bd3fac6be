-- ===== src/Files/Undo.antt =====
-- file_close after file_open.
use cs.Base.{
  ℕ, ◌+◌, ◌<◌, ◌≡◌, ◌≢◌, refl, ap, sym, ◌∙◌, List, none, some, Run, ret, Result, ok, err, arith,
  put, some-eq,
}
use cs.Vfs.{Name, KnownDev, FsOps}
use cs.Vfs.Lookup.{VnodeOps}
use cs.Vfs.Lookup.Counts.{one, IsReclaiming}
use cs.Vfs.Lookup.Refs.{IsWorking}
use cs.Vfs.Open.{OpenOps}
use cs.Vfs.Open.Counts.{Has}
use cs.Files.{Entry, Files, file_open, file_close}
use cs.Files.Uses.{uses, IsFiles}
use cs.Files.Open.{Opening, no_descriptor, no_file, opening, new_entry, file_open-Opening}
use cs.Files.Close.{
  out_of_range, not_open, no_vnode, Closing, bad, one_less, last, file_close-Closing,
}

-- What file_close makes of what file_open gave.
pub data Undone (ops : VnodeOps) (f : Files) : Run (Result ℕ × Files) → Type 0 where
  not_opened : (e : ℕ) (f1 : Files) → Undone ops f (ret (err e, f1))
  undone :
      (fd : ℕ) (f1 f2 : Files)
      → file_close ops fd f1 ≡ ret (ok tt, f2)
      → ((g : ℕ) → f2.table g ≡ f.table g)
      → ((q : ℕ) → f2.entries q ≡ f.entries q)
      → Has f.vfs.vnodes f.vfs.vnodes.refs f.vfs.opens f2.vfs
      → Undone ops f (ret (ok fd, f1))

none-some : {A : Type 0} {a : A} → none ≢ some a
none-some e = ground (arith, e)

put-back :
    {A : Type 0} (t : ℕ → A) (i : ℕ) (a b : A) → t i ≡ b → (j : ℕ) → put (put t i a) i b j ≡ t j
put-back t i a b e j = ground (arith, e)

module _ (ops : VnodeOps) (p flags : ℕ) (f : Files) (n : f.entries p ≡ none)
    (w : IsReclaiming ops f.vfs.vnodes.refs) where
  undo :
      (fd v : ℕ) (f1 : Files)
      → fd < 128
      → f.table fd ≡ none
      → f1.table ≡ put f.table fd (some p)
      → f1.entries ≡ put f.entries p (some (new_entry v flags))
      → Has f.vfs.vnodes (λ j. f.vfs.vnodes.refs j + one v j) (λ j. f.vfs.opens j + one v j) f1.vfs
      → IsFiles f1
      → Undone ops f (ret (ok fd, f1))
  undo fd v f1 b y t x h i =
      go (file_close ops fd f1) refl
        (file_close-Closing ops fd f1 f.vfs.vnodes f.vfs.vnodes.refs f.vfs.opens i w own)
    where
      at : f1.table fd ≡ some p
      at = ap (λ g. g fd) t ∙ ground arith

      there : f1.entries p ≡ some (new_entry v flags)
      there = ap (λ g. g p) x ∙ ground arith

      entry_at :
          (q : ℕ) (e : Entry) → f1.table fd ≡ some q → f1.entries q ≡ some e → e ≡ new_entry v flags
      entry_at q e k m =
          let d : q ≡ p = some-eq (sym k ∙ at) in some-eq (sym m ∙ ap f1.entries d ∙ there)

      count : uses f1.table 128 p ≡ 1
      count = let (e, m, c) = i.shared fd p b at in sym c ∙ ap (λ x. x.count) (entry_at p e at m)

      own :
          (q : ℕ) (e : Entry) (u : ℕ)
          → f1.table fd ≡ some q
          → uses f1.table 128 q ≡ 1
          → f1.entries q ≡ some e
          → e.vnode ≡ some u
          → Has f.vfs.vnodes
              (λ j. f.vfs.vnodes.refs j + one u j)
              (λ j. f.vfs.opens j + one u j)
              f1.vfs
      own q e u k c m z =
          let d = entry_at q e k m in
          let s : some u ≡ some v = sym z ∙ ap (λ x. x.vnode) d in rw (some-eq s) h

      go :
          (r : Run (Result (Unit {0}) × Files))
          → file_close ops fd f1 ≡ r
          → Closing f.vfs.vnodes f.vfs.vnodes.refs f.vfs.opens fd f1 r
          → Undone ops f (ret (ok fd, f1))
      go r e (bad (out_of_range l)) = absurd (omega (arith, l, b))
      go r e (bad (not_open z)) = absurd (ground (arith, z, at))
      go r e (bad (no_vnode q d z m k)) =
          absurd (none-some (sym k ∙ ap (λ x. x.vnode) (entry_at q d z m)))
      go r e (one_less q d f2 z k m t2 x2 v2 i2) =
          let d : q ≡ p = some-eq (sym z ∙ at) in
          absurd (omega (arith, m, ap (uses f1.table 128) d, count))
      go r e (last q f2 z m t2 x2 h2 i2) =
          let d : q ≡ p = some-eq (sym z ∙ at) in
          undone fd f1 f2 e
            (λ g.
              ap (λ a. a g) (t2 ∙ ap (λ a. put a fd none) t)
              ∙ put-back f.table fd (some p) none y g)
            (λ g.
              ap (λ a. a g) (x2 ∙ ap (λ a. put f1.entries a none) d ∙ ap (λ a. put a p none) x)
              ∙ put-back f.entries p (some (new_entry v flags)) none n g)
            h2

module _ (fsops : FsOps) (ops : VnodeOps) (o : OpenOps) (devs : List KnownDev) where
  -- On entries with the numbers of their descriptors, with an entry from kmalloc that was not in
  -- use, where the table of devices is in order, the current directory, if there is one, lies in a
  -- file system, and VOP_RECLAIM takes out of memory every vnode that had no reference: file_close
  -- of a descriptor that file_open gave returns, and everything is as it was before file_open: the
  -- descriptors, the entries, and the references and opens of every vnode.
  pub file_open-file_close :
      (p : ℕ) (filename : Name) (flags mode : ℕ) (f : Files)
      → IsFiles f
      → f.entries p ≡ none
      → IsWorking fsops ops devs f.vfs.vnodes
      → Undone ops f (file_open fsops ops o devs (some p) filename flags mode f)
  file_open-file_close p filename flags mode f i n w =
      go (file_open fsops ops o devs (some p) filename flags mode f)
        (file_open-Opening fsops ops o devs p filename flags mode f i n w)
    where
      go : (r : Run (Result ℕ × Files)) → Opening f.vfs.vnodes p flags f r → Undone ops f r
      go r (no_descriptor g) = not_opened _ _
      go r (no_file e t h) = not_opened _ _
      go r (opening fd v f1 b y l t x h i1) = undo ops p flags f n w.reclaims fd v f1 b y t x h i1
