-- ===== src/Sfs/Alloc.antt =====
-- sfs_balloc, sfs_bused and sfs_bfree on a sound file.
use cs.Base.{
  ℕ, zero, suc, ◌<◌, ◌≡◌, ◌≢◌, refl, inl, inr, true, false, List, Option, Run, ret, ◌==◌, leb,
  arith,
}
use cs.Bitmap.{Bitmap, enospc}
use cs.Bitmap
use cs.Bitmap.Inv.{used, with_set}
use cs.Bitmap.Alloc.{Allocates, taken, exhausted, alloc-Allocates}
use cs.Bitmap.Mark.{isset-eq-used}
use cs.Sfs.{Mounted, Result, ok, err, update, clearblock, balloc, bused, hand_back}
use cs.Sfs.Io.{InRange, wblock_lem}
use cs.Sfs.Owns.{Owns}

-- A block that is taken from the free map, and one that is cleared as well.
abbrev pub took : Mounted → ℕ → List ℕ → Mounted
took m k es = record m {
  fs = record m.fs { freemap = with_set m.fs.freemap k; freemapdirty = true; pending = es };
}

abbrev pub cleared : Mounted → ℕ → List ℕ → Mounted
cleared m k es = record m {
  fs = record m.fs {
    freemap = with_set m.fs.freemap k;
    freemapdirty = true;
    pending = es;
    disk = update m.fs.disk k (λ _. 0);
  };
}

-- What sfs_balloc does: it finds every block in use, or marks a free one, which it then clears or,
-- on an I/O error, neither clears nor hands out.
pub data Ballocs (m : Mounted) : Run (Result ℕ × Mounted) → Type 0 where
  full : ((j : ℕ) → used m.fs.freemap j ≡ true) → Ballocs m (ret (err enospc, m))
  lost :
      (k e : ℕ) (es : List ℕ)
      → k < m.fs.freemap.nbits
      → used m.fs.freemap k ≡ false
      → e ≢ 0
      → InRange es
      → Ballocs m (ret (err e, took m k es))
  got :
      (k : ℕ) (es : List ℕ)
      → k < m.fs.freemap.nbits
      → used m.fs.freemap k ≡ false
      → InRange es
      → Ballocs m (ret (ok k, cleared m k es))

module _ (m : Mounted) {ind : ℕ} {map : ℕ → ℕ} (h : Owns m.fs.freemap m.fs.nblocks ind map)
    (io : InRange m.fs.pending) where
  pub balloc-Ballocs : Ballocs m (balloc m)
  unfolding balloc clearblock
  balloc-Ballocs = go (alloc-Allocates h.valid) refl
    where
      go :
          {r : Run (ℕ × Option ℕ × Bitmap)}
          → Allocates m.fs.freemap r
          → Bitmap.alloc m.fs.freemap ≡ r
          → Ballocs m (balloc m)
      go (taken k below free low) e =
          let m1 : Mounted = record m {
            fs = record m.fs { freemap = with_set m.fs.freemap k; freemapdirty = true };
          } in
          let t : leb m.fs.nblocks k ≡ false = ground (arith, h.out k, free) in
          let (es, r, s) = wblock_lem m1 io (λ _. 0) k in
          elim s [
            | inl q ↦ rw (e, balloc, t, q) (got k es below free r)
            | inr (c, n, q) ↦ rw (e, balloc, t, q) (lost k c es below free n r)
          ]
      go (exhausted all) e = rw (e, balloc) (full all)

  pub bused_lem : (k : ℕ) → k < m.fs.nblocks → bused k m ≡ ret (ok (used m.fs.freemap k), m)
  unfolding bused
  bused_lem k below =
      let t : leb m.fs.nblocks k ≡ false = ground (arith, below) in
      rw (t, isset-eq-used h.valid k (omega (arith, h.room)), bused) refl

  -- A block that the file owns is handed back.
  pub hand_back_lem :
      (k : ℕ)
      → (k ≢ 0 → k < m.fs.nblocks)
      → (k ≢ 0 → used m.fs.freemap k ≡ true)
      → hand_back k m ≡ ret (ok k, m)
  unfolding hand_back
  hand_back_lem zero below marked = refl
  hand_back_lem (suc k) below marked =
      let z : (suc k == 0) ≡ false = ground arith in
      rw (z, bused_lem (suc k) (below (omega arith)), marked (omega arith)) refl
