-- ===== src/Sfs/MapDirect.antt =====
-- sfs_bmap for a direct block.
use cs.Base.{
  ℕ, ◌<◌, ◌≡◌, ◌≢◌, refl, sym, ◌∙◌, inl, inr, Bool, true, false, ◌&&◌, List, Run, ret, ◌==◌, arith,
  Bool-cases,
}
use cs.Bitmap.{enospc}
use cs.Bitmap.Inv.{used, used-with_set}
use cs.Sfs.{Mounted, Result, ok, update, balloc, hand_back, set_direct, bmap_direct}
use cs.Sfs.Io.{InRange}
use cs.Sfs.Owns.{file_map, IsSound, Owns-given, not_super}
use cs.Sfs.Alloc.{cleared, Ballocs, full, lost, got, balloc-Ballocs}
use cs.Sfs.Map.{Keeps, Bmaps, there, given, failed, Keeps-later, hand_back_at, lost-Keeps}

-- The direct blocks.
module _ (m : Mounted) (h : IsSound m) (io : InRange m.fs.pending) (i : ℕ) (dir : i < 15) where
  abbrev own : ℕ
  own = m.sv.direct i

  at : own ≡ file_map m i
  at = ground arith

  -- The state after the block `k` is allocated and remembered.
  abbrev given_direct : ℕ → List ℕ → Mounted
  given_direct k es =
      let c = cleared m k es in
      record c { sv = record m.sv { direct = update m.sv.direct i k; dirty = true } }

  module _ (k : ℕ) (es : List ℕ) (below : k < m.fs.freemap.nbits)
      (free : used m.fs.freemap k ≡ false) (empty : own ≡ 0) where
    apart_ind : k ≢ m.sv.indirect
    apart_ind e = ground (arith, h.ind_marked, not_super h k below free, free, e)

    given_map : (j : ℕ) → file_map (given_direct k es) j ≡ update (file_map m) i k j
    given_map j = ground (arith, apart_ind, dir)

    given-IsSound : IsSound (given_direct k es)
    given-IsSound =
        Owns-given h k below free i (sym at ∙ empty) (file_map (given_direct k es)) given_map

    given-Keeps : InRange es → Keeps m (given_direct k es)
    given-Keeps r = record {
      sound = given-IsSound;
      io = r;
      marks = λ j u. ground (arith, used-with_set h.valid k below j, u);
      blocks = λ j u n. ground (arith, free, u);
    }

    given_back : InRange es → hand_back k (given_direct k es) ≡ ret (ok k, given_direct k es)
    given_back r =
        hand_back_at (given_direct k es) i k given-IsSound r (ground (arith, given_map i))

  direct_fresh :
      own ≡ 0
      → (r : Run (Result ℕ × Mounted)) → Ballocs m r
      → balloc m ≡ r
      → Bmaps m i true (bmap_direct i true m)
  unfolding bmap_direct set_direct
  direct_fresh empty _ (full all) e =
      rw (empty, e) (failed enospc (omega arith) (λ j. refl) (Keeps-later m h m.fs.pending io))
  direct_fresh empty _ (lost k c es below free n r) e =
      rw (empty, e) (failed c n (λ j. refl) (lost-Keeps m k es h below free r))
  direct_fresh empty _ (got k es below free r) e =
      rw (empty, e, given_back k es below free empty r)
        (given k refl (sym at ∙ empty) free (not_super h k below free)
          (given_map k es below free empty) (given-Keeps k es below free empty r))

  pub bmap_direct-Bmaps : (doalloc : Bool) → Bmaps m i doalloc (bmap_direct i doalloc m)
  unfolding bmap_direct
  bmap_direct-Bmaps doalloc = elim (Bool-cases ((own == 0) && doalloc)) [
    | inl wanted ↦
        let yes_alloc : doalloc ≡ true = ground (arith, wanted) in
        let empty : own ≡ 0 = ground (arith, wanted) in
        rw yes_alloc (direct_fresh empty (balloc m) (balloc-Ballocs m h io) refl)
    | inr found ↦
        rw (found, hand_back_at m i own h io at, bmap_direct)
          (there own at (ground (arith, found, at)) (λ j. refl) (Keeps-later m h m.fs.pending io))
  ]
