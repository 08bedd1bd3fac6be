-- ===== src/Sfs/Bmap.antt =====
-- sfs_bmap, put together.
use cs.Base.{
  ℕ, ◌-◌, ◌/◌, ◌%◌, ◌≤◌, ◌<◌, ◌≡◌, ◌≢◌, refl, inl, inr, Bool, true, false, not, ◌&&◌, List, Run,
  ret, ◌==◌, ltb, if◌then◌else◌, arith, Bool-cases, ltb→lt,
}
use cs.Bitmap.{enospc}
use cs.Bitmap.Inv.{used, used-with_set}
use cs.Sfs.{
  efbig, Mounted, Result, ok, err, rblock, balloc, set_indirect, ◌>>=◌, ◌>>◌, bmap_in, bmap,
}
use cs.Sfs.Io.{InRange, later, rblock_lem}
use cs.Sfs.Owns.{file_map, IsSound, Owns-indirect, not_super}
use cs.Sfs.Alloc.{cleared, Ballocs, full, lost, got, balloc-Ballocs}
use cs.Sfs.MapDirect.{bmap_direct-Bmaps}
use cs.Sfs.MapWord.{bmap_in-Bmaps}
use cs.Sfs.Map.{Keeps, Bmaps, there, failed, Keeps-later, lost-Keeps, Bmaps-after}

-- The blocks behind the indirect block.
module _ (m : Mounted) (h : IsSound m) (io : InRange m.fs.pending) (i : ℕ) (past : 15 ≤ i)
    (small : i < 143) where
  loaded-Bmaps :
      m.sv.indirect ≢ 0
      → (d : Bool)
      → Bmaps m i d ((rblock m.sv.indirect >>= λ idbuf. bmap_in idbuf m.sv.indirect (i - 15) d) m)
  loaded-Bmaps has d =
      let (es, r, s) = rblock_lem m io m.sv.indirect in
      elim s [
        | inl q ↦ rw q (
            Bmaps-after m (later m es) i d (Keeps-later m h es r) (λ j. refl) (λ k u n. n)
              (bmap_in-Bmaps (later m es) h r i past small has d))
        | inr (e, n, q) ↦ rw q (failed e n (λ j. refl) (Keeps-later m h es r))
      ]

  -- The state after the indirect block is allocated and remembered.
  abbrev with_indirect : ℕ → List ℕ → Mounted
  with_indirect k es =
      let c = cleared m k es in record c { sv = record m.sv { indirect = k; dirty = true } }

  module _ (k : ℕ) (es : List ℕ) (below : k < m.fs.freemap.nbits)
      (free : used m.fs.freemap k ≡ false) (no_block : m.sv.indirect ≡ 0) (r : InRange es) where
    empty_words : (with_indirect k es).fs.disk k ≡ (λ _. 0)
    empty_words = let e : (k == k) ≡ true = ground arith in rw e refl

    indirect_map : (j : ℕ) → file_map (with_indirect k es) j ≡ file_map m j
    indirect_map j = ground (arith, no_block)

    indirect-Keeps : Keeps m (with_indirect k es)
    indirect-Keeps = record {
      sound = Owns-indirect h k below free no_block (file_map (with_indirect k es)) indirect_map;
      io = r;
      marks = λ j u. ground (arith, used-with_set h.valid k below j, u);
      blocks = λ j u n. ground (arith, free, u);
    }

    indirect-Bmaps : Bmaps m i true (bmap_in (λ _. 0) k (i - 15) true (with_indirect k es))
    indirect-Bmaps =
        let b =
          bmap_in-Bmaps (with_indirect k es) indirect-Keeps.sound r i past small
            (not_super h k below free) true in
        Bmaps-after m (with_indirect k es) i true indirect-Keeps indirect_map
          (λ j u n e. ground (arith, free, u, e)) (rw empty_words at b)

  indirect_fresh :
      m.sv.indirect ≡ 0
      → (r : Run (Result ℕ × Mounted)) → Ballocs m r
      → balloc m ≡ r
      → Bmaps m i true ((balloc >>= λ b. set_indirect b >> bmap_in (λ _. 0) b (i - 15) true) m)
  unfolding set_indirect
  indirect_fresh no_block _ (full all) e =
      rw e (failed enospc (omega arith) (λ j. refl) (Keeps-later m h m.fs.pending io))
  indirect_fresh no_block _ (lost k c es below free n r) e =
      rw e (failed c n (λ j. refl) (lost-Keeps m k es h below free r))
  indirect_fresh no_block _ (got k es below free r) e =
      rw e (indirect-Bmaps k es below free no_block r)

-- On a sound file, whatever the device returns short of EINVAL, sfs_bmap of a block of the file
-- returns. With an error, every part of the file is where it was. With a block, that is the one that
-- was there, or, when none was and one is asked for, a block that was free; the other parts of the
-- file stay where they were. In every case the file is sound, and no block that was in use is freed
-- or, but for the indirect block, written.
pub bmap-Bmaps :
    (m : Mounted) (i : ℕ) (doalloc : Bool)
    → IsSound m
    → InRange m.fs.pending
    → i < 143
    → Bmaps m i doalloc (bmap i doalloc m)
unfolding bmap
bmap-Bmaps m i doalloc h io small = elim (Bool-cases (ltb i 15)) [
  | inl dir ↦ rw dir (bmap_direct-Bmaps m h io i (ltb→lt _ _ dir) doalloc)
  | inr past ↦
      let idnum : (i - 15) / 128 ≡ 0 = omega arith in
      let idoff : (i - 15) % 128 ≡ i - 15 = omega arith in
      let ge : 15 ≤ i = ground (arith, past) in
      rw (past, idnum, idoff) (go ge (m.sv.indirect == 0) doalloc refl)
]
  where
    go :
        15 ≤ i
        → (b d : Bool) → (m.sv.indirect == 0) ≡ b
        → Bmaps m i d (
            if b && not d
            then ret (ok 0, m)
            else if b
            then (balloc >>= λ k. set_indirect k >> bmap_in (λ _. 0) k (i - 15) d) m
            else (rblock m.sv.indirect >>= λ idbuf. bmap_in idbuf m.sv.indirect (i - 15) d) m)
    go ge true false e =
        there 0 (ground (arith, ge, e)) (ground arith) (λ j. refl) (Keeps-later m h m.fs.pending io)
    go ge true true e =
        indirect_fresh m h io i ge small (ground (arith, e)) (balloc m) (balloc-Ballocs m h io) refl
    go ge false d e = loaded-Bmaps m h io i ge small (ground (arith, e)) d

-- A block past the one indirect block is refused with EFBIG, and nothing changes.
pub bmap-efbig :
    (m : Mounted) (i : ℕ) (doalloc : Bool) → 143 ≤ i → bmap i doalloc m ≡ ret (err efbig, m)
unfolding bmap
bmap-efbig m i doalloc h =
    let a : ltb i 15 ≡ false = ground (arith, h) in
    let b : ltb 0 ((i - 15) / 128) ≡ true = ground (arith, h) in rw (a, b) refl
