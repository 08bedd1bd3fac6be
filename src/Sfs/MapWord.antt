-- ===== src/Sfs/MapWord.antt =====
-- sfs_bmap for a block that the indirect block names.
use cs.Base.{
  ℕ, ◌-◌, ◌≤◌, ◌<◌, ◌≡◌, ◌≢◌, refl, sym, ◌∙◌, inl, inr, Bool, true, false, ◌&&◌, List, Run, ret,
  ◌==◌, arith, Bool-cases,
}
use cs.Bitmap.{enospc}
use cs.Bitmap.Inv.{used, used-with_set}
use cs.Sfs.{Mounted, Block, Result, ok, and_then, update, wblock, balloc, hand_back, bmap_in}
use cs.Sfs.Io.{InRange, written, wblock_lem}
use cs.Sfs.Owns.{file_map, IsSound, Owns-same, Owns-marked, Owns-given, not_super}
use cs.Sfs.Alloc.{cleared, Ballocs, full, lost, got, balloc-Ballocs}
use cs.Sfs.Map.{Keeps, Bmaps, there, given, failed, Keeps-later, hand_back_at, lost-Keeps}

-- The blocks behind the indirect block, when there is one.
module _ (m : Mounted) (h : IsSound m) (io : InRange m.fs.pending) (i : ℕ) (past : 15 ≤ i)
    (small : i < 143) (has : m.sv.indirect ≢ 0) where
  abbrev words : Block
  words = m.fs.disk m.sv.indirect

  at_word : words (i - 15) ≡ file_map m i
  at_word = ground (arith, past, small, has)

  -- The state after the block `k` is allocated and the indirect block written back.
  abbrev given_word : ℕ → List ℕ → Mounted
  given_word k es = written (cleared m k es) es m.sv.indirect (update words (i - 15) k)

  module _ (k : ℕ) (es : List ℕ) (below : k < m.fs.freemap.nbits)
      (free : used m.fs.freemap k ≡ false) (empty : words (i - 15) ≡ 0) (r : InRange es) where
    other_block : k ≢ m.sv.indirect
    other_block e = ground (arith, h.ind_marked has, free, e)

    word_map : (j : ℕ) → file_map (given_word k es) j ≡ update (file_map m) i k j
    word_map j = ground (arith, past, small, has)

    word-IsSound : IsSound (given_word k es)
    word-IsSound =
        Owns-given h k below free i (sym at_word ∙ empty) (file_map (given_word k es)) word_map

    word-Keeps : Keeps m (given_word k es)
    word-Keeps = record {
      sound = word-IsSound;
      io = r;
      marks = λ j u. ground (arith, used-with_set h.valid k below j, u);
      blocks = λ j u n. ground (arith, free, u, n);
    }

    word_back : hand_back k (given_word k es) ≡ ret (ok k, given_word k es)
    word_back = hand_back_at (given_word k es) i k word-IsSound r (ground (arith, word_map i))

    -- The block is allocated and cleared, and the indirect block cannot be written.
    unwritten_map : (j : ℕ) → file_map (cleared m k es) j ≡ file_map m j
    unwritten_map j = ground (arith, other_block)

    unwritten-Keeps : Keeps m (cleared m k es)
    unwritten-Keeps = record {
      sound = Owns-same (Owns-marked h k below free) (file_map (cleared m k es)) unwritten_map;
      io = r;
      marks = λ j u. ground (arith, used-with_set h.valid k below j, u);
      blocks = λ j u n. ground (arith, free, u, n);
    }

  -- What follows the allocation.
  word_rest :
      (k : ℕ) (es : List ℕ)
      → k < m.fs.freemap.nbits
      → used m.fs.freemap k ≡ false
      → words (i - 15) ≡ 0
      → InRange es
      → Bmaps m i true (
          and_then
            (wblock (update words (i - 15) k) m.sv.indirect (cleared m k es))
            (λ _. hand_back k))
  word_rest k es below free empty r =
      let (es', r', s) = wblock_lem (cleared m k es) r (update words (i - 15) k) m.sv.indirect in
      elim s [
        | inl q ↦
            rw (q, word_back k es' below free empty r')
              (given k refl (sym at_word ∙ empty) free (not_super h k below free)
                (word_map k es' below free empty r') (word-Keeps k es' below free empty r'))
        | inr (e, n, q) ↦ rw q (
            failed e n (unwritten_map k es' below free empty r')
              (unwritten-Keeps k es' below free empty r'))
      ]

  word_fresh :
      words (i - 15) ≡ 0
      → (r : Run (Result ℕ × Mounted)) → Ballocs m r
      → balloc m ≡ r
      → Bmaps m i true (bmap_in words m.sv.indirect (i - 15) true m)
  unfolding bmap_in
  word_fresh empty _ (full all) e =
      rw (empty, e) (failed enospc (omega arith) (λ j. refl) (Keeps-later m h m.fs.pending io))
  word_fresh empty _ (lost k c es below free n r) e =
      rw (empty, e) (failed c n (λ j. refl) (lost-Keeps m k es h below free r))
  word_fresh empty _ (got k es below free r) e = rw (empty, e) (word_rest k es below free empty r)

  pub bmap_in-Bmaps :
      (doalloc : Bool) → Bmaps m i doalloc (bmap_in words m.sv.indirect (i - 15) doalloc m)
  unfolding bmap_in
  bmap_in-Bmaps doalloc = elim (Bool-cases ((words (i - 15) == 0) && doalloc)) [
    | inl wanted ↦
        let yes_alloc : doalloc ≡ true = ground (arith, wanted) in
        let empty : words (i - 15) ≡ 0 = ground (arith, wanted) in
        rw yes_alloc (word_fresh empty (balloc m) (balloc-Ballocs m h io) refl)
    | inr found ↦
        rw (found, hand_back_at m i (words (i - 15)) h io at_word, bmap_in)
          (there (words (i - 15)) at_word (ground (arith, found, at_word)) (λ j. refl)
            (Keeps-later m h m.fs.pending io))
  ]
