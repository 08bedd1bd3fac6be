-- ===== src/Sfs/Truncate/Owns.antt =====
-- A block that a file gives up.
use cs.Base.{ℕ, ◌<◌, ◌≡◌, ◌≢◌, refl, true, ret, arith}
use cs.Bitmap.{Bitmap}
use cs.Bitmap.Inv.{used, with_clear, used-with_clear, with_clear-IsValid}
use cs.Bitmap.Mark.{unmark_lem}
use cs.Sfs.{Mounted, ok, bfree, update}
use cs.Sfs.Owns.{Owns}

module _ {b : Bitmap} {n ind : ℕ} {map : ℕ → ℕ} (h : Owns b n ind map) where
  -- The block of part `i` is freed.
  pub Owns-freed :
      (i : ℕ)
      → map i ≢ 0
      → (map' : ℕ → ℕ) → ((j : ℕ) → map' j ≡ update map i 0 j)
      → Owns (with_clear b (map i)) n ind map'
  Owns-freed i has map' f =
      let below : map i < b.nbits = omega (arith, h.inside i has, h.room) in
      record {
        valid = with_clear-IsValid h.valid (map i) below;
        room = h.room;
        out = λ j p.
            ground (arith, used-with_clear h.valid (map i) below j, h.out j p, h.inside i has);
        super = ground (arith, used-with_clear h.valid (map i) below 0, h.super, has);
        inside = λ j p. ground (arith, f j, h.inside j, p);
        marked = λ j p.
            ground
              (arith, f j, used-with_clear h.valid (map i) below (map j), h.marked j, h.one j i, p);
        one = λ j l p q. ground (arith, f j, f l, h.one j l, p, q);
        ind_inside = h.ind_inside;
        ind_marked = λ p.
            ground
              (arith, used-with_clear h.valid (map i) below ind, h.ind_marked p, h.apart i has);
        apart = λ j p q. ground (arith, f j, h.apart j, p, q);
      }

  -- The indirect block is freed.
  pub Owns-dropped :
      ind ≢ 0 → (map' : ℕ → ℕ) → ((j : ℕ) → map' j ≡ map j) → Owns (with_clear b ind) n 0 map'
  Owns-dropped has map' f =
      let below : ind < b.nbits = omega (arith, h.ind_inside has, h.room) in
      record {
        valid = with_clear-IsValid h.valid ind below;
        room = h.room;
        out =
            λ j p. ground (arith, used-with_clear h.valid ind below j, h.out j p, h.ind_inside has);
        super = ground (arith, used-with_clear h.valid ind below 0, h.super, has);
        inside = λ j p. ground (arith, f j, h.inside j, p);
        marked = λ j p.
            ground
              (arith, f j, used-with_clear h.valid ind below (map j), h.marked j, h.apart j, p);
        one = λ j l p q. ground (arith, f j, f l, h.one j l, p, q);
        ind_inside = λ p. absurd (p refl);
        ind_marked = λ p. absurd (p refl);
        apart = λ j p q. p q;
      }

-- A state whose free map has the block `k` clear.
abbrev pub dropped : Mounted → ℕ → Mounted
dropped m k = record m {
  fs = record m.fs { freemap = with_clear m.fs.freemap k; freemapdirty = true };
}

pub bfree_lem :
    (m : Mounted) {n ind : ℕ} {map : ℕ → ℕ}
    → Owns m.fs.freemap n ind map
    → (k : ℕ) → k < n
    → used m.fs.freemap k ≡ true
    → bfree k m ≡ ret (ok tt, dropped m k)
unfolding bfree
bfree_lem m h k below marked = rw (unmark_lem h.valid k (omega (arith, h.room)), marked, bfree) refl
