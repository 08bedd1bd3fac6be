-- ===== src/Sfs/Map.antt =====
-- sfs_bmap: it finds the block of a part of the file, and gives it one when it is asked to.
use cs.Base.{ℕ, ◌<◌, ◌≡◌, ◌≢◌, refl, sym, ◌∙◌, Bool, true, false, ◌&&◌, List, Run, ret, ◌==◌, arith}
use cs.Bitmap.Inv.{used, used-with_set}
use cs.Sfs.{Mounted, Result, ok, err, update, hand_back}
use cs.Sfs.Io.{InRange, later}
use cs.Sfs.Owns.{file_map, IsSound, Owns-marked}
use cs.Sfs.Alloc.{took, hand_back_lem}

-- What every outcome keeps: the file is sound, the device stays in range, every block that was in use
-- stays so, and, but for the file's indirect block, none of them is written.
pub record Keeps (m m' : Mounted) : Type 0 where
  pub sound : IsSound m'
  pub io : InRange m'.fs.pending
  pub marks : (k : ℕ) → used m.fs.freemap k ≡ true → used m'.fs.freemap k ≡ true
  pub blocks : (k : ℕ) → used m.fs.freemap k ≡ true → k ≢ m.sv.indirect → m'.fs.disk k ≡ m.fs.disk k

-- What sfs_bmap does with block `i` of the file: it returns the block that is there, or gives the
-- file one that was free; or it returns an error, and every part of the file is where it was.
pub data Bmaps (m : Mounted) (i : ℕ) (doalloc : Bool) : Run (Result ℕ × Mounted) → Type 0 where
  there :
      (k : ℕ) {m' : Mounted}
      → k ≡ file_map m i
      → (file_map m i == 0) && doalloc ≡ false
      → ((j : ℕ) → file_map m' j ≡ file_map m j)
      → Keeps m m'
      → Bmaps m i doalloc (ret (ok k, m'))
  given :
      (k : ℕ) {m' : Mounted}
      → doalloc ≡ true
      → file_map m i ≡ 0
      → used m.fs.freemap k ≡ false
      → k ≢ 0
      → ((j : ℕ) → file_map m' j ≡ update (file_map m) i k j)
      → Keeps m m'
      → Bmaps m i doalloc (ret (ok k, m'))
  failed :
      (e : ℕ) {m' : Mounted}
      → e ≢ 0
      → ((j : ℕ) → file_map m' j ≡ file_map m j)
      → Keeps m m'
      → Bmaps m i doalloc (ret (err e, m'))

pub Keeps-later : (m : Mounted) → IsSound m → (es : List ℕ) → InRange es → Keeps m (later m es)
Keeps-later m h es io = record { sound = h; io = io; marks = λ k u. u; blocks = λ k u n. refl }

pub hand_back_at :
    (m : Mounted) (i k : ℕ)
    → IsSound m
    → InRange m.fs.pending
    → k ≡ file_map m i
    → hand_back k m ≡ ret (ok k, m)
hand_back_at m i k h io e =
    hand_back_lem m h io k (λ p. rw e (h.inside i (λ q. p (e ∙ q))))
      (λ p. rw e (h.marked i (λ q. p (e ∙ q))))

-- A block that is marked and then lost.
pub lost-Keeps :
    (m : Mounted) (k : ℕ) (es : List ℕ)
    → IsSound m
    → k < m.fs.freemap.nbits
    → used m.fs.freemap k ≡ false
    → InRange es
    → Keeps m (took m k es)
lost-Keeps m k es h below free r = record {
  sound = Owns-marked h k below free;
  io = r;
  marks = λ j u. ground (arith, used-with_set h.valid k below j, u);
  blocks = λ j u n. refl;
}

pub Keeps-trans :
    {m m1 m2 : Mounted}
    → Keeps m m1
    → ((k : ℕ) → used m.fs.freemap k ≡ true → k ≢ m.sv.indirect → k ≢ m1.sv.indirect)
    → Keeps m1 m2
    → Keeps m m2
Keeps-trans k1 apart k2 = record {
  sound = k2.sound;
  io = k2.io;
  marks = λ j u. k2.marks j (k1.marks j u);
  blocks = λ j u n. k2.blocks j (k1.marks j u) (apart j u n) ∙ k1.blocks j u n;
}

-- An earlier step that keeps everything, and the file where it was.
pub Bmaps-after :
    (m m1 : Mounted) (i : ℕ) (d : Bool) {r : Run (Result ℕ × Mounted)}
    → Keeps m m1
    → ((j : ℕ) → file_map m1 j ≡ file_map m j)
    → ((k : ℕ) → used m.fs.freemap k ≡ true → k ≢ m.sv.indirect → k ≢ m1.sv.indirect)
    → Bmaps m1 i d r
    → Bmaps m i d r
Bmaps-after m m1 i d k1 same apart (there k {m'} e n maps k2) =
    there k (e ∙ same i) (rw (sym (same i)) n) (λ j. maps j ∙ same j) (Keeps-trans k1 apart k2)
Bmaps-after m m1 i d k1 same apart (given k {m'} yes_alloc empty free n maps k2) =
    given k yes_alloc (sym (same i) ∙ empty) (was_free (used m.fs.freemap k) refl) n
      (λ j. ground (arith, maps j, same j)) (Keeps-trans k1 apart k2)
  where
    was_free : (b : Bool) → used m.fs.freemap k ≡ b → used m.fs.freemap k ≡ false
    was_free true u = let v = k1.marks k u in cc
    was_free false u = u
Bmaps-after m m1 i d k1 same apart (failed e {m'} n maps k2) =
    failed e n (λ j. maps j ∙ same j) (Keeps-trans k1 apart k2)
