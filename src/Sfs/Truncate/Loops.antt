-- ===== src/Sfs/Truncate/Loops.antt =====
-- The two loops of sfs_truncate.
use cs.Base.{
  ℕ, zero, suc, ◌+◌, ◌≤◌, ◌<◌, ◌≡◌, ◌≢◌, refl, ◌∙◌, ap, sym, inl, inr, Bool, true, false, not, ◌&&◌,
  ◌||◌, ret, ◌==◌, ltb, leb, if◌then◌else◌, arith, Bool-cases,
}
use cs.Bitmap.{Bitmap}
use cs.Sfs.{Mounted, Block, ok, Op, ◌>>◌, and_then, update, bfree, set_direct}
use cs.Sfs.Owns.{place, file_map, Owns, IsSound}
use cs.Sfs.Truncate.{free_direct, free_words}
use cs.Sfs.Truncate.Owns.{Owns-freed, dropped, bfree_lem}
use cs.Sfs.Truncate.Clear.{Cleared, Cleared-none, Cleared-one, Cleared-then}

-- The same state with other direct blocks and another free map.
abbrev pub Alike : Mounted → Mounted → Type 0
Alike m m' =
    (m'.fs.disk ≡ m.fs.disk)
    × (m'.fs.pending ≡ m.fs.pending)
    × (m'.fs.nblocks ≡ m.fs.nblocks)
    × (m'.sv.indirect ≡ m.sv.indirect)

abbrev pub between : ℕ → ℕ → ℕ → Bool
between i n j = leb i j && ltb j (i + n)

pub free_direct_lem :
    (n i blocklen : ℕ) (m : Mounted)
    → i + n ≤ 15
    → IsSound m
    → (m' : Mounted) × (free_direct n i blocklen m ≡ ret (ok tt, m'))
      × IsSound m'
      × Alike m m'
      × ((j : ℕ) → file_map m' j ≡ (if between i n j && leb blocklen j then 0 else file_map m j))
      × Cleared m.fs.freemap (file_map m) m'.fs.freemap (file_map m')
unfolding free_direct set_direct
free_direct_lem zero i blocklen m small h = (
  m,
  refl,
  h,
  (refl, refl, refl, refl),
  λ j. ground arith,
  Cleared-none m.fs.freemap (file_map m) (file_map m) (λ j. refl),
)
free_direct_lem (suc n) i blocklen m small h =
    elim (Bool-cases (leb blocklen i && not (m.sv.direct i == 0))) [
      | inl cut ↦
          let has : file_map m i ≢ 0 = ground (arith, cut, small) in
          let at : file_map m i ≡ m.sv.direct i = ground (arith, small) in
          let d = dropped m (m.sv.direct i) in
          let m1 : Mounted = record d {
            sv = record m.sv { direct = update m.sv.direct i 0; dirty = true };
          } in
          let b : bfree (m.sv.direct i) m ≡ ret (ok tt, d) =
            bfree_lem m h (m.sv.direct i) (rw (sym at) (h.inside i has))
              (rw (sym at) (h.marked i has)) in
          let h1 : IsSound m1 =
            rw at at (Owns-freed h i has (file_map m1) (λ j. ground (arith, small))) in
          let c : Cleared m.fs.freemap (file_map m) m1.fs.freemap (file_map m1) =
            rw at at (Cleared-one h i has (file_map m1) (λ j. ground (arith, small))) in
          let (m', e, h', a, f, c') = free_direct_lem n (i + 1) blocklen m1 (omega arith) h1 in
          (
            m',
            rw (cut, b, e, free_direct) refl,
            h',
            a,
            λ j. ground (arith, f j, small),
            Cleared-then h c c',
          )
      | inr kept ↦
          let (m', e, h', a, f, c) = free_direct_lem n (i + 1) blocklen m (omega arith) h in
          (m', rw (kept, e, free_direct) refl, h', a, λ j. ground (arith, f j, kept, small), c)
    ]

abbrev pub with_map : Mounted → Bitmap → Bool → Mounted
with_map m fm fd = record m { fs = record m.fs { freemap = fm; freemapdirty = fd } }

-- The loop over the words of the indirect block, which changes nothing but the free map. What it
-- reports: that a word is left, and that one was cleared.
pub record Freed (m : Mounted) (words : Block) (j n blocklen : ℕ) (left dirty : Bool) (fm : Bitmap)
    (words' : Block) (left' dirty' : Bool) : Type 0 where
  pub sound : Owns fm m.fs.nblocks m.sv.indirect (place m.sv.direct m.sv.indirect words')
  pub cut : (k : ℕ) → words' k ≡ (if between j n k && ltb blocklen (15 + k) then 0 else words k)
  pub empty : left' ≡ false → (left ≡ false) × ((k : ℕ) → between j n k ≡ true → words' k ≡ 0)
  pub some : left' ≡ true → ((k : ℕ) → between j n k ≡ true → words' k ≡ 0) → left ≡ true
  pub cleared :
      Cleared m.fs.freemap
        (place m.sv.direct m.sv.indirect words)
        fm
        (place m.sv.direct m.sv.indirect words')
  pub clean : dirty' ≡ false → (dirty ≡ false) × ((k : ℕ) → words' k ≡ words k)

pick_true : {A : Type 0} (t : Bool) (f g : A) → t ≡ true → (if t then f else g) ≡ f
pick_true true f g e = refl
pick_true false f g e = cc

pick_false : {A : Type 0} (t : Bool) (f g : A) → t ≡ false → (if t then f else g) ≡ g
pick_false true f g e = cc
pick_false false f g e = refl

-- One turn of the loop, by its test.
module _ (n j blocklen : ℕ) (words : Block) (left dirty : Bool) (m : Mounted) where
  abbrev test : Bool
  test = ltb blocklen (15 + j) && not (words j == 0)

  abbrev rest : Op (Block × Bool × Bool)
  rest = free_words n (j + 1) blocklen (update words j 0) left true

  abbrev other : Op (Block × Bool × Bool)
  other = free_words n (j + 1) blocklen words (left || not (words j == 0)) dirty

  turn_cut :
      (d : Mounted)
      → test ≡ true
      → bfree (words j) m ≡ ret (ok tt, d)
      → free_words (suc n) j blocklen words left dirty m ≡ rest d
  unfolding free_words
  turn_cut d e b =
      ap (λ (o : Op (Block × Bool × Bool)). o m) (pick_true test (bfree (words j) >> rest) other e)
      ∙ ap (λ r. and_then r (λ _. rest)) b

  turn_kept : test ≡ false → free_words (suc n) j blocklen words left dirty m ≡ other m
  unfolding free_words
  turn_kept e =
      ap (λ (o : Op (Block × Bool × Bool)). o m) (pick_false test (bfree (words j) >> rest) other e)

  -- What the rest of the loop reports, carried back over one turn.
  module _ {fm : Bitmap} {ws : Block} {l dd : Bool} where
    Freed-cut :
        (fm1 : Bitmap)
        → test ≡ true
        → Owns m.fs.freemap m.fs.nblocks m.sv.indirect (place m.sv.direct m.sv.indirect words)
        → Cleared m.fs.freemap
            (place m.sv.direct m.sv.indirect words)
            fm1
            (place m.sv.direct m.sv.indirect (update words j 0))
        → Freed (with_map m fm1 true) (update words j 0) (j + 1) n blocklen left true fm ws l dd
        → Freed m words j (suc n) blocklen left dirty fm ws l dd
    Freed-cut fm1 cut h c f = record {
      sound = f.sound;
      cleared = Cleared-then h c f.cleared;
      some = λ p z. f.some p (λ k b. z k (ground (arith, b)));
      cut = λ k. ground (arith, f.cut k, cut);
      empty = λ p. let (q, z) = f.empty p in (q, λ k r. ground (arith, z k, f.cut k, r));
      clean = λ p. let (q, z) = f.clean p in absurd (cc);
    }

    Freed-kept :
        test ≡ false
        → Freed m words (j + 1) n blocklen (left || not (words j == 0)) dirty fm ws l dd
        → Freed m words j (suc n) blocklen left dirty fm ws l dd
    Freed-kept kept f = record {
      sound = f.sound;
      cleared = f.cleared;
      some = λ p z. ground (arith, f.some p (λ k b. z k (ground (arith, b))), z j, f.cut j, kept);
      cut = λ k. ground (arith, f.cut k, kept);
      empty = λ p.
          let (q, z) = f.empty p in (ground (arith, q), λ k r. ground (arith, q, z k, f.cut k, r));
      clean = f.clean;
    }

  -- The part of the file that the word stands for is freed.
  module _ (small : j < 128) (has : m.sv.indirect ≢ 0)
      (h : Owns m.fs.freemap m.fs.nblocks m.sv.indirect (place m.sv.direct m.sv.indirect words))
      (cut : test ≡ true) where
    abbrev map : ℕ → ℕ
    map = place m.sv.direct m.sv.indirect words

    at_word : map (15 + j) ≡ words j
    at_word = ground (arith, small, has)

    own : map (15 + j) ≢ 0
    own = ground (arith, at_word, cut)

    free_word : bfree (words j) m ≡ ret (ok tt, dropped m (words j))
    free_word =
        bfree_lem m h (words j) (rw (sym at_word) (h.inside (15 + j) own))
          (rw (sym at_word) (h.marked (15 + j) own))

    word-IsSound :
        Owns
          (dropped m (words j)).fs.freemap
          m.fs.nblocks
          m.sv.indirect
          (place m.sv.direct m.sv.indirect (update words j 0))
    word-IsSound = rw at_word at (
        Owns-freed h (15 + j) own (place m.sv.direct m.sv.indirect (update words j 0))
          (λ k. ground (arith, small, has)))

    word-Cleared :
        Cleared m.fs.freemap map
          (dropped m (words j)).fs.freemap
          (place m.sv.direct m.sv.indirect (update words j 0))
    word-Cleared = rw at_word at (
        Cleared-one h (15 + j) own (place m.sv.direct m.sv.indirect (update words j 0))
          (λ k. ground (arith, small, has)))

pub free_words_lem :
    (n j blocklen : ℕ) (words : Block) (left dirty : Bool) (m : Mounted)
    → j + n ≤ 128
    → m.sv.indirect ≢ 0
    → Owns m.fs.freemap m.fs.nblocks m.sv.indirect (place m.sv.direct m.sv.indirect words)
    → (fm : Bitmap) × (fd : Bool) × (words' : Block) × (left' : Bool) × (dirty' : Bool)
      × (free_words n j blocklen words left dirty m
          ≡ ret (ok (words', left', dirty'), with_map m fm fd))
      × Freed m words j n blocklen left dirty fm words' left' dirty'
unfolding free_words
free_words_lem zero j blocklen words left dirty m small has h = (
  m.fs.freemap,
  m.fs.freemapdirty,
  words,
  left,
  dirty,
  refl,
  record {
    sound = h;
    cleared = Cleared-none m.fs.freemap _ _ (λ k. refl);
    some = λ p z. p;
    cut = λ k. ground arith;
    empty = λ e. (e, λ k b. absurd (ground (arith, b)));
    clean = λ e. (e, λ k. refl);
  },
)
free_words_lem (suc n) j blocklen words left dirty m small has h =
    elim (Bool-cases (ltb blocklen (15 + j) && not (words j == 0))) [
      | inl cut ↦
          let b = free_word n j blocklen words left dirty m (omega arith) has h cut in
          let h1 = word-IsSound n j blocklen words left dirty m (omega arith) has h cut in
          let (fm, fd, ws, l, dd, e, f) =
            free_words_lem n (j + 1) blocklen (update words j 0) left true (dropped m (words j))
              (omega arith) has h1 in
          (
            fm,
            fd,
            ws,
            l,
            dd,
            turn_cut n j blocklen words left dirty m (dropped m (words j)) cut b ∙ e,
            Freed-cut n j blocklen words left dirty m (dropped m (words j)).fs.freemap cut h
                (word-Cleared n j blocklen words left dirty m (omega arith) has h cut) f,
          )
      | inr kept ↦
          let (fm, fd, ws, l, dd, e, f) =
            free_words_lem n (j + 1) blocklen words (left || not (words j == 0)) dirty m
              (omega arith) has h in
          (
            fm,
            fd,
            ws,
            l,
            dd,
            turn_kept n j blocklen words left dirty m kept ∙ e,
            Freed-kept n j blocklen words left dirty m kept f,
          )
    ]
