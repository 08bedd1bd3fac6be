-- ===== src/Sfs/Truncate/Cut.antt =====
-- sfs_truncate, put together.
use cs.Base.{
  ℕ, ◌+◌, ◌-◌, ◌/◌, ◌%◌, ◌^◌, ◌≤◌, ◌<◌, ◌≡◌, ◌≢◌, refl, ◌∙◌, ◌⊎◌, inl, inr, sym, ap, Bool, true,
  false, not, ◌&&◌, [], Run, ret, ◌==◌, ltb, leb, if◌then◌else◌, arith, Bool-cases,
}
use cs.Bitmap.{Bitmap}
use cs.Sfs.{Mounted, Block, Result, ok, ◌>>=◌, ◌>>◌, update, rblock, bfree, set_indirect}
use cs.Sfs.Io.{rblock_quiet, wblock_quiet}
use cs.Sfs.Owns.{place, file_map, IsSound, Owns-same}
use cs.Sfs.Truncate.{free_direct, free_words, settle, free_indirect, set_size, truncate}
use cs.Bitmap.Inv.{used, used-with_clear}
use cs.Sfs.Truncate.Clear.{Cleared, Cleared-none, Cleared-then}
use cs.Sfs.Truncate.Owns.{Owns-dropped, dropped, bfree_lem}
use cs.Sfs.Truncate.Loops.{with_map, Freed, free_direct_lem, free_words_lem}

-- What is left of the blocks behind the indirect block.
abbrev pub cut_indirect : Mounted → ℕ → ℕ → ℕ
cut_indirect m blocklen j = if leb 15 j && ltb blocklen j then 0 else file_map m j

pub record Cuts (m : Mounted) (blocklen : ℕ) (cut : ℕ → ℕ) (m' : Mounted) : Type 0 where
  pub sound : IsSound m'
  pub quiet : m'.fs.pending ≡ []
  pub map : (j : ℕ) → file_map m' j ≡ cut j
  -- The free map before what becomes of the indirect block.
  pub fm : Bitmap
  pub cleared : Cleared m.fs.freemap (file_map m) fm (file_map m')
  pub pointer :
      ((m'.sv.indirect ≡ m.sv.indirect) × (m'.fs.freemap ≡ fm))
      ⊎ ((m'.sv.indirect ≡ 0)
          × ((b : ℕ) → used m'.fs.freemap b ≡ (if b == m.sv.indirect then false else used fm b)))
  pub emptied : blocklen < 142 → ((j : ℕ) → 15 ≤ j → cut j ≡ 0) → m'.sv.indirect ≡ 0
  pub disk : (b : ℕ) → b ≢ m.sv.indirect → m'.fs.disk b ≡ m.fs.disk b

module _ (m : Mounted) (blocklen : ℕ) (h : IsSound m) (quiet : m.fs.pending ≡ [])
    (has : m.sv.indirect ≢ 0) where
  abbrev words : Block
  words = m.fs.disk m.sv.indirect

  words_map :
      {fm : Bitmap} {ws : Block} {l dd : Bool}
      → Freed m words 0 128 blocklen false false fm ws l dd
      → (j : ℕ) → place m.sv.direct m.sv.indirect ws j ≡ cut_indirect m blocklen j
  words_map f j = ground (arith, f.cut (j - 15), has)

  -- A file whose parts are the direct blocks and the words that the loop left.
  cut_cleared :
      {fm : Bitmap} {ws : Block} {l dd : Bool}
      → Freed m words 0 128 blocklen false false fm ws l dd
      → (map' : ℕ → ℕ) → ((j : ℕ) → map' j ≡ place m.sv.direct m.sv.indirect ws j)
      → Cleared m.fs.freemap (file_map m) fm map'
  cut_cleared {fm} f map' e = Cleared-then h f.cleared (Cleared-none fm _ map' e)

  -- Where a word is left, the parts behind the indirect block are not all cut.
  not_empty :
      {fm : Bitmap} {ws : Block} {dd : Bool}
      → Freed m words 0 128 blocklen false false fm ws true dd
      → ((j : ℕ) → 15 ≤ j → cut_indirect m blocklen j ≡ 0)
      → m.sv.indirect ≡ 0
  not_empty f zero_past = absurd (
      cc (
        f.some refl
          (λ k b. ground (arith, words_map f (15 + k), zero_past (15 + k) (omega arith), b, has))))

  settle_lem :
      (fm : Bitmap) (fd : Bool) (ws : Block) (l dd : Bool)
      → Freed m words 0 128 blocklen false false fm ws l dd
      → (m' : Mounted) × (settle m.sv.indirect (ws, l, dd) (with_map m fm fd) ≡ ret (ok tt, m'))
        × Cuts m blocklen (cut_indirect m blocklen) m'
  unfolding settle set_indirect
  settle_lem fm fd ws false dd f =
      let d = dropped (with_map m fm fd) m.sv.indirect in
      let m2 : Mounted = record d { sv = record d.sv { indirect = 0; dirty = true } } in
      let b : bfree m.sv.indirect (with_map m fm fd) ≡ ret (ok tt, d) =
        bfree_lem (with_map m fm fd) f.sound m.sv.indirect (f.sound.ind_inside has)
          (f.sound.ind_marked has) in
      let (no_left, zeros) = f.empty refl in
      let z : (j : ℕ) → file_map m2 j ≡ place m.sv.direct m.sv.indirect ws j =
        λ j. ground (arith, zeros (j - 15)) in
      (
        m2,
        rw b refl,
        record {
          sound = Owns-dropped f.sound has (file_map m2) z;
          quiet = quiet;
          map = λ j. z j ∙ words_map f j;
          fm = fm;
          cleared = cut_cleared f (file_map m2) z;
          pointer = inr (
            refl,
            used-with_clear f.sound.valid m.sv.indirect
                (omega (arith, f.sound.ind_inside has, f.sound.room)),
          );
          emptied = λ p q. refl;
          disk = λ b p. refl;
        },
      )
  settle_lem fm fd ws true true f =
      let m1 = with_map m fm fd in
      let m2 : Mounted = record m1 {
        fs = record m1.fs { disk = update m.fs.disk m.sv.indirect ws };
      } in
      let w : (j : ℕ) → file_map m2 j ≡ place m.sv.direct m.sv.indirect ws j = λ j. ground arith in
      (
        m2,
        wblock_quiet m1 quiet ws m.sv.indirect,
        record {
          sound = Owns-same f.sound (file_map m2) w;
          quiet = quiet;
          map = λ j. w j ∙ words_map f j;
          fm = fm;
          cleared = cut_cleared f (file_map m2) w;
          pointer = inl (refl, refl);
          emptied = λ p q. not_empty f q;
          disk = λ b p. ground (arith, p);
        },
      )
  settle_lem fm fd ws true false f =
      let m1 = with_map m fm fd in
      let (clean, kept) = f.clean refl in
      let w : (j : ℕ) → file_map m1 j ≡ place m.sv.direct m.sv.indirect ws j =
        λ j. ground (arith, kept (j - 15)) in
      (
        m1,
        refl,
        record {
          sound = Owns-same f.sound (file_map m1) w;
          quiet = quiet;
          map = λ j. w j ∙ words_map f j;
          fm = fm;
          cleared = cut_cleared f (file_map m1) w;
          pointer = inl (refl, refl);
          emptied = λ p q. not_empty f q;
          disk = λ b p. refl;
        },
      )

  past_end :
      (m' : Mounted) × ((rblock m.sv.indirect >>= λ idbuf.
      free_words 128 0 blocklen idbuf false false >>= λ r. settle m.sv.indirect r)
          m
        ≡ ret (ok tt, m'))
      × Cuts m blocklen (cut_indirect m blocklen) m'
  past_end =
      let (fm, fd, ws, l, dd, e, f) =
        free_words_lem 128 0 blocklen words false false m (omega arith) has h in
      let (m', e', c) = settle_lem fm fd ws l dd f in
      (m', rw (rblock_quiet m quiet m.sv.indirect, e) e', c)

free_indirect_lem :
    (m : Mounted) (blocklen : ℕ)
    → IsSound m
    → m.fs.pending ≡ []
    → (m' : Mounted) × (free_indirect blocklen m ≡ ret (ok tt, m'))
      × Cuts m blocklen (cut_indirect m blocklen) m'
unfolding free_indirect
free_indirect_lem m blocklen h quiet =
    elim (Bool-cases (ltb blocklen 142 && not (m.sv.indirect == 0))) [
      | inl past ↦
          let (m', e, c) = past_end m blocklen h quiet (ground (arith, past)) in (m', rw past e, c)
      | inr near ↦ (
        m,
        rw near refl,
        record {
          sound = h;
          quiet = quiet;
          map = λ j. ground (arith, near);
          fm = m.fs.freemap;
          cleared = Cleared-none m.fs.freemap (file_map m) (file_map m) (λ j. refl);
          pointer = inl (refl, refl);
          emptied = λ p q. ground (arith, p, near);
          disk = λ b p. refl;
        },
      )
    ]

-- The block of part `j` of a file that sfs_truncate cuts to `blocklen` blocks. Of the direct blocks,
-- those from `blocklen` on are freed; behind the indirect block, only those past it.
abbrev pub cut_map : Mounted → ℕ → ℕ → ℕ
cut_map m blocklen j =
    if (if ltb j 15 then leb blocklen j else ltb blocklen j) then 0 else file_map m j

-- The size is set, and the file is cut.
abbrev pub Truncated : Mounted → ℕ → ℕ → Run (Result (Unit {0}) × Mounted) → Type 0
Truncated m len blocklen r =
    (m' : Mounted) × (r ≡ ret (ok tt, m'))
    × (m'.sv.size ≡ len % 2 ^ 32)
    × Cuts m blocklen (cut_map m blocklen) m'

-- What becomes of the indirect block, told of the file before the loop over the direct blocks.
pointed :
    {ind0 ind1 ind2 : ℕ} {fm fm2 : Bitmap}
    → ((ind2 ≡ ind1) × (fm2 ≡ fm))
      ⊎ ((ind2 ≡ 0) × ((b : ℕ) → used fm2 b ≡ (if b == ind1 then false else used fm b)))
    → ind1 ≡ ind0
    → ((ind2 ≡ ind0) × (fm2 ≡ fm))
      ⊎ ((ind2 ≡ 0) × ((b : ℕ) → used fm2 b ≡ (if b == ind0 then false else used fm b)))
pointed (inl p) e = inl (p.0 ∙ e, p.1)
pointed (inr p) e = inr (p.0, λ b. rw (sym e) (p.1 b))

truncate_at :
    (m : Mounted) (len blocklen : ℕ)
    → IsSound m
    → m.fs.pending ≡ []
    → Truncated m len blocklen
        ((free_direct 15 0 blocklen >> free_indirect blocklen >> set_size len) m)
unfolding set_size
truncate_at m len blocklen h quiet =
    let (m1, e1, h1, (a, b, c, d), f1, k1) = free_direct_lem 15 0 blocklen m (omega arith) h in
    let (m2, e2, c2) = free_indirect_lem m1 blocklen h1 (b ∙ quiet) in
    let m3 : Mounted = record m2 { sv = record m2.sv { size = len % 2 ^ 32; dirty = true } } in
    (
      m3,
      rw (e1, e2) refl,
      refl,
      record {
        sound = c2.sound;
        quiet = c2.quiet;
        map = λ j. ground (arith, c2.map j, f1 j);
        fm = c2.fm;
        cleared = Cleared-then h k1 c2.cleared;
        pointer = pointed c2.pointer d;
        emptied = λ p q. c2.emptied p (λ j r. ground (arith, q j r, f1 j, r));
        disk = λ k p. c2.disk k (λ q. p (q ∙ d)) ∙ ap (λ z. z k) a;
      },
    )

-- On a sound file and with a device that works, sfs_truncate to any length below 2 ^ 41 - 511
-- returns with the size set to the length mod 2 ^ 32 and the file sound. With the length in blocks
-- rounded up, it takes from the file the direct blocks from that number on and the blocks behind
-- the indirect block past that number (the block with that number stays); the other parts of the
-- file stay where they are. The bits of the blocks taken are cleared in the free map and no other,
-- save that of the indirect block where the file gives that up, as it does where the length is
-- below 142 blocks and nothing is left behind it. No block of the disk but the indirect one is
-- written.
pub truncate-Cuts :
    (m : Mounted) (len : ℕ)
    → len < 2 ^ 41 - 511
    → IsSound m
    → m.fs.pending ≡ []
    → Truncated m len ((len + 511) / 512) (truncate len m)
unfolding truncate
truncate-Cuts m len small h quiet =
    let w : (len + 511) / 512 % 2 ^ 32 ≡ (len + 511) / 512 = omega arith in
    rw w (truncate_at m len ((len + 511) / 512) h quiet)
