-- ===== src/Sfs/Owns.antt =====
-- The blocks of a file: which block each part of it is in, and that they are the file's own.
use cs.Base.{ℕ, ◌-◌, ◌≤◌, ◌<◌, ◌≡◌, ◌≢◌, true, false, not, ◌&&◌, ◌==◌, ltb, if◌then◌else◌, arith}
use mathlib.Core.Path.{fun_ext}
use cs.Bitmap.{Bitmap}
use cs.Bitmap.Inv.{used, IsValid, with_set, used-with_set, with_set-IsValid}
use cs.Sfs.{Mounted, Block, update}

-- The disk block of a block of the file, or 0 when there is none.
abbrev pub place : (ℕ → ℕ) → ℕ → Block → ℕ → ℕ
place direct ind words i =
    if ltb i 15 then direct i else if ltb i 143 && not (ind == 0) then words (i - 15) else 0

abbrev pub file_map : Mounted → ℕ → ℕ
file_map m = place m.sv.direct m.sv.indirect (m.fs.disk m.sv.indirect)

-- The blocks that a map and the indirect block name lie on the disk and are in use, no two parts of
-- the file share one, and block 0 and those past the end are never free.
pub record Owns (b : Bitmap) (n ind : ℕ) (map : ℕ → ℕ) : Type 0 where
  pub valid : IsValid b
  pub room : n ≤ b.nbits
  pub out : (j : ℕ) → n ≤ j → used b j ≡ true
  pub super : used b 0 ≡ true
  pub inside : (i : ℕ) → map i ≢ 0 → map i < n
  pub marked : (i : ℕ) → map i ≢ 0 → used b (map i) ≡ true
  pub one : (i j : ℕ) → map i ≢ 0 → map i ≡ map j → i ≡ j
  pub ind_inside : ind ≢ 0 → ind < n
  pub ind_marked : ind ≢ 0 → used b ind ≡ true
  pub apart : (i : ℕ) → map i ≢ 0 → map i ≢ ind

abbrev pub IsSound : Mounted → Type 0
IsSound m = Owns m.fs.freemap m.fs.nblocks m.sv.indirect (file_map m)

module _ {b : Bitmap} {n ind : ℕ} {map : ℕ → ℕ} (h : Owns b n ind map) (k : ℕ) (below : k < b.nbits)
    (free : used b k ≡ false) where
  -- A block that is marked and given to nobody.
  pub Owns-marked : Owns (with_set b k) n ind map
  Owns-marked = record {
    valid = with_set-IsValid h.valid k below;
    room = h.room;
    out = λ j p. ground (arith, used-with_set h.valid k below j, h.out j p);
    super = ground (arith, used-with_set h.valid k below 0, h.super);
    inside = h.inside;
    marked = λ i p. ground (arith, used-with_set h.valid k below (map i), h.marked i p);
    one = h.one;
    ind_inside = h.ind_inside;
    ind_marked = λ p. ground (arith, used-with_set h.valid k below ind, h.ind_marked p);
    apart = h.apart;
  }

  pub in_disk : k < n
  in_disk = ground (arith, h.out k)

  pub not_super : k ≢ 0
  not_super e = ground (arith, h.super)

  -- A block that is marked and given to an empty place of the file.
  pub Owns-given :
      (i : ℕ)
      → map i ≡ 0
      → (map' : ℕ → ℕ) → ((j : ℕ) → map' j ≡ update map i k j)
      → Owns (with_set b k) n ind map'
  Owns-given i e map' f =
      let o = Owns-marked in
      record {
        valid = o.valid;
        room = o.room;
        out = o.out;
        super = o.super;
        inside = λ j p. ground (arith, f j, h.inside j, in_disk, p);
        marked = λ j p. ground (arith, f j, o.marked j, used-with_set h.valid k below k, p);
        one = λ j l p q. ground (arith, f j, f l, h.one j l, h.marked j, h.marked l, p, q, free);
        ind_inside = o.ind_inside;
        ind_marked = o.ind_marked;
        apart = λ j p q. ground (arith, f j, h.apart j, h.ind_marked, free, not_super, p, q);
      }

  -- A block that is marked and becomes the indirect block of a file that has none.
  pub Owns-indirect :
      ind ≡ 0 → (map' : ℕ → ℕ) → ((j : ℕ) → map' j ≡ map j) → Owns (with_set b k) n k map'
  Owns-indirect e map' f =
      let o = Owns-marked in
      record {
        valid = o.valid;
        room = o.room;
        out = o.out;
        super = o.super;
        inside = λ j p. ground (arith, f j, h.inside j, p);
        marked = λ j p. ground (arith, f j, o.marked j, p);
        one = λ j l p q. ground (arith, f j, f l, h.one j l, p, q);
        ind_inside = λ p. in_disk;
        ind_marked = λ p. ground (arith, used-with_set h.valid k below k);
        apart = λ j p q. ground (arith, f j, h.marked j, free, p, q);
      }

pub Owns-same :
    {b : Bitmap} {n ind : ℕ} {map : ℕ → ℕ}
    → Owns b n ind map
    → (map' : ℕ → ℕ) → ((j : ℕ) → map' j ≡ map j)
    → Owns b n ind map'
Owns-same h map' f = rw (fun_ext f) h
