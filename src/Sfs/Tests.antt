-- ===== src/Sfs/Tests.antt =====
-- A disk of eight blocks with a file of two: block 3 first, and block 5 behind the indirect block 4.
use cs.Base.{
  panic, ℕ, zero, suc, get_or-ge, inl, inr, ◌⊎◌, ◌/◌, ◌%◌, ◌≤◌, ◌<◌, ◌≡◌, ◌≢◌, refl, true, false,
  [], ◌∷◌, ◌==◌, ◌&&◌, if◌then◌else◌, arith,
}
use cs.Base.Words.{test_bit, test_bit_255}
use cs.Bitmap.{Bitmap}
use cs.Bitmap.Inv.{used, IsValid, word}
use cs.Sfs.{sfs_rwblock, Mounted, eio, bmap}
use cs.Sfs.Io.{later, rwblock-Retries, InRange, Retries}
use cs.Sfs.Owns.{file_map, IsSound}
use cs.Sfs.Map.{Bmaps}
use cs.Sfs.Bmap.{bmap-Bmaps}
use cs.Sfs.Truncate.{truncate}
use cs.Sfs.Truncate.Cut.{Truncated, truncate-Cuts}

abbrev freemap : Bitmap
freemap = record { nbits = 8; v = 63 ∷ [] }

freemap-IsValid : IsValid freemap
unfolding test_bit
freemap-IsValid = record {
  small = omega arith;
  enough = omega arith;
  tight = omega arith;
  bytes = λ i. byte i;
  over = λ i h. past i h;
}
  where
    byte : (i : ℕ) → word (63 ∷ []) i < 256
    byte zero = omega arith
    byte (suc i) = omega arith

    past : (i : ℕ) → 8 ≤ i → used freemap i ≡ true
    past i h =
        rw (get_or-ge {A = ℕ} (63 ∷ []) (i / 8) 0xff (omega arith))
          (test_bit_255 (i % 8) (omega arith))

abbrev file : Mounted
file = record {
  fs = record {
    freemap = freemap;
    freemapdirty = false;
    nblocks = 8;
    disk = λ b i. if (b == 4) && (i == 0) then 5 else 0;
    pending = [];
  };
  sv = record {
    size = 8192;
    linkcount = 1;
    direct = λ i. if i == 0 then 3 else 0;
    indirect = 4;
    ino = 1;
    dirty = false;
  };
}

places : (i : ℕ) → file_map file i ≢ 0 → (file_map file i ≡ 3) ⊎ (file_map file i ≡ 5)
places i h = ground (arith, h)

file-IsSound : IsSound file
unfolding test_bit
file-IsSound = record {
  valid = freemap-IsValid;
  room = omega arith;
  out = λ j h. freemap-IsValid.over j h;
  super = refl;
  inside = λ i h. ground arith;
  marked = λ i h. elim (places i h) [ inl e ↦ rw e refl | inr e ↦ rw e refl ];
  one = λ i j h e. ground (arith, h, e);
  ind_inside = λ h. omega arith;
  ind_marked = λ h. refl;
  apart = λ i h e. ground (arith, h, e);
}

bmap-Bmaps_example : Bmaps file 7 true (bmap 7 true file)
bmap-Bmaps_example = bmap-Bmaps file 7 true file-IsSound tt (omega arith)

abbrev shaky : Mounted
shaky = later file (eio ∷ eio ∷ 0 ∷ 5 ∷ [])

shaky-InRange : InRange shaky.fs.pending
shaky-InRange = (
  (λ e. ground (arith, e)),
  ((λ e. ground (arith, e)), ((λ e. ground (arith, e)), ((λ e. ground (arith, e)), tt))),
)

rwblock-Retries_example : (sfs_rwblock false shaky ≡ panic) × Retries shaky (sfs_rwblock true shaky)
rwblock-Retries_example = rwblock-Retries shaky shaky-InRange

truncate-Cuts_example : Truncated file 7680 15 (truncate 7680 file)
truncate-Cuts_example = truncate-Cuts file 7680 (omega arith) file-IsSound refl
