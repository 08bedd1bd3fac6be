-- ===== src/Kmalloc.antt =====
-- One request for `n` pointer-sized words: kmalloc(n * sizeof(void *)) of vm/kmalloc.c, as its
-- callers see it. The block's contents are whatever was there; `none` is NULL. The product is
-- unsigned, of 32 bits, so that a request for 2 ^ 30 or more pointers is one for fewer.
use cs.Base.{
  ℕ, ◌*◌, ◌/◌, ◌≡◌, Option, some, List, length, replicate, length-replicate, ap, sym, ◌∙◌,
}
use cs.Base.Words.{u32}

pub record Words : Type 0 where
  pub block : ℕ → Option (List ℕ)
  pub block_length : (n : ℕ) (ws : List ℕ) → block n ≡ some ws → length ws ≡ n

-- The words of the block that kmalloc(n * sizeof(void *)) asks for
abbrev pub words : ℕ → ℕ
words n = u32 (n * 4) / 4

pub length-zeros : (n : ℕ) (ws : List ℕ) → some (replicate n 0) ≡ some ws → length ws ≡ n
length-zeros n ws e = let q : replicate n 0 ≡ ws = cc in ap length (sym q) ∙ length-replicate n 0

-- A kmalloc that always gives a block, of zeros.
abbrev pub zeros : Words
zeros = record { block = λ n. some (replicate n 0); block_length = length-zeros }
