-- ===== src/Sfs/Truncate.antt =====
-- sfs_truncate: the blocks past the new end of a file are freed. The length is an off_t that is not
-- negative.
pub mod Owns
pub mod Clear
pub mod Loops
pub mod Cut
use cs.Base.{
  ℕ, zero, suc, ◌+◌, ◌/◌, ◌%◌, ◌^◌, Bool, true, false, not, ◌&&◌, ◌||◌, Run, ret, ltb, leb, ◌==◌,
  if◌then◌else◌,
}
use cs.Sfs.{
  Mounted, Vnode, Block, Result, ok, err, Op, and_then, ◌>>=◌, ◌>>◌, pure, update, rblock, wblock,
  bfree, set_direct, set_indirect,
}

-- The loop over the direct blocks from `i` on, with `n` of them left.
pub free_direct : ℕ → ℕ → ℕ → Op (Unit {0})
free_direct zero i blocklen m = ret (ok tt, m)
free_direct (suc n) i blocklen m =
    let block = m.sv.direct i in
    let freed = bfree block >> set_direct i 0 >> free_direct n (i + 1) blocklen in
    let kept = free_direct n (i + 1) blocklen in
    if leb blocklen i && not (block == 0) then freed m else kept m

-- The loop over the words of the indirect block: the words, hasnonzero and iddirty.
pub free_words : ℕ → ℕ → ℕ → Block → Bool → Bool → Op (Block × Bool × Bool)
free_words zero j blocklen idbuf hasnonzero iddirty = pure (idbuf, hasnonzero, iddirty)
free_words (suc n) j blocklen idbuf hasnonzero iddirty =
    let freed =
      bfree (idbuf j) >> free_words n (j + 1) blocklen (update idbuf j 0) hasnonzero true in
    let kept = free_words n (j + 1) blocklen idbuf (hasnonzero || not (idbuf j == 0)) iddirty in
    if ltb blocklen (15 + j) && not (idbuf j == 0) then freed else kept

-- What becomes of the indirect block after the loop.
pub settle : ℕ → Block × Bool × Bool → Op (Unit {0})
settle idblock (idbuf, hasnonzero, iddirty) =
    if not hasnonzero
    then bfree idblock >> set_indirect 0
    else if iddirty
    then wblock idbuf idblock
    else pure tt

pub free_indirect : ℕ → Op (Unit {0})
free_indirect blocklen m =
    let idblock = m.sv.indirect in
    let past_end = rblock idblock >>= λ idbuf.
    free_words 128 0 blocklen idbuf false false >>= λ r. settle idblock r in
    if ltb blocklen 142 && not (idblock == 0) then past_end m else ret (ok tt, m)

pub set_size : ℕ → Op (Unit {0})
set_size len m = ret (ok tt, record m { sv = record m.sv { size = len % 2 ^ 32; dirty = true } })

-- sfs_truncate
pub truncate : ℕ → Op (Unit {0})
truncate len =
    let blocklen = (len + 511) / 512 % 2 ^ 32 in
    free_direct 15 0 blocklen >> free_indirect blocklen >> set_size len
