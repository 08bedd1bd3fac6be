-- ===== src/Sfs.antt =====
-- fs/sfs/sfs_io.c and the block level of fs/sfs/sfs_vnode.c: block I/O with its retries, the free
-- map, and the blocks of one file. A disk block is its 128 words, an unsigned of 32 bits each. The
-- device is a parameter of the run: `pending` lists what its next calls of d_io return, and when
-- the list is at its end they succeed; a call that fails leaves the disk as it was.
pub mod Io
pub mod Owns
pub mod Alloc
pub mod Map
pub mod MapDirect
pub mod MapWord
pub mod Bmap
pub mod Truncate
pub mod Dir
pub mod Files
mod Tests
use cs.Base.{
  ℕ, zero, suc, ◌+◌, ◌-◌, ◌*◌, ◌/◌, ◌%◌, Bool, true, false, not, ◌&&◌, List, [], ◌∷◌, Option, none,
  some, Run, ret, panic, fault, kassert, ltb, leb, ◌==◌, if◌then◌else◌,
}
pub use cs.Base.{Result, ok, err, and_then}
use cs.Bitmap.{Bitmap, enospc}
use cs.Bitmap

abbrev pub einval : ℕ
einval = 8

abbrev pub eio : ℕ
eio = 32

abbrev pub efbig : ℕ
efbig = 38

-- SFS_NDIRECT and SFS_DBPERIDB
abbrev pub ndirect : ℕ
ndirect = 15

abbrev pub dbperidb : ℕ
dbperidb = 128

abbrev pub Block : Type 0
Block = ℕ → ℕ

-- What the code uses of struct sfs_fs, with the disk behind it.
pub record Fs : Type 0 where
  pub freemap : Bitmap
  pub freemapdirty : Bool
  pub nblocks : ℕ
  pub disk : ℕ → Block
  pub pending : List ℕ

-- struct sfs_vnode with its inode
pub record Vnode : Type 0 where
  pub size : ℕ
  pub linkcount : ℕ
  pub direct : ℕ → ℕ
  pub indirect : ℕ
  pub ino : ℕ
  pub dirty : Bool

pub record Mounted : Type 0 where
  pub fs : Fs
  pub sv : Vnode

-- An operation: the state changes it has made stay when it returns an error.
abbrev pub Op : Type 0 → Type 0
Op A = Mounted → Run (Result A × Mounted)

infixl 5 ◌>>=◌ ◌>>◌
abbrev pub ◌>>=◌ : {A B : Type 0} → Op A → (A → Op B) → Op B
o >>= f = λ m. and_then (o m) f

abbrev pub ◌>>◌ : {A B : Type 0} → Op A → Op B → Op B
o >> p = o >>= λ _. p

abbrev pub pure : {A : Type 0} → A → Op A
pure a = λ m. ret (ok a, m)

abbrev pub fail : {A : Type 0} → ℕ → Op A
fail e = λ m. ret (err e, m)

abbrev pub stop : {A : Type 0} → Op A
stop = λ m. panic

abbrev pub get : Op Mounted
get = λ m. ret (ok m, m)

abbrev pub put : Mounted → Op (Unit {0})
put m = λ _. ret (ok tt, m)

abbrev pub update : {A : Type 0} → (ℕ → A) → ℕ → A → ℕ → A
update f i a j = if j == i then a else f j

-- The retry loop of sfs_rwblock with `n` tries left: what it returns and what is still pending.
pub attempts : ℕ → List ℕ → Run (ℕ × List ℕ)
attempts n [] = ret (0, [])
attempts zero (e ∷ es) = if e == einval then panic else ret (e, es)
attempts (suc n) (e ∷ es) =
    let rest = attempts n es in
    if e == einval then panic else if e == eio then rest else ret (e, es)

-- sfs_rwblock after its assertion: ten tries after the first one. The callers hold the big lock.
pub rwblock : Op (Unit {0})
rwblock m = elim (attempts 10 m.fs.pending) [
  | ret r ↦
      let m' = record m { fs = record m.fs { pending = r.1 } } in
      if r.0 == 0 then ret (ok tt, m') else ret (err r.0, m')
  | panic ↦ panic
  | fault ↦ fault
]

-- sfs_rwblock, with what vfs_biglock_do_i_hold says
pub sfs_rwblock : Bool → Op (Unit {0})
sfs_rwblock held m = if held then rwblock m else panic

pub rblock : ℕ → Op Block
rblock block = rwblock >> λ m. ret (ok (m.fs.disk block), m)

pub wblock : Block → ℕ → Op (Unit {0})
wblock b block =
    rwblock >> λ m. ret (ok tt, record m { fs = record m.fs { disk = update m.fs.disk block b } })

-- sfs_clearblock
pub clearblock : ℕ → Op (Unit {0})
clearblock = wblock (λ _. 0)

-- sfs_balloc
pub balloc : Op ℕ
balloc m = elim (Bitmap.alloc m.fs.freemap) [
  | ret (e, none, map) ↦ ret (err e, m)
  | ret (e, some block, map) ↦
      let m' = record m { fs = record m.fs { freemap = map; freemapdirty = true } } in
      if leb m.fs.nblocks block then panic else (clearblock block >> pure block) m'
  | panic ↦ panic
  | fault ↦ fault
]

-- sfs_bfree
pub bfree : ℕ → Op (Unit {0})
bfree block m = elim (Bitmap.unmark m.fs.freemap block) [
  | ret map ↦ ret (ok tt, record m { fs = record m.fs { freemap = map; freemapdirty = true } })
  | panic ↦ panic
  | fault ↦ fault
]

-- sfs_bused
pub bused : ℕ → Op Bool
bused block m = if leb m.fs.nblocks block then panic else elim (Bitmap.isset m.fs.freemap block) [
  | ret b ↦ ret (ok b, m)
  | panic ↦ panic
  | fault ↦ fault
]

-- The end of sfs_bmap: a block that is handed back must be marked in use.
pub hand_back : ℕ → Op ℕ
hand_back block =
    if block == 0 then pure block else (bused block >>= λ b. if b then pure block else stop)

-- Remembering an allocated block in the inode
pub set_direct : ℕ → ℕ → Op (Unit {0})
set_direct i b m =
    ret (ok tt, record m { sv = record m.sv { direct = update m.sv.direct i b; dirty = true } })

pub set_indirect : ℕ → Op (Unit {0})
set_indirect b m = ret (ok tt, record m { sv = record m.sv { indirect = b; dirty = true } })

-- sfs_bmap for a direct block
pub bmap_direct : ℕ → Bool → Op ℕ
bmap_direct fileblock doalloc m =
    let block = m.sv.direct fileblock in
    let fresh = balloc >>= λ b. set_direct fileblock b >> hand_back b in
    if block == 0 && doalloc then fresh m else hand_back block m

-- sfs_bmap behind the load of the indirect block, whose words are `idbuf`
pub bmap_in : Block → ℕ → ℕ → Bool → Op ℕ
bmap_in idbuf idblock idoff doalloc =
    let block = idbuf idoff in
    let fresh = balloc >>= λ b. wblock (update idbuf idoff b) idblock >> hand_back b in
    if block == 0 && doalloc then fresh else hand_back block

-- sfs_bmap
pub bmap : ℕ → Bool → Op ℕ
bmap fileblock doalloc m =
    let idnum = (fileblock - ndirect) / dbperidb in
    let idoff = (fileblock - ndirect) % dbperidb in
    let idblock = m.sv.indirect in
    let fresh = balloc >>= λ b. set_indirect b >> bmap_in (λ _. 0) b idoff doalloc in
    let loaded = rblock idblock >>= λ idbuf. bmap_in idbuf idblock idoff doalloc in
    if ltb fileblock ndirect
    then bmap_direct fileblock doalloc m
    else if ltb 0 idnum
    then ret (err efbig, m)
    else if idblock == 0 && not doalloc
    then ret (ok 0, m)
    else if idblock == 0
    then fresh m
    else loaded m
