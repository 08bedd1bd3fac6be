-- ===== src/Sfs/Dir.antt =====
-- The directories of fs/sfs/sfs_vnode.c: a directory is the list of its slots, whose size is 64
-- bytes for each: sfs_dir_nentries, which panics for an inode that is no directory and for a size
-- that is no multiple of 64, is its length. How the read or the write of a slot ends, through
-- sfs_io, is a parameter; one that fails leaves the slots as they were.
pub mod Find
pub mod Link
pub mod Unlink
mod Tests
use cs.Base.{
  ℕ, zero, suc, ◌+◌, Bool, true, false, not, ◌&&◌, ◌||◌, List, [], ◌∷◌, ◌++◌, Option, none, some,
  length, set, Run, ret, panic, fault, Result, ok, err, ltb, ◌==◌, if◌then◌else◌,
}
use cs.Vfs.{Name, same, is_some, eexist}
use cs.Vfs.Lookup.{enoent}
use cs.CopyInOut.{enametoolong}

-- struct sfs_dir, with the characters before the null
pub record Entry : Type 0 where
  pub ino : ℕ
  pub name : Name

-- What sfs_readdir and sfs_writedir return for a slot
pub record SlotIo : Type 0 where
  pub read : ℕ → ℕ
  pub write : ℕ → ℕ

-- What the loop of sfs_dir_findname has found: a slot with its inode, and an empty slot
pub record Found : Type 0 where
  pub hit : Option (ℕ × ℕ)
  pub empty : Option ℕ

-- The loop of sfs_dir_findname, from slot `i` on
pub find_from : SlotIo → Name → List Entry → ℕ → Found → Run (Result Found)
find_from io name [] i acc = ret (ok acc)
find_from io name (e ∷ es) i acc =
    let free = find_from io name es (suc i) (record acc { empty = some i }) in
    let hit = find_from io name es (suc i) (record acc { hit = some (i, e.ino) }) in
    let other = find_from io name es (suc i) acc in
    if not (io.read i == 0)
    then ret (err (io.read i))
    else if e.ino == 0
    then free
    else if same e.name name
    then (if is_some acc.hit then panic else hit)
    else other

-- sfs_dir_findname: found or not, with the empty slot; or the error of a read
pub findname : SlotIo → Name → List Entry → Run (Result Found)
findname io name es = find_from io name es 0 (record { hit = none; empty = none })

-- sfs_writedir, at a slot there is or at the end
pub writedir : SlotIo → List Entry → Entry → ℕ → Result ℕ × List Entry
writedir io es e slot =
    if not (io.write slot == 0)
    then (err (io.write slot), es)
    else if ltb slot (length es)
    then (ok slot, set es slot e)
    else (ok slot, es ++ e ∷ [])

abbrev pub slot_or : Option ℕ → ℕ → ℕ
slot_or none n = n
slot_or (some slot) n = slot

-- sfs_dir_link with the result of sfs_dir_findname, which returns the slot
abbrev pub link_with :
    SlotIo → Name → ℕ → List Entry → Run (Result Found) → Run (Result ℕ × List Entry)
link_with io name ino es (ret (err e)) = ret (err e, es)
link_with io name ino es (ret (ok f)) =
    if is_some f.hit
    then ret (err eexist, es)
    else if ltb 60 (length name + 1)
    then ret (err enametoolong, es)
    else ret (writedir io es (record { ino = ino; name = name }) (slot_or f.empty (length es)))
link_with io name ino es panic = panic
link_with io name ino es fault = fault

-- sfs_dir_link
pub link : SlotIo → Name → ℕ → List Entry → Run (Result ℕ × List Entry)
link io name ino es = link_with io name ino es (findname io name es)

-- sfs_dir_unlink
pub unlink : SlotIo → ℕ → List Entry → Result ℕ × List Entry
unlink io slot es = writedir io es (record { ino = 0; name = [] }) slot

-- The directory as a map: the inode of a name.
unfoldable pub inode_of : Name → List Entry → Option ℕ
inode_of n [] = none
inode_of n (e ∷ es) =
    let rest = inode_of n es in if not (e.ino == 0) && same e.name n then some e.ino else rest

-- Every name is in one slot at most.
unfoldable pub is_dir : List Entry → Bool
is_dir [] = true
is_dir (e ∷ es) = ((e.ino == 0) || not (is_some (inode_of e.name es))) && is_dir es

-- How many slots have the inode.
unfoldable pub count : ℕ → List Entry → ℕ
count ino [] = 0
count ino (e ∷ es) = (if e.ino == ino then 1 else 0) + count ino es
