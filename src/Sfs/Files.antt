-- ===== src/Sfs/Files.antt =====
-- sfs_link, sfs_remove and sfs_rename of fs/sfs/sfs_vnode.c on the one directory there is: its
-- slots, the link count of each inode (16 bits) and the references to each vnode. How sfs_loadvnode
-- ends for an inode is a parameter: with whether it is a file, with an error, or with a panic.
-- sfs_link is that of a vnode of the same file system. What sfs_reclaim does for a vnode whose last
-- reference goes is left out.
pub mod Kept
pub mod Rename
mod Tests
use cs.Base.{
  ◌&&◌, ℕ, zero, suc, ◌+◌, ◌-◌, ◌%◌, ◌^◌, Bool, true, false, not, List, Option, none, some, Run,
  ret, panic, fault, Result, ok, err, ◌==◌, if◌then◌else◌,
}
use cs.Vfs.{Name}
use cs.Vfs.Lookup.{enoent}
use cs.Sfs.Dir.{Entry, SlotIo, Found, findname, link, unlink}

pub record Volume : Type 0 where
  pub slots : List Entry
  pub links : ℕ → ℕ
  pub refs : ℕ → ℕ

abbrev pub change : (ℕ → ℕ) → ℕ → ℕ → ℕ → ℕ
change f i a j = if j == i then a else f j

-- sfs_lookonce with what sfs_dir_findname found: the slot and the inode, whose vnode has a reference
abbrev pub found : ℕ → ℕ → Volume → Run (Result Bool) → Run (Result (ℕ × ℕ) × Volume)
found slot ino s (ret (err e)) = ret (err e, s)
found slot ino s (ret (ok b)) =
    if s.links ino == 0
    then panic
    else ret (ok (slot, ino), record s { refs = change s.refs ino (s.refs ino + 1) })
found slot ino s panic = panic
found slot ino s fault = fault

abbrev pub Load : Type 0
Load = ℕ → Run (Result Bool)

abbrev pub loaded : Load → Volume → Option (ℕ × ℕ) → Run (Result (ℕ × ℕ) × Volume)
loaded load s none = ret (err enoent, s)
loaded load s (some (slot, ino)) = found slot ino s (load ino)

abbrev pub looked : Load → Volume → Run (Result Found) → Run (Result (ℕ × ℕ) × Volume)
looked load s (ret (err e)) = ret (err e, s)
looked load s (ret (ok f)) = loaded load s f.hit
looked load s panic = panic
looked load s fault = fault

-- sfs_lookonce
pub lookonce : SlotIo → Load → Name → Volume → Run (Result (ℕ × ℕ) × Volume)
lookonce io load name s = looked load s (findname io name s.slots)

-- VOP_DECREF, and the result
abbrev pub dropped : ℕ → Result (Unit {0}) → Volume → Run (Result (Unit {0}) × Volume)
dropped ino r s = ret (r, record s { refs = change s.refs ino (s.refs ino - 1) })

abbrev pub linked_to : ℕ → Volume → Run (Result ℕ × List Entry) → Run (Result ℕ × Volume)
linked_to ino s (ret (err e, es)) = ret (err e, record s { slots = es })
linked_to ino s (ret (ok slot, es)) =
    ret (ok slot, record s { slots = es; links = change s.links ino ((s.links ino + 1) % 2 ^ 16) })
linked_to ino s panic = panic
linked_to ino s fault = fault

-- sfs_link, with the slot
pub link_file : SlotIo → Name → ℕ → Volume → Run (Result ℕ × Volume)
link_file io name ino s = linked_to ino s (link io name ino s.slots)

-- The end of sfs_remove, with the result of sfs_dir_unlink
abbrev pub removed : ℕ → Volume → Result ℕ × List Entry → Run (Result (Unit {0}) × Volume)
removed ino s (err e, es) = dropped ino (err e) (record s { slots = es })
removed ino s (ok slot, es) =
    if s.links ino == 0
    then panic
    else dropped ino (ok tt) (record s { slots = es; links = change s.links ino (s.links ino - 1) })

abbrev pub remove_found : SlotIo → Run (Result (ℕ × ℕ) × Volume) → Run (Result (Unit {0}) × Volume)
remove_found io (ret (err e, s)) = ret (err e, s)
remove_found io (ret (ok (slot, ino), s)) = removed ino s (unlink io slot s.slots)
remove_found io panic = panic
remove_found io fault = fault

-- sfs_remove
pub remove : SlotIo → Load → Name → Volume → Run (Result (Unit {0}) × Volume)
remove io load name s = remove_found io (lookonce io load name s)

-- The error recovery of sfs_rename, with the result of clearing the new slot again
abbrev pub recovered : ℕ → ℕ → Volume → Result ℕ × List Entry → Run (Result (Unit {0}) × Volume)
recovered ino e s (err e2, es) = panic
recovered ino e s (ok slot, es) =
    dropped ino (err e)
      (record s { slots = es; links = change s.links ino ((s.links ino + 65535) % 2 ^ 16) })

-- The end of sfs_rename, with the result of clearing the old slot
abbrev pub moved :
    SlotIo → ℕ → ℕ → Volume → Result ℕ × List Entry → Run (Result (Unit {0}) × Volume)
moved io ino slot2 s (err e, es) = recovered ino e (record s { slots = es }) (unlink io slot2 es)
moved io ino slot2 s (ok slot, es) =
    if s.links ino == 0
    then panic
    else dropped ino (ok tt) (record s { slots = es; links = change s.links ino (s.links ino - 1) })

abbrev pub move_linked : SlotIo → ℕ → ℕ → Run (Result ℕ × Volume) → Run (Result (Unit {0}) × Volume)
move_linked io ino slot1 (ret (err e, s)) = dropped ino (err e) s
move_linked io ino slot1 (ret (ok slot2, s)) = moved io ino slot2 s (unlink io slot1 s.slots)
move_linked io ino slot1 panic = panic
move_linked io ino slot1 fault = fault

-- Whether sfi_type of the inode is SFS_TYPE_FILE
abbrev pub is_file : Run (Result Bool) → Bool
is_file (ret (ok b)) = b
is_file (ret (err e)) = false
is_file panic = false
is_file fault = false

abbrev pub move_found :
    SlotIo → Load → Name → Run (Result (ℕ × ℕ) × Volume) → Run (Result (Unit {0}) × Volume)
move_found io load n2 (ret (err e, s)) = ret (err e, s)
move_found io load n2 (ret (ok (slot1, ino), s)) =
    if is_file (load ino) then move_linked io ino slot1 (link_file io n2 ino s) else panic
move_found io load n2 panic = panic
move_found io load n2 fault = fault

-- SFS_ROOT_LOCATION
abbrev pub root_location : ℕ
root_location = 1

-- sfs_rename, for directories with the inodes `d1` and `d2`
pub rename : SlotIo → Load → ℕ → Name → ℕ → Name → Volume → Run (Result (Unit {0}) × Volume)
rename io load d1 n1 d2 n2 s =
    if (d1 == d2) && (d1 == root_location)
    then move_found io load n2 (lookonce io load n1 s)
    else panic
