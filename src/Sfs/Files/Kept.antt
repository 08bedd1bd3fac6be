-- ===== src/Sfs/Files/Kept.antt =====
-- The link count of an inode is the number of its slots, and stays so.
use cs.Base.{
  Bool, ℕ, ◌+◌, ◌^◌, ◌<◌, true, List, none, some, Run, ret, Result, ok, err, if◌then◌else◌, ◌≡◌,
  ◌≢◌, refl, arith,
}
use cs.Vfs.{Name, same}
use cs.Sfs.Dir.{Entry, SlotIo, link, inode_of, is_dir, count}
use cs.Sfs.Dir.Find.{Reads}
use cs.Sfs.Dir.Link.{Links, exists, too_long, unwritten, linked, link-Links}
use cs.Sfs.Files.{Volume, Load, linked_to, link_file}

pub record IsVolume (s : Volume) : Type 0 where
  pub unique : is_dir s.slots ≡ true
  pub counts : (j : ℕ) → j ≢ 0 → s.links j ≡ count j s.slots

pub data Answer (r : Run (Result Bool)) : Type 0 where
  fails : (e : ℕ) → r ≡ ret (err e) → Answer r
  loads : (file : Bool) → r ≡ ret (ok file) → Answer r

-- sfs_loadvnode returns.
abbrev pub Returns : Load → Type 0
Returns load = (i : ℕ) → Answer (load i)

-- What sfs_remove of `name` does.
pub data Removes (s : Volume) (name : Name) : Run (Result (Unit {0}) × Volume) → Type 0 where
  refused :
      (e : ℕ) (t : Volume)
      → t.slots ≡ s.slots
      → ((j : ℕ) → t.links j ≡ s.links j)
      → ((j : ℕ) → t.refs j ≡ s.refs j)
      → Removes s name (ret (err e, t))
  removes :
      (t : Volume)
      → IsVolume t
      → ((n : Name) → inode_of n t.slots ≡ (if same name n then none else inode_of n s.slots))
      → ((j : ℕ) → t.refs j ≡ s.refs j)
      → Removes s name (ret (ok tt, t))

-- What sfs_link does.
pub data Linked (s : Volume) (name : Name) (ino : ℕ) : Run (Result ℕ × Volume) → Type 0 where
  kept : (e : ℕ) → Linked s name ino (ret (err e, s))
  added :
      (slot : ℕ) (t : Volume)
      → IsVolume t
      → inode_of name s.slots ≡ none
      → ((n : Name) → inode_of n t.slots ≡ (if same name n then some ino else inode_of n s.slots))
      → ((j : ℕ) → t.refs j ≡ s.refs j)
      → Linked s name ino (ret (ok slot, t))

-- sfs_link of an inode other than 0 and with fewer than 65535 links, in a directory of whole slots
-- that can be read, whose names are unique and where each link count is the number of slots,
-- returns and keeps names unique and link counts right: either there is an error and nothing
-- changed, or the name, which was not there, has the inode, and every other name what it had.
pub link_file-Linked :
    (io : SlotIo) (s : Volume) (name : Name) (ino : ℕ)
    → Reads io
    → IsVolume s
    → ino ≢ 0
    → s.links ino + 1 < 2 ^ 16
    → Linked s name ino (link_file io name ino s)
unfolding link_file
link_file-Linked io s name ino r v used small =
    go (link io name ino s.slots) (link-Links io name ino s.slots r used v.unique)
  where
    go :
        (q : Run (Result ℕ × List Entry))
        → Links io name ino s.slots q
        → Linked s name ino (linked_to ino s q)
    go q (exists h) = kept _
    go q (too_long h) = kept _
    go q (unwritten slot h) = kept _
    go q (linked slot es a d names counts places) =
        added slot _
          (record { unique = d; counts = λ j n. ground (arith, v.counts j n, counts j n, small) }) a
          names (λ j. refl)
