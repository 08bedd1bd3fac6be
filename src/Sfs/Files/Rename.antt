-- ===== src/Sfs/Files/Rename.antt =====
-- sfs_rename moves a name.
use cs.Base.{ℕ, ◌+◌, ◌^◌, ◌<◌, none, some, Run, ret, Result, ok, err, if◌then◌else◌, ◌≡◌, ◌≢◌}
use cs.Vfs.{Name, same}
use cs.Sfs.Dir.{SlotIo, inode_of}
use cs.Sfs.Dir.Find.{slot_of}
use cs.Sfs.Files.{Volume, change}
use cs.Sfs.Files.Kept.{IsVolume}

-- What sfs_rename of `n1` to `n2` does.
pub data Renames (s : Volume) (n1 n2 : Name) : Run (Result (Unit {0}) × Volume) → Type 0 where
  refused :
      (e : ℕ) (t : Volume)
      → t.slots ≡ s.slots
      → ((j : ℕ) → t.links j ≡ s.links j)
      → ((j : ℕ) → t.refs j ≡ s.refs j)
      → Renames s n1 n2 (ret (err e, t))
  renames :
      (ino : ℕ) (t : Volume)
      → IsVolume t
      → inode_of n1 s.slots ≡ some ino
      → ((n : Name)
          → inode_of n t.slots
            ≡ (if same n1 n then none else if same n2 n then some ino else inode_of n s.slots))
      → ((j : ℕ) → t.links j ≡ s.links j)
      → ((j : ℕ) → t.refs j ≡ s.refs j)
      → Renames s n1 n2 (ret (ok tt, t))

module _ (io : SlotIo) (s : Volume) (n1 n2 : Name) (slot1 ino : ℕ) (v : IsVolume s)
    (writes : (i : ℕ) → io.write i ≡ 0) (at : slot_of n1 s.slots 0 ≡ some (slot1, ino))
    (used : ino ≢ 0) (small : s.links ino + 1 < 2 ^ 16) where
  abbrev opened : Volume
  opened = record s { refs = change s.refs ino (s.refs ino + 1) }
