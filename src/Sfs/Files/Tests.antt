-- ===== src/Sfs/Files/Tests.antt =====
-- A volume with the files 7 as "a" and 9 as "b", with an empty slot between.
use cs.Base.{refl, [], ◌∷◌, ◌==◌, if◌then◌else◌, arith}
use cs.Sfs.Dir.{SlotIo, count, is_dir, inode_of}
use cs.Sfs.Files.{Volume, link_file}
use cs.Sfs.Files.Kept.{IsVolume, Linked, link_file-Linked}

abbrev volume : Volume
volume = record {
  slots =
      (record { ino = 7; name = 97 ∷ [] })
      ∷ (record { ino = 0; name = [] })
      ∷ (record { ino = 9; name = 98 ∷ [] })
      ∷ [];
  links = λ j. if j == 7 then 1 else if j == 9 then 1 else 0;
  refs = λ j. if j == 7 then 1 else 0;
}

abbrev slot_io : SlotIo
slot_io = record { read = λ i. 0; write = λ i. 0 }

volume-IsVolume : IsVolume volume
unfolding is_dir inode_of count
volume-IsVolume = record { unique = refl; counts = λ j n. ground (arith, n) }

link_file-Linked_example : Linked volume (99 ∷ []) 7 (link_file slot_io (99 ∷ []) 7 volume)
link_file-Linked_example =
    link_file-Linked slot_io volume (99 ∷ []) 7 (λ i. refl) volume-IsVolume (omega arith)
      (omega arith)
