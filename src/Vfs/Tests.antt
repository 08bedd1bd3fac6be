-- ===== src/Vfs/Tests.antt =====
-- A disk lhd0 that wants a file system, and emu0, which is one, called "e".
use cs.Base.{
  inl, ℕ, ◌+◌, ◌≤◌, ◌==◌, ◌||◌, if◌then◌else◌, true, false, List, [], ◌∷◌, ◌++◌, none, some, ret,
  ok, err, ◌≡◌, refl, arith,
}
use cs.Vfs.{Name, KnownDev, FsOps, Known, Memory, einval, adddev, badnames, getroot, mount}
use cs.Vfs.Table.{IsTable, raw}
use cs.Vfs.Getroot.{getroot-Means}
use cs.Vfs.Add.{Added, device_of, append-IsTable, mountable-IsDevice, adddev-Added}
use cs.Vfs.Mount.{Mounts, mount-Mounts}
use cs.Vfs.Lookup.{VnodeOps, Vnodes, lookup, setbootfs}
use cs.Vfs.Lookup.Counts.{Counts, one, nothing}
use cs.Vfs.Lookup.Refs.{IsWorking, lookup-Counts}
use cs.Vfs.Lookup.Cwd.{held, setbootfs-colon}
use cs.Vfs.PathOps.{remove, mkdir, rmdir, symlink, readlink, rename, link, pathops-Counts}

abbrev fsops : FsOps
fsops = record { volname = λ fs. some (101 ∷ []); root = λ fs. 20 + fs }

abbrev lhd0 : Name
lhd0 = 108 ∷ 104 ∷ 100 ∷ 48 ∷ []

abbrev disk : KnownDev
disk = device_of 10 lhd0 true (some 1) none

abbrev emu : KnownDev
emu = device_of 11 (101 ∷ 109 ∷ 117 ∷ 48 ∷ []) false none (some 7)

abbrev table : List KnownDev
table = disk ∷ emu ∷ []

empty-IsTable : IsTable fsops []
empty-IsTable = record {
  each = λ i kd e. absurd (ground (arith, e));
  apart = λ i j a b ne e. absurd (ground (arith, e));
}

table-IsTable : IsTable fsops table
unfolding badnames
table-IsTable =
    append-IsTable fsops emu (disk ∷ [])
      (append-IsTable fsops disk [] empty-IsTable (mountable-IsDevice fsops 10 lhd0 1 true) refl)
      (record {
        mountable = λ e. absurd (ground (arith, e));
        device = λ e. absurd (ground (arith, e));
        raw = refl;
        vol = refl;
      })
      refl

getroot-Means_example : getroot fsops (lhd0 ++ 114 ∷ 97 ∷ 119 ∷ []) table ≡ ret (ok 10)
getroot-Means_example =
    getroot-Means fsops table 0 disk (lhd0 ++ 114 ∷ 97 ∷ 119 ∷ []) (ok 10) table-IsTable refl
      (raw refl)

abbrev memory : Memory
memory = record { name_ok = true; raw_ok = true; vnode_ok = true; kd_ok = true; room_ok = true }

abbrev known : Known
known = record { devs = table; number = λ j. if j == 1 then 1 else 0 }

abbrev lhd1 : Name
lhd1 = 108 ∷ 104 ∷ 100 ∷ 49 ∷ []

adddev-Added_example :
    Added fsops memory
      (device_of 12 lhd1 true (some 2) none)
      known
      (adddev fsops memory 12 lhd1 2 true known)
adddev-Added_example = adddev-Added fsops memory 12 lhd1 2 true known table-IsTable

mount-Mounts_example : Mounts fsops table 0 disk 1 (λ dev. ok 5) (mount lhd0 (λ dev. ok 5) table)
mount-Mounts_example = mount-Mounts fsops table 0 disk 1 (λ dev. ok 5) table-IsTable refl refl refl

abbrev ops : VnodeOps
ops = record {
  fs_of = λ v. some 7;
  gettype = λ v. ok true;
  lookup = λ v path. ok 30;
  lookparent = λ v path buflen. ok (v, path);
  reclaim = λ v. 0;
}

abbrev vnodes : Vnodes
vnodes = record {
  refs = λ v. if (v == 10) || (v == 20) || (v == 30) then 2 else 0;
  cwd = some 30;
  bootfs = none;
}

vnodes-IsWorking : IsWorking fsops ops table vnodes
vnodes-IsWorking = record { table = table-IsTable; reclaims = λ v. inl refl; in_fs = λ v e. refl }

lookup-Counts_example :
    Counts vnodes vnodes.refs one (lookup fsops ops table (101 ∷ 58 ∷ 97 ∷ []) vnodes)
lookup-Counts_example = lookup-Counts fsops ops table (101 ∷ 58 ∷ 97 ∷ []) vnodes vnodes-IsWorking

pathops-Counts_example :
    Counts vnodes vnodes.refs nothing (remove fsops ops table (λ d n. 0) (97 ∷ []) vnodes)
    × Counts vnodes vnodes.refs nothing (mkdir fsops ops table (λ d n m. 22) (97 ∷ []) 511 vnodes)
    × Counts vnodes vnodes.refs nothing (rmdir fsops ops table (λ d n. 0) (97 ∷ []) vnodes)
    × Counts vnodes vnodes.refs nothing
        (symlink fsops ops table (λ d n c. 0) (98 ∷ []) (97 ∷ []) vnodes)
    × Counts vnodes vnodes.refs nothing (readlink fsops ops table (λ v. 8) (97 ∷ []) vnodes)
    × Counts vnodes vnodes.refs nothing
        (rename fsops ops table (λ d n e m. 0) (98 ∷ []) (97 ∷ []) vnodes)
    × Counts vnodes vnodes.refs nothing
        (link fsops ops table (λ d n f. 0) (98 ∷ []) (97 ∷ []) vnodes)
pathops-Counts_example =
    pathops-Counts fsops ops table (λ d n. 0) (λ d n m. 22) (λ d n c. 0) (λ v. 8) (λ d n e m. 0)
      (λ d n f. 0) 511 (98 ∷ []) (97 ∷ []) vnodes vnodes-IsWorking

owns : (j : ℕ) → held vnodes.cwd j ≤ vnodes.refs j
owns j = ground arith

setbootfs-colon_example :
    setbootfs fsops ops table (101 ∷ 58 ∷ []) vnodes ≡ ret (err einval, vnodes)
setbootfs-colon_example = setbootfs-colon fsops ops table (101 ∷ []) [] vnodes (omega arith)
