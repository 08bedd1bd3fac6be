-- ===== src/Files/Tests.antt =====
-- Runs of syscall/file.c, where the console is vnode 30 and "/" is vnode 40.
use cs.Base.{
  inl, ℕ, ◌≡◌, ◌≢◌, refl, ap, ◌∙◌, true, [], ◌∷◌, none, some, Run, ret, panic, fault, ok, err,
  Result, ◌==◌, ◌||◌, if◌then◌else◌, arith,
}
use cs.Vfs.{Name, FsOps}
use cs.Vfs.Lookup.{VnodeOps, decref}
use cs.Vfs.Lookup.Refs.{IsWorking}
use cs.Vfs.Open.{OpenOps, Opened, vfs_open, vfs_close, decopen}
use cs.Vfs.Open.Counts.{Opens, vfs_open-Opens}
use cs.Files.{Files, file_open, file_close, sys_transfer, entry_of, let_go}
use cs.Files.Uses.{IsFiles, uses, first_three, uses-first_three}
use cs.Files.Open.{Opening, file_open-Opening}
use cs.Files.Close.{Closing, file_close-Closing}
use cs.Files.Undo.{Undone, file_open-file_close}
use cs.Files.Init.{initial, initial-IsFiles}

abbrev fsops : FsOps
fsops = record { volname = λ fs. none; root = λ fs. 20 }

abbrev ops : VnodeOps
ops = record {
  fs_of = λ v. some 7;
  gettype = λ v. ok true;
  lookup = λ v path. err 19;
  lookparent = λ v path buflen. err 19;
  reclaim = λ v. 0;
}

abbrev open_ops : OpenOps
open_ops = record { creat = λ d n x m. err 19; vop_open = λ v flags. 0; vop_truncate = λ v len. 0 }

abbrev slash : Name
slash = 47 ∷ []

-- The console is open for one process, and the boot file system is set.
abbrev begin : Opened
begin = record {
  vnodes = record {
    refs = λ v. if (v == 30) || (v == 40) then 1 else 0;
    cwd = none;
    bootfs = some 40;
  };
  opens = λ v. if v == 30 then 1 else 0;
}

begin-IsWorking : IsWorking fsops ops [] begin.vnodes
begin-IsWorking = record {
  table = record {
    each = λ i kd e. absurd (ground (arith, e));
    apart = λ i j a b ne e. absurd (ground (arith, e));
  };
  reclaims = λ v. inl refl;
  in_fs = λ v e. refl;
}

-- The entry of the console is at address 5.
abbrev files : Files
files = initial 5 (λ q. none) (some 30) begin

files-IsFiles : IsFiles files
files-IsFiles = initial-IsFiles 5 (λ q. none) (some 30) begin

vfs_open-Opens_example :
    Opens begin.vnodes begin.vnodes.refs begin.opens
      (vfs_open fsops ops open_ops [] slash 16 0 begin)
vfs_open-Opens_example = vfs_open-Opens fsops ops open_ops [] slash 16 0 begin begin-IsWorking

file_open-Opening_example :
    Opening begin.vnodes 6 2 files (file_open fsops ops open_ops [] (some 6) slash 2 0 files)
file_open-Opening_example =
    file_open-Opening fsops ops open_ops [] 6 slash 2 0 files files-IsFiles refl begin-IsWorking

file_close-Closing_example :
    Closing begin.vnodes begin.vnodes.refs begin.opens 1 files (file_close ops 1 files)
file_close-Closing_example =
    file_close-Closing ops 1 files begin.vnodes begin.vnodes.refs begin.opens files-IsFiles
      (λ v. inl refl) (λ p e v t u. absurd (shared p t u))
  where
    shared : (p : ℕ) → files.table 1 ≡ some p → uses files.table 128 p ≢ 1
    shared p t u =
        let k : p ≡ 5 = ground (arith, t) in
        let c = ap (uses (first_three 5) 128) k ∙ uses-first_three 5 125 in ground (arith, u, c)

file_open-file_close_example :
    Undone ops files (file_open fsops ops open_ops [] (some 6) slash 2 0 files)
file_open-file_close_example =
    file_open-file_close fsops ops open_ops [] 6 slash 2 0 files files-IsFiles refl begin-IsWorking

-- A file of one descriptor, at the address 6
abbrev with_file : Files
with_file = record {
  table = λ fd. if fd == 3 then some 6 else none;
  entries = λ q.
      if q == 6 then some (record { vnode = some 40; pos = 0; flags = 0; count = 1 }) else none;
  vfs = record begin { opens = λ v. if v == 40 then 1 else 0 };
}

-- sys_fork copies the table and not the counts: the parent closes descriptor 3 after the child has.
abbrev child_then_parent : Run (Result (Unit {0}) × Files)
child_then_parent = elim (file_close ops 3 with_file) [
  | ret r ↦ file_close ops 3 (record (r.1) { table = with_file.table })
  | panic ↦ panic
  | fault ↦ fault
]

freed_twice : child_then_parent ≡ fault
unfolding file_close entry_of let_go vfs_close decopen decref
freed_twice = refl

-- A write of 4 bytes to a descriptor that was opened with O_RDONLY
abbrev answer : Run (Result ℕ × Files) → Run (Result ℕ)
answer (ret r) = ret r.0
answer panic = panic
answer fault = fault

written : answer (sys_transfer (λ v pos len. ok 0) 3 4 with_file) ≡ ret (ok 4)
unfolding sys_transfer entry_of
written = refl
