-- ===== src/Files.antt =====
-- syscall/file.c and syscall/file_syscalls.c: the table of open files of a process. A table entry is
-- the address of a struct filetable_entry, which several descriptors may share; one that was freed is
-- none, and so is reading it a fault. The numbers of an int are its 32 bits, so that a negative
-- descriptor is one of 2 ^ 31 or more. The calls of one process run one after another.
pub mod Uses
pub mod Open
pub mod Close
pub mod Undo
pub mod Init
mod Tests
use cs.Base.{
  ℕ, zero, suc, ◌+◌, ◌-◌, Bool, true, false, List, [], ◌∷◌, Option, none, some, Run, ret, panic,
  fault, Result, ok, err, leb, ltb, ◌==◌, if◌then◌else◌, put,
}
use cs.Base.Words.{u32, sub_u32}
use cs.Vfs.{Name, KnownDev, FsOps, einval}
use cs.Vfs.Lookup.{VnodeOps}
use cs.Vfs.Open.{OpenOps, Opened, how, vfs_open, vfs_close}

abbrev pub emfile : ℕ
emfile = 28

abbrev pub ebadf : ℕ
ebadf = 30

abbrev pub open_max : ℕ
open_max = 128

-- struct filetable_entry
pub record Entry : Type 0 where
  pub vnode : Option ℕ
  pub pos : ℕ
  pub flags : ℕ
  pub count : ℕ

-- filetable_entries, the entries at their addresses, and the vnodes
pub record Files : Type 0 where
  pub table : ℕ → Option ℕ
  pub entries : ℕ → Option Entry
  pub vfs : Opened

-- The loop of file_open, from descriptor `fd` on with `n` to go
pub find_free : (ℕ → Option ℕ) → ℕ → ℕ → Option ℕ
find_free table zero fd = none
find_free table (suc n) fd =
    let rest = find_free table n (fd + 1) in
    elim (table fd) as (λ _. Option ℕ) [ none ↦ some fd | some p ↦ rest ]

-- The entry of a file that was opened, at the address that kmalloc returned, which is not compared
-- with NULL
pub install : Option ℕ → ℕ → ℕ → ℕ → Files → Run (Result ℕ × Files)
install none fd v flags f = fault
install (some p) fd v flags f = ret (
  ok fd,
  record f {
    table = put f.table fd (some p);
    entries = put f.entries p (some (record { vnode = some v; pos = 0; flags = flags; count = 1 }));
  },
)

-- The entry that a valid descriptor has: EBADF for one that is not open or has no vnode
pub entry_of : ℕ → Files → Run (Result (ℕ × Entry × ℕ))
entry_of fd f =
    let of_entry : ℕ → Option Entry → Run (Result (ℕ × Entry × ℕ)) = λ p o. elim o [
      | none ↦ fault
      | some e ↦ elim e.vnode [ none ↦ ret (err ebadf) | some v ↦ ret (ok (p, e, v)) ]
    ] in
    let valid : Run (Result (ℕ × Entry × ℕ)) = elim (f.table fd) [
      | none ↦ ret (err ebadf)
      | some p ↦ of_entry p (f.entries p)
    ] in
    if leb open_max fd then ret (err ebadf) else valid

module _ (ops : VnodeOps) where
  -- The end of file_close, where `count` descriptors are left
  pub let_go : ℕ → ℕ → Entry → ℕ → Files → Run (Result (Unit {0}) × Files)
  let_go fd p e v f =
      let count = sub_u32 e.count 1 in
      let last : Run (Result (Unit {0}) × Files) = elim (vfs_close ops v f.vfs) [
        | ret r ↦ ret (
          ok tt,
          record { table = put f.table fd none; entries = put f.entries p none; vfs = r.1 },
        )
        | panic ↦ panic
        | fault ↦ fault
      ] in
      if count == 0
      then last
      else ret (
        ok tt,
        record f {
          table = put f.table fd none;
          entries = put f.entries p (some (record e { count = count }));
        },
      )

  -- file_close and sys_close
  pub file_close : ℕ → Files → Run (Result (Unit {0}) × Files)
  file_close fd f = elim (entry_of fd f) [
    | ret r ↦ elim r [ err x ↦ ret (err x, f) | ok q ↦ let_go fd q.0 q.1 q.2 f ]
    | panic ↦ panic
    | fault ↦ fault
  ]

module _ (fsops : FsOps) (ops : VnodeOps) (o : OpenOps) (devs : List KnownDev) where
  -- file_open, where kmalloc returns `room` for the entry
  pub file_open : Option ℕ → Name → ℕ → ℕ → Files → Run (Result ℕ × Files)
  file_open room filename flags mode f =
      let opened : Run (Result ℕ × Files) = elim (find_free f.table open_max 0) [
        | none ↦ ret (err emfile, f)
        | some fd ↦ elim (vfs_open fsops ops o devs filename flags mode f.vfs) [
          | ret r ↦ elim r.0 [
            | ok v ↦ install room fd v flags (record f { vfs = r.1 })
            | err e ↦ ret (err e, record f { vfs = r.1 })
          ]
          | panic ↦ panic
          | fault ↦ fault
        ]
      ] in
      if how flags == 3 then ret (err einval, f) else opened

  -- filetable_init, on the entries of other processes, where kmalloc returns `room` for the entry.
  -- The result of vfs_open is not looked at.
  pub filetable_init : Option ℕ → (ℕ → Option Entry) → Opened → Run Files
  filetable_init room entries st =
      elim (vfs_open fsops ops o devs (99 ∷ 111 ∷ 110 ∷ 58 ∷ []) 2 0 st) [
        | ret r ↦ elim room [
          | none ↦ fault
          | some p ↦ ret (record {
            table = λ fd. if ltb fd 3 then some p else none;
            entries = put entries p (
                some (record {
                  vnode = elim r.0 [ ok v ↦ some v | err e ↦ none ];
                  pos = 0;
                  flags = 2;
                  count = 3;
                }));
            vfs = r.1;
          })
        ]
        | panic ↦ panic
        | fault ↦ fault
      ]

-- sys_read and sys_write of `len` bytes, where `vop` is what VOP_READ or VOP_WRITE leaves in
-- uio_resid for a vnode, a position and a length
pub sys_transfer : (ℕ → ℕ → ℕ → Result ℕ) → ℕ → ℕ → Files → Run (Result ℕ × Files)
sys_transfer vop fd len f = elim (entry_of fd f) [
  | panic ↦ panic
  | fault ↦ fault
  | ret r ↦ elim r [
    | err x ↦ ret (err x, f)
    | ok q ↦ elim (vop q.2 (q.1).pos len) [
      | err x ↦ ret (err x, f)
      | ok resid ↦
          let n = sub_u32 len resid in
          ret (
            ok n,
            record f {
              entries = put f.entries q.0 (some (record (q.1) { pos = u32 ((q.1).pos + n) }));
            },
          )
    ]
  ]
]
