-- ===== src/Uio.antt =====
-- lib/uio.c and include/uio.h: moving data between a kernel buffer and the blocks of a uio, on the
-- memory of CopyInOut. `curas` is the address space of the current process.
pub mod Kernel
mod Tests
use cs.Base.{
  ℕ, zero, suc, ◌+◌, ◌-◌, ◌%◌, ◌^◌, Bool, true, false, not, ◌&&◌, ◌||◌, List, [], ◌∷◌, Option, none,
  some, Run, ret, panic, fault, ◌>>=◌, ◌>>◌, kassert, ◌==◌, if◌then◌else◌, ltb, leb, length,
}
use cs.CopyInOut.{Machine, Result, copyin, copyout}

-- struct iovec: iov_kbase and iov_ubase are one word.
pub record Iovec : Type 0 where
  pub base : ℕ
  pub len : ℕ

pub data Seg : Type 0 where
  userispace : Seg
  userspace : Seg
  sysspace : Seg

pub data Direction : Type 0 where
  uio_read : Direction
  uio_write : Direction

pub record Uio : Type 0 where
  pub iov : List Iovec
  pub iovcnt : ℕ
  pub offset : ℕ
  pub resid : ℕ
  pub segflg : Seg
  pub rw_dir : Direction
  pub space : Option ℕ

-- memmove of C
abbrev pub memmove : ℕ → ℕ → ℕ → Machine → Machine
memmove dest src n m = record m {
  bytes = λ a. if leb dest a && ltb a (dest + n) then m.bytes (src + (a - dest)) else m.bytes a;
}

-- The switch on uio_segflg: the error and the memory.
pub transfer : Seg → Direction → ℕ → ℕ → ℕ → Machine → ℕ × Machine
transfer sysspace uio_read base ptr size m = (0, memmove base ptr size m)
transfer sysspace uio_write base ptr size m = (0, memmove ptr base size m)
transfer _ uio_read base ptr size m = let r = copyout m ptr base size in (r.error, r.machine)
transfer _ uio_write base ptr size m = let r = copyin m base ptr size in (r.error, r.machine)

-- The loop of uiomove, with `f` turns left: every turn takes a byte or an iovec.
pub turns : ℕ → ℕ → ℕ → Uio → List Iovec → Machine → Run (ℕ × Uio × Machine)
turns zero ptr n u vs m = fault
turns (suc f) ptr n u [] m =
    if (n == 0) || (u.resid == 0) then ret (0, record u { iov = [] }, m) else fault
turns (suc f) ptr n u (v ∷ vs) m =
    let size = if ltb n v.len then n else v.len in
    let (e, m') = transfer u.segflg u.rw_dir v.base ptr size m in
    let next = turns f ptr n (record u { iovcnt = (u.iovcnt + 4294967295) % 2 ^ 32 }) vs m in
    let more =
      turns f (ptr + size) (n - size)
        (record u { resid = (u.resid + 4294967296 - size) % 2 ^ 32; offset = u.offset + size })
        (record { base = v.base + size; len = v.len - size } ∷ vs) m' in
    if (n == 0) || (u.resid == 0)
    then ret (0, record u { iov = v ∷ vs }, m)
    else if size == 0
    then (if u.iovcnt == 1 then panic else next)
    else if e == 0
    then more
    else ret (e, record u { iov = v ∷ vs }, m')

-- KASSERT on uio_space, which must be null for the kernel and the current one for a process
pub space_ok : Option ℕ → Uio → Bool
space_ok curas u = check u.segflg u.space curas
  where
    same : Option ℕ → Option ℕ → Bool
    same none none = true
    same (some a) (some b) = a == b
    same _ _ = false

    check : Seg → Option ℕ → Option ℕ → Bool
    check sysspace s c = same s none
    check _ s c = same s c

pub uiomove : Option ℕ → ℕ → ℕ → Uio → Machine → Run (ℕ × Uio × Machine)
uiomove curas ptr n u m = kassert (space_ok curas u) >> turns (n + length u.iov + 1) ptr n u u.iov m

-- uio_kinit
pub uio_kinit : ℕ → ℕ → ℕ → Direction → Uio
uio_kinit kbuf len pos rw_dir = record {
  iov = record { base = kbuf; len = len } ∷ [];
  iovcnt = 1;
  offset = pos;
  resid = len;
  segflg = sysspace;
  rw_dir = rw_dir;
  space = none;
}
