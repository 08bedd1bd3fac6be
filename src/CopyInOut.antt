-- ===== src/CopyInOut.antt =====
-- vm/copyinout.c: copies between user and kernel memory that survive bad user addresses. An access
-- that traps goes to copyfail, whose longjmp returns to the setjmp; here the copy that was
-- interrupted ends in `trap` with the memory as it was left. Addresses and lengths are 32-bit
-- numbers. memcpy is the C library's, which is not in the repository; it is taken to copy upwards,
-- byte by byte.
pub mod Blocks
pub mod Strings
mod Tests
use cs.Base.{
  ℕ, zero, suc, ◌+◌, ◌-◌, ◌%◌, ◌^◌, Bool, true, false, ◌&&◌, ◌||◌, Option, none, some, ◌==◌,
  if◌then◌else◌, ltb, leb,
}

abbrev pub efault : ℕ
efault = 6

abbrev pub enametoolong : ℕ
enametoolong = 7

-- USERSPACETOP of arch/mips/include/vm.h
abbrev pub userspacetop : ℕ
userspacetop = 2147483648

-- The memory of the current address space and the kernel, which addresses the VM lets the kernel read
-- and write, and whether tm_badfaultfunc is set.
pub record Machine : Type 0 where
  pub bytes : ℕ → ℕ
  pub readable : ℕ → Bool
  pub writable : ℕ → Bool
  pub badfaultfunc : Bool

-- copycheck: the error and stoplen
pub record Checked : Type 0 where
  pub error : ℕ
  pub stoplen : ℕ

pub copycheck : ℕ → ℕ → Checked
copycheck userptr len =
    let top = (userptr + len + 4294967295) % 2 ^ 32 in
    if ltb top userptr
    then record { error = efault; stoplen = len }
    else if leb userspacetop userptr
    then record { error = efault; stoplen = len }
    else if leb userspacetop top
    then record { error = 0; stoplen = userspacetop - userptr }
    else record { error = 0; stoplen = len }

-- How a copy that may trap ends.
pub data Attempt : Type 0 where
  done : Machine → Attempt
  trap : Machine → Attempt

abbrev pub store : Machine → ℕ → ℕ → Machine
store m a v = record m { bytes = λ b. if b == a then v else m.bytes b }

-- dest[i] = src[i] at one byte
abbrev pub movable : Machine → ℕ → ℕ → Bool
movable m dest src = m.readable src && m.writable dest

pub memcpy : ℕ → Machine → ℕ → ℕ → Attempt
memcpy zero m dest src = done m
memcpy (suc n) m dest src =
    let rest = memcpy n (store m dest (m.bytes src)) (dest + 1) (src + 1) in
    if movable m dest src then rest else trap m

pub record Result : Type 0 where
  pub error : ℕ
  pub got : Option ℕ
  pub machine : Machine

-- The end of copyin and copyout: what follows setjmp.
pub recover : Attempt → Result
recover (done m) = record { error = 0; got = none; machine = record m { badfaultfunc = false } }
recover (trap m) = record {
  error = efault;
  got = none;
  machine = record m { badfaultfunc = false };
}

abbrev pub guarded : Machine → Machine
guarded m = record m { badfaultfunc = true }

abbrev pub refuse : ℕ → Machine → Result
refuse e m = record { error = e; got = none; machine = m }

pub copyin : Machine → ℕ → ℕ → ℕ → Result
copyin m usersrc dest len =
    let c = copycheck usersrc len in
    if c.error == 0
    then (if c.stoplen == len
        then recover (memcpy len (guarded m) dest usersrc)
        else refuse efault m)
    else refuse c.error m

pub copyout : Machine → ℕ → ℕ → ℕ → Result
copyout m src userdest len =
    let c = copycheck userdest len in
    if c.error == 0
    then (if c.stoplen == len
        then recover (memcpy len (guarded m) userdest src)
        else refuse efault m)
    else refuse c.error m

-- How the loop of copystr ends: at a null with the value of i+1, at a bound, or in a trap.
pub data Scan : Type 0 where
  found : ℕ → Machine → Scan
  bound : Machine → Scan
  trapped : Machine → Scan

-- The loop of copystr from index `i`, with `left` turns until a bound.
pub scan : ℕ → Machine → ℕ → ℕ → ℕ → Scan
scan zero m dest src i = bound m
scan (suc left) m dest src i =
    let v = m.bytes (src + i) in
    let m' = store m (dest + i) v in
    let rest = scan left m' dest src (i + 1) in
    if movable m (dest + i) (src + i)
    then (if v == 0 then found (i + 1) m' else rest)
    else trapped m

abbrev pub min_of : ℕ → ℕ → ℕ
min_of a b = if leb a b then a else b

-- What copystr and the code behind it in copyinstr make of that; gotlen is stored if it is not NULL.
pub finish : ℕ → ℕ → Scan → Result
finish maxlen stoplen (found n m) = record {
  error = 0;
  got = some n;
  machine = record m { badfaultfunc = false };
}
finish maxlen stoplen (bound m) = record {
  error = if ltb stoplen maxlen then efault else enametoolong;
  got = none;
  machine = record m { badfaultfunc = false };
}
finish maxlen stoplen (trapped m) = record {
  error = efault;
  got = none;
  machine = record m { badfaultfunc = false };
}

pub copystr : Machine → ℕ → ℕ → ℕ → ℕ → Result
copystr m dest src maxlen stoplen =
    finish maxlen stoplen (scan (min_of maxlen stoplen) m dest src 0)

pub copyinstr : Machine → ℕ → ℕ → ℕ → Result
copyinstr m usersrc dest len =
    let c = copycheck usersrc len in
    if c.error == 0 then copystr (guarded m) dest usersrc len c.stoplen else refuse c.error m

pub copyoutstr : Machine → ℕ → ℕ → ℕ → Result
copyoutstr m src userdest len =
    let c = copycheck userdest len in
    if c.error == 0 then copystr (guarded m) userdest src len c.stoplen else refuse c.error m
