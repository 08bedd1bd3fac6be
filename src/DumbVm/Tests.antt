-- ===== src/DumbVm/Tests.antt =====
-- An address space of one page per region in a small memory.
use cs.Base.{◌≡◌, refl, true, List, [], ◌∷◌, some, ret, arith}
use cs.DumbVm.{page_frame, Physical, AddrSpace, Entry, check_as, vm_fault, as_copy}
use cs.DumbVm.Fault.{Fits, Handles, vm_fault-Handles}
use cs.DumbVm.Memory.{Room, CopyOf, as_copy-CopyOf}

abbrev space : AddrSpace
space = record {
  vbase1 = 4194304;
  pbase1 = 4096;
  npages1 = 1;
  vbase2 = 268435456;
  pbase2 = 8192;
  npages2 = 1;
  stackpbase = 12288;
}

abbrev memory : Physical
memory = record { ram = record { firstpaddr = 65536; lastpaddr = 1048576 }; bytes = λ a. 0 }

space-Fits : Fits space
space-Fits = record {
  virtual1 = omega arith;
  virtual2 = omega arith;
  physical1 = omega arith;
  physical2 = omega arith;
  stack = omega arith;
}

space_ok : check_as space ≡ true
unfolding check_as
space_ok = refl

-- One entry in use and one free.
abbrev tlb : List Entry
tlb = record { hi = 0; lo = 512 } ∷ record { hi = 0; lo = 0 } ∷ []

vm_fault-Handles_example :
    Handles space tlb (page_frame 4194310) (vm_fault (some space) tlb 0 4194310)
vm_fault-Handles_example = vm_fault-Handles space tlb 0 4194310 space-Fits space_ok (omega arith)

memory-Room : Room space memory
memory-Room = record {
  small = omega arith;
  first = omega arith;
  room = omega arith;
  below1 = omega arith;
  below2 = omega arith;
  below3 = omega arith;
}

as_copy-CopyOf_example :
    (q : Physical) × (new : AddrSpace) × (as_copy true space memory ≡ ret (0, some new, q))
    × CopyOf space memory new q
as_copy-CopyOf_example = as_copy-CopyOf space memory memory-Room
