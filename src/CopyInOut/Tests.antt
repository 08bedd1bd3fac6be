-- ===== src/CopyInOut/Tests.antt =====
-- Copies of a word in user memory at 16 into the kernel, and back.
use cs.Base.{◌≡◌, inl, refl, true, false, arith, ◌==◌, if◌then◌else◌}
use cs.CopyInOut.{efault, Machine, refuse, copyin, copyout, copyinstr}
use cs.CopyInOut.Blocks.{Moves, copyin-Moves, copyin-copyout-empty}
use cs.CopyInOut.Strings.{Ends, copyinstr-Ends}

-- User memory holds a string of three letters at 16; the kernel's begins at USERSPACETOP.
abbrev memory : Machine
memory = record {
  bytes = λ a. if a == 19 then 0 else 65;
  readable = λ a. true;
  writable = λ a. true;
  badfaultfunc = false;
}

copyin-Moves_example : Moves memory 2147483660 16 16 4 (copyin memory 16 2147483660 4)
copyin-Moves_example =
    copyin-Moves memory 16 2147483660 4 (omega arith) (omega arith) (inl (omega arith)) refl

copyin-copyout-empty_example :
    (copyin memory 16 2147483660 0 ≡ refuse efault memory)
    × (copyout memory 2147483660 16 0 ≡ refuse efault memory)
copyin-copyout-empty_example = copyin-copyout-empty memory 16 2147483660 (omega arith)

copyinstr-Ends_example : Ends memory 2147483660 16 16 8 (copyinstr memory 16 2147483660 8)
copyinstr-Ends_example =
    copyinstr-Ends memory 16 2147483660 8 (omega arith) (omega arith) (omega arith)
      (inl (omega arith))
