-- ===== src/Uio/Tests.antt =====
-- A buffer of 8 bytes.
use cs.Base.{◌≡◌, none, ret, arith, true, false}
use cs.CopyInOut.{Machine}
use cs.Uio.{uio_read, memmove, uiomove, uio_kinit}
use cs.Uio.Kernel.{advanced, uiomove-uio_kinit}

abbrev machine : Machine
machine = record {
  bytes = λ a. a;
  readable = λ a. true;
  writable = λ a. true;
  badfaultfunc = false;
}

uiomove-uio_kinit_example :
    uiomove none 100 3 (uio_kinit 200 8 0 uio_read) machine
    ≡ ret (0, advanced 200 8 0 3 uio_read, memmove 200 100 3 machine)
uiomove-uio_kinit_example =
    uiomove-uio_kinit none 100 3 200 8 0 machine (omega arith) (omega arith) (omega arith)
