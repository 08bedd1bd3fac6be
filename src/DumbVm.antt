-- ===== src/DumbVm.antt =====
-- arch/mips/vm/dumbvm.c and arch/mips/vm/ram.c: physical pages handed out in order and never taken
-- back, address spaces of two regions and a stack, and the handler of TLB misses. Addresses are
-- 32-bit numbers. The kernel sees physical memory at KSEG0, so a kernel pointer is named here by
-- its physical address. The TLB is hardware: a list of NUM_TLB entries that tlb_read and tlb_write
-- index. as_destroy, free_kpages and as_deactivate change nothing that is kept here.
pub mod Fault
pub mod Memory
pub mod Region
mod Tests
use cs.Base.{
  ℕ, ◌+◌, ◌-◌, ◌*◌, ◌/◌, ◌%◌, ◌^◌, Bool, true, false, ◌&&◌, ◌||◌, not, List, [], ◌∷◌, Option, none,
  some, Run, ret, panic, ◌>>=◌, ◌>>◌, kassert, ◌==◌, if◌then◌else◌, ltb, leb, replicate,
}

abbrev pub eunimp : ℕ
eunimp = 2

abbrev pub enomem : ℕ
enomem = 3

abbrev pub efault : ℕ
efault = 6

abbrev pub einval : ℕ
einval = 8

-- USERSTACK, and the base of the stack under it: DUMBVM_STACKPAGES pages
abbrev pub userstack : ℕ
userstack = 2147483648

abbrev pub dumbvm_stackpages : ℕ
dumbvm_stackpages = 12

abbrev pub stackbase : ℕ
stackbase = 2147434496

-- x & PAGE_FRAME, for a 32-bit x
abbrev pub page_frame : ℕ → ℕ
page_frame x = x / 4096 * 4096

-- firstpaddr and lastpaddr
pub record Ram : Type 0 where
  pub firstpaddr : ℕ
  pub lastpaddr : ℕ

-- ram_bootstrap, for the size mainbus_ramsize gives and firstfree less MIPS_KSEG0
pub bootstrap : ℕ → ℕ → Ram
bootstrap ramsize first =
    let size = if ltb 532676608 ramsize then 532676608 else ramsize in
    record { firstpaddr = first; lastpaddr = size }

-- ram_stealmem; getppages calls it under its spinlock.
pub stealmem : ℕ → Ram → ℕ × Ram
stealmem npages r =
    let size = npages * 4096 % 2 ^ 32 in
    if ltb r.lastpaddr ((r.firstpaddr + size) % 2 ^ 32)
    then (0, r)
    else (r.firstpaddr, record r { firstpaddr = (r.firstpaddr + size) % 2 ^ 32 })

-- The free memory, and the bytes of physical memory.
pub record Physical : Type 0 where
  pub ram : Ram
  pub bytes : ℕ → ℕ

pub getppages : ℕ → Physical → ℕ × Physical
getppages npages p = let (addr, r) = stealmem npages p.ram in (addr, record p { ram = r })

-- alloc_kpages: the address at KSEG0, or 0
pub alloc_kpages : ℕ → Physical → ℕ × Physical
alloc_kpages npages p =
    let (pa, q) = getppages npages p in (if pa == 0 then 0 else (pa + 2147483648) % 2 ^ 32, q)

-- struct addrspace
pub record AddrSpace : Type 0 where
  pub vbase1 : ℕ
  pub pbase1 : ℕ
  pub npages1 : ℕ
  pub vbase2 : ℕ
  pub pbase2 : ℕ
  pub npages2 : ℕ
  pub stackpbase : ℕ

pub as_create : AddrSpace
as_create = record {
  vbase1 = 0;
  pbase1 = 0;
  npages1 = 0;
  vbase2 = 0;
  pbase2 = 0;
  npages2 = 0;
  stackpbase = 0;
}

-- A TLB entry: its high and low word.
pub record Entry : Type 0 where
  pub hi : ℕ
  pub lo : ℕ

-- elo & TLBLO_VALID
abbrev pub is_valid : Entry → Bool
is_valid e = e.lo / 512 % 2 == 1

-- as_activate: every entry is TLBHI_INVALID and TLBLO_INVALID; it is done for a process alone.
abbrev invalidate : ℕ → List Entry → List Entry
invalidate i [] = []
invalidate i (e ∷ es) = record { hi = (524288 + i) * 4096; lo = 0 } ∷ invalidate (i + 1) es

pub as_activate : Option AddrSpace → List Entry → List Entry
as_activate none tlb = tlb
as_activate (some a) tlb = invalidate 0 tlb

-- The physical address behind a page, by the three ranges of vm_fault.
pub backing : AddrSpace → ℕ → Option ℕ
backing a fault =
    let top1 = (a.vbase1 + a.npages1 * 4096) % 2 ^ 32 in
    let top2 = (a.vbase2 + a.npages2 * 4096) % 2 ^ 32 in
    if leb a.vbase1 fault && ltb fault top1
    then some ((fault - a.vbase1 + a.pbase1) % 2 ^ 32)
    else if leb a.vbase2 fault && ltb fault top2
    then some ((fault - a.vbase2 + a.pbase2) % 2 ^ 32)
    else if leb stackbase fault && ltb fault userstack
    then some ((fault - stackbase + a.stackpbase) % 2 ^ 32)
    else none

-- The loop over the TLB: the first entry that is not valid is written.
pub tlb_fill : Entry → List Entry → Option (List Entry)
tlb_fill new [] = none
tlb_fill new (e ∷ es) = elim (tlb_fill new es) [
  | none ↦ if is_valid e then none else some (new ∷ es)
  | some fs ↦ if is_valid e then some (e ∷ fs) else some (new ∷ es)
]

-- The assertions on the address space
pub check_as : AddrSpace → Bool
check_as a =
    not (a.vbase1 == 0)
    && not (a.pbase1 == 0)
    && not (a.npages1 == 0)
    && not (a.vbase2 == 0)
    && not (a.pbase2 == 0)
    && not (a.npages2 == 0)
    && not (a.stackpbase == 0)
    && (page_frame a.vbase1 == a.vbase1)
    && (page_frame a.pbase1 == a.pbase1)
    && (page_frame a.vbase2 == a.vbase2)
    && (page_frame a.pbase2 == a.pbase2)
    && (page_frame a.stackpbase == a.stackpbase)

-- The end of vm_fault: paddr | TLBLO_DIRTY | TLBLO_VALID is a sum, as paddr is a page's address.
pub install : List Entry → ℕ → Option ℕ → Run (ℕ × List Entry)
install tlb fault none = ret (efault, tlb)
install tlb fault (some paddr) = do
  kassert (page_frame paddr == paddr)
  elim (tlb_fill (record { hi = fault; lo = paddr + 1536 }) tlb) [
    | none ↦ ret (efault, tlb)
    | some tlb' ↦ ret (0, tlb')
  ]

-- vm_fault for the address space of a process, and for no process or a process without one
pub fault_in : Option AddrSpace → List Entry → ℕ → Run (ℕ × List Entry)
fault_in none tlb fault = ret (efault, tlb)
fault_in (some a) tlb fault = kassert (check_as a) >> install tlb fault (backing a fault)

pub vm_fault : Option AddrSpace → List Entry → ℕ → ℕ → Run (ℕ × List Entry)
vm_fault space tlb faulttype faultaddress =
    if faulttype == 2
    then panic
    else if (faulttype == 0) || (faulttype == 1)
    then fault_in space tlb (page_frame faultaddress)
    else ret (einval, tlb)

-- as_define_region; the access rights are not used.
pub as_define_region : AddrSpace → ℕ → ℕ → ℕ × AddrSpace
as_define_region a vaddr sz =
    let sz1 = (sz + vaddr % 4096) % 2 ^ 32 in
    let npages = page_frame ((sz1 + 4095) % 2 ^ 32) / 4096 in
    if a.vbase1 == 0
    then (0, record a { vbase1 = page_frame vaddr; npages1 = npages })
    else if a.vbase2 == 0
    then (0, record a { vbase2 = page_frame vaddr; npages2 = npages })
    else (eunimp, a)

-- as_define_stack: the initial stack pointer
pub as_define_stack : AddrSpace → Run ℕ
as_define_stack a = kassert (not (a.stackpbase == 0)) >> ret userstack

-- bzero and memmove on physical memory
abbrev pub fill_zero : ℕ → ℕ → (ℕ → ℕ) → ℕ → ℕ
fill_zero base n m a = if leb base a && ltb a (base + n) then 0 else m a

abbrev pub move : ℕ → ℕ → ℕ → (ℕ → ℕ) → ℕ → ℕ
move dest src n m a = if leb dest a && ltb a (dest + n) then m (src + (a - dest)) else m a

abbrev pub zero_region : ℕ → ℕ → Physical → Physical
zero_region paddr npages p = record p { bytes = fill_zero paddr (npages * 4096 % 2 ^ 32) p.bytes }

-- as_prepare_load, from the assertions on: what is allocated stays so when a later block is refused.
pub as_prepare_load : AddrSpace → Physical → Run (ℕ × AddrSpace × Physical)
as_prepare_load a p = do
  kassert (a.pbase1 == 0)
  kassert (a.pbase2 == 0)
  kassert (a.stackpbase == 0)
  let (b1, p1) = getppages a.npages1 p in
      let a1 = record a { pbase1 = b1 } in
      if b1 == 0
      then ret (enomem, a1, p1)
      else (let (b2, p2) = getppages a.npages2 p1 in
          let a2 = record a1 { pbase2 = b2 } in
          if b2 == 0
          then ret (enomem, a2, p2)
          else (let (b3, p3) = getppages dumbvm_stackpages p2 in
              let a3 = record a2 { stackpbase = b3 } in
              if b3 == 0
              then ret (enomem, a3, p3)
              else ret (
                0,
                a3,
                zero_region b3 dumbvm_stackpages
                    (zero_region b2 a.npages2 (zero_region b1 a.npages1 p3)),
              )))

abbrev pub copy_pages : ℕ → ℕ → ℕ → Physical → Physical
copy_pages dest src npages p = record p { bytes = move dest src (npages * 4096 % 2 ^ 32) p.bytes }

-- as_copy; `room` is whether kmalloc finds memory for the new structure.
pub as_copy : Bool → AddrSpace → Physical → Run (ℕ × Option AddrSpace × Physical)
as_copy false old p = ret (enomem, none, p)
as_copy true old p =
    as_prepare_load
      (record as_create {
        vbase1 = old.vbase1;
        npages1 = old.npages1;
        vbase2 = old.vbase2;
        npages2 = old.npages2;
      })
      p
    >>= λ (e, new, q). if not (e == 0) then ret (enomem, none, q) else (do
      kassert (not (new.pbase1 == 0))
      kassert (not (new.pbase2 == 0))
      kassert (not (new.stackpbase == 0))
      let q1 = copy_pages new.pbase1 old.pbase1 old.npages1 q in
          let q2 = copy_pages new.pbase2 old.pbase2 old.npages2 q1 in
          ret (0, some new, copy_pages new.stackpbase old.stackpbase dumbvm_stackpages q2))
