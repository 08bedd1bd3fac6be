-- ===== src/DumbVm/Fault.antt =====
-- vm_fault against the ranges of an address space.
use cs.Base.{
  ℕ, ◌+◌, ◌-◌, ◌*◌, ◌%◌, ◌^◌, ◌≤◌, ◌<◌, ◌≡◌, ◌⊎◌, inl, inr, refl, Bool, true, false, ◌&&◌, ◌||◌,
  List, [], ◌∷◌, Option, none, some, Run, ret, arith, ◌==◌, if◌then◌else◌, ltb, leb,
}
use cs.DumbVm.{
  efault, userstack, stackbase, page_frame, AddrSpace, Entry, is_valid, backing, tlb_fill, check_as,
  install, fault_in, vm_fault,
}

-- Every entry is in use.
abbrev pub AllValid : List Entry → Type 0
AllValid [] = Unit
AllValid (e ∷ es) = (is_valid e ≡ true) × AllValid es

-- The first entry that is not in use is replaced.
pub data Fills (new : Entry) : List Entry → List Entry → Type 0 where
  here : {e : Entry} {es : List Entry} → is_valid e ≡ false → Fills new (e ∷ es) (new ∷ es)
  there :
      {e : Entry} {es fs : List Entry}
      → is_valid e ≡ true
      → Fills new es fs
      → Fills new (e ∷ es) (e ∷ fs)

abbrev pub FillEnds : Entry → List Entry → Option (List Entry) → Type 0
FillEnds new es none = AllValid es
FillEnds new es (some fs) = Fills new es fs

fill_step :
    (new e : Entry) (es : List Entry) (r : Option (List Entry)) (b : Bool)
    → is_valid e ≡ b
    → FillEnds new es r
    → FillEnds new (e ∷ es) (elim r [
      | none ↦ if b then none else some (new ∷ es)
      | some fs ↦ if b then some (e ∷ fs) else some (new ∷ es)
    ])
fill_step new e es none true h f = (h, f)
fill_step new e es none false h f = here h
fill_step new e es (some fs) true h f = there h f
fill_step new e es (some fs) false h f = here h

tlb_fill_lem : (new : Entry) (es : List Entry) → FillEnds new es (tlb_fill new es)
unfolding tlb_fill
tlb_fill_lem new [] = tt
tlb_fill_lem new (e ∷ es) =
    fill_step new e es (tlb_fill new es) (is_valid e) refl (tlb_fill_lem new es)

-- One range of virtual pages and the physical pages behind it.
pub record In (base pages pbase page paddr : ℕ) : Type 0 where
  pub offset : ℕ
  pub at : page ≡ base + offset
  pub inside : offset < pages * 4096
  pub behind : paddr ≡ pbase + offset

abbrev pub Backs : AddrSpace → ℕ → ℕ → Type 0
Backs a page paddr =
    In a.vbase1 a.npages1 a.pbase1 page paddr
    ⊎ In a.vbase2 a.npages2 a.pbase2 page paddr
    ⊎ In stackbase 12 a.stackpbase page paddr

-- The regions lie in user space and their pages in physical memory.
pub record Fits (a : AddrSpace) : Type 0 where
  pub virtual1 : a.vbase1 + a.npages1 * 4096 ≤ userstack
  pub virtual2 : a.vbase2 + a.npages2 * 4096 ≤ userstack
  pub physical1 : a.pbase1 + a.npages1 * 4096 ≤ userstack
  pub physical2 : a.pbase2 + a.npages2 * 4096 ≤ userstack
  pub stack : a.stackpbase + 49152 ≤ userstack

-- Whether a page is in one of the ranges, in the words of the code's conditions.
abbrev pub in_range : AddrSpace → ℕ → Bool
in_range a page =
    leb a.vbase1 page && ltb page (a.vbase1 + a.npages1 * 4096)
    || leb a.vbase2 page && ltb page (a.vbase2 + a.npages2 * 4096)
    || leb stackbase page && ltb page userstack

-- What vm_fault returns for a page of an address space.
pub data Handles (a : AddrSpace) (tlb : List Entry) (page : ℕ) : Run (ℕ × List Entry) → Type 0 where
  mapped :
      (paddr : ℕ) (tlb' : List Entry)
      → Backs a page paddr
      → Fills (record { hi = page; lo = paddr + 1536 }) tlb tlb'
      → Handles a tlb page (ret (0, tlb'))
  full : AllValid tlb → Handles a tlb page (ret (efault, tlb))
  outside : in_range a page ≡ false → Handles a tlb page (ret (efault, tlb))

abbrev BackEnds : AddrSpace → ℕ → Option ℕ → Type 0
BackEnds a page none = in_range a page ≡ false
BackEnds a page (some paddr) = Backs a page paddr × (paddr < 2 ^ 32)

In-at :
    (base pages pbase page paddr : ℕ)
    → base ≤ page
    → page < base + pages * 4096
    → paddr ≡ page - base + pbase
    → In base pages pbase page paddr
In-at base pages pbase page paddr h1 h2 h3 = record {
  offset = page - base;
  at = omega arith;
  inside = omega arith;
  behind = omega arith;
}

BackEnds-if :
    {a : AddrSpace} {page : ℕ} (b1 b2 b3 : Bool) {p1 p2 p3 : ℕ}
    → (b1 ≡ true → Backs a page p1 × (p1 < 2 ^ 32))
    → (b2 ≡ true → Backs a page p2 × (p2 < 2 ^ 32))
    → (b3 ≡ true → Backs a page p3 × (p3 < 2 ^ 32))
    → (b1 ≡ false → b2 ≡ false → b3 ≡ false → in_range a page ≡ false)
    → BackEnds a page (if b1 then some p1 else if b2 then some p2 else if b3 then some p3 else none)
BackEnds-if true b2 b3 h1 h2 h3 h4 = h1 refl
BackEnds-if false true b3 h1 h2 h3 h4 = h2 refl
BackEnds-if false false true h1 h2 h3 h4 = h3 refl
BackEnds-if false false false h1 h2 h3 h4 = h4 refl refl refl

range_lem :
    (base pages pbase page : ℕ)
    → base + pages * 4096 ≤ userstack
    → pbase + pages * 4096 ≤ userstack
    → (leb base page && ltb page ((base + pages * 4096) % 2 ^ 32)) ≡ true
    → In base pages pbase page ((page - base + pbase) % 2 ^ 32)
      × ((page - base + pbase) % 2 ^ 32 < 2 ^ 32)
range_lem base pages pbase page hv hp h =
    let lo : base ≤ page = ground (arith, h) in
    let hi : page < base + pages * 4096 = ground (arith, h) in
    (In-at base pages pbase page _ lo hi (omega arith), omega arith)

backing_lem : (a : AddrSpace) (page : ℕ) → Fits a → BackEnds a page (backing a page)
unfolding backing
backing_lem a page fits =
    BackEnds-if (leb a.vbase1 page && ltb page ((a.vbase1 + a.npages1 * 4096) % 2 ^ 32))
      (leb a.vbase2 page && ltb page ((a.vbase2 + a.npages2 * 4096) % 2 ^ 32))
      (leb stackbase page && ltb page userstack)
      (λ h.
        let (i, l) = range_lem a.vbase1 a.npages1 a.pbase1 page fits.virtual1 fits.physical1 h in
        (inl i, l))
      (λ h.
        let (i, l) = range_lem a.vbase2 a.npages2 a.pbase2 page fits.virtual2 fits.physical2 h in
        (inr (inl i), l))
      (λ h.
        let (i, l) =
          range_lem stackbase 12 a.stackpbase page (omega arith) fits.stack (ground (arith, h)) in
        (inr (inr i), l))
      (λ h1 h2 h3. ground (arith, h1, h2, h3, fits.virtual1, fits.virtual2))

paddr_frame :
    (a : AddrSpace) (page paddr : ℕ)
    → check_as a ≡ true
    → page_frame page ≡ page
    → Backs a page paddr
    → page_frame paddr ≡ paddr
unfolding check_as
paddr_frame a page paddr ok hp (inl i) = ground (arith, ok, i.at, i.behind)
paddr_frame a page paddr ok hp (inr (inl i)) = ground (arith, ok, i.at, i.behind)
paddr_frame a page paddr ok hp (inr (inr i)) = ground (arith, ok, i.at, i.behind)

module _ (a : AddrSpace) (tlb : List Entry) (page : ℕ) where
  fill-Handles :
      (paddr : ℕ) (r : Option (List Entry))
      → Backs a page paddr
      → FillEnds (record { hi = page; lo = paddr + 1536 }) tlb r
      → Handles a tlb page (elim r [ none ↦ ret (efault, tlb) | some tlb' ↦ ret (0, tlb') ])
  fill-Handles paddr none b f = full f
  fill-Handles paddr (some tlb') b f = mapped paddr tlb' b f

  install-Handles :
      (r : Option ℕ)
      → check_as a ≡ true
      → page_frame page ≡ page
      → BackEnds a page r
      → Handles a tlb page (install tlb page r)
  unfolding install
  install-Handles none ok hp b = outside b
  install-Handles (some paddr) ok hp (b, hb) =
      let e : (page_frame paddr == paddr) ≡ true =
        ground (arith, paddr_frame a page paddr ok hp b) in
      rw e (
        fill-Handles paddr (tlb_fill (record { hi = page; lo = paddr + 1536 }) tlb) b
          (tlb_fill_lem _ tlb))

-- For an address space whose assertions hold and whose regions fit, and a read or a write fault,
-- vm_fault returns. It maps the page of the address, in the first TLB entry not in use, to the
-- physical page at the same offset in a region that holds it, or returns EFAULT and leaves the TLB:
-- because the page is in no region, or because every entry is in use.
pub vm_fault-Handles :
    (a : AddrSpace) (tlb : List Entry) (faulttype faultaddress : ℕ)
    → Fits a
    → check_as a ≡ true
    → faulttype < 2
    → Handles a tlb (page_frame faultaddress) (vm_fault (some a) tlb faulttype faultaddress)
unfolding vm_fault fault_in
vm_fault-Handles a tlb faulttype faultaddress fits ok h =
    let page = page_frame faultaddress in
    let t2 : (faulttype == 2) ≡ false = ground (arith, h) in
    let t01 : ((faulttype == 0) || (faulttype == 1)) ≡ true = ground (arith, h) in
    rw (t2, t01, ok)
      (install-Handles a tlb page (backing a page) ok (omega arith) (backing_lem a page fits))
