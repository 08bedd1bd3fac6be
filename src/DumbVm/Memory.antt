-- ===== src/DumbVm/Memory.antt =====
-- ram_stealmem, and the memory of a copied address space.
use cs.Base.{
  ℕ, ◌+◌, ◌-◌, ◌*◌, ◌%◌, ◌^◌, ◌≤◌, ◌<◌, ◌≡◌, ◌⊎◌, inl, refl, ◌∙◌, true, false, ◌&&◌, some, ret,
  arith, ◌==◌, if◌then◌else◌, ltb, leb,
}
use cs.DumbVm.{
  Ram, stealmem, Physical, getppages, AddrSpace, as_create, fill_zero, move, zero_region,
  copy_pages, as_prepare_load, as_copy,
}

-- The free memory after `n` pages are taken.
abbrev pub taken : ℕ → Ram → Ram
taken n r = record r { firstpaddr = r.firstpaddr + n * 4096 }

-- A request of pages that does not run over 32 bits is granted, at the old firstpaddr and with
-- firstpaddr moved behind the block, exactly when the block ends at lastpaddr or before; when it does
-- not, 0 is returned and nothing changes.
pub stealmem-eq :
    (npages : ℕ) (r : Ram)
    → r.firstpaddr + npages * 4096 < 2 ^ 32
    → stealmem npages r ≡ (
        if leb (r.firstpaddr + npages * 4096) r.lastpaddr
        then (r.firstpaddr, taken npages r)
        else (0, r))
unfolding stealmem
stealmem-eq npages r h =
    let e1 : npages * 4096 % 2 ^ 32 ≡ npages * 4096 = omega arith in
    let e2 : (r.firstpaddr + npages * 4096) % 2 ^ 32 ≡ r.firstpaddr + npages * 4096 = omega arith in
    rw (e1, e2) (ground arith)

getppages-eq :
    (npages : ℕ) (p : Physical)
    → p.ram.firstpaddr + npages * 4096 < 2 ^ 32
    → p.ram.firstpaddr + npages * 4096 ≤ p.ram.lastpaddr
    → getppages npages p ≡ (p.ram.firstpaddr, record p { ram = taken npages p.ram })
unfolding getppages
getppages-eq npages p h l =
    let e : leb (p.ram.firstpaddr + npages * 4096) p.ram.lastpaddr ≡ true = ground arith in
    rw (stealmem-eq npages p.ram h, e) refl

-- Memory has room for the regions and stack of `a`, and they are below the free memory.
pub record Room (a : AddrSpace) (p : Physical) : Type 0 where
  pub small : p.ram.lastpaddr < 2 ^ 32
  pub first : 0 < p.ram.firstpaddr
  pub room : p.ram.firstpaddr + (a.npages1 + a.npages2 + 12) * 4096 ≤ p.ram.lastpaddr
  pub below1 : a.pbase1 + a.npages1 * 4096 ≤ p.ram.firstpaddr
  pub below2 : a.pbase2 + a.npages2 * 4096 ≤ p.ram.firstpaddr
  pub below3 : a.stackpbase + 49152 ≤ p.ram.firstpaddr

-- `n` bytes at `dest` of `q` are those at `src` of `p`.
abbrev pub SameBytes : Physical → ℕ → Physical → ℕ → ℕ → Type 0
SameBytes q dest p src n = (i : ℕ) → i < n → q.bytes (dest + i) ≡ p.bytes (src + i)

-- `new` in `q` is a copy of `old` in `p`: the same virtual regions with the same contents, in blocks
-- that lie one behind the other in memory that was free; what was in use is as it was.
pub record CopyOf (old : AddrSpace) (p : Physical) (new : AddrSpace) (q : Physical) : Type 0 where
  pub virtual1 : (new.vbase1 ≡ old.vbase1) × (new.npages1 ≡ old.npages1)
  pub virtual2 : (new.vbase2 ≡ old.vbase2) × (new.npages2 ≡ old.npages2)
  pub block1 : new.pbase1 ≡ p.ram.firstpaddr
  pub block2 : new.pbase2 ≡ new.pbase1 + new.npages1 * 4096
  pub block3 : new.stackpbase ≡ new.pbase2 + new.npages2 * 4096
  pub block4 : q.ram.firstpaddr ≡ new.stackpbase + 49152
  pub content1 : SameBytes q new.pbase1 p old.pbase1 (old.npages1 * 4096)
  pub content2 : SameBytes q new.pbase2 p old.pbase2 (old.npages2 * 4096)
  pub content3 : SameBytes q new.stackpbase p old.stackpbase 49152
  pub kept : SameBytes q 0 p 0 p.ram.firstpaddr

module _ (d s n : ℕ) (m : ℕ → ℕ) where
  move-at : (i : ℕ) → i < n → move d s n m (d + i) ≡ m (s + i)
  move-at i h =
      let e : d + i - d ≡ i = omega arith in
      let t : (leb d (d + i) && ltb (d + i) (d + n)) ≡ true = ground (arith, h) in rw (t, e) refl

  move-off : (a : ℕ) → (a < d) ⊎ (d + n ≤ a) → move d s n m a ≡ m a
  move-off a h = let t : (leb d a && ltb a (d + n)) ≡ false = ground (arith, h) in rw t refl

  zero-off : (a : ℕ) → a < d → fill_zero d n m a ≡ m a
  zero-off a h = let t : (leb d a && ltb a (d + n)) ≡ false = ground (arith, h) in rw t refl

module _ (old : AddrSpace) (p : Physical) (h : Room old p) where
  abbrev b2 : ℕ
  b2 = p.ram.firstpaddr + old.npages1 * 4096

  abbrev b3 : ℕ
  b3 = b2 + old.npages2 * 4096

  abbrev new_space : AddrSpace
  new_space = record old { pbase1 = p.ram.firstpaddr; pbase2 = b2; stackpbase = b3 }

  abbrev p1 : Physical
  p1 = record p { ram = taken old.npages1 p.ram }

  abbrev p2 : Physical
  p2 = record p { ram = taken old.npages2 p1.ram }

  abbrev p3 : Physical
  p3 = record p { ram = taken 12 p2.ram }

  abbrev zeroed : Physical
  zeroed =
      zero_region b3 12 (zero_region b2 old.npages2 (zero_region p.ram.firstpaddr old.npages1 p3))

  abbrev blank : AddrSpace
  blank = record {
    vbase1 = old.vbase1;
    pbase1 = 0;
    npages1 = old.npages1;
    vbase2 = old.vbase2;
    pbase2 = 0;
    npages2 = old.npages2;
    stackpbase = 0;
  }

  prepare_load_eq : as_prepare_load blank p ≡ ret (0, new_space, zeroed)
  unfolding as_prepare_load
  prepare_load_eq =
      let g1 =
        getppages-eq old.npages1 p (ground (arith, h.small, h.room)) (ground (arith, h.room)) in
      let g2 =
        getppages-eq old.npages2 p1 (ground (arith, h.small, h.room)) (ground (arith, h.room)) in
      let g3 = getppages-eq 12 p2 (ground (arith, h.small, h.room)) (ground (arith, h.room)) in
      let z1 : (p.ram.firstpaddr == 0) ≡ false = ground (arith, h.first) in
      let z2 : (b2 == 0) ≡ false = ground (arith, h.first) in
      let z3 : (b3 == 0) ≡ false = ground (arith, h.first) in rw (g1, z1, g2, z2, g3, z3) refl

  abbrev q1 : Physical
  q1 = copy_pages p.ram.firstpaddr old.pbase1 old.npages1 zeroed

  abbrev q2 : Physical
  q2 = copy_pages b2 old.pbase2 old.npages2 q1

  abbrev copied : Physical
  copied = copy_pages b3 old.stackpbase 12 q2

  size1 : old.npages1 * 4096 % 2 ^ 32 ≡ old.npages1 * 4096
  size1 = omega (arith, h.room, h.small)

  size2 : old.npages2 * 4096 % 2 ^ 32 ≡ old.npages2 * 4096
  size2 = omega (arith, h.room, h.small)

  module _ (a : ℕ) where
    old_byte : a < p.ram.firstpaddr → zeroed.bytes a ≡ p.bytes a
    old_byte l =
        let z1 = fill_zero p.ram.firstpaddr (old.npages1 * 4096 % 2 ^ 32) p.bytes in
        let z2 = fill_zero b2 (old.npages2 * 4096 % 2 ^ 32) z1 in
        zero-off b3 0 (12 * 4096 % 2 ^ 32) z2 a (omega arith)
        ∙ zero-off b2 0 (old.npages2 * 4096 % 2 ^ 32) z1 a (omega arith)
        ∙ zero-off p.ram.firstpaddr 0 (old.npages1 * 4096 % 2 ^ 32) p.bytes a l

    off1 : (a < p.ram.firstpaddr) ⊎ (b2 ≤ a) → q1.bytes a ≡ zeroed.bytes a
    off1 l =
        move-off p.ram.firstpaddr old.pbase1 (old.npages1 * 4096 % 2 ^ 32) zeroed.bytes a
          (ground (arith, l, size1))

    off2 : (a < b2) ⊎ (b3 ≤ a) → q2.bytes a ≡ q1.bytes a
    off2 l =
        move-off b2 old.pbase2 (old.npages2 * 4096 % 2 ^ 32) q1.bytes a (ground (arith, l, size2))

    off3 : a < b3 → copied.bytes a ≡ q2.bytes a
    off3 l = move-off b3 old.stackpbase 49152 q2.bytes a (inl l)

  content1 : SameBytes copied p.ram.firstpaddr p old.pbase1 (old.npages1 * 4096)
  content1 i hi =
      let x = p.ram.firstpaddr + i in
      off3 x (omega arith)
      ∙ off2 x (inl (omega arith))
      ∙ move-at p.ram.firstpaddr old.pbase1 (old.npages1 * 4096 % 2 ^ 32) zeroed.bytes i
          (rw size1 hi)
      ∙ old_byte (old.pbase1 + i) (omega (arith, h.below1))

  content2 : SameBytes copied b2 p old.pbase2 (old.npages2 * 4096)
  content2 i hi =
      off3 (b2 + i) (omega arith)
      ∙ move-at b2 old.pbase2 (old.npages2 * 4096 % 2 ^ 32) q1.bytes i (rw size2 hi)
      ∙ off1 (old.pbase2 + i) (inl (omega (arith, h.below2)))
      ∙ old_byte (old.pbase2 + i) (omega (arith, h.below2))

  content3 : SameBytes copied b3 p old.stackpbase 49152
  content3 i hi =
      let x = old.stackpbase + i in
      move-at b3 old.stackpbase 49152 q2.bytes i hi
      ∙ off2 x (inl (omega (arith, h.below3)))
      ∙ off1 x (inl (omega (arith, h.below3)))
      ∙ old_byte x (omega (arith, h.below3))

  kept : SameBytes copied 0 p 0 p.ram.firstpaddr
  kept i hi =
      off3 (0 + i) (omega arith)
      ∙ off2 (0 + i) (inl (omega arith))
      ∙ off1 (0 + i) (inl (omega arith))
      ∙ old_byte (0 + i) (omega arith)

  copies : as_copy true old p ≡ ret (0, some new_space, copied)
  unfolding as_copy as_create
  copies =
      let z1 : (p.ram.firstpaddr == 0) ≡ false = ground (arith, h.first) in
      let z2 : (b2 == 0) ≡ false = ground (arith, h.first) in
      let z3 : (b3 == 0) ≡ false = ground (arith, h.first) in rw (prepare_load_eq, z1, z2, z3) refl

  -- With memory for the structure, and for the pages behind the old space's, as_copy returns 0 and a
  -- copy of the old address space: the same regions, in new blocks one behind the other, with the
  -- same contents, and every byte that was in use as it was.
  pub as_copy-CopyOf :
      (q : Physical) × (new : AddrSpace) × (as_copy true old p ≡ ret (0, some new, q))
      × CopyOf old p new q
  as_copy-CopyOf = (
    copied,
    new_space,
    copies,
    record {
      virtual1 = (refl, refl);
      virtual2 = (refl, refl);
      block1 = refl;
      block2 = refl;
      block3 = refl;
      block4 = refl;
      content1 = content1;
      content2 = content2;
      content3 = content3;
      kept = kept;
    },
  )
