-- ===== src/DumbVm/Region.antt =====
-- as_define_region covers the bytes it is asked for.
use cs.Base.{
  ℕ, ◌+◌, ◌*◌, ◌/◌, ◌%◌, ◌^◌, ◌≤◌, ◌<◌, ◌≡◌, refl, Bool, true, false, arith, ◌==◌, if◌then◌else◌,
}
use cs.DumbVm.{eunimp, page_frame, AddrSpace, as_define_region}

-- Pages `base` to `base + n` are aligned, hold the `sz` bytes at `vaddr`, and none of them is idle.
pub record Covers (vaddr sz base n : ℕ) : Type 0 where
  pub aligned : base % 4096 ≡ 0
  pub from : base ≤ vaddr
  pub to : vaddr + sz ≤ base + n * 4096
  pub tight : base + n * 4096 < vaddr + sz + 4096

-- What as_define_region does: the first region that is not set yet becomes the pages that hold the
-- bytes, and the rest is as it was; when both are set, the error is EUNIMP.
pub data Defines (a : AddrSpace) (vaddr sz : ℕ) : ℕ × AddrSpace → Type 0 where
  first :
      (base n : ℕ)
      → a.vbase1 ≡ 0
      → Covers vaddr sz base n
      → Defines a vaddr sz (0, record a { vbase1 = base; npages1 = n })
  second :
      (base n : ℕ)
      → (a.vbase1 == 0) ≡ false
      → a.vbase2 ≡ 0
      → Covers vaddr sz base n
      → Defines a vaddr sz (0, record a { vbase2 = base; npages2 = n })
  full : (a.vbase1 == 0) ≡ false → (a.vbase2 == 0) ≡ false → Defines a vaddr sz (eunimp, a)

abbrev region_pages : ℕ → ℕ → ℕ
region_pages vaddr sz = page_frame (((sz + vaddr % 4096) % 2 ^ 32 + 4095) % 2 ^ 32) / 4096

region-Covers :
    (vaddr sz : ℕ)
    → vaddr + sz + 4096 < 2 ^ 32
    → Covers vaddr sz (page_frame vaddr) (region_pages vaddr sz)
region-Covers vaddr sz h = record {
  aligned = omega arith;
  from = omega arith;
  to = omega arith;
  tight = omega arith;
}

Defines-if :
    (a : AddrSpace) (vaddr sz base n : ℕ) (b1 b2 : Bool)
    → (a.vbase1 == 0) ≡ b1
    → (a.vbase2 == 0) ≡ b2
    → Covers vaddr sz base n
    → Defines a vaddr sz (
        if b1
        then (0, record a { vbase1 = base; npages1 = n })
        else if b2
        then (0, record a { vbase2 = base; npages2 = n })
        else (eunimp, a))
Defines-if a vaddr sz base n true b2 e1 e2 c = first base n (ground (arith, e1)) c
Defines-if a vaddr sz base n false true e1 e2 c = second base n e1 (ground (arith, e2)) c
Defines-if a vaddr sz base n false false e1 e2 c = full e1 e2

-- For bytes that end at least a page below the end of the address space, as_define_region sets the
-- first region not yet set to the aligned pages that hold them, with no page to spare, or returns
-- EUNIMP when both regions are set.
pub as_define_region-Defines :
    (a : AddrSpace) (vaddr sz : ℕ)
    → vaddr + sz + 4096 < 2 ^ 32
    → Defines a vaddr sz (as_define_region a vaddr sz)
unfolding as_define_region
as_define_region-Defines a vaddr sz h =
    Defines-if a vaddr sz (page_frame vaddr) (region_pages vaddr sz) (a.vbase1 == 0) (a.vbase2 == 0)
      refl refl (region-Covers vaddr sz h)
