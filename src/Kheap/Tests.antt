-- ===== src/Kheap/Tests.antt =====
-- Runs of vm/kmalloc.c on small heaps, and its theorems at them.
use cs.Base.{
  ℕ, zero, suc, ◌+◌, ◌≤◌, ◌<◌, ◌≡◌, refl, sym, inl, inr, false, [], ◌∷◌, some, Run, ret, panic,
  fault, get_elem?, ◌==◌, if◌then◌else◌, arith,
}
use cs.Kheap.{
  Heap, PageRef, size, subpage_kmalloc, subpage_kfree, kmalloc, kfree, allocpageref, blocktype,
  find_owner, push, release, fill_deadbeef, remove_lists, freepageref, unlink, alloc_type,
  find_page, grow, doalloc, shorten, find_word, find_bit, all_set, new_page, link_blocks,
  blocktype_from,
}
use cs.Kheap.Pool.{Page, IsPage, IsLive}
use cs.Kheap.Holds.{Rep, Holds}
use cs.Kheap.Fresh.{IsFresh}
use cs.Kheap.Alloc.{Gives, subpage_kmalloc-Gives}
use cs.Kheap.Free.{Frees, subpage_kfree-Frees}
use cs.Kheap.Whole.{Returned, kmalloc-kfree}

abbrev base : ℕ
base = 0x80020000

abbrev no_ref : PageRef
no_ref = record { page = 0; blktype = 0; freelist_offset = 0; nfree = 0 }

abbrev empty : Heap
empty = record {
  refs = λ i. no_ref;
  inuse = λ i. false;
  sizebases = λ t. [];
  allbase = [];
  mem = λ a. 0;
}

-- A page of two blocks, the second of which is handed out
abbrev half : Heap
half = record {
  refs = λ i. record { page = base; blktype = 7; freelist_offset = 0; nfree = 1 };
  inuse = λ i. i == 0;
  sizebases = λ t. if t == 7 then 0 ∷ [] else [];
  allbase = 0 ∷ [];
  mem = λ a. 0;
}

abbrev half_page : Page
half_page = record { ix = 0; base = base; typ = 7; free = 0 ∷ [] }

empty-Holds : Holds empty []
empty-Holds = record {
  pool = record {
    each = λ i p e. absurd (ground (arith, e));
    apart = λ i j p q n e. absurd (ground (arith, e));
  };
  all = refl;
  typed = λ t. refl;
  reps = λ i p e. absurd (ground (arith, e));
}

empty-IsFresh : IsFresh [] base
empty-IsFresh = record {
  aligned = omega arith;
  low = omega arith;
  high = omega arith;
  unused = λ i p e. absurd (ground (arith, e));
}

half_page-IsPage : IsPage half_page
half_page-IsPage = record {
  typ = omega arith;
  ix = omega arith;
  aligned = omega arith;
  low = omega arith;
  high = omega arith;
  once = refl;
  inside = refl;
}

only : (i : ℕ) (p : Page) → get_elem? (half_page ∷ []) i ≡ some p → (i ≡ 0) × (half_page ≡ p)
only zero p e = (refl, ground (arith, e))
only (suc i) p e = absurd (ground (arith, e))

half_page-Rep : Rep half half_page
half_page-Rep = record {
  page = refl;
  typ = refl;
  nfree = refl;
  start = refl;
  inuse = refl;
  chain = (refl, tt);
}

half-Holds : Holds half (half_page ∷ [])
half-Holds = record {
  pool = record {
    each = λ i p e. let (_, q) = only i p e in rw (sym q) half_page-IsPage;
    apart = λ i j p q n e d.
        let (z, _) = only i p e in let (y, _) = only j q d in absurd (n (cc (z, y)));
  };
  all = refl;
  typed = λ t. ground arith;
  reps = λ i p e. let (_, q) = only i p e in rw (sym q) half_page-Rep;
}

second-IsLive : IsLive (half_page ∷ []) (base + 2048) 7
second-IsLive = record {
  at = 0;
  page = half_page;
  block = 1;
  there = refl;
  typ = refl;
  address = refl;
  inside = omega arith;
  used = refl;
}

subpage_kmalloc-Gives_example :
    (t : ℕ) × (1500 ≤ size t)
    × ((u : ℕ) → u < t → size u < 1500)
    × Gives half (half_page ∷ []) 0 t (subpage_kmalloc 0 1500 half)
subpage_kmalloc-Gives_example =
    subpage_kmalloc-Gives half (half_page ∷ []) 0 1500 half-Holds (inl refl) (omega arith)

subpage_kfree-Frees_example :
    Frees (half_page ∷ []) (base + 2048) second-IsLive.page (subpage_kfree (base + 2048) half)
subpage_kfree-Frees_example =
    subpage_kfree-Frees half (half_page ∷ []) (base + 2048) 7 half-Holds second-IsLive

kmalloc-kfree_example : Returned (λ n. base) empty [] 24 (kmalloc (λ n. base) 24 empty)
kmalloc-kfree_example =
    kmalloc-kfree (λ n. base) empty [] 24 empty-Holds (inr empty-IsFresh) (omega arith)

-- What a run gives besides the heap
abbrev answer {ℓ} : {A : Type ℓ} → Run (A × Heap) → Run A
answer (ret r) = ret r.0
answer panic = panic
answer fault = fault

-- The first block of a new page of blocks of 32 bytes is its last.
first_block : answer (kmalloc (λ n. base) 24 empty) ≡ ret (base + 4064)
unfolding kmalloc subpage_kmalloc blocktype blocktype_from alloc_type find_page grow allocpageref
    find_word find_bit all_set new_page doalloc shorten link_blocks
first_block = refl

-- The last block that comes back gives the page back.
whole_page : answer (kfree (base + 2048) half) ≡ ret (some base)
unfolding kfree subpage_kfree find_owner release push remove_lists unlink freepageref fill_deadbeef
whole_page = refl

-- In the middle of a block
stray : answer (kfree (base + 2050) half) ≡ panic
unfolding kfree subpage_kfree find_owner
stray = refl
