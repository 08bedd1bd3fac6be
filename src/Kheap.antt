-- ===== src/Kheap.antt =====
-- vm/kmalloc.c: the kernel heap, a subpage allocator over pages of alloc_kpages. `mem` is the word
-- at each address; a page reference is its index in pagerefs, the lists through next_samesize and
-- next_all are lists of indices, and bit j of pagerefs_inuse[i] is `inuse (i * 32 + j)`. What
-- alloc_kpages returns is an argument, and what subpage_kfree gives to free_kpages is in its
-- result; the page that subpage_kmalloc gives back when there is no page reference for it is not.
-- Nothing else runs while subpage_kmalloc has its spinlock released.
pub mod Sizes
pub mod Pool
pub mod Holds
pub mod Change
pub mod Take
pub mod Flags
pub mod Fresh
pub mod Taken
pub mod Alloc
pub mod Count
pub mod Push
pub mod Drop
pub mod Freed
pub mod Free
pub mod Use
pub mod Whole
pub mod Tests
use cs.Base.{
  ℕ, zero, suc, ◌+◌, ◌-◌, ◌*◌, ◌/◌, ◌%◌, ◌^◌, Bool, true, false, not, ◌&&◌, ◌||◌, List, [], ◌∷◌,
  Option, none, some, Run, ret, panic, fault, kassert, ◌>>=◌, ◌>>◌, ltb, leb, ◌==◌, if◌then◌else◌,
  put,
}
use cs.Base.Words.{u32, sub_u32}

abbrev pub page_size : ℕ
page_size = 4096

abbrev pub nsizes : ℕ
nsizes = 8

-- sizes[], which has no more than eight
abbrev pub size : ℕ → ℕ
size zero = 16
size (suc zero) = 32
size (suc (suc zero)) = 64
size (suc (suc (suc zero))) = 128
size (suc (suc (suc (suc zero)))) = 256
size (suc (suc (suc (suc (suc zero))))) = 512
size (suc (suc (suc (suc (suc (suc zero)))))) = 1024
size (suc (suc (suc (suc (suc (suc (suc t))))))) = 2048

abbrev pub invalid_offset : ℕ
invalid_offset = 0xffff

-- struct pageref, with PR_PAGEADDR and PR_BLOCKTYPE
pub record PageRef : Type 0 where
  pub page : ℕ
  pub blktype : ℕ
  pub freelist_offset : ℕ
  pub nfree : ℕ

pub record Heap : Type 0 where
  pub refs : ℕ → PageRef
  pub inuse : ℕ → Bool
  pub sizebases : ℕ → List ℕ
  pub allbase : List ℕ
  pub mem : ℕ → ℕ

-- fill_deadbeef, `n` words
pub fill_deadbeef : ℕ → ℕ → (ℕ → ℕ) → ℕ → ℕ
fill_deadbeef zero ptr mem = mem
fill_deadbeef (suc n) ptr mem = fill_deadbeef n (ptr + 4) (put mem ptr 0xdeadbeef)

-- Whether the `n` flags from `i` on are all set, as in a word that is 0xffffffff
pub all_set : (ℕ → Bool) → ℕ → ℕ → Bool
all_set inuse zero i = true
all_set inuse (suc n) i = inuse i && all_set inuse n (i + 1)

-- The inner loop of allocpageref: the first flag that is clear
pub find_bit : (ℕ → Bool) → ℕ → ℕ → Option ℕ
find_bit inuse zero i = none
find_bit inuse (suc n) i = let rest = find_bit inuse n (i + 1) in if inuse i then rest else some i

-- The outer loop of allocpageref, from word `w` on
pub find_word : (ℕ → Bool) → ℕ → ℕ → Run (Option ℕ)
find_word inuse zero w = ret none
find_word inuse (suc n) w =
    let rest = find_word inuse n (w + 1) in
    if all_set inuse 32 (w * 32)
    then rest
    else elim (find_bit inuse 32 (w * 32)) [ none ↦ panic | some i ↦ ret (some i) ]

-- allocpageref
pub allocpageref : Heap → Run (Option (ℕ × Heap))
allocpageref h = elim (find_word h.inuse 8 0) [
  | ret none ↦ ret none
  | ret (some i) ↦ ret (some (i, record h { inuse = put h.inuse i true }))
  | panic ↦ panic
  | fault ↦ fault
]

-- freepageref
pub freepageref : ℕ → Heap → Run Heap
freepageref i h =
    if ltb i 256 && h.inuse i then ret (record h { inuse = put h.inuse i false }) else panic

-- A loop of remove_lists
pub unlink : ℕ → List ℕ → List ℕ
unlink pr [] = []
unlink pr (i ∷ is) = let rest = unlink pr is in if i == pr then is else i ∷ rest

-- remove_lists
pub remove_lists : ℕ → ℕ → Heap → Run Heap
remove_lists pr blktype h =
    if ltb blktype nsizes
    then ret (record h {
      sizebases = put h.sizebases blktype (unlink pr (h.sizebases blktype));
      allbase = unlink pr h.allbase;
    })
    else panic

-- The loop of blocktype, from type `i` on
pub blocktype_from : ℕ → ℕ → ℕ → Run ℕ
blocktype_from zero i sz = panic
blocktype_from (suc n) i sz =
    let rest = blocktype_from n (i + 1) sz in if leb sz (size i) then ret i else rest

pub blocktype : ℕ → Run ℕ
blocktype sz = blocktype_from nsizes 0 sz

-- The loop of subpage_kmalloc: the first page of the type with a free block
pub find_page : Heap → ℕ → List ℕ → Run (Option ℕ)
find_page h blktype [] = ret none
find_page h blktype (pr ∷ prs) =
    let rest = find_page h blktype prs in
    if not ((h.refs pr).blktype == blktype)
    then panic
    else if ltb 0 (h.refs pr).nfree
    then ret (some pr)
    else rest

-- What doalloc leaves in the page reference, where the next free block is at `fl`
pub shorten : PageRef → ℕ → Run PageRef
shorten r fl =
    let left = r.nfree - 1 in
    if fl == 0
    then (if left == 0
        then ret (record r { nfree = left; freelist_offset = invalid_offset })
        else panic)
    else if ltb 0 left && ltb (sub_u32 fl r.page) page_size
    then ret (record r { nfree = left; freelist_offset = sub_u32 fl r.page })
    else panic

-- doalloc of subpage_kmalloc
pub doalloc : ℕ → Heap → Run (ℕ × Heap)
doalloc pr h =
    let r = h.refs pr in
    let fla = u32 (r.page + r.freelist_offset) in
    if not (ltb r.freelist_offset page_size) then panic else elim (shorten r (h.mem fla)) [
      | ret r' ↦ ret (fla, record h { refs = put h.refs pr r' })
      | panic ↦ panic
      | fault ↦ fault
    ]

-- The loop that links the blocks of a new page, from block `i` on with `n` to go
pub link_blocks : ℕ → ℕ → ℕ → ℕ → (ℕ → ℕ) → ℕ → ℕ
link_blocks zero i fla sz mem = mem
link_blocks (suc n) i fla sz mem =
    link_blocks n (i + 1) fla sz (put mem (u32 (fla + i * sz)) (u32 (fla + (i - 1) * sz)))

-- A new page at `prpage` with the page reference `pr`
pub new_page : ℕ → ℕ → ℕ → Heap → Heap
new_page pr prpage blktype h =
    let nfree = page_size / size blktype in
    record h {
      refs = put h.refs pr (record {
        page = prpage;
        blktype = blktype;
        freelist_offset = (nfree - 1) * size blktype;
        nfree = nfree;
      });
      mem = link_blocks (nfree - 1) 1 prpage (size blktype) (put h.mem prpage 0);
      sizebases = put h.sizebases blktype (pr ∷ h.sizebases blktype);
      allbase = pr ∷ h.allbase;
    }

-- subpage_kmalloc with a page from alloc_kpages, or 0
pub grow : ℕ → ℕ → Heap → Run (ℕ × Heap)
grow prpage blktype h =
    let taken : Run (ℕ × Heap) = elim (allocpageref h) [
      | ret none ↦ ret (0, h)
      | ret (some r) ↦ doalloc r.0 (new_page r.0 prpage blktype r.1)
      | panic ↦ panic
      | fault ↦ fault
    ] in
    if prpage == 0 then ret (0, h) else taken

-- subpage_kmalloc once the type is known
pub alloc_type : ℕ → ℕ → Heap → Run (ℕ × Heap)
alloc_type prpage blktype h = elim (find_page h blktype (h.sizebases blktype)) [
  | ret none ↦ grow prpage blktype h
  | ret (some pr) ↦ doalloc pr h
  | panic ↦ panic
  | fault ↦ fault
]

-- subpage_kmalloc
pub subpage_kmalloc : ℕ → ℕ → Heap → Run (ℕ × Heap)
subpage_kmalloc prpage sz h = blocktype sz >>= λ blktype. alloc_type prpage blktype h

-- The loop of subpage_kfree: the page that has the address
pub find_owner : Heap → ℕ → List ℕ → Run (Option ℕ)
find_owner h ptr [] = ret none
find_owner h ptr (pr ∷ prs) =
    let rest = find_owner h ptr prs in
    let page = (h.refs pr).page in
    if not (ltb (h.refs pr).blktype nsizes)
    then panic
    else if leb page ptr && ltb ptr (u32 (page + page_size))
    then ret (some pr)
    else rest

-- The block goes on the free list of its page.
pub push : ℕ → ℕ → Heap → Heap
push pr offset h =
    let r = h.refs pr in
    let fla = u32 (r.page + offset) in
    let next =
      if r.freelist_offset == invalid_offset then 0 else u32 (r.page + r.freelist_offset) in
    record h {
      refs = put h.refs pr (record r { freelist_offset = offset; nfree = r.nfree + 1 });
      mem = put (fill_deadbeef (size r.blktype / 4) fla h.mem) fla next;
    }

-- The end of subpage_kfree: the page that is given back, or none
pub release : ℕ → Heap → Run (Option ℕ × Heap)
release pr h =
    let r = h.refs pr in
    let total = page_size / size r.blktype in
    let removed : Run (Option ℕ × Heap) =
      remove_lists pr r.blktype h >>= λ h'. freepageref pr h' >>= λ h''. ret (some r.page, h'') in
    if ltb total r.nfree then panic else if r.nfree == total then removed else ret (none, h)

-- subpage_kfree: whether the address was on a page of the heap, a page given back, and the heap
pub subpage_kfree : ℕ → Heap → Run (Bool × Option ℕ × Heap)
subpage_kfree ptr h = find_owner h ptr h.allbase >>= λ o. elim o [
  | none ↦ ret (false, none, h)
  | some pr ↦
      let r = h.refs pr in
      let offset = ptr - r.page in
      if leb page_size offset || not (offset % size r.blktype == 0)
      then panic
      else release pr (push pr offset h) >>= λ q. ret (true, q.0, q.1)
]

-- kmalloc, where alloc_kpages gives an address for a number of pages
pub kmalloc : (ℕ → ℕ) → ℕ → Heap → Run (ℕ × Heap)
kmalloc alloc_kpages sz h =
    if leb 2048 sz
    then ret (alloc_kpages (u32 (sz + page_size - 1) / page_size), h)
    else subpage_kmalloc (alloc_kpages 1) sz h

-- kfree: what goes to free_kpages, and the heap
pub kfree : ℕ → Heap → Run (Option ℕ × Heap)
kfree ptr h =
    let freed : Run (Option ℕ × Heap) = subpage_kfree ptr h >>= λ q.
    if q.0 then ret (q.1, q.2) else if ptr % page_size == 0 then ret (some ptr, q.2) else panic in
    if ptr == 0 then ret (none, h) else freed
