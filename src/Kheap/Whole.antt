-- ===== src/Kheap/Whole.antt =====
-- kmalloc and kfree together.
use cs.Base.{
  ℕ, ◌+◌, ◌%◌, ◌≤◌, ◌<◌, ◌≡◌, ◌≢◌, refl, ap, sym, ◌∙◌, inl, inr, ◌⊎◌, Bool, false, List, Option,
  none, some, Run, ret, panic, get_elem?, leb, ◌==◌, Bool-cases, arith,
}
use cs.Kheap.{Heap, kmalloc, kfree, subpage_kmalloc, subpage_kfree, find_owner}
use cs.Kheap.Pool.{Page, IsLive}
use cs.Kheap.Holds.{Holds}
use cs.Kheap.Fresh.{IsFresh}
use cs.Kheap.Alloc.{Gives, no_block, gives, subpage_kmalloc-Gives}
use cs.Kheap.Free.{Frees, frees, subpage_kfree-Frees}
use cs.Kheap.Push.{find_owner-none}

-- What kmalloc of a small block and kfree of it do.
pub data Returned (alloc_kpages : ℕ → ℕ) (h : Heap) (ps : List Page) (sz : ℕ)
    : Run (ℕ × Heap) → Type 0 where
  null : Returned alloc_kpages h ps sz (ret (0, h))
  returned :
      (a : ℕ) (h1 h2 : Heap) (page : Option ℕ) (ps2 : List Page)
      → kfree a h1 ≡ ret (page, h2)
      → Holds h2 ps2
      → ((b u : ℕ) → IsLive ps b u → IsLive ps2 b u)
      → ((u : ℕ) → ¬ IsLive ps2 a u)
      → Returned alloc_kpages h ps sz (ret (a, h1))

kfree-Frees :
    (ps : List Page) (a : ℕ) (p : Page) (h : Heap)
    → 0 < a
    → Frees ps a p (subpage_kfree a h)
    → (page : Option ℕ) × (h' : Heap) × (ps' : List Page) × (kfree a h ≡ ret (page, h'))
      × Holds h' ps'
      × ((b u : ℕ) → b ≢ a → IsLive ps b u → IsLive ps' b u)
      × ((u : ℕ) → ¬ IsLive ps' a u)
unfolding kfree
kfree-Frees ps a p h lo f = go (subpage_kfree a h) refl f
  where
    go :
        (r : Run (Bool × Option ℕ × Heap))
        → subpage_kfree a h ≡ r
        → Frees ps a p r
        → (page : Option ℕ) × (h' : Heap) × (ps' : List Page) × (kfree a h ≡ ret (page, h'))
          × Holds h' ps'
          × ((b u : ℕ) → b ≢ a → IsLive ps b u → IsLive ps' b u)
          × ((u : ℕ) → ¬ IsLive ps' a u)
    go r e (frees page h' ps' new gone kept apart) =
        (page, h', ps', ground (arith, lo, e), new, kept, gone)

-- kmalloc of less than 2048 bytes, on a heap in order and where alloc_kpages gives a page that the
-- heap does not have, or none, returns. It gives NULL and leaves the heap as it was, or kfree takes
-- what it gave: the heap is in order again, and every block that was handed out before still is.
pub kmalloc-kfree :
    (alloc_kpages : ℕ → ℕ) (h : Heap) (ps : List Page) (sz : ℕ)
    → Holds h ps
    → (alloc_kpages 1 ≡ 0) ⊎ IsFresh ps (alloc_kpages 1)
    → sz < 2048
    → Returned alloc_kpages h ps sz (kmalloc alloc_kpages sz h)
unfolding kmalloc
kmalloc-kfree alloc_kpages h ps sz old page small =
    let (t, fits, first, g) =
      subpage_kmalloc-Gives h ps (alloc_kpages 1) sz old page (omega (arith, small)) in
    let c : leb 2048 sz ≡ false = ground (arith, small) in
    rw c (go t (subpage_kmalloc (alloc_kpages 1) sz h) g)
  where
    go :
        (t : ℕ) (r : Run (ℕ × Heap))
        → Gives h ps (alloc_kpages 1) t r
        → Returned alloc_kpages h ps sz r
    go t r (no_block f n) = null
    go t r (gives a h1 ps1 new lo al live fresh kept) =
        let (p, h2, ps2, e, ht, k, gone) =
          kfree-Frees ps1 a live.page h1 lo (subpage_kfree-Frees h1 ps1 a t new live) in
        returned a h1 h2 p ps2 e ht (λ b u l. k b u (λ x. fresh u (rw (sym x) l)) (kept b u l)) gone

-- kfree of an address that is on no page of the heap leaves the heap as it is. An address at the
-- start of a page goes to free_kpages, NULL is ignored, and any other one stops the machine.
pub kfree-other :
    (h : Heap) (ps : List Page) (a : ℕ)
    → Holds h ps
    → ((i : ℕ) (q : Page) → get_elem? ps i ≡ some q → (a < q.base) ⊎ (q.base + 4096 ≤ a))
    → ((a ≡ 0) × (kfree a h ≡ ret (none, h)))
      ⊎ (((0 < a) × (a % 4096 ≡ 0) × (kfree a h ≡ ret (some a, h)))
          ⊎ ((a % 4096 ≢ 0) × (kfree a h ≡ panic)))
unfolding kfree subpage_kfree
kfree-other h ps a old out =
    let e : find_owner h a h.allbase ≡ ret none =
      ap (find_owner h a) old.all ∙ find_owner-none h a ps old.pool old.reps out in
    elim (Bool-cases (a == 0)) [
      | inl z ↦ inl (ground (arith, z), ground (arith, z))
      | inr z ↦ inr (elim (Bool-cases (a % 4096 == 0)) [
        | inl y ↦ inl (ground (arith, z), ground (arith, y), ground (arith, e, y, z))
        | inr y ↦ inr (ground (arith, y), ground (arith, e, y, z))
      ])
    ]
