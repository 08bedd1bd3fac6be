-- ===== src/Kheap/Free.antt =====
-- subpage_kfree takes back one block, and keeps all the others.
use cs.Base.{
  ℕ, suc, ◌<◌, ◌⊎◌, ◌+◌, ◌-◌, ◌*◌, ◌/◌, ◌%◌, ◌≡◌, ◌≢◌, refl, ap, sym, ◌∙◌, inl, inr, Bool, true,
  false, not, ◌||◌, List, Option, none, some, length, set, get_elem?, get_elem?-set_there, Run, ret,
  ltb, leb, ◌==◌, ◌>>=◌, Bool-cases, arith, put, some-eq,
}
use cs.Kheap.{
  Heap, size, push, release, unlink, remove_lists, freepageref, find_owner, subpage_kfree,
}
use cs.Kheap.Sizes.{blocks, size_lem, block_fits, block_div}
use cs.Kheap.Pool.{Page, IsPool, IsLive}
use cs.Kheap.Holds.{Rep, Holds}
use cs.Kheap.Freed.{pushed-not-IsLive, pushed-keeps, dropped-not-IsLive, dropped-keeps}
use cs.Kheap.Count.{length-distinct}
use cs.Kheap.Push.{with_block, pushed-Holds, find_owner-at}
use cs.Kheap.Drop.{remove_at, before, dropped, dropped-Holds, was_at}

-- What subpage_kfree of a block at `a` on the page `p` does: the page is given back exactly when
-- all its other blocks are free.
pub data Frees (ps : List Page) (a : ℕ) (p : Page) : Run (Bool × Option ℕ × Heap) → Type 0 where
  frees :
      (page : Option ℕ) (h' : Heap) (ps' : List Page)
      → Holds h' ps'
      → ((u : ℕ) → ¬ IsLive ps' a u)
      → ((b u : ℕ) → b ≢ a → IsLive ps b u → IsLive ps' b u)
      → ((page ≡ none) × (suc (length p.free) < blocks p.typ))
        ⊎ ((page ≡ some p.base)
            × (suc (length p.free) ≡ blocks p.typ)
            × ((i : ℕ) (q : Page) → get_elem? ps' i ≡ some q → q.base ≢ p.base))
      → Frees ps a p (ret (true, page, h'))

removed : Heap → ℕ → ℕ → Heap
removed h pr t = record h {
  sizebases = put h.sizebases t (unlink pr (h.sizebases t));
  allbase = unlink pr h.allbase;
}

remove_lists_lem :
    (h : Heap) (pr u t : ℕ) → u ≡ t → t < 8 → remove_lists pr u h ≡ ret (removed h pr t)
unfolding remove_lists removed
remove_lists_lem h pr u t e l = let b : ltb t 8 ≡ true = ground (arith, l) in rw e (rw b refl)

freepageref_lem :
    (h : Heap) (pr t : ℕ)
    → pr < 256
    → h.inuse pr ≡ true
    → freepageref pr (removed h pr t)
      ≡ ret (record (removed h pr t) { inuse = put h.inuse pr false })
unfolding freepageref removed
freepageref_lem h pr t l e = let b : ltb pr 256 ≡ true = ground (arith, l) in rw b (rw e refl)

not_more : (a b : ℕ) → b ≡ a → ltb a b ≡ false
not_more a b e = ground (arith, e)

same_number : (a b : ℕ) → a ≡ b → (a == b) ≡ true
same_number a b e = ground (arith, e)

release-full :
    (h : Heap) (ps : List Page) (j : ℕ) (p : Page) (e : get_elem? ps j ≡ some p)
    → Holds h ps
    → length p.free ≡ blocks p.typ
    → release p.ix h ≡ ret (some p.base, dropped ps j p e h)
unfolding release removed
release-full h ps j p e old full =
    let i = old.pool.each j p e in
    let r = old.reps j p e in
    let total = ap (λ t. 4096 / size t) r.typ in
    let c : ltb (4096 / size (h.refs p.ix).blktype) (h.refs p.ix).nfree ≡ false =
      not_more _ _ (r.nfree ∙ (full ∙ sym total)) in
    let d : ((h.refs p.ix).nfree == 4096 / size (h.refs p.ix).blktype) ≡ true =
      same_number _ _ (r.nfree ∙ (full ∙ sym total)) in
    let m = remove_lists_lem h p.ix (h.refs p.ix).blktype p.typ r.typ i.typ in
    let f = freepageref_lem h p.ix p.typ i.ix r.inuse in
    rw c (rw d (rw m (rw f (ap (λ b. ret (some b, dropped ps j p e h)) r.page))))

release-part :
    (h : Heap) (p : Page) → Rep h p → length p.free < blocks p.typ → release p.ix h ≡ ret (none, h)
unfolding release
release-part h p r part = let z = ap size r.typ in ground (arith, r.nfree, z, part)

-- What the end of subpage_kfree gives.
abbrev finished : Run (Option ℕ × Heap) → Run (Bool × Option ℕ × Heap)
finished r = r >>= λ q. ret (true, q.0, q.1)

in_place : (o r : ℕ) → o < 4096 → r ≡ 0 → (leb 4096 o || not (r == 0)) ≡ false
in_place o r l e = ground (arith, l, e)

kfree_lem :
    (h : Heap) (ps : List Page) (j : ℕ) (p : Page) (k : ℕ)
    → Holds h ps
    → get_elem? ps j ≡ some p
    → k < blocks p.typ
    → subpage_kfree (p.base + k * size p.typ) h
      ≡ finished (release p.ix (push p.ix (k * size p.typ) h))
unfolding subpage_kfree
kfree_lem h ps j p k old e hk =
    let r = old.reps j p e in
    let (s, _, _) = size_lem p.typ in
    let f = block_fits k p.typ hk in
    let own =
      ap (find_owner h (p.base + k * size p.typ)) old.all
      ∙ find_owner-at h (p.base + k * size p.typ) ps j p old.pool old.reps e (omega arith)
          (omega (arith, f, s)) in
    let o : p.base + k * size p.typ - (h.refs p.ix).page ≡ k * size p.typ = omega (arith, r.page) in
    let (m, _) = block_div k p.typ in
    let z = ap (λ t. k * size p.typ % size t) r.typ ∙ m in
    let c : (leb 4096 (k * size p.typ) || not (k * size p.typ % size (h.refs p.ix).blktype == 0))
        ≡ false =
      in_place _ _ (omega (arith, f, s)) z in
    rw (own, subpage_kfree) (rw o (rw c refl))

no_base :
    (ps : List Page) (j : ℕ) (p : Page) (e : get_elem? ps j ≡ some p)
    → IsPool ps
    → (b i : ℕ) (q : Page) → some p.base ≡ some b
    → get_elem? (remove_at j ps) i ≡ some q
    → q.base ≢ b
no_base ps j p e pool b i q s g y =
    let (_, ne) =
      pool.apart (before j i) j q p (λ x. ground (arith, x)) (was_at ps j p e i q g) e in
    ne (y ∙ sym (some-eq s))

-- On a heap in order, subpage_kfree of a block that is handed out returns: the block is not handed
-- out any more, and every other one that was still is. When with it every block of its page is
-- free, that page is given back and is no longer the heap's; when one is not, no page is given
-- back.
pub subpage_kfree-Frees :
    (h : Heap) (ps : List Page) (a t : ℕ)
    → Holds h ps
    → (l : IsLive ps a t) → Frees ps a l.page (subpage_kfree a h)
subpage_kfree-Frees h ps a t old l =
    let j = l.at in
    let p = l.page in
    let k = l.block in
    let e = l.there in
    let h1 = push p.ix (k * size p.typ) h in
    let p1 = with_block p k in
    let ps1 = set ps j p1 in
    let new = pushed-Holds h ps j p k old e l.inside l.used in
    let e1 : get_elem? ps1 j ≡ some p1 = get_elem?-set_there ps j p p1 e in
    let w = new.pool.each j p1 e1 in
    let most = length-distinct (blocks p.typ) p1.free w.once w.inside in
    let run = kfree_lem h ps j p k old e l.inside in
    let gone = pushed-not-IsLive ps j p k old.pool e l.inside in
    let kept = pushed-keeps ps j p k old.pool e l.inside in
    rw l.address (
      rw run (elim (Bool-cases (ltb (length p1.free) (blocks p.typ))) [
        | inl z ↦
            rw (release-part h1 p1 (new.reps j p1 e1) (ground (arith, z)))
              (frees none h1 ps1 new gone kept (inl (refl, ground (arith, z))))
        | inr z ↦
            let full : length p1.free ≡ blocks p.typ = ground (arith, z, most) in
            rw (release-full h1 ps1 j p1 e1 new full) (
              frees (some p.base) (dropped ps1 j p1 e1 h1) (remove_at j ps1)
                (dropped-Holds ps1 j p1 e1 h1 new)
                (λ u. dropped-not-IsLive ps1 j p1 new.pool e1 _ u (gone u))
                (λ b u ne x. dropped-keeps ps1 j p1 new.pool e1 full b u (kept b u ne x))
                (inr (refl, full, λ i q y. no_base ps1 j p1 e1 new.pool p1.base i q refl y)))
      ]))
