-- ===== src/Queue/Grow.antt =====
-- q_grow: the ring gets larger and holds the same elements; q_addtail and q_preallocate on top of it.
use cs.Base.{
  ℕ, zero, suc, ◌+◌, ◌*◌, ◌%◌, ◌^◌, ◌≤◌, ◌<◌, ◌≡◌, inl, inr, refl, ◌∙◌, List, [], ◌∷◌, ◌++◌, Option,
  some, none, length, length-append, arith, Run, ret, ltb, lt→ltb, Bool-cases, ltb→lt,
}
use mathlib.Core.List.{append_assoc, append-nil}
use native.Mathlib.Nat.{pow-suc}
use native.Mathlib.Decide.{dec_lt}
use cs.Kmalloc.{Words, words}
use cs.Queue.{
  Queue, addtail_with, double_until, move_from, grow_with, grow, addtail, preallocate, enomem,
}
use cs.Queue.Segment.{Segment, Holds, next_in, Segment-ne, full, not_full}
use cs.Queue.Ends.{addtail_room}

-- The doubling ends, with a size that fits an int, whatever size it starts from.
double_until_lem :
    (f target n : ℕ)
    → 0 < n
    → n < 2 ^ 30
    → target ≤ 2 ^ 29
    → target ≤ n * 2 ^ f
    → (m : ℕ) × (double_until (suc f) target n ≡ ret m) × (n ≤ m) × (target ≤ m) × (m < 2 ^ 30)
unfolding double_until
double_until_lem zero target n pos small fits fuel =
    (n, ground arith, omega arith, omega arith, omega (arith, small))
double_until_lem (suc f) target n pos small fits fuel = elim (Bool-cases (ltb n target)) [
  | inl more ↦
      let below = ltb→lt n target more in
      let fuel' : target ≤ n * (2 ^ f * 2) = rw pow-suc at fuel in
      let (m, e, ge, enough, below_max) =
        double_until_lem f target (n * 2) (omega arith) (omega arith) fits (omega arith) in
      (m, ground (arith, e), omega arith, enough, below_max)
  | inr done ↦ (n, rw done, omega arith, ground arith, small)
]

module _ (grow : Queue → ℕ → Run (ℕ × Queue)) (old : Queue) where
  move_from_lem :
      (f i : ℕ) (q : Queue) (xs ys : List ℕ)
      → i < old.size
      → length ys < old.size
      → length ys < f
      → Segment old.cells old.size i old.nextwrite ys
      → Holds q xs
      → length xs + length ys < q.size
      → (q' : Queue) × (move_from (addtail_with grow) old f i q ≡ ret q')
        × Holds q' (xs ++ ys)
        × (q'.size ≡ q.size)
  unfolding move_from
  move_from_lem zero i q xs ys hi small fuel s h room = absurd (omega arith)
  move_from_lem (suc f) i q xs [] hi small fuel s h room =
      (q, ground arith, rw (append-nil xs) h, refl)
  move_from_lem (suc f) i q xs (y ∷ ys) hi small fuel s h room =
      let more = Segment-ne old.cells old.size i old.nextwrite y ys hi small s in
      let (q1, e1, h1, size1) = addtail_room grow y xs h (omega arith) in
      let (q2, e2, h2, size2) =
        move_from_lem f ((i + 1) % old.size) q1 (xs ++ y ∷ []) ys (next_in old.size i hi)
          (omega arith) (omega arith) s.1 h1 (omega (arith, length-append xs (y ∷ []))) in
      (q2, ground (arith, e1, e2, s.0, more), rw (← append_assoc xs (y ∷ []) ys) h2, size2 ∙ size1)

module _ (mem : Words) where
  -- What q_grow may do with a ring that holds `xs`: it fails for lack of memory and leaves the ring
  -- alone, or the ring is at least as large as before and as asked for, and holds the same elements.
  pub data Grows (q : Queue) (xs : List ℕ) (target : ℕ) : Run (ℕ × Queue) → Type 0 where
    no_memory : (n : ℕ) → mem.block n ≡ none → Grows q xs target (ret (enomem, q))
    grown :
        (q' : Queue)
        → Holds q' xs
        → q.size ≤ q'.size
        → target ≤ q'.size
        → Grows q xs target (ret (0, q'))

  pub grow-Grows :
      (depth : ℕ) {q : Queue} (xs : List ℕ) (target : ℕ)
      → Holds q xs
      → q.size < 2 ^ 30
      → target ≤ 2 ^ 29
      → Grows q xs target (grow mem.block (suc depth) q target)
  unfolding grow grow_with
  grow-Grows depth {q} xs target h small fits =
      let (m, e, ge, enough, top) =
        double_until_lem 31 target q.size (omega (arith, h.room)) small fits
          (omega (arith, h.room)) in
      go m e ge enough top (mem.block m) refl
    where
      go :
          (m : ℕ)
          → double_until 32 target q.size ≡ ret m
          → q.size ≤ m
          → target ≤ m
          → m < 2 ^ 30
          → (got : Option (List ℕ)) → mem.block m ≡ got
          → Grows q xs target (grow mem.block (suc depth) q target)
      go m e ge enough top none got =
          let w : words m ≡ m = omega (arith, top) in rw (e, w, got, grow_with) (no_memory m got)
      go m e ge enough top (some ws) got =
          let w : words m ≡ m = omega (arith, top) in
          let q0 : Queue = record { size = m; nextwrite = 0; nextread = 0; cells = ws } in
          let h0 : Holds q0 [] = record {
            cells_length = mem.block_length m ws got;
            room = omega (arith, h.room);
            read_in = omega (arith, h.room);
            write_in = omega (arith, h.room);
            segment = refl;
          } in
          let (q', e', h', size') =
            move_from_lem (grow mem.block depth) q (q.size + 1) q.nextread q0 [] xs h.read_in h.room
              (omega (arith, h.room)) h.segment h0 (omega (arith, h.room)) in
          rw (e, w, got, e', grow_with) (grown q' h' (omega arith) (omega arith))

  -- What q_addtail may do with a ring that holds `xs`: it appends the element, or, on a full ring
  -- only, it returns ENOMEM and leaves the ring alone.
  pub data Appends (q : Queue) (x : ℕ) (xs : List ℕ) : Run (ℕ × Queue) → Type 0 where
    refused :
        (n : ℕ) → length xs + 1 ≡ q.size → mem.block n ≡ none → Appends q x xs (ret (enomem, q))
    appended :
        (q' : Queue) → Holds q' (xs ++ x ∷ []) → q.size ≤ q'.size → Appends q x xs (ret (0, q'))

  Appends-full :
      {q : Queue} (x : ℕ) (xs : List ℕ)
      → Holds q xs
      → q.size < 2 ^ 29
      → length xs + 1 ≡ q.size
      → Appends q x xs (addtail mem.block q x)
  unfolding addtail addtail_with
  Appends-full {q} x xs h small e =
      go (grow-Grows 0 xs (q.size + 1) h (omega arith) (omega arith)) refl
    where
      go :
          {m : Run (ℕ × Queue)}
          → Grows q xs (q.size + 1) m
          → grow mem.block 1 q (q.size + 1) ≡ m
          → Appends q x xs (addtail mem.block q x)
      go (no_memory n null) r =
          let p : addtail mem.block q x ≡ ret (enomem, q) = ground (arith, full xs h e, r) in
          rw p (refused n e null)
      go (grown q' h' ge enough) r =
          let (q2, e2, h2, size2) = addtail_room (grow mem.block 1) x xs h' (omega arith) in
          let p : addtail mem.block q x ≡ ret (0, q2) =
            ground (arith, full xs h e, r, e2, not_full xs h' (omega arith)) in
          rw p (appended q2 h2 (omega arith))

  -- q_addtail on any ring of fewer than 2 ^ 29 cells appends the element, growing the ring if it
  -- is full; if then there is no memory it returns ENOMEM and changes nothing. It never panics.
  pub addtail-Appends :
      {q : Queue} (x : ℕ) (xs : List ℕ)
      → Holds q xs
      → q.size < 2 ^ 29
      → Appends q x xs (addtail mem.block q x)
  unfolding addtail
  addtail-Appends {q} x xs h small = elim (dec_lt (length xs + 1) q.size) [
    | yes room ↦
        let (q', e, h', size') = addtail_room (grow mem.block 1) x xs h room in
        rw e (appended q' h' (omega arith))
    | no full_ring ↦ Appends-full x xs h small (omega (arith, h.room))
  ]

  -- q_preallocate of at most 2 ^ 29 cells on any ring of fewer than 2 ^ 30 returns and keeps the
  -- elements; unless kmalloc refuses, the ring then has at least the size asked for.
  pub preallocate-Grows :
      {q : Queue} (xs : List ℕ) (size : ℕ)
      → Holds q xs
      → q.size < 2 ^ 30
      → size ≤ 2 ^ 29
      → Grows q xs size (preallocate mem.block q size)
  unfolding preallocate
  preallocate-Grows {q} xs size h small fits =
      rw (lt→ltb 0 q.size (omega (arith, h.room))) (elim (Bool-cases (ltb q.size size)) [
        | inl more ↦ rw more (grow-Grows 0 xs size h small fits)
        | inr fine ↦ rw fine (grown q h (omega arith) (ground arith))
      ])
