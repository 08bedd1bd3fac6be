-- ===== src/Queue/Ends.antt =====
-- The ends of the queue: q_addtail where there is room, q_remhead, q_peek, q_empty, q_len and
-- q_destroy.
use cs.Base.{
  ℕ, zero, suc, ◌+◌, ◌%◌, ◌<◌, ◌≡◌, ◌≢◌, refl, ap, ◌∙◌, List, [], ◌∷◌, ◌++◌, set, length,
  length-set, get_elem?-eq-get_or, length-append, arith, Bool, true, false, Run, ret, panic, lt→ltb,
}
use cs.Queue.{Queue, is_empty, addtail_with, remhead, peek, len, count_from}
use cs.Queue.Segment.{Segment, Holds, next_in, Segment-ne, Segment-snoc, not_full}

-- Whether a list of elements is empty.
abbrev pub is_nil : List ℕ → Bool
is_nil [] = true
is_nil (x ∷ xs) = false

-- q_empty is true exactly of a ring that holds no element.
pub is_empty-eq-is_nil : {q : Queue} (xs : List ℕ) → Holds q xs → is_empty q ≡ is_nil xs
unfolding is_empty
is_empty-eq-is_nil {q} [] h = ground (arith, h.segment)
is_empty-eq-is_nil {q} (x ∷ xs) h =
    let e : q.nextread ≢ q.nextwrite =
      Segment-ne q.cells q.size q.nextread q.nextwrite x xs h.read_in h.room h.segment in
    ground arith

-- What q_remhead does with a ring that holds `xs`.
abbrev pub Removes : Queue → List ℕ → Type 0
Removes q [] = remhead q ≡ panic
Removes q (x ∷ xs) = (q' : Queue) × (remhead q ≡ ret (x, q')) × Holds q' xs × (q'.size ≡ q.size)

-- q_remhead of a ring that holds elements returns the oldest and leaves the others in order; on an
-- empty ring its KASSERT fails.
pub remhead-Removes : {q : Queue} (xs : List ℕ) → Holds q xs → Removes q xs
unfolding remhead
remhead-Removes {q} [] h = rw (lt→ltb 0 q.size (omega (arith, h.room)), is_empty-eq-is_nil [] h)
remhead-Removes {q} (x ∷ xs) h = (
  record q { nextread = (q.nextread + 1) % q.size },
  rw (lt→ltb 0 q.size (omega (arith, h.room)), is_empty-eq-is_nil (x ∷ xs) h, h.segment.0),
  record {
    cells_length = h.cells_length;
    room = omega (arith, h.room);
    read_in = next_in q.size q.nextread h.read_in;
    write_in = h.write_in;
    segment = h.segment.1;
  },
  refl,
)

-- The head of a list of pointers, NULL if there is none.
abbrev pub head_or_null : List ℕ → ℕ
head_or_null [] = 0
head_or_null (x ∷ xs) = x

-- q_peek of a ring returns the oldest element, or NULL when there is none.
pub peek-Holds : {q : Queue} (xs : List ℕ) → Holds q xs → peek q ≡ ret (head_or_null xs)
unfolding peek
peek-Holds {q} [] h = rw (lt→ltb 0 q.size (omega (arith, h.room)), is_empty-eq-is_nil [] h)
peek-Holds {q} (x ∷ xs) h =
    rw (lt→ltb 0 q.size (omega (arith, h.room)), is_empty-eq-is_nil (x ∷ xs) h, h.segment.0)

count_from_lem :
    (f : ℕ) (q : Queue) (i c : ℕ) (xs : List ℕ)
    → i < q.size
    → length xs < q.size
    → length xs < f
    → Segment q.cells q.size i q.nextwrite xs
    → count_from f q i c ≡ ret (c + length xs)
unfolding count_from
count_from_lem zero q i c xs hi room lt s = absurd (omega arith)
count_from_lem (suc f) q i c [] hi room lt s = ground arith
count_from_lem (suc f) q i c (x ∷ xs) hi room lt s = ground (
  arith,
  Segment-ne q.cells q.size i q.nextwrite x xs hi room s,
  count_from_lem f q ((i + 1) % q.size) (c + 1) xs (next_in q.size i hi) (omega arith) (omega arith)
      s.1,
)

-- q_len of a ring ends and returns the number of its elements.
pub len-Holds : {q : Queue} (xs : List ℕ) → Holds q xs → len q ≡ ret (length xs)
unfolding len
len-Holds {q} xs h =
    count_from_lem (q.size + 1) q q.nextread 0 xs h.read_in h.room (omega (arith, h.room)) h.segment
    ∙ ap ret (omega arith)

-- Where one more element leaves a cell unused, q_addtail appends it and does not call q_grow.
pub addtail_room :
    (grow : Queue → ℕ → Run (ℕ × Queue)) {q : Queue} (x : ℕ) (xs : List ℕ)
    → Holds q xs
    → length xs + 1 < q.size
    → (q' : Queue) × (addtail_with grow q x ≡ ret (0, q'))
      × Holds q' (xs ++ x ∷ [])
      × (q'.size ≡ q.size)
unfolding addtail_with
addtail_room grow {q} x xs h room =
    let at_write =
      get_elem?-eq-get_or q.cells q.nextwrite 0 (omega (arith, h.cells_length, h.write_in)) in
    let goes_on = not_full xs h room in
    (
      record q { cells = set q.cells q.nextwrite x; nextwrite = (q.nextwrite + 1) % q.size },
      ground (arith, at_write),
      record {
        cells_length = length-set q.cells q.nextwrite x ∙ h.cells_length;
        room = omega (arith, room, length-append xs (x ∷ []));
        read_in = h.read_in;
        write_in = next_in q.size q.nextwrite h.write_in;
        segment =
            Segment-snoc q.cells q.size q.nextread q.nextwrite x xs h.cells_length h.read_in
              h.write_in h.room h.segment;
      },
      refl,
    )
