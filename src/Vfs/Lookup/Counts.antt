-- ===== src/Vfs/Lookup/Counts.antt =====
-- What an operation does to the reference counts, and how that adds up.
use cs.Base.{
  ℕ, ◌+◌, ◌-◌, ◌≤◌, ◌<◌, ◌⊎◌, Option, none, some, Run, ret, Result, ok, err, and_then, ltb, ◌==◌,
  if◌then◌else◌, ◌≡◌, refl, ◌∙◌, Bool-cases, inl, inr, arith,
}
use cs.Vfs.{Name}
use cs.Vfs.Lookup.{
  VnodeOps, Vnodes, Op, incref, decref, with_ref, referenced, parent, and_drop, or_enoent, enoent,
}

-- One reference to `v`, as a count for each vnode
abbrev pub one : ℕ → ℕ → ℕ
one v j = if j == v then 1 else 0

-- From counts `base`: it returns; a result adds the references `gain`, an error adds none; and the
-- current directory and the boot file system stay.
pub data Counts {A : Type 0} (s : Vnodes) (base : ℕ → ℕ) (gain : A → ℕ → ℕ)
    : Run (Result A × Vnodes) → Type 0 where
  gained :
      (a : A) (t : Vnodes)
      → ((j : ℕ) → t.refs j ≡ base j + gain a j)
      → t.cwd ≡ s.cwd
      → t.bootfs ≡ s.bootfs
      → Counts s base gain (ret (ok a, t))
  failed :
      (e : ℕ) (t : Vnodes)
      → ((j : ℕ) → t.refs j ≡ base j)
      → t.cwd ≡ s.cwd
      → t.bootfs ≡ s.bootfs
      → Counts s base gain (ret (err e, t))

abbrev pub nothing {ℓ} : {A : Type ℓ} → A → ℕ → ℕ
nothing a j = 0

-- A vnode without one of the references `base` leaves memory with its last reference.
abbrev pub IsReclaiming : VnodeOps → (ℕ → ℕ) → Type 0
IsReclaiming ops base = (v : ℕ) → (ops.reclaim v ≡ 0) ⊎ (0 < base v)

pub more-IsReclaiming :
    (ops : VnodeOps) (base base' : ℕ → ℕ)
    → IsReclaiming ops base
    → ((j : ℕ) → base j ≤ base' j)
    → IsReclaiming ops base'
more-IsReclaiming ops base base' r le v = elim (r v) [
  | inl z ↦ inl z
  | inr b ↦ inr (omega (arith, b, le v))
]

last_reclaim : (r n : ℕ) → (r ≡ 0) ⊎ (0 < n) → n ≡ 0 → r ≡ 0
last_reclaim r n (inl z) e = z
last_reclaim r n (inr b) e = absurd (omega (arith, b, e))

-- Dropping a reference that is there
pub decref-ret :
    (ops : VnodeOps) (v : ℕ) (s : Vnodes) (base : ℕ → ℕ)
    → IsReclaiming ops base
    → ((j : ℕ) → s.refs j ≡ base j + one v j)
    → (t : Vnodes) × (decref ops v s ≡ ret (ok tt, t))
      × ((j : ℕ) → t.refs j ≡ base j)
      × (t.cwd ≡ s.cwd)
      × (t.bootfs ≡ s.bootfs)
unfolding decref
decref-ret ops v s base reclaims h = elim (Bool-cases (ltb 1 (s.refs v))) [
  | inl b ↦ (
    record s { refs = λ j. if j == v then s.refs j - 1 else s.refs j },
    ground (arith, b, h v),
    (λ j. ground (arith, h j)),
    refl,
    refl,
  )
  | inr b ↦
      let last : base v ≡ 0 = ground (arith, b, h v) in
      let gone = last_reclaim (ops.reclaim v) (base v) (reclaims v) last in
      (
        record s { refs = λ j. if j == v then ops.reclaim v else s.refs j },
        ground (arith, b, h v),
        (λ j. ground (arith, h j, h v, b, gone)),
        refl,
        refl,
      )
]

-- A run, and then the drop of a reference that was there before it
pub and_drop-Counts :
    {A : Type 0} (ops : VnodeOps) (v : ℕ) (s : Vnodes) (base : ℕ → ℕ) (gain : A → ℕ → ℕ)
    → IsReclaiming ops base
    → (r : Run (Result A × Vnodes)) → Counts s (λ j. base j + one v j) gain r
    → Counts s base gain (and_drop ops v r)
and_drop-Counts ops v s base gain reclaims r (gained a t h c b) =
    let (u, e, refs, c', b') =
      decref-ret ops v t (λ j. base j + gain a j)
        (more-IsReclaiming ops base _ reclaims (λ j. omega arith)) (λ j. omega (arith, h j)) in
    rw e (gained a u refs (c' ∙ c) (b' ∙ b))
and_drop-Counts ops v s base gain reclaims r (failed x t h c b) =
    let (u, e, refs, c', b') = decref-ret ops v t base reclaims h in
    rw e (failed x u refs (c' ∙ c) (b' ∙ b))

-- The current directory and the boot file system may be those of an earlier state.
pub moved-Counts :
    {A : Type 0} (s t : Vnodes) (base : ℕ → ℕ) (gain : A → ℕ → ℕ) (r : Run (Result A × Vnodes))
    → t.cwd ≡ s.cwd
    → t.bootfs ≡ s.bootfs
    → Counts t base gain r
    → Counts s base gain r
moved-Counts s t base gain r c b (gained x u h c' b') = gained x u h (c' ∙ c) (b' ∙ b)
moved-Counts s t base gain r c b (failed x u h c' b') = failed x u h (c' ∙ c) (b' ∙ b)

-- One operation after another, which uses up what the first one gained
pub then-Counts :
    {A B : Type 0} (s : Vnodes) (base : ℕ → ℕ) (gain : A → ℕ → ℕ) (gain' : B → ℕ → ℕ) (f : A → Op B)
    → ((a : A) (t : Vnodes)
        → ((j : ℕ) → t.refs j ≡ base j + gain a j)
        → t.cwd ≡ s.cwd
        → t.bootfs ≡ s.bootfs
        → Counts t base gain' (f a t))
    → (r : Run (Result A × Vnodes)) → Counts s base gain r
    → Counts s base gain' (and_then r f)
then-Counts s base gain gain' f k r (gained a t h c b) =
    moved-Counts s t base gain' (f a t) c b (k a t h c b)
then-Counts s base gain gain' f k r (failed x t h c b) = failed x t h c b

pub with_ref-adds :
    (v : ℕ) (s : Vnodes) (base : ℕ → ℕ) (gain : ℕ → ℕ → ℕ)
    → ((j : ℕ) → s.refs j + one v j ≡ base j + gain v j)
    → Counts s base gain (with_ref v s)
unfolding incref
with_ref-adds v s base gain h = gained v _ (λ j. ground (arith, h j)) refl refl

pub with_ref-Counts : (v : ℕ) (s : Vnodes) → Counts s s.refs one (with_ref v s)
unfolding incref
with_ref-Counts v s = gained v _ (λ j. ground arith) refl refl

pub referenced-Counts : (r : Result ℕ) (s : Vnodes) → Counts s s.refs one (referenced r s)
referenced-Counts (ok v) s = with_ref-Counts v s
referenced-Counts (err e) s = failed e s (λ j. refl) refl refl

pub parent-Counts :
    (r : Result (ℕ × Name)) (s : Vnodes) → Counts s s.refs (λ (d : ℕ × Name). one d.0) (parent r s)
unfolding incref
parent-Counts (ok (v, n)) s = gained (v, n) _ (λ j. ground arith) refl refl
parent-Counts (err e) s = failed e s (λ j. refl) refl refl

pub or_enoent-Counts : (o : Option ℕ) (s : Vnodes) → Counts s s.refs one (or_enoent o s)
or_enoent-Counts none s = failed enoent s (λ j. refl) refl refl
or_enoent-Counts (some v) s = with_ref-Counts v s

-- The counts that a statement starts from may be written another way.
pub Counts-base :
    {A : Type 0} (s : Vnodes) (base base' : ℕ → ℕ) (gain : A → ℕ → ℕ) (r : Run (Result A × Vnodes))
    → ((j : ℕ) → base j ≡ base' j)
    → Counts s base gain r
    → Counts s base' gain r
Counts-base s base base' gain r e (gained a t h c b) = gained a t (λ j. omega (arith, h j, e j)) c b
Counts-base s base base' gain r e (failed x t h c b) = failed x t (λ j. omega (arith, h j, e j)) c b
