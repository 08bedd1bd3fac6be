-- ===== src/Spl/Levels.antt =====
-- The interrupt level: splx and its inverse.
use cs.Base.{
  ℕ, zero, suc, ◌+◌, ◌-◌, ◌%◌, ◌^◌, ◌≤◌, ◌<◌, ◌≡◌, refl, Bool, true, false, Run, ret, ◌>>=◌, arith,
  ◌==◌, if◌then◌else◌,
}
use cs.Spl.{Ipl, splraise, spllower, splx, splhigh}

-- Interrupts are on exactly when nothing has raised the level, and a thread at IPL_HIGH has.
pub record IsLevel (t : Ipl) : Type 0 where
  pub irq : t.irq_on ≡ (t.iplhigh_count == 0)
  pub high : t.curspl ≤ t.iplhigh_count
  pub level : t.curspl ≤ 1
  pub small : t.iplhigh_count < 2 ^ 31

-- The state with one raise more, and with one less.
abbrev pub raised : Ipl → Ipl
raised t = record t { iplhigh_count = t.iplhigh_count + 1; irq_on = false }

abbrev pub lowered : Ipl → Ipl
lowered t = record t { iplhigh_count = t.iplhigh_count - 1; irq_on = t.iplhigh_count == 1 }

irq_off : (n : ℕ) (b : Bool) → b ≡ (n == 0) → (if n == 0 then false else b) ≡ false
irq_off n b h = ground (arith, h)

irq_back : (n : ℕ) → (if n == 0 then true else false) ≡ (n + 1 == 1)
irq_back n = ground arith

pub splraise-eq :
    (t : Ipl)
    → t.irq_on ≡ (t.iplhigh_count == 0)
    → t.iplhigh_count + 1 < 2 ^ 31
    → splraise 0 1 t ≡ ret (raised t)
unfolding splraise
splraise-eq t h small =
    let e : (t.iplhigh_count + 1) % 2 ^ 32 ≡ t.iplhigh_count + 1 = omega arith in
    rw e (go t (t.iplhigh_count == 0) h)
  where
    go :
        (t : Ipl) (b : Bool)
        → t.irq_on ≡ b
        → ◌≡◌ {A = Run Ipl}
            (ret (record (if b then record t { irq_on = false } else t) {
              iplhigh_count = t.iplhigh_count + 1;
            }))
            (ret (raised t))
    go t true h = refl
    go t false h = rw h refl

pub spllower-eq :
    (t : Ipl)
    → t.irq_on ≡ false
    → 0 < t.iplhigh_count
    → t.iplhigh_count < 2 ^ 31
    → spllower 1 0 t ≡ ret (lowered t)
unfolding spllower
spllower-eq t h pos small =
    let e : (t.iplhigh_count + 4294967295) % 2 ^ 32 ≡ t.iplhigh_count - 1 = omega arith in
    let z : (t.iplhigh_count == 1) ≡ (t.iplhigh_count - 1 == 0) = ground arith in
    rw (e, z) (go (record t { iplhigh_count = t.iplhigh_count - 1 }) (t.iplhigh_count - 1 == 0) h)
  where
    go :
        (t : Ipl) (b : Bool)
        → t.irq_on ≡ false
        → ◌≡◌ {A = Run Ipl}
            (ret (if b then record t { irq_on = true } else t))
            (ret (record t { irq_on = b }))
    go t true h = refl
    go t false h = rw h refl

-- A raise and a lowering cancel.
pub restored : (t : Ipl) → t.irq_on ≡ (t.iplhigh_count == 0) → lowered (raised t) ≡ t
restored t h =
    let e : t.iplhigh_count + 1 - 1 ≡ t.iplhigh_count = omega arith in
    let b : (t.iplhigh_count + 1 == 1) ≡ t.irq_on = rw h (ground arith) in rw (e, b) refl

high_low :
    (c n : ℕ) (b : Bool)
    → c ≤ 1
    → b ≡ (n == 0)
    → n + 1 < 2 ^ 31
    → (splhigh (record { curspl = c; iplhigh_count = n; irq_on = b }) >>= λ (old, u). splx old u)
      ≡ ret (1, record { curspl = c; iplhigh_count = n; irq_on = b })
unfolding splx splhigh
high_low zero n b hc h small =
    let t : Ipl = record { curspl = 0; iplhigh_count = n; irq_on = b } in
    let down = spllower-eq (raised t) refl (omega arith) (omega arith) in
    rw (splraise-eq t h small, down, restored t h) refl
high_low (suc zero) n b hc h small = refl
high_low (suc (suc c)) n b hc h small = absurd (omega arith)

-- For a thread whose interrupt state is sound and whose count can grow, a splhigh and the splx to the
-- level it returned succeed and leave the state as it was.
pub splx-splhigh :
    (t : Ipl)
    → IsLevel t
    → t.iplhigh_count + 1 < 2 ^ 31
    → (splhigh t >>= λ (old, u). splx old u) ≡ ret (1, t)
splx-splhigh t i small = high_low t.curspl t.iplhigh_count t.irq_on i.level i.irq small
