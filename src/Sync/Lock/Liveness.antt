-- ===== src/Sync/Lock/Liveness.antt =====
-- No sleeper of a lock is forgotten.
use cs.Base.{
  ℕ, ◌≡◌, ◌≢◌, refl, ◌∙◌, inl, inr, ◌⊎◌, Bool, true, false, ◌||◌, List, [], ◌∷◌, ◌++◌, none, some,
  ◌==◌, arith, mem, distinct,
}
use cs.Sync.Threads.{set_pc, NotIn, wakeone}
use cs.Sync.Lock.{
  Lock, Pc, outside, enter, test, bridge, drop, asleep, critical, let_go, check, wake, done, create,
  Move, call_acquire, call_again, acquire, block, unlock, sleep, woken, take, leave, call_release,
  call_release_outside, acquire_release, clear, skip, wakeup, leave_release, System, pick, Reach,
  start, later,
}

-- Whether a thread is on its way to sleep, with the lock of the channel.
abbrev pub waits : Pc → Bool
waits bridge = true
waits drop = true
waits _ = false

-- Whether a thread is about to wake one up, or to test the holder again.
abbrev pub comes : Pc → Bool
comes enter = true
comes test = true
comes wake = true
comes _ = false

-- Some thread is about to wake one up or to test the holder, or has been woken up.
pub data Comes (l : Lock) (pc : ℕ → Pc) : Type 0 where
  coming : (j : ℕ) → comes (pc j) ≡ true → Comes l pc
  up : (j : ℕ) → pc j ≡ asleep → NotIn j l.sleepers → Comes l pc

-- No thread sleeps or is on its way to.
abbrev pub Calm : Lock → (ℕ → Pc) → Type 0
Calm l pc = (l.sleepers ≡ []) × ((i : ℕ) → waits (pc i) ≡ false)

pub record Live (l : Lock) (pc : ℕ → Pc) : Type 0 where
  pub chan : (i : ℕ) → waits (pc i) ≡ true → l.chan_lock ≡ some i
  pub sleeping : (i : ℕ) → mem i l.sleepers ≡ true → pc i ≡ asleep
  pub once : distinct l.sleepers ≡ true
  pub free : l.holder ≡ none → Calm l pc ⊎ Comes l pc

NotIn-mem : (i : ℕ) (js : List ℕ) → mem i js ≡ false → NotIn i js
NotIn-mem i [] h = tt
NotIn-mem i (j ∷ js) h = (λ e. ground (arith, h, e), NotIn-mem i js (ground (arith, h)))

mem-NotIn : (i : ℕ) (js : List ℕ) → NotIn i js → mem i js ≡ false
mem-NotIn i [] h = refl
mem-NotIn i (j ∷ js) (ne, h) = ground (arith, mem-NotIn i js h, ne)

mem-append : (i j : ℕ) (js : List ℕ) → mem i (js ++ j ∷ []) ≡ (mem i js || (j == i))
mem-append i j [] = ground arith
mem-append i j (k ∷ ks) = ground (arith, mem-append i j ks)

distinct-append :
    (j : ℕ) (js : List ℕ) → mem j js ≡ false → distinct js ≡ true → distinct (js ++ j ∷ []) ≡ true
distinct-append j [] h d = refl
distinct-append j (k ∷ ks) h d = ground (arith, h, d, mem-append k j ks, distinct-append j ks)

NotIn-append : (i j : ℕ) (js : List ℕ) → NotIn i js → i ≢ j → NotIn i (js ++ j ∷ [])
NotIn-append i j [] h ne = (ne, tt)
NotIn-append i j (k ∷ ks) (a, h) ne = (a, NotIn-append i j ks h ne)

mem-wakeone : (i : ℕ) (js : List ℕ) → mem i (wakeone js) ≡ true → mem i js ≡ true
mem-wakeone i [] h = h
mem-wakeone i (j ∷ js) h = ground (arith, h)

distinct-wakeone : (js : List ℕ) → distinct js ≡ true → distinct (wakeone js) ≡ true
distinct-wakeone [] h = refl
distinct-wakeone (j ∷ js) h = ground (arith, h)

-- The longest sleeper is woken up, where the sleepers are asleep and distinct.
woken_up :
    (l : Lock) (pc : ℕ → Pc) (js : List ℕ)
    → l.sleepers ≡ wakeone js
    → ((k : ℕ) → mem k js ≡ true → pc k ≡ asleep)
    → distinct js ≡ true
    → ((k : ℕ) → waits (pc k) ≡ false)
    → Calm l pc ⊎ Comes l pc
woken_up l pc [] e f d w = inl (e, w)
woken_up l pc (k ∷ ks) e f d w =
    inr (up k (f k (ground arith)) (rw e (NotIn-mem k ks (ground (arith, d)))))

module _ {l l' : Lock} {pc : ℕ → Pc} (i : ℕ) (p : Pc) where
  -- A move of a thread that none waits for
  Comes-kept :
      comes (pc i) ≡ false
      → pc i ≢ asleep
      → ((j : ℕ) → j ≢ i → NotIn j l.sleepers → NotIn j l'.sleepers)
      → Comes l pc
      → Comes l' (set_pc pc i p)
  Comes-kept c a f (coming j h) = coming j (ground (arith, c, h))
  Comes-kept c a f (up j h n) = up j (ground (arith, a, h)) (f j (λ e. a (cc (e, h))) n)

  quiet :
      l'.sleepers ≡ l.sleepers
      → waits p ≡ false
      → comes (pc i) ≡ false
      → pc i ≢ asleep
      → Calm l pc ⊎ Comes l pc
      → Calm l' (set_pc pc i p) ⊎ Comes l' (set_pc pc i p)
  quiet e w c a (inl x) = inl (e ∙ x.0, λ j. ground (arith, w, x.1 j))
  quiet e w c a (inr x) = inr (Comes-kept c a (λ j ne n. rw e n) x)

  -- A move of a thread on its way to sleep
  going :
      ((j : ℕ) → j ≢ i → NotIn j l.sleepers → NotIn j l'.sleepers)
      → waits (pc i) ≡ true
      → comes (pc i) ≡ false
      → pc i ≢ asleep
      → Calm l pc ⊎ Comes l pc
      → Calm l' (set_pc pc i p) ⊎ Comes l' (set_pc pc i p)
  going f w c a (inl (n, x)) = absurd (ground (arith, w, x i))
  going f w c a (inr x) = inr (Comes-kept c a f x)

module _ {l : Lock} {pc : ℕ → Pc} (inv : Live l pc) (i : ℕ) where
  Move-chan :
      {p p' : Pc} {l' : Lock}
      → Move i l p l' p'
      → pc i ≡ p
      → (j : ℕ) → waits (set_pc pc i p' j) ≡ true
      → l'.chan_lock ≡ some j
  Move-chan (block a c) e j h = ground (arith, c, inv.chan j, h)
  Move-chan sleep e j h = ground (arith, inv.chan j, inv.chan i, h, e)
  Move-chan call_acquire e j h = ground (arith, inv.chan j, inv.chan i, h, e)
  Move-chan mv e j h = ground (arith, inv.chan j, inv.chan i, h, e)

  Move-sleeping :
      {p p' : Pc} {l' : Lock}
      → Move i l p l' p'
      → pc i ≡ p
      → (j : ℕ) → mem j l'.sleepers ≡ true
      → set_pc pc i p' j ≡ asleep
  Move-sleeping sleep e j h = ground (arith, inv.sleeping j, h, mem-append j i l.sleepers)
  Move-sleeping (woken n) e j h = ground (arith, inv.sleeping j, h, mem-NotIn i l.sleepers n)
  Move-sleeping (wakeup c) e j h = ground (arith, inv.sleeping j (mem-wakeone j l.sleepers h), e)
  Move-sleeping call_acquire e j h = ground (arith, inv.sleeping j, h, e)
  Move-sleeping mv e j h = ground (arith, inv.sleeping j, h, e)

  Move-once : {p p' : Pc} {l' : Lock} → Move i l p l' p' → pc i ≡ p → distinct l'.sleepers ≡ true
  Move-once sleep e = distinct-append i l.sleepers (ground (arith, inv.sleeping i, e)) inv.once
  Move-once (wakeup c) e = distinct-wakeone l.sleepers inv.once
  Move-once call_acquire e = inv.once
  Move-once mv e = inv.once

  Move-free :
      {p p' : Pc} {l' : Lock}
      → Move i l p l' p'
      → pc i ≡ p
      → l'.holder ≡ none
      → Calm l' (set_pc pc i p') ⊎ Comes l' (set_pc pc i p')
  Move-free call_acquire e h = inr (coming i (ground arith))
  Move-free call_again e h = inr (coming i (ground arith))
  Move-free (acquire a) e h = inr (coming i (ground arith))
  Move-free (woken n) e h = inr (coming i (ground arith))
  Move-free (clear a) e h = inr (coming i (ground arith))
  Move-free (block a c) e h = absurd (a h)
  Move-free (take a) e h = absurd (ground (arith, h))
  Move-free unlock e h =
      going i drop (λ j ne n. n) (rw e refl) (rw e refl) (λ x. ground (arith, x, e)) (inv.free h)
  Move-free sleep e h =
      going i asleep (λ j ne n. NotIn-append j i l.sleepers n ne) (rw e refl) (rw e refl)
        (λ x. ground (arith, x, e)) (inv.free h)
  Move-free (wakeup c) e h =
      woken_up _ _ l.sleepers refl (λ k m. ground (arith, inv.sleeping k m, e)) inv.once
        (λ k. ground (arith, inv.chan k, c))
  Move-free leave e h =
      quiet i critical refl refl (rw e refl) (λ x. ground (arith, x, e)) (inv.free h)
  Move-free call_release e h =
      quiet i let_go refl refl (rw e refl) (λ x. ground (arith, x, e)) (inv.free h)
  Move-free call_release_outside e h =
      quiet i let_go refl refl (rw e refl) (λ x. ground (arith, x, e)) (inv.free h)
  Move-free (acquire_release a) e h =
      quiet i check refl refl (rw e refl) (λ x. ground (arith, x, e)) (inv.free h)
  Move-free (skip a) e h =
      quiet i done refl refl (rw e refl) (λ x. ground (arith, x, e)) (inv.free h)
  Move-free leave_release e h =
      quiet i outside refl refl (rw e refl) (λ x. ground (arith, x, e)) (inv.free h)

pub Reach-Live : {s : System} → Reach s → Live s.lock s.pc
unfolding create
Reach-Live start = record {
  chan = λ i h. absurd (ground (arith, h));
  sleeping = λ i h. absurd (ground (arith, h));
  once = refl;
  free = λ h. inl (refl, λ i. refl);
}
Reach-Live (later r (pick i mv)) =
    let inv = Reach-Live r in
    record {
      chan = Move-chan inv i mv refl;
      sleeping = Move-sleeping inv i mv refl;
      once = Move-once inv i mv refl;
      free = Move-free inv i mv refl;
    }

-- In every state that threads can reach where the lock has no holder while a thread sleeps on it or
-- is on its way to sleep, another one is about to call wchan_wakeone or to test the holder, or has
-- been woken up and not run yet: no wake-up of lock_release is lost.
pub waiting-Comes :
    {s : System}
    → Reach s
    → s.lock.holder ≡ none
    → (i : ℕ) → (waits (s.pc i) || mem i s.lock.sleepers) ≡ true
    → Comes s.lock s.pc
waiting-Comes {s} r h i w = elim ((Reach-Live r).free h) [
  | inr c ↦ c
  | inl (e, c) ↦ absurd (ground (arith, w, e, c i))
]
