-- ===== src/CopyInOut/Blocks.antt =====
-- copycheck, copyin and copyout.
use cs.Base.{
  ℕ, zero, suc, ◌+◌, ◌-◌, ◌^◌, ◌≤◌, ◌<◌, ◌≡◌, ◌⊎◌, inl, inr, refl, Bool, true, false, ◌&&◌, arith,
  ◌==◌, if◌then◌else◌, ltb, leb,
}
use cs.CopyInOut.{
  efault, userspacetop, Machine, copycheck, Attempt, done, trap, store, movable, memcpy, Result,
  recover, guarded, refuse, copyin, copyout,
}

-- A nonempty block passes copycheck if it starts below USERSPACETOP and does not go round the end of
-- the address space; stoplen is then what lies of it below USERSPACETOP. Any other block is refused.
pub copycheck_lem :
    (p len : ℕ)
    → p < 2 ^ 32
    → 0 < len
    → len < 2 ^ 32
    → ((copycheck p len).error
        ≡ (if ltb p userspacetop && leb (p + len) (2 ^ 32) then 0 else efault))
      × ((p < userspacetop)
            × (p + len ≤ 2 ^ 32)
            × ((copycheck p len).stoplen
                ≡ (if leb (p + len) userspacetop then len else userspacetop - p))
          ⊎ ((copycheck p len).error ≡ efault))
unfolding copycheck
copycheck_lem p len hp h0 hl = ground arith

-- The byte at `a` after `n` bytes at `src` are copied to `dest`.
abbrev pub copied : Machine → ℕ → ℕ → ℕ → ℕ → ℕ
copied m dest src n a =
    if leb dest a && ltb a (dest + n) then m.bytes (src + (a - dest)) else m.bytes a

-- `n` bytes are copied and nothing else of the memory or its protection changes.
pub record Copies (m : Machine) (dest src n : ℕ) (m' : Machine) : Type 0 where
  pub content : (a : ℕ) → m'.bytes a ≡ copied m dest src n a
  pub readable : m'.readable ≡ m.readable
  pub writable : m'.writable ≡ m.writable

-- The blocks are apart.
abbrev pub Apart : ℕ → ℕ → ℕ → Type 0
Apart dest src n = (src + n ≤ dest) ⊎ (dest + n ≤ src)

Copies-zero : (m : Machine) (dest src : ℕ) → Copies m dest src 0 m
Copies-zero m dest src = record { content = λ a. ground arith; readable = refl; writable = refl }

Copies-store :
    (m : Machine) (dest src n : ℕ) {m' : Machine}
    → Apart dest src (suc n)
    → Copies (store m dest (m.bytes src)) (dest + 1) (src + 1) n m'
    → Copies m dest src (suc n) m'
Copies-store m dest src n ap c = record {
  content = λ a. ground (arith, c.content a, ap);
  readable = c.readable;
  writable = c.writable;
}

-- memcpy copies a first part of the block, all of it unless it traps.
abbrev pub Ends : Machine → ℕ → ℕ → ℕ → Attempt → Type 0
Ends m dest src n (done m') = Copies m dest src n m'
Ends m dest src n (trap m') =
    (k : ℕ) × (k < n) × (movable m (dest + k) (src + k) ≡ false) × Copies m dest src k m'

-- A trap at the byte `k` of the rest is one at the byte `k + 1` of the block.
Ends-store :
    (m : Machine) (dest src n : ℕ) (a : Attempt)
    → Apart dest src (suc n)
    → Ends (store m dest (m.bytes src)) (dest + 1) (src + 1) n a
    → Ends m dest src (suc n) a
Ends-store m dest src n (done m') ap c = Copies-store m dest src n ap c
Ends-store m dest src n (trap m') ap (k, hk, hb, c) =
    (suc k, omega arith, ground (arith, hb), Copies-store m dest src k (ground (arith, ap)) c)

Ends-if :
    (m : Machine) (dest src n : ℕ) (a : Attempt) (b : Bool)
    → movable m dest src ≡ b
    → Ends m dest src (suc n) a
    → Ends m dest src (suc n) (if b then a else trap m)
Ends-if m dest src n a true h e = e
Ends-if m dest src n a false h e = (0, omega arith, ground (arith, h), Copies-zero m dest src)

pub memcpy_lem :
    (n : ℕ) (m : Machine) (dest src : ℕ)
    → Apart dest src n
    → Ends m dest src n (memcpy n m dest src)
unfolding memcpy
memcpy_lem zero m dest src ap = Copies-zero m dest src
memcpy_lem (suc n) m dest src ap =
    let m1 = store m dest (m.bytes src) in
    let e = memcpy_lem n m1 (dest + 1) (src + 1) (ground (arith, ap)) in
    let a = memcpy n m1 (dest + 1) (src + 1) in
    Ends-if m dest src n a (movable m dest src) refl (Ends-store m dest src n a ap e)

-- What copyin and copyout leave: the first `moved` bytes are copied, all `len` of them when 0 is
-- returned, and then none of the user's block lies above USERSPACETOP; EFAULT is the only error;
-- nothing else changes and tm_badfaultfunc is clear.
pub record Moves (m : Machine) (dest src user len : ℕ) (r : Result) : Type 0 where
  pub moved : ℕ
  pub copies : Copies m dest src moved r.machine
  pub clear : r.machine.badfaultfunc ≡ false
  pub ends :
      (r.error ≡ 0) × (moved ≡ len) × (user + len ≤ userspacetop)
      ⊎ (r.error ≡ efault) × (moved ≤ len)

Moves-recover :
    (m : Machine) (dest src user len : ℕ) (a : Attempt)
    → user + len ≤ userspacetop
    → Ends (guarded m) dest src len a
    → Moves m dest src user len (recover a)
unfolding recover
Moves-recover m dest src user len (done m') hu c = record {
  moved = len;
  copies = record { content = c.content; readable = c.readable; writable = c.writable };
  clear = refl;
  ends = inl (refl, refl, hu);
}
Moves-recover m dest src user len (trap m') hu (k, hk, hb, c) = record {
  moved = k;
  copies = record { content = c.content; readable = c.readable; writable = c.writable };
  clear = refl;
  ends = inr (refl, omega arith);
}

Moves-refuse :
    (m : Machine) (dest src user len : ℕ)
    → m.badfaultfunc ≡ false
    → Moves m dest src user len (refuse efault m)
Moves-refuse m dest src user len hb = record {
  moved = 0;
  copies = Copies-zero m dest src;
  clear = hb;
  ends = inr (refl, omega arith);
}

-- copyin and copyout, in the parts they have in common
move_block : Machine → ℕ → ℕ → ℕ → ℕ → Result
move_block m dest src user len =
    let c = copycheck user len in
    if c.error == 0
    then (if c.stoplen == len then recover (memcpy len (guarded m) dest src) else refuse efault m)
    else refuse c.error m

move_block-Moves :
    (m : Machine) (dest src user len : ℕ)
    → user < 2 ^ 32
    → len < 2 ^ 32
    → Apart dest src len
    → m.badfaultfunc ≡ false
    → Moves m dest src user len (move_block m dest src user len)
unfolding move_block copycheck
move_block-Moves m dest src user len hu hl ap hb = ground (
  arith,
  Moves-recover m dest src user len (memcpy len (guarded m) dest src),
  memcpy_lem len (guarded m) dest src ap,
  Moves-refuse m dest src user len hb,
)

-- For a user address, a length and a kernel block apart from the user's, with tm_badfaultfunc clear,
-- copyin returns 0 or EFAULT. It copies a first part of the block to dest, all of it when it returns
-- 0, and then no byte of the user's block is at USERSPACETOP or above; no other byte changes.
pub copyin-Moves :
    (m : Machine) (usersrc dest len : ℕ)
    → usersrc < 2 ^ 32
    → len < 2 ^ 32
    → Apart dest usersrc len
    → m.badfaultfunc ≡ false
    → Moves m dest usersrc usersrc len (copyin m usersrc dest len)
unfolding copyin move_block
copyin-Moves m usersrc dest len = move_block-Moves m dest usersrc usersrc len

-- For a user address, a length and a kernel block apart from the user's, with tm_badfaultfunc clear,
-- copyout returns 0 or EFAULT. It copies a first part of the block to the user's, all of it when it
-- returns 0, and then no byte written is at USERSPACETOP or above; no other byte changes.
pub copyout-Moves :
    (m : Machine) (src userdest len : ℕ)
    → userdest < 2 ^ 32
    → len < 2 ^ 32
    → Apart userdest src len
    → m.badfaultfunc ≡ false
    → Moves m userdest src userdest len (copyout m src userdest len)
unfolding copyout move_block
copyout-Moves m src userdest len = move_block-Moves m userdest src userdest len

no_trap :
    (m : Machine) (dest src user len : ℕ) (a : Attempt)
    → ((k : ℕ) → k < len → movable m (dest + k) (src + k) ≡ true)
    → Ends (guarded m) dest src len a
    → (recover a).error ≡ 0
unfolding recover
no_trap m dest src user len (done m') h e = refl
no_trap m dest src user len (trap m') h (k, hk, hb, c) = ground (arith, h k hk, hb)

move_block-error :
    (m : Machine) (dest src user len : ℕ)
    → 0 < len
    → user + len ≤ userspacetop
    → Apart dest src len
    → ((k : ℕ) → k < len → movable m (dest + k) (src + k) ≡ true)
    → (move_block m dest src user len).error ≡ 0
unfolding move_block copycheck
move_block-error m dest src user len h0 hu ap h =
    let e =
      no_trap m dest src user len (memcpy len (guarded m) dest src) h
        (memcpy_lem len (guarded m) dest src ap) in
    ground (arith, e)

-- copyin of a nonempty block that lies below USERSPACETOP, can be read at every byte and goes to a
-- kernel block apart from it that can be written returns 0.
pub copyin-succeeds :
    (m : Machine) (usersrc dest len : ℕ)
    → 0 < len
    → usersrc + len ≤ userspacetop
    → Apart dest usersrc len
    → ((k : ℕ) → k < len → movable m (dest + k) (usersrc + k) ≡ true)
    → (copyin m usersrc dest len).error ≡ 0
unfolding copyin move_block
copyin-succeeds m usersrc dest len = move_block-error m dest usersrc usersrc len

-- A copy of no bytes, from or to any user address, fails with EFAULT and changes nothing.
pub copyin-copyout-empty :
    (m : Machine) (user kernel : ℕ)
    → user < 2 ^ 32
    → (copyin m user kernel 0 ≡ refuse efault m) × (copyout m kernel user 0 ≡ refuse efault m)
unfolding copyin copyout copycheck
copyin-copyout-empty m user kernel h = ground arith
