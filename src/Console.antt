-- ===== src/Console.antt =====
-- dev/generic/console.c: the ring of input characters, and lib/kgets.c: the line that is read from
-- it. The keys that kgets gets are a list; what it prints is left out. A character is an unsigned
-- char.
pub mod Input
pub mod Line
mod Tests
use cs.Base.{
  ℕ, zero, suc, ◌+◌, ◌-◌, ◌%◌, Bool, true, false, not, ◌&&◌, ◌||◌, List, [], ◌∷◌, Option, none,
  some, Run, ret, panic, fault, ◌>>=◌, ltb, leb, ◌==◌, if◌then◌else◌, put,
}
use cs.Base.Words.{sub_u32}

-- CONSOLE_INPUT_BUFFER_SIZE
abbrev pub buffer_size : ℕ
buffer_size = 32

-- cs_gotchars with its head and tail, and the count of cs_rsem
pub record Con : Type 0 where
  pub gotchars : ℕ → ℕ
  pub head : ℕ
  pub tail : ℕ
  pub rsem : ℕ

-- con_input
pub con_input : ℕ → Con → Con
con_input ch c =
    let nexthead = (c.head + 1) % buffer_size in
    if nexthead == c.tail then c else record {
      gotchars = put c.gotchars c.head (ch % 256);
      head = nexthead;
      tail = c.tail;
      rsem = c.rsem + 1;
    }

-- getch_intr, or none where P waits
pub getch_intr : Con → Option (ℕ × Con)
getch_intr c =
    if c.rsem == 0
    then none
    else some (c.gotchars c.tail, record c { tail = (c.tail + 1) % buffer_size; rsem = c.rsem - 1 })

-- buf[pos] = ch, in a buffer of `maxlen`
pub store : ℕ → ℕ → ℕ → (ℕ → ℕ) → Run (ℕ → ℕ)
store maxlen pos ch buf = if ltb pos maxlen then ret (put buf pos ch) else fault

-- A loop of ^W: back over the characters that pass a test
pub back_over : (ℕ → Bool) → (ℕ → ℕ) → ℕ → ℕ
back_over test buf zero = zero
back_over test buf (suc pos) =
    let rest = back_over test buf pos in if test (buf pos) then rest else suc pos

abbrev pub is_space : ℕ → Bool
is_space c = c == 32

abbrev pub is_word : ℕ → Bool
is_word c = not (c == 32)

-- What a turn of kgets that does not end it makes of pos and buf
pub edit : ℕ → ℕ → ℕ → (ℕ → ℕ) → Run (ℕ × (ℕ → ℕ))
edit maxlen ch pos buf =
    if (leb 32 ch && ltb ch 127) && ltb pos (sub_u32 maxlen 1)
    then (store maxlen pos ch buf >>= λ b. ret (pos + 1, b))
    else if ((ch == 8) || (ch == 127)) && ltb 0 pos
    then ret (pos - 1, buf)
    else if ch == 18
    then (store maxlen pos 0 buf >>= λ b. ret (pos, b))
    else if ch == 21
    then ret (0, buf)
    else if ch == 23
    then ret (back_over is_word buf (back_over is_space buf pos), buf)
    else ret (pos, buf)

-- The end of kgets: pos is where the null is.
pub finish : ℕ → ℕ → (ℕ → ℕ) → Run (Option (ℕ × (ℕ → ℕ)))
finish maxlen pos buf = store maxlen pos 0 buf >>= λ b. ret (some (pos, b))

-- kgets from `pos` on, which waits when there are no more keys. ^C is none of the keys that edit.
pub kgets : ℕ → List ℕ → ℕ → (ℕ → ℕ) → Run (Option (ℕ × (ℕ → ℕ)))
kgets maxlen [] pos buf = ret none
kgets maxlen (ch ∷ chs) pos buf =
    let rest : Run (Option (ℕ × (ℕ → ℕ))) =
      edit maxlen ch pos buf >>= λ q. kgets maxlen chs q.0 q.1 in
    if (ch == 10) || (ch == 13)
    then finish maxlen pos buf
    else if ch == 3
    then finish maxlen 0 buf
    else rest
