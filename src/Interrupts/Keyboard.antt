-- ===== src/Interrupts/Keyboard.antt =====
-- kernel/src/interrupts.rs: `KEYBOARD_BUFFER`, `add_scancode` and `pop_scancode`.
-- The interrupt handler runs with interrupts off and `pop_scancode` turns them off, so a history of
-- the buffer is a sequence of whole calls.
pub mod Refine
pub mod Delivery
mod Tests
use cat.Common.{ℕ, zero, suc, ◌+◌, ◌%◌, Bool, not, Option, none, some, List, [], ◌∷◌, Run, done}
use cat.Common.{panic, ◌>>=◌, ◌==◌, if◌then◌else◌, get_elem?, set, replicate, length, ltb}

abbrev pub buffer_size : ℕ
buffer_size = 64

pub record KeyboardBuffer : Type 0 where
  pub buffer : List ℕ
  pub head : ℕ
  pub tail : ℕ

abbrev pub keyboard_buffer : KeyboardBuffer
keyboard_buffer = record { buffer = replicate buffer_size 0; head = 0; tail = 0 }

-- `buffer[i]` and `buffer[i] = v` check the bound and panic.
pub read_at : List ℕ → ℕ → Run ℕ
read_at buffer i = elim (get_elem? buffer i) [ none ↦ panic | some v ↦ done v ]

pub write_at : List ℕ → ℕ → ℕ → Run (List ℕ)
write_at buffer i v = if ltb i (length buffer) then done (set buffer i v) else panic

pub add_scancode : KeyboardBuffer → ℕ → Run KeyboardBuffer
unfolding write_at
add_scancode lock scancode =
    let head = lock.head in
    let next_head = (head + 1) % buffer_size in
    if not (next_head == lock.tail)
    then (write_at lock.buffer head scancode >>= λ buffer.
        done (record lock { buffer = buffer; head = next_head }))
    else done lock

pub pop_scancode : KeyboardBuffer → Run (Option ℕ × KeyboardBuffer)
unfolding read_at
pop_scancode lock =
    if lock.head == lock.tail
    then done (none, lock)
    else (read_at lock.buffer lock.tail >>= λ scancode.
        done (some scancode, record lock { tail = (lock.tail + 1) % buffer_size }))

-- A keyboard interrupt with its scancode, or a call of `pop_scancode`.
pub data Event : Type 0 where
  key : ℕ → Event
  pop : Event

-- What the calls of `pop_scancode` return over a history.
pub run : List Event → KeyboardBuffer → Run (List (Option ℕ))
unfolding add_scancode pop_scancode
run [] lock = done []
run (key s ∷ events) lock = add_scancode lock s >>= run events
run (pop ∷ events) lock =
    pop_scancode lock >>= λ (r, lock'). (run events lock' >>= λ rs. done (r ∷ rs))
