-- ===== src/Interrupts/Timer.antt =====
-- kernel/src/interrupts.rs: the tick counter, the bytes that `init_timer` writes to the timer, and
-- the numbers of the interrupts.
use cat.Common.{ℕ, ◌+◌, ◌/◌, ◌^◌, List, [], ◌∷◌, u8, u64, bit_and}

abbrev pub pic_1_offset : ℕ
pic_1_offset = 32

abbrev pub pic_2_offset : ℕ
pic_2_offset = pic_1_offset + 8

pub data InterruptIndex : Type 0 where
  timer keyboard : InterruptIndex

unfoldable pub as_u8 : InterruptIndex → ℕ
as_u8 timer = pic_1_offset
as_u8 keyboard = pic_1_offset + 1

-- `TICKS.fetch_add(1)` wraps.
unfoldable pub tick : ℕ → ℕ
tick ticks = u64 (ticks + 1)

abbrev frequency_hz : ℕ
frequency_hz = 1000

abbrev pit_frequency : ℕ
pit_frequency = 1193182

-- The writes to the ports 0x43 and 0x40, in order.
pub init_timer : List (ℕ × ℕ)
init_timer =
    let divisor = pit_frequency / frequency_hz in
    (0x43, 0x36) ∷ (0x40, u8 (bit_and divisor 0xff)) ∷ (0x40, u8 (divisor / 2 ^ 8)) ∷ []
