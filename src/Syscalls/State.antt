-- ===== src/Syscalls/State.antt =====
-- kernel/src/syscalls.rs: what the handlers share: memory, the static variables, the output.
-- An `i64` result is its 64-bit pattern. Memory is a byte at each address; the handlers trust the
-- pointers that they are given, so every address can be read and written.
use cat.Common.{ℕ, ◌-◌, ◌^◌, Bool}
use cat.Common.{List, ◌++◌, leb}
pub use cat.Common.{Memory, within, fill, store, slice}
unfoldable pub use cat.Common.{load_bytes, load_u64}

-- What reaches the screen and the serial port, in order.
pub data Output : Type 0 where
  entered : ℕ → ℕ → ℕ → ℕ → Output
  returned : ℕ → Output
  screen_char : ℕ → Output
  serial_text : List ℕ → Output
  unhandled : ℕ → Output
  exited : ℕ → Output

pub record Kernel : Type 0 where
  pub memory : Memory
  pub output : List Output
  pub current_brk : ℕ
  pub mmap_next : ℕ
  pub seed : ℕ
  pub fs_base : ℕ
  pub gs_base : ℕ

abbrev pub emit : Kernel → List Output → Kernel
emit k out = record k { output = k.output ++ out }

-- A call returns to user space, or halts for good, or panics.
pub data Reply : Type 0 where
  ret : ℕ → Kernel → Reply
  halted : Kernel → Reply
  kernel_panic : Reply

-- `-n` as an `i64`, and the test `r < 0`.
abbrev pub errno : ℕ → ℕ
errno n = 2 ^ 64 - n

abbrev pub is_negative : ℕ → Bool
is_negative r = leb (2 ^ 63) r
