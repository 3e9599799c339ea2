-- ===== src/Syscalls/Write.antt =====
-- kernel/src/syscalls.rs: `sys_write` and `sys_writev`.
use cat.Common.{ℕ, zero, suc, ◌+◌, ◌*◌, not, ◌&&◌, none, some, List, [], ◌∷◌, ◌++◌, map}
use cat.Common.{◌==◌, if◌then◌else◌, u64}
use cat.Syscalls.State.{Kernel, Memory, Output, screen_char, serial_text, emit, errno, is_negative}
use cat.Syscalls.State.{load_u64, slice}
use cat.Syscalls.Utf8.{from_utf8}

abbrev pub stdout : ℕ
stdout = 1

abbrev pub stderr : ℕ
stderr = 2

-- What is printed for a buffer: its characters and then the text on the serial port, or its bytes.
unfoldable pub printed : List ℕ → List Output
printed bytes = elim (from_utf8 bytes) [
  | some chars ↦ map screen_char chars ++ (serial_text chars ∷ [])
  | none ↦ map screen_char bytes
]

unfoldable pub sys_write : Kernel → ℕ → ℕ → ℕ → ℕ × Kernel
sys_write k fd buf count =
    if not (fd == stdout) && not (fd == stderr)
    then (errno 9, k)
    else (count, emit k (printed (slice k.memory buf count)))

-- Entry `i` of the vector: where its text is, and how long it is.
abbrev pub entry_base : Memory → ℕ → ℕ → ℕ
entry_base mem iov i = load_u64 mem (u64 (iov + u64 (i * 16)))

abbrev pub entry_len : Memory → ℕ → ℕ → ℕ
entry_len mem iov i = load_u64 mem (u64 (iov + u64 (i * 16)) + 8)

unfoldable pub write_entry : Kernel → ℕ → ℕ → ℕ → ℕ × Kernel
unfolding sys_write
write_entry k fd iov i = sys_write k fd (entry_base k.memory iov i) (entry_len k.memory iov i)

-- The loop of `sys_writev` at index `i`, with `rounds` left.
unfoldable pub writev_loop : ℕ → ℕ → ℕ → ℕ → ℕ → Kernel → ℕ × Kernel
writev_loop fd iov zero i total k = (total, k)
writev_loop fd iov (suc rounds) i total k =
    let (result, k') = write_entry k fd iov i in
    let rest = writev_loop fd iov rounds (i + 1) (u64 (total + result)) k' in
    if is_negative result then (result, k') else rest

unfoldable pub sys_writev : Kernel → ℕ → ℕ → ℕ → ℕ × Kernel
unfolding writev_loop
sys_writev k fd iov iovcnt = writev_loop fd iov iovcnt 0 0 k
