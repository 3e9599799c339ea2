-- ===== src/Syscalls/Tests.antt =====
-- kernel/src/syscalls.rs: the handlers at concrete states, and the theorems at them.
use cat.Common.{ℕ, ◌-◌, ◌^◌, ◌≡◌, ◌≢◌, refl, arith, List, [], ◌∷◌, Option}
use cat.Common.{none, some, ltb, ◌==◌, if◌then◌else◌}
use cat.Syscalls.State.{Kernel, ret, errno, emit, entered, returned}
use cat.Syscalls.State.{unhandled, screen_char, serial_text}
use cat.Syscalls.Utf8.{from_utf8}
use cat.Syscalls.Write.{sys_writev}
use cat.Syscalls.Handlers.{sys_mmap, sys_brk, aligned_len}
use cat.Syscalls.Dispatch.{handle_syscall}
use cat.Syscalls.Mmap.{
  IsPool, Mapped, sys_mmap-Mapped, map_all, Apart, map_all-Apart, sys_mmap-wraps, sys_brk_lem,
}
use cat.Syscalls.Ending.{ending, returns, handle_syscall-stops, handle_syscall-unhandled}
use cat.Syscalls.Writev.{sys_writev_lem, written, sys_writev-bad_descriptor}

-- "Hi", then a vector of two entries at 64 that both name it.
abbrev sample_memory : ℕ → ℕ
sample_memory a =
    if a == 16
    then 72
    else if a == 17
    then 105
    else if a == 64
    then 16
    else if a == 72
    then 2
    else if a == 80
    then 16
    else if a == 88
    then 2
    else 0

abbrev boot : Kernel
boot = record {
  memory = sample_memory;
  output = [];
  current_brk = 0x8000000;
  mmap_next = 0x480000;
  seed = 0x12345678DEADBEEF;
  fs_base = 0;
  gs_base = 0;
}

abbrev any_address : ℕ → Option ℕ
any_address a = if ltb a (2 ^ 47) then some a else none

two_byte_text : from_utf8 (0xc3 ∷ 0xa9 ∷ 0x21 ∷ []) ≡ some (0xe9 ∷ 0x21 ∷ [])
unfolding from_utf8
two_byte_text = refl

overlong_text : from_utf8 (0xc0 ∷ 0x80 ∷ []) ≡ none
unfolding from_utf8
overlong_text = refl

surrogate_text : from_utf8 (0xed ∷ 0xa0 ∷ 0x80 ∷ []) ≡ none
unfolding from_utf8
surrogate_text = refl

boot-IsPool : IsPool boot
boot-IsPool = omega arith

sys_mmap-Mapped_example : Mapped boot 5000 (sys_mmap boot 0 5000 3 0x22)
sys_mmap-Mapped_example = sys_mmap-Mapped boot 0 5000 3 0x22 boot-IsPool (omega arith) (omega arith)

abbrev requests : List ℕ
requests = 5000 ∷ 600000 ∷ 4096 ∷ []

mapped_requests :
    map_all requests boot ≡ (5000, 0x480000) ∷ (600000, errno 12) ∷ (4096, 0x482000) ∷ []
unfolding map_all sys_mmap aligned_len
mapped_requests = refl

map_all-Apart_example : Apart 0x480000 (map_all requests boot)
map_all-Apart_example = map_all-Apart requests boot boot-IsPool (omega arith)

sys_mmap-wraps_example :
    sys_mmap boot 0 (2 ^ 64 - 4096) 3 0x22 ≡ (0x480000, record boot { mmap_next = 0x47f000 })
sys_mmap-wraps_example =
    sys_mmap-wraps boot (2 ^ 64 - 4096) 3 0x22 boot-IsPool (omega arith) (omega arith)

sys_brk_lem_example :
    sys_brk boot 0x200000000 ≡ (0x200000000, record boot { current_brk = 0x200000000 })
sys_brk_lem_example = sys_brk_lem boot 0x200000000

-- An address that is not canonical.
abbrev no_address : ℕ → Option ℕ
no_address a = none

handle_syscall-stops_example :
    ending (handle_syscall no_address boot 158 0x1002 (2 ^ 50) 0 0 0 0) ≢ returns
handle_syscall-stops_example = handle_syscall-stops no_address boot 158 0x1002 (2 ^ 50) 0 0 0 0 refl

handle_syscall-unhandled_example :
    handle_syscall any_address boot 3 1 0 0 0 0 0
    ≡ ret (errno 38) (
        emit
          (emit (emit boot (entered 3 1 0 0 ∷ [])) (unhandled 3 ∷ []))
          (returned (errno 38) ∷ []))
handle_syscall-unhandled_example = handle_syscall-unhandled any_address boot 3 1 0 0 0 0 0 refl

sys_writev_lem_example : sys_writev boot 1 64 2 ≡ written boot 1 64 2
sys_writev_lem_example = sys_writev_lem boot 1 64 2 (omega arith) (omega arith)

other_descriptor : sys_writev boot 0 64 2 ≡ (errno 9, boot)
other_descriptor = sys_writev-bad_descriptor boot 0 64 2 (λ h. ground arith)

same_text_twice : written boot 1 64 2 ≡ (
  4,
  emit boot (
      screen_char 72
      ∷ screen_char 105
      ∷ serial_text (72 ∷ 105 ∷ [])
      ∷ screen_char 72
      ∷ screen_char 105
      ∷ serial_text (72 ∷ 105 ∷ [])
      ∷ []),
)
unfolding from_utf8
same_text_twice = refl
