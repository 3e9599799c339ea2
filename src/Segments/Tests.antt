-- ===== src/Segments/Tests.antt =====
-- kernel/src/gdt.rs and kernel/src/syscalls.rs: a table that counts its entries.
use cat.Common.{ℕ, ◌+◌, ◌*◌, ◌^◌, ◌≡◌, refl, Bool, Ends}
use cat.Common.{ltb, ◌||◌, leb, ◌-◌}
use cat.Segments.{
  Tables, SyscallRegs, global_table, get_user_code_selector, get_user_data_selector, init_gdt,
  init_syscalls, task_state,
}
use cat.Segments.Laws.{ring, width, IsDocumented, Agrees}
use cat.Segments.Flags.{Masks, init_syscalls_lem}

abbrev counted : Tables
counted = record {
  Table = ℕ;
  new = 1;
  append = λ d t. (t * 8 + ring d, t + width d);
  selector = λ i r. i * 8 + r;
}

abbrev counted-IsDocumented : IsDocumented counted
counted-IsDocumented = record {
  entries = λ t. t;
  start = refl;
  appends = λ d t h. refl;
  grows = λ d t h. refl;
  encodes = λ i r h k. refl;
}

segments_loaded : init_gdt counted ≡ record { gdt = 7; cs = 8; ss = 16; ds = 16; es = 16; tr = 40 }
unfolding init_gdt global_table
segments_loaded = refl

stacks_placed :
    task_state 65536 131072 ≡ record { privilege_stack = 86016; interrupt_stack = 151552 }
unfolding task_state
stacks_placed = refl

abbrev canonical : ℕ → Bool
canonical addr = ltb addr (2 ^ 47) || leb (2 ^ 64 - 2 ^ 47) addr

abbrev regs : SyscallRegs
regs = record {
  efer = 0x500;
  sysret_base = 0;
  syscall_base = 0;
  lstar = 0;
  sfmask = 0;
  hhdm_offset = 0;
  kernel_stack_top = 0;
}

abbrev entry : ℕ
entry = 2 ^ 64 - 2 ^ 31

init_syscalls_lem_example : Ends (init_syscalls canonical 4096 65536 entry regs) (λ r.
    Agrees r
      (global_table counted).1
      (get_user_code_selector counted)
      (get_user_data_selector counted)
    × Masks regs r)
init_syscalls_lem_example =
    init_syscalls_lem counted counted-IsDocumented canonical 4096 65536 entry regs refl
