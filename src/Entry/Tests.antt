-- ===== src/Entry/Tests.antt =====
-- kernel/src/syscalls.rs: `syscall_entry` at concrete registers.
use cat.Common.{ℕ, ◌+◌, refl, List}
use cat.Entry.{Registers, index, run, syscall_entry, init_syscall_stack}
use cat.Entry.Laws.{
  entered, Returns, syscall_entry-Returns, syscall_entry-CallsMisaligned, CallsMisaligned,
  call_arguments,
}

-- Every register holds a value of its own, and the handler leaves another in each.
abbrev user_registers : Registers
user_registers r = 100 + index r

abbrev sample_handler : List ℕ → Registers
sample_handler arguments r = 7

syscall_entry-Returns_example :
    Returns 65528 sample_handler user_registers
      (run 65528 sample_handler syscall_entry (entered user_registers))
syscall_entry-Returns_example = syscall_entry-Returns 65528 sample_handler user_registers

syscall_entry-CallsMisaligned_example :
    CallsMisaligned
      (call_arguments user_registers)
      (run (init_syscall_stack 65536) sample_handler syscall_entry (entered user_registers))
syscall_entry-CallsMisaligned_example =
    syscall_entry-CallsMisaligned 65536 sample_handler user_registers refl
