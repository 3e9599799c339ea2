-- ===== src/Elf/Stack/Tests.antt =====
-- kernel/src/elf_loader.rs: the stack of a program with two program headers.
use cat.Common.{arith, Ends, true}
use cat.Elf.Flat.{flat, flat-IsSupplied, start, start-IsApart}
use cat.Elf.Stack.{ElfHeader, setup_user_stack}
use cat.Elf.Stack.Start.{Starts, setup_user_stack-Starts}

abbrev elf : ElfHeader
elf = record { ph_offset = 64; ph_count = 2; ph_entry_size = 56; entry_point = 4096; is_pie = true }

setup_user_stack-Starts_example :
    Ends (setup_user_stack flat 1000000 elf start) (Starts flat 1000000 flat-IsSupplied elf start)
setup_user_stack-Starts_example =
    setup_user_stack-Starts flat 1000000 flat-IsSupplied elf start start-IsApart (omega arith)
      (λ q low high. ground arith)
