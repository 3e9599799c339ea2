-- ===== src/Lib.antt =====
-- The kernel of this repository and its bootloader: memory, interrupts, system calls, the screen and
-- the console, and the loader of user programs, with the theorems that make them correct.
--
-- The bootloader (uefi_boot/src/main.rs) loads the kernel, maps it and passes a memory map to
-- `_start` (kernel/src/main.rs), which starts the screen, the segments, the interrupts, the physical
-- memory manager, the heap and the system calls, then loads a user program and enters it. From there
-- on the kernel runs in two ways only: an interrupt (the timer counts a tick, the keyboard stores a
-- scancode, which a reader takes out), or a system call, which the assembly of `syscall_entry`
-- brings to the dispatch of `handle_syscall`.
--
-- Which file models what:
--   Common     the helpers of all parts: Boolean tests, lists by native indices, the bits of machine
--              words with `trailing_zeros`, masks, memory as a function with stores and loads of
--              words (Bytes), and `Run`, the outcome of a piece of code: done with a value, a Rust
--              panic, or a fault (an access that no allocation backs).
--   Pmm        kernel/src/pmm.rs, `BitmapPmm`: the bitmap is a list of words, and each access has
--              the bounds of the allocated bitmap. Bits: the effect on one frame. Spec: what the
--              bitmap says as a predicate on frames, and a usable memory map. Alloc, Sequence:
--              one call and runs of calls of `allocate_frame_internal`. Regions:
--              `mark_region_free` and `mark_region_used`. Init: `init_internal`. Allocator:
--              `KernelFrameAllocator`, against what Elf/Supply relies on of a frame allocator.
--   Interrupts kernel/src/interrupts.rs: the numbers and the timer (Timer), the scancode ring with
--              `add_scancode` and `pop_scancode` (Keyboard; Refine: the ring against a queue;
--              Delivery: what readers get), the handlers of the two devices with their
--              acknowledgements, over histories of interrupts (Handlers), the handlers of
--              exceptions, which report on the serial port (Exceptions), and the table of handlers
--              with the set-up of the interrupt controllers (Vectors).
--   Syscalls   kernel/src/syscalls.rs: the dispatch is in Syscalls, the kernel state (the break, the
--              pool's free start, segment bases, the seed, memory, the output) in State, and the
--              handlers in Write (write, writev, with the printed text decoded by Utf8), Handlers
--              and Dispatch. Mmap, Random, Frame, Ending and Writev hold theorems.
--   Entry      kernel/src/syscalls.rs, `syscall_entry`: its instructions as a list, run by a step
--              function on the registers and the kernel stack; the Rust handler is a parameter.
--   Segments   kernel/src/gdt.rs: the selectors and what `init` loads, and `init` of
--              kernel/src/syscalls.rs, which names the selectors in machine registers. Laws: the
--              places that name selectors. Flags: the flags of a system call as well.
--   Screen     kernel/src/screen.rs and shared/src/framebuffer.rs, `FrameBufferWriter`: the pixels
--              are a function of their index, each access has the bounds of the buffer. Bounds:
--              what the drawing loops touch. Cursor: the operations that move the cursor. Clear:
--              `clear`, and the colours of `init` and `reset_style`. Picture, Glyph, Scroll: what
--              the loops, a character and scrolling do to each pixel. Terminal: the abstract
--              screen, a grid of characters with a cursor, when a writer shows it (Shown), and the
--              operations of the writer against its own (Refine). Restyle: a style set before the
--              text. Sample: a small screen for the tests.
--   Console    shared/src/serial.rs, shared/src/panic.rs and kernel/src/writer.rs: `_print` of both,
--              `print_panic` and `panic_handler_impl`, over the locks of the port and the screen's
--              writer. Documented: what is relied on of the locks and of `without_interrupts`.
--              Style: the functions of kernel/src/screen.rs that take the lock, and what `_start`
--              shows first (Welcome).
--   Elf        kernel/src/elf_loader.rs. Elf: `load_segment` and the regions that `load_user_elf`
--              maps. Supply: what is relied on of the page tables and the frame allocator. Pages,
--              Copy, Segment: the mapping loop, the copy loop, one segment. Stack:
--              `setup_user_stack`. Load: `load_user_elf`, and with it the end of `_start`. Enter:
--              the instructions of `enter_userspace`. Relocate: `process_relocations` and
--              `relocate_dynamic_segment`, which nothing calls at this commit. Flat: concrete page
--              tables that meet what is relied on.
--   Heap       kernel/src/heap_allocator.rs: `init_heap`, and the wrappers of the allocator.
--   Boot       uefi_boot/src/main.rs: the mapping loops of `main`. Bump: `BumpAllocator`. Bound: the
--              bound of physical memory. Kernel: the segments of the kernel. Graphics: the frame
--              buffer. Main: `main` as a whole with the fields of `BootInfo` (shared/src/lib.rs),
--              over a record of what the firmware returns; Jump: the instructions that enter the
--              kernel; Manager: from the firmware's memory map to the kernel's memory manager.
--   Start      kernel/src/main.rs: what `_start` does to the memory, the heap and then the program.
--   Helpers    shared/src/helpers.rs: `align_up` and `is_canonical`.
--
-- Conventions. A machine integer is a natural number, reduced by `u8` or `u64` where the code can
-- wrap: the release build, which run-uefi.sh makes, does not check overflow. `!x` is `not64 x`.
-- Stateful code takes the state and returns the next one, in `Run` where it can panic or fault. The
-- physical memory manager and the keyboard buffer are behind a lock that is taken with interrupts
-- off, the screen's writer is behind a lock, and the handlers of system calls run with interrupts
-- masked, so that each call is one transition and a history is a list of calls. In Console the locks
-- themselves are states, and a call may wait for ever.
--
-- Parameters. The x86_64 crate's page tables, its frame allocator interface, `VirtAddr::new`, its
-- descriptor table and `without_interrupts`; the interrupt controllers of the pic8259 crate; the
-- allocator of the linked_list_allocator crate; the locks of the spin crate and the port of the
-- uart_16550 crate; the glyphs of the font8x8 crate; the fields that the xmas_elf crate reads of a
-- file; what the calls of the firmware return to the bootloader. What is relied on of them is in
-- hypotheses by name, and the tests give functions that meet these.
--
-- Memory. The bitmap of `BitmapPmm` is memory of its own: `init_internal` places it in a region of
-- the map, whose other contents the model does not hold. In Syscalls memory is a function from
-- addresses to bytes; a pointer of the user is followed as the code does, with no check, and page
-- faults are not modelled there, nor the locks of the prints: the output is a log. In Elf and Heap the kernel writes to frames through the direct map;
-- the page tables keep their own frames, which are apart from that memory. In Screen the frame
-- buffer is written by the writer alone.
--
-- Loops recurse on the number of rounds left, as the ranges of the code give it. The decoder of
-- Utf8 and the copy loop of Elf have fuel: the number of bytes, each round taking one at least.
--
-- Not modelled: `init_mapper` (kernel/src/pml4.rs), which reads a machine register and hands the
-- page table to the x86_64 crate; the order of the initialisations in `_start` behind the first
-- lines on the screen, which have no result for one another here; the log lines of
-- uefi_boot/src/main.rs; the text that core::fmt makes of numbers and of the processor's state.
pub mod Common
pub mod Pmm
pub mod Interrupts
pub mod Start
pub mod Syscalls
pub mod Entry
pub mod Helpers
pub mod Screen
pub mod Segments
pub mod Console
pub mod Elf
pub mod Boot
pub mod Heap
