-- ===== src/Syscalls.antt =====
-- kernel/src/syscalls.rs: the handlers of the system calls and their dispatch.
-- `State` holds the memory and output, `Handlers` a function for each handler, `Dispatch`
-- `handle_syscall`; the others prove what these do.
pub mod State
pub mod Utf8
pub mod Write
pub mod Handlers
pub mod Dispatch
pub mod Mmap
pub mod Random
pub mod Frame
pub mod Writev
pub mod Ending
mod Tests
