-- ===== src/Interrupts.antt =====
-- kernel/src/interrupts.rs: the scancode buffer between the keyboard interrupt and its reader, the
-- tick counter, the divisor of the timer and the handlers.
pub mod Keyboard
pub mod Timer
pub mod Handlers
pub mod Exceptions
mod Vectors
