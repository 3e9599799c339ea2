-- ===== src/Syscalls/Frame.antt =====
-- kernel/src/syscalls.rs: what a system call leaves alone, and how it can end.
use cat.Common.{ℕ}
use cat.Common.{◌||◌, leb}
use cat.Common.{◌==◌, if◌then◌else◌}
use cat.Syscalls.State.{Memory, Reply, ret, halted, kernel_panic}
use cat.Syscalls.Dispatch.{Number}
use cat.Syscalls.Dispatch.{fstat, rt_sigaction, rt_sigprocmask, arch_prctl, sigaltstack, getrandom}

-- Memory when the call has ended.
abbrev pub memory_after : Memory → Reply → Memory
memory_after mem (ret r k) = k.memory
memory_after mem (halted k) = k.memory
memory_after mem kernel_panic = mem

-- The buffer that a call may write, as its address and its length.
abbrev pub footprint : Number → ℕ → ℕ → ℕ → ℕ × ℕ
footprint arch_prctl a1 a2 a3 = (a2, if a1 == 0x1003 || a1 == 0x1004 then 8 else 0)
footprint rt_sigaction a1 a2 a3 = (a3, if a3 == 0 then 0 else 32)
footprint rt_sigprocmask a1 a2 a3 = (a3, if a3 == 0 then 0 else 8)
footprint sigaltstack a1 a2 a3 = (a2, if a2 == 0 then 0 else 24)
footprint getrandom a1 a2 a3 = (a1, a2)
footprint fstat a1 a2 a3 = (a2, if leb a1 2 then 144 else 0)
footprint _ a1 a2 a3 = (0, 0)
