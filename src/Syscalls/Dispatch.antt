-- ===== src/Syscalls/Dispatch.antt =====
-- kernel/src/syscalls.rs: `handle_syscall`.
use cat.Common.{ℕ, Option, [], ◌∷◌, ◌==◌, if◌then◌else◌}
use cat.Syscalls.State.{
  Kernel, Reply, ret, halted, kernel_panic, emit, entered, returned, unhandled,
}
use cat.Syscalls.State.{errno}
use cat.Syscalls.Write.{sys_write, sys_writev}
use cat.Syscalls.Handlers.{
  sys_read, sys_exit, sys_exit_group, sys_brk, sys_mmap, sys_mprotect, sys_munmap, sys_arch_prctl,
  sys_set_tid_address, sys_poll, sys_rt_sigaction, sys_rt_sigprocmask, sys_sigaltstack,
  sys_getrandom, sys_fstat, sys_ioctl,
}

-- The numbers that the `match` has an arm for, by the names of their constants.
pub data Number : Type 0 where
  read write fstat poll mmap mprotect munmap brk rt_sigaction rt_sigprocmask ioctl writev : Number
  madvise exit exit_group arch_prctl set_tid_address sigaltstack getrandom : Number
  other : Number

unfoldable pub number_of : ℕ → Number
number_of nr =
    if nr == 1
    then write
    else if nr == 0
    then read
    else if nr == 60
    then exit
    else if nr == 231
    then exit_group
    else if nr == 12
    then brk
    else if nr == 9
    then mmap
    else if nr == 10
    then mprotect
    else if nr == 11
    then munmap
    else if nr == 158
    then arch_prctl
    else if nr == 218
    then set_tid_address
    else if nr == 7
    then poll
    else if nr == 13
    then rt_sigaction
    else if nr == 14
    then rt_sigprocmask
    else if nr == 131
    then sigaltstack
    else if nr == 318
    then getrandom
    else if nr == 5
    then fstat
    else if nr == 16
    then ioctl
    else if nr == 20
    then writev
    else if nr == 28
    then madvise
    else other

abbrev pub reply : ℕ × Kernel → Reply
reply (r, k) = ret r k

-- The arms of the `match`.
unfoldable pub call : (ℕ → Option ℕ) → Number → Kernel → ℕ → ℕ → ℕ → ℕ → ℕ → Reply
unfolding sys_exit_group
call va write k nr a1 a2 a3 a4 = reply (sys_write k a1 a2 a3)
call va read k nr a1 a2 a3 a4 = ret (sys_read a1 a2 a3) k
call va exit k nr a1 a2 a3 a4 = sys_exit k a1
call va exit_group k nr a1 a2 a3 a4 = sys_exit_group k a1
call va brk k nr a1 a2 a3 a4 = reply (sys_brk k a1)
call va mmap k nr a1 a2 a3 a4 = reply (sys_mmap k a1 a2 a3 a4)
call va mprotect k nr a1 a2 a3 a4 = ret (sys_mprotect a1 a2 a3) k
call va munmap k nr a1 a2 a3 a4 = ret (sys_munmap a1 a2) k
call va arch_prctl k nr a1 a2 a3 a4 = sys_arch_prctl va k a1 a2
call va set_tid_address k nr a1 a2 a3 a4 = ret (sys_set_tid_address a1) k
call va poll k nr a1 a2 a3 a4 = ret (sys_poll a1 a2 a3) k
call va rt_sigaction k nr a1 a2 a3 a4 = reply (sys_rt_sigaction k a1 a2 a3)
call va rt_sigprocmask k nr a1 a2 a3 a4 = reply (sys_rt_sigprocmask k a1 a2 a3 a4)
call va sigaltstack k nr a1 a2 a3 a4 = reply (sys_sigaltstack k a1 a2)
call va getrandom k nr a1 a2 a3 a4 = reply (sys_getrandom k a1 a2 a3)
call va fstat k nr a1 a2 a3 a4 = reply (sys_fstat k a1 a2)
call va ioctl k nr a1 a2 a3 a4 = ret (sys_ioctl a1 a2 a3) k
call va writev k nr a1 a2 a3 a4 = reply (sys_writev k a1 a2 a3)
call va madvise k nr a1 a2 a3 a4 = ret 0 k
call va other k nr a1 a2 a3 a4 = ret (errno 38) (emit k (unhandled nr ∷ []))

-- The line that is logged when a call returns.
abbrev pub log_result : Reply → Reply
log_result (ret r k) = ret r (emit k (returned r ∷ []))
log_result (halted k) = halted k
log_result kernel_panic = kernel_panic

unfoldable pub handle_syscall : (ℕ → Option ℕ) → Kernel → ℕ → ℕ → ℕ → ℕ → ℕ → ℕ → ℕ → Reply
unfolding number_of call
handle_syscall va k nr arg1 arg2 arg3 arg4 arg5 arg6 =
    log_result
      (call va (number_of nr) (emit k (entered nr arg1 arg2 arg3 ∷ [])) nr arg1 arg2 arg3 arg4)
