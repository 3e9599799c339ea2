-- ===== src/Syscalls/Handlers.antt =====
-- kernel/src/syscalls.rs: the handlers but for `sys_write` and `sys_writev`.
-- `virt_addr_new` is `VirtAddr::new` of the x86_64 crate: the address, or nothing where it panics.
use cat.Common.{ℕ, zero, suc, ◌+◌, ◌*◌, ◌/◌, ◌^◌, not, ◌&&◌, Option, none, some}
use cat.Common.{bit_and, not64, u8, u64, ltb, leb, ◌==◌, if◌then◌else◌, [], ◌∷◌}
use cat.Syscalls.State.{Kernel, Reply, ret, halted, kernel_panic, emit, exited, errno, fill}
use cat.Syscalls.State.{store}

abbrev pub mmap_start : ℕ
mmap_start = 0x480000

abbrev pub mmap_end : ℕ
mmap_end = 0x500000

unfoldable pub sys_read : ℕ → ℕ → ℕ → ℕ
sys_read fd buf count = 0

unfoldable pub sys_exit : Kernel → ℕ → Reply
sys_exit k status = halted (emit k (exited status ∷ []))

unfoldable pub sys_exit_group : Kernel → ℕ → Reply
unfolding sys_exit
sys_exit_group k status = sys_exit k status

unfoldable pub sys_brk : Kernel → ℕ → ℕ × Kernel
sys_brk k addr =
    if addr == 0
    then (k.current_brk, k)
    else if leb 0x8000000 addr && ltb addr 0x100000000
    then (addr, record k { current_brk = addr })
    else if ltb addr k.current_brk
    then (addr, record k { current_brk = addr })
    else (addr, record k { current_brk = addr })

-- `(length + 0xFFF) & !0xFFF`
unfoldable pub aligned_len : ℕ → ℕ
aligned_len length = bit_and (u64 (length + 0xfff)) (not64 0xfff)

unfoldable pub sys_mmap : Kernel → ℕ → ℕ → ℕ → ℕ → ℕ × Kernel
sys_mmap k addr length prot flags =
    let aligned = aligned_len length in
    if not (addr == 0) && leb 0x1000 addr
    then (addr, k)
    else if ltb mmap_end (u64 (k.mmap_next + aligned))
    then (errno 12, k)
    else (k.mmap_next, record k { mmap_next = u64 (k.mmap_next + aligned) })

unfoldable pub sys_mprotect : ℕ → ℕ → ℕ → ℕ
sys_mprotect addr len prot = 0

unfoldable pub sys_munmap : ℕ → ℕ → ℕ
sys_munmap addr len = 0

abbrev pub set_fs : Kernel → ℕ → Kernel
set_fs k base = record k { fs_base = base }

abbrev pub set_gs : Kernel → ℕ → Kernel
set_gs k base = record k { gs_base = base }

-- A write of a base register, through `VirtAddr::new`.
unfoldable pub write_base : Option ℕ → (ℕ → Kernel) → Reply
write_base none update = kernel_panic
write_base (some base) update = ret 0 (update base)

unfoldable pub sys_arch_prctl : (ℕ → Option ℕ) → Kernel → ℕ → ℕ → Reply
unfolding write_base
sys_arch_prctl virt_addr_new k code addr =
    if code == 0x1002
    then write_base (virt_addr_new addr) (set_fs k)
    else if code == 0x1003
    then ret 0 (record k { memory = store addr 8 k.fs_base k.memory })
    else if code == 0x1001
    then write_base (virt_addr_new addr) (set_gs k)
    else if code == 0x1004
    then ret 0 (record k { memory = store addr 8 k.gs_base k.memory })
    else ret (errno 22) k

unfoldable pub sys_set_tid_address : ℕ → ℕ
sys_set_tid_address tidptr = 1

unfoldable pub sys_poll : ℕ → ℕ → ℕ → ℕ
sys_poll fds nfds timeout = 0

unfoldable pub sys_rt_sigaction : Kernel → ℕ → ℕ → ℕ → ℕ × Kernel
sys_rt_sigaction k signum act oldact =
    if not (oldact == 0) then (0, record k { memory = fill oldact 0 32 k.memory }) else (0, k)

unfoldable pub sys_rt_sigprocmask : Kernel → ℕ → ℕ → ℕ → ℕ → ℕ × Kernel
sys_rt_sigprocmask k how sigset oldset sigsetsize =
    if not (oldset == 0) then (0, record k { memory = fill oldset 0 8 k.memory }) else (0, k)

unfoldable pub sys_sigaltstack : Kernel → ℕ → ℕ → ℕ × Kernel
sys_sigaltstack k ss old_ss =
    if not (old_ss == 0)
    then (
      0,
      record k {
        memory = store (old_ss + 16) 8 0 (store (old_ss + 8) 4 2 (store old_ss 8 0 k.memory));
      },
    )
    else (0, k)

-- One step of the generator, and the byte that it gives.
unfoldable pub next_seed : ℕ → ℕ
next_seed seed = u64 (u64 (seed * 6364136223846793005) + 1)

unfoldable pub random_byte : ℕ → ℕ
random_byte seed = u8 (seed / 2 ^ 33)

-- The loop of `sys_getrandom` at address `ptr`, with `rounds` bytes left.
unfoldable pub getrandom_loop : ℕ → ℕ → Kernel → Kernel
unfolding next_seed random_byte
getrandom_loop zero ptr k = k
getrandom_loop (suc rounds) ptr k =
    let seed = next_seed k.seed in
    getrandom_loop rounds (ptr + 1)
      (record k { seed = seed; memory = store ptr 1 (random_byte seed) k.memory })

unfoldable pub sys_getrandom : Kernel → ℕ → ℕ → ℕ → ℕ × Kernel
unfolding getrandom_loop
sys_getrandom k buf buflen flags = (buflen, getrandom_loop buflen buf k)

unfoldable pub sys_fstat : Kernel → ℕ → ℕ → ℕ × Kernel
sys_fstat k fd statbuf =
    if leb fd 2
    then (0, record k { memory = store (statbuf + 24) 4 0o020666 (fill statbuf 0 144 k.memory) })
    else (errno 9, k)

unfoldable pub sys_ioctl : ℕ → ℕ → ℕ → ℕ
sys_ioctl fd request arg = errno 25
