-- ===== src/Segments/Flags.antt =====
-- kernel/src/syscalls.rs: the flags with which `syscall_entry` starts, and EFER.
use cat.Common.{ℕ, ◌<◌, ◌≡◌, refl, arith, Bool, true, Ends}
use cat.Common.{if◌then◌else◌, ◌==◌, ◌||◌, bit, bit_and, bit_or, not64}
use cat.Common.{bit-bit_and, bit-bit_or, bit-two_pow, bit-complement, bit-lt}
use cat.Segments.{
  Tables, SyscallRegs, init_syscalls, global_table, get_user_code_selector, get_user_data_selector,
}
use cat.Segments.Laws.{IsDocumented, Agrees, init_syscalls-Agrees}
use mathlib.Core.Path.{subst}
use cat.Common.{Run, done}

-- SYSCALL clears the flags that are set in SFMASK.
abbrev pub entry_flags : SyscallRegs → ℕ → ℕ
entry_flags regs flags = bit_and flags (not64 regs.sfmask)

pub record Masks (m regs : SyscallRegs) : Type 0 where
  pub flags :
      (flags i : ℕ)
      → i < 64
      → bit (entry_flags regs flags) i ≡ (if i == 9 || i == 8 then 0 else bit flags i)
  pub enabled : (i : ℕ) → bit regs.efer i ≡ (if i == 0 then 1 else bit m.efer i)

sfmask-bit : (i : ℕ) → bit (bit_or 0x200 0x100) i ≡ (if i == 9 || i == 8 then 1 else 0)
sfmask-bit i = ground (arith, bit-bit_or i 0x200 0x100, bit-two_pow 9 i, bit-two_pow 8 i)

init_syscalls-Masks :
    (virt_addr : ℕ → Bool) (hhdm_offset stack_ptr syscall_entry : ℕ) (m : SyscallRegs)
    → virt_addr syscall_entry ≡ true
    → Ends (init_syscalls virt_addr hhdm_offset stack_ptr syscall_entry m) (Masks m)
unfolding init_syscalls
init_syscalls-Masks virt_addr hhdm_offset stack_ptr syscall_entry m canonical =
    rw canonical (record {
      value = _;
      ends = refl;
      holds = record {
        flags = λ flags i h. ground (
          arith,
          bit-bit_and i flags (not64 (bit_or 0x200 0x100)),
          bit-lt flags i,
          bit-complement 64 i (bit_or 0x200 0x100) (omega arith) h,
          sfmask-bit i,
        );
        enabled = λ i. ground (arith, bit-bit_or i m.efer 1, bit-two_pow 0 i, bit-lt m.efer i);
      };
    })

one_result : {A : Type 0} {a b : A} {r : Run A} → r ≡ done a → r ≡ done b → a ≡ b
one_result e f = cc

-- With a table as the crate documents it, syscalls::init ends when the address of syscall_entry is
-- canonical. The selectors that SYSCALL and SYSRET then load, those that enter_userspace loads and
-- those of the two getters are the ones of the table's segments. A system call starts with the
-- interrupt flag and the trap flag clear and every other flag as the program had it, and EFER is as
-- before but for bit 0, which is set.
pub init_syscalls_lem :
    (tables : Tables)
    → IsDocumented tables
    → (virt_addr : ℕ → Bool) (hhdm_offset stack_ptr syscall_entry : ℕ) (m : SyscallRegs)
    → virt_addr syscall_entry ≡ true
    → Ends (init_syscalls virt_addr hhdm_offset stack_ptr syscall_entry m) (λ regs.
      Agrees regs
        (global_table tables).1
        (get_user_code_selector tables)
        (get_user_data_selector tables)
      × Masks m regs)
init_syscalls_lem tables documented virt_addr hhdm_offset stack_ptr syscall_entry m canonical =
    let agrees =
      init_syscalls-Agrees tables documented virt_addr hhdm_offset stack_ptr syscall_entry m
        canonical in
    let masks = init_syscalls-Masks virt_addr hhdm_offset stack_ptr syscall_entry m canonical in
    record {
      value = agrees.value;
      ends = agrees.ends;
      holds = (agrees.holds, subst (Masks m) (one_result masks.ends agrees.ends) masks.holds);
    }
