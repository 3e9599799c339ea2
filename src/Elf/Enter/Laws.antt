-- ===== src/Elf/Enter/Laws.antt =====
-- kernel/src/elf_loader.rs: the state in which `enter_userspace` starts the program.
use cat.Common.{ℕ, ◌≡◌, ◌≢◌, refl, arith, List, [], ◌∷◌}
use cat.Common.{Ends, ◌==◌, false}
use cat.Entry.{
  Reg, Registers, index, assign, rax, rbx, rcx, rdx, rsi, rdi, rbp, r8, r9, r10, r11, r12, r13, r14,
  r15, rsp,
}
use cat.Elf.Enter.{
  Operand, Cpu, operand, step, run, enter_userspace, user_data_sel, user_code_sel, rflags_user,
}
use cat.Elf.Enter.{ss, rsp_user, rflags, cs, rip}

-- The program starts at `entry` with `stack`, the selectors of Ring 3, interrupts on, and no value
-- of the kernel in a general register.
pub record Entered (entry stack : ℕ) (before after : Cpu) : Type 0 where
  pub pc : after.pc ≡ entry
  pub pointer : after.regs rsp ≡ stack
  pub code : after.seg_cs ≡ user_code_sel
  pub stack_segment : after.seg_ss ≡ user_data_sel
  pub data_segments : (after.seg_ds ≡ user_data_sel) × (after.seg_es ≡ user_data_sel)
  pub flags : after.flags ≡ rflags_user
  pub cleared : (r : Reg) → r ≢ rsp → after.regs r ≡ 0
  pub balanced : after.stack ≡ before.stack

not_pointer : (r : Reg) → r ≢ rsp → (index r == 7) ≡ false
not_pointer rsp h = absurd (h refl)
not_pointer _ h = refl

abbrev clear_all : List Reg → Registers → Registers
clear_all [] regs = regs
clear_all (r ∷ rs) regs = clear_all rs (assign regs r 0)

-- The registers in the order in which the code clears them.
abbrev general : List Reg
general = rax ∷ rbx ∷ rcx ∷ rdx ∷ rsi ∷ rdi ∷ rbp ∷ r8 ∷ r9 ∷ r10 ∷ r11 ∷ r12 ∷ r13 ∷ r14 ∷ r15 ∷ []

clear_all-zeros :
    (regs : Registers) (stack : ℕ) (r : Reg)
    → r ≢ rsp
    → assign (clear_all general regs) rsp stack r ≡ 0
clear_all-zeros regs stack rsp h = absurd (h refl)
clear_all-zeros regs stack _ h = refl

-- Whatever registers hold the operands, the stack pointer apart, the instructions end with the
-- program entered: its address, its stack pointer, the selectors of Ring 3 in all four segment
-- registers, the flags, and zero in every general register but the stack pointer. The kernel's stack
-- is as it was.
pub enter_userspace-Entered :
    (reg_of : Operand → Reg) (entry stack : ℕ) (m : Cpu)
    → ((o : Operand) → reg_of o ≢ rsp)
    → ((o : Operand) → m.regs (reg_of o) ≡ operand entry stack o)
    → Ends (run reg_of enter_userspace m) (Entered entry stack m)
unfolding run step enter_userspace
enter_userspace-Entered reg_of entry stack m free loaded =
    rw
      (
        not_pointer (reg_of ss) (free ss),
        not_pointer (reg_of rsp_user) (free rsp_user),
        not_pointer (reg_of rflags) (free rflags),
        not_pointer (reg_of cs) (free cs),
        not_pointer (reg_of rip) (free rip),
        loaded ss,
        loaded rsp_user,
        loaded rflags,
        loaded cs,
        loaded rip,
      )
      (record {
        value = _;
        ends = refl;
        holds = record {
          pc = refl;
          pointer = refl;
          code = refl;
          stack_segment = refl;
          data_segments = (omega arith, omega arith);
          flags = refl;
          cleared = clear_all-zeros _ stack;
          balanced = refl;
        };
      })
