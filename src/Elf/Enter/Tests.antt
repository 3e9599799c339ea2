-- ===== src/Elf/Enter/Tests.antt =====
-- kernel/src/elf_loader.rs: `enter_userspace` with its operands in five registers.
use cat.Common.{ℕ, ◌≡◌, ◌≢◌, refl, [], ◌∷◌, Ends}
use cat.Entry.{Reg, rax, rcx, rdx, rsi, rdi, rsp}
use cat.Elf.Enter.{Operand, Cpu, operand, run, enter_userspace, ss, rsp_user, rflags, cs, rip}
use cat.Elf.Enter.Laws.{Entered, enter_userspace-Entered}

abbrev place : Operand → Reg
place ss = rcx
place rsp_user = rax
place rflags = rdx
place cs = rsi
place rip = rdi

abbrev registers : Reg → ℕ
registers rcx = 0x1B
registers rax = 140000
registers rdx = 0x202
registers rsi = 0x23
registers rdi = 4194304
registers _ = 77

abbrev cpu : Cpu
cpu = record {
  regs = registers;
  stack = 5 ∷ [];
  seg_cs = 8;
  seg_ss = 16;
  seg_ds = 16;
  seg_es = 16;
  flags = 2;
  pc = 0;
}

pointer_free : (o : Operand) → place o ≢ rsp
pointer_free ss e = cc
pointer_free rsp_user e = cc
pointer_free rflags e = cc
pointer_free cs e = cc
pointer_free rip e = cc

loaded : (o : Operand) → cpu.regs (place o) ≡ operand 4194304 140000 o
loaded ss = refl
loaded rsp_user = refl
loaded rflags = refl
loaded cs = refl
loaded rip = refl

enter_userspace-Entered_example : Ends (run place enter_userspace cpu) (Entered 4194304 140000 cpu)
enter_userspace-Entered_example =
    enter_userspace-Entered place 4194304 140000 cpu pointer_free loaded
