-- ===== src/Elf/Enter.antt =====
-- kernel/src/elf_loader.rs: `enter_userspace`, the assembly that jumps to Ring 3. The compiler picks
-- the registers of the five operands, which are a parameter, and loads them. The kernel stack is a
-- list with the top first. The checks of `iretq` on the descriptors are not modelled.
mod Laws
mod Tests
use cat.Common.{ℕ, ◌+◌, ◌-◌, ◌*◌, ◌/◌, ◌%◌, ◌^◌, List, [], ◌∷◌, Run, done, fault, ◌>>=◌, u64}
use cat.Entry.{
  Reg, Registers, assign, rax, rbx, rcx, rdx, rsi, rdi, rbp, rsp, r8, r9, r10, r11, r12, r13, r14,
  r15,
}

pub data Operand : Type 0 where
  ss rsp_user rflags cs rip : Operand

abbrev pub user_data_sel : ℕ
user_data_sel = 0x1B

abbrev pub user_code_sel : ℕ
user_code_sel = 0x23

abbrev pub rflags_user : ℕ
rflags_user = 0x202

abbrev pub operand : ℕ → ℕ → Operand → ℕ
operand entry stack ss = user_data_sel
operand entry stack rsp_user = stack
operand entry stack rflags = rflags_user
operand entry stack cs = user_code_sel
operand entry stack rip = entry

pub data Instr : Type 0 where
  push : Operand → Instr
  mov_ax : Operand → Instr
  mov_ds_ax mov_es_ax iretq : Instr
  xor : Reg → Instr

pub record Cpu : Type 0 where
  pub regs : Registers
  pub stack : List ℕ
  pub seg_cs : ℕ
  pub seg_ss : ℕ
  pub seg_ds : ℕ
  pub seg_es : ℕ
  pub flags : ℕ
  pub pc : ℕ

module _ (reg_of : Operand → Reg) where
  pub step : Instr → Cpu → Run Cpu
  step (push o) m = done (record m {
    regs = assign m.regs rsp (u64 (m.regs rsp + 2 ^ 64 - 8));
    stack = m.regs (reg_of o) ∷ m.stack;
  })
  step (mov_ax o) m = done (record m {
    regs = assign m.regs rax (m.regs rax / 2 ^ 16 * 2 ^ 16 + m.regs (reg_of o) % 2 ^ 16);
  })
  step mov_ds_ax m = done (record m { seg_ds = m.regs rax % 2 ^ 16 })
  step mov_es_ax m = done (record m { seg_es = m.regs rax % 2 ^ 16 })
  step (xor r) m = done (record m { regs = assign m.regs r 0 })
  step iretq m = elim m.stack [
    | new_pc ∷ new_cs ∷ new_flags ∷ new_rsp ∷ new_ss ∷ rest ↦ done (record m {
      regs = assign m.regs rsp new_rsp;
      stack = rest;
      seg_cs = new_cs % 2 ^ 16;
      seg_ss = new_ss % 2 ^ 16;
      flags = new_flags;
      pc = new_pc;
    })
    | _ ↦ fault
  ]

  pub run : List Instr → Cpu → Run Cpu
  run [] m = done m
  run (i ∷ is) m = step i m >>= run is

pub enter_userspace : List Instr
enter_userspace =
    push ss
    ∷ push rsp_user
    ∷ push rflags
    ∷ push cs
    ∷ push rip
    ∷ mov_ax ss
    ∷ mov_ds_ax
    ∷ mov_es_ax
    ∷ xor rax
    ∷ xor rbx
    ∷ xor rcx
    ∷ xor rdx
    ∷ xor rsi
    ∷ xor rdi
    ∷ xor rbp
    ∷ xor r8
    ∷ xor r9
    ∷ xor r10
    ∷ xor r11
    ∷ xor r12
    ∷ xor r13
    ∷ xor r14
    ∷ xor r15
    ∷ iretq
    ∷ []
