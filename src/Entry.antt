-- ===== src/Entry.antt =====
-- kernel/src/syscalls.rs: `syscall_entry`, the assembly between user space and the handler.
-- The program is the list of its instructions, run by `step` on the registers and the kernel stack,
-- whose words are a list with the top first; `rsp` is counted along. The handler is a parameter:
-- by the calling convention it keeps the stack and the callee-saved registers, and may leave
-- anything in the others.
pub mod Laws
mod Tests
use cat.Common.{
  ℕ, zero, suc, ◌+◌, ◌-◌, ◌*◌, ◌/◌, ◌^◌, Bool, true, false, Option, none, some, List, [],
}
use cat.Common.{◌∷◌, Run, done, fault, ◌>>=◌, u64, ◌==◌, if◌then◌else◌, get_elem?}

pub data Reg : Type 0 where
  rax rbx rcx rdx rsi rdi rbp rsp r8 r9 r10 r11 r12 r13 r14 r15 : Reg

abbrev pub index : Reg → ℕ
index rax = 0
index rbx = 1
index rcx = 2
index rdx = 3
index rsi = 4
index rdi = 5
index rbp = 6
index rsp = 7
index r8 = 8
index r9 = 9
index r10 = 10
index r11 = 11
index r12 = 12
index r13 = 13
index r14 = 14
index r15 = 15

abbrev pub Registers : Type 0
Registers = Reg → ℕ

abbrev pub assign : Registers → Reg → ℕ → Registers
assign regs d v r = if index r == index d then v else regs r

-- The instructions that `syscall_entry` uses. An offset from `rsp` is in bytes.
pub data Instr : Type 0 where
  save_rsp_to_temp lea_stack_top load_rsp push_temp call_handler sysretq : Instr
  push pop : Reg → Instr
  mov : Reg → Reg → Instr
  mov_from_stack : Reg → ℕ → Instr
  push_from_stack : ℕ → Instr
  add_rsp : ℕ → Instr

-- `called` lists the arguments of the handler's calls, and `rsp` just before each.
pub record Machine : Type 0 where
  pub regs : Registers
  pub stack : List ℕ
  pub temp_rsp : ℕ
  pub called : List (List ℕ × ℕ)
  pub returned : Option (ℕ × ℕ)

abbrev pub set_reg : Machine → Reg → ℕ → Machine
set_reg m d v = record m { regs = assign m.regs d v }

abbrev pub push_value : Machine → ℕ → Machine
push_value m v = record m {
  regs = assign m.regs rsp (u64 (m.regs rsp + 2 ^ 64 - 8));
  stack = v ∷ m.stack;
}

abbrev pub pop_into : Reg → Machine → List ℕ → Run Machine
pop_into d m [] = fault
pop_into d m (v ∷ rest) =
    done (record m { regs = assign (assign m.regs rsp (u64 (m.regs rsp + 8))) d v; stack = rest })

abbrev pub stack_word : Machine → ℕ → Run ℕ
stack_word m offset = elim (get_elem? m.stack (offset / 8)) [ none ↦ fault | some v ↦ done v ]

abbrev pub callee_saved : Reg → Bool
callee_saved rbx = true
callee_saved rbp = true
callee_saved rsp = true
callee_saved r12 = true
callee_saved r13 = true
callee_saved r14 = true
callee_saved r15 = true
callee_saved _ = false

-- `KERNEL_SYSCALL_STACK_TOP`, for the address of the array.
abbrev pub init_syscall_stack : ℕ → ℕ
init_syscall_stack stack_ptr = u64 (stack_ptr + 16384 - 8)

module _ (top : ℕ) (handler : List ℕ → Registers) where
  -- Six arguments in registers, the seventh on the stack.
  abbrev pub arguments : Machine → ℕ → List ℕ
  arguments m seventh =
      m.regs rdi ∷ m.regs rsi ∷ m.regs rdx ∷ m.regs rcx ∷ m.regs r8 ∷ m.regs r9 ∷ seventh ∷ []

  abbrev pub after_call : Machine → ℕ → Machine
  after_call m seventh = record m {
    regs = λ r. if callee_saved r then m.regs r else handler (arguments m seventh) r;
    called = (arguments m seventh, m.regs rsp) ∷ m.called;
  }

  -- `lea rsp, [rip + KERNEL_SYSCALL_STACK_TOP]` and `mov rsp, [rsp]` switch to an empty stack.
  pub step : Instr → Machine → Run Machine
  step save_rsp_to_temp m = done (record m { temp_rsp = m.regs rsp })
  step lea_stack_top m = done (record m { stack = top ∷ [] })
  step load_rsp m = (stack_word m 0 >>= λ v. done (record (set_reg m rsp v) { stack = [] }))
  step push_temp m = done (push_value m m.temp_rsp)
  step (push r) m = done (push_value m (m.regs r))
  step (pop r) m = pop_into r m m.stack
  step (mov d s) m = done (set_reg m d (m.regs s))
  step (mov_from_stack d offset) m = (stack_word m offset >>= λ v. done (set_reg m d v))
  step (push_from_stack offset) m = (stack_word m offset >>= λ v. done (push_value m v))
  step call_handler m = (stack_word m 0 >>= λ v. done (after_call m v))
  step (add_rsp n) m = elim m.stack [
    | [] ↦ fault
    | v ∷ rest ↦ done (record (set_reg m rsp (u64 (m.regs rsp + n))) { stack = rest })
  ]
  step sysretq m = done (record m { returned = some (m.regs rcx, m.regs r11) })

  pub run : List Instr → Machine → Run Machine
  unfolding step
  run [] m = done m
  run (i ∷ is) m = step i m >>= run is

pub syscall_entry : List Instr
syscall_entry =
    save_rsp_to_temp
    ∷ lea_stack_top
    ∷ load_rsp
    ∷ push_temp
    ∷ push rcx
    ∷ push r11
    ∷ push rdi
    ∷ push rsi
    ∷ push rdx
    ∷ push r10
    ∷ push r8
    ∷ push r9
    ∷ push rbx
    ∷ push rbp
    ∷ push r12
    ∷ push r13
    ∷ push r14
    ∷ push r15
    ∷ mov rdi rax
    ∷ mov_from_stack rsi 88
    ∷ mov_from_stack rdx 80
    ∷ mov_from_stack rcx 72
    ∷ mov_from_stack r8 64
    ∷ mov_from_stack r9 56
    ∷ push_from_stack 48
    ∷ call_handler
    ∷ add_rsp 8
    ∷ pop r15
    ∷ pop r14
    ∷ pop r13
    ∷ pop r12
    ∷ pop rbp
    ∷ pop rbx
    ∷ pop r9
    ∷ pop r8
    ∷ pop r10
    ∷ pop rdx
    ∷ pop rsi
    ∷ pop rdi
    ∷ pop r11
    ∷ pop rcx
    ∷ pop rsp
    ∷ sysretq
    ∷ []
