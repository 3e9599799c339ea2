-- ===== src/Boot/Main/Jump.antt =====
-- uefi_boot/src/main.rs: the assembly that enters the kernel. The compiler picks the registers of the
-- three operands, which are a parameter, and loads them and `rdi`.
use cat.Common.{ℕ, ◌%◌, ◌≡◌, ◌≢◌, refl, Bool, false, List, [], ◌∷◌, ◌==◌}
use cat.Entry.{Reg, Registers, index, assign}
use cat.Entry.{rbp, rsp}
use cat.Boot.{stack_top}

pub data Operand : Type 0 where
  pml4 stack entry : Operand

-- For the address of the level 4 table and that of the kernel's entry.
abbrev pub operand : ℕ → ℕ → Operand → ℕ
operand table start pml4 = table
operand table start stack = stack_top
operand table start entry = start

pub data Instr : Type 0 where
  mov_cr3 mov_rsp jmp : Operand → Instr
  xor_rbp : Instr

pub record Cpu : Type 0 where
  pub regs : Registers
  pub cr3 : ℕ
  pub interrupts : Bool
  pub pc : ℕ

module _ (reg_of : Operand → Reg) where
  pub step : Instr → Cpu → Cpu
  step (mov_cr3 o) m = record m { cr3 = m.regs (reg_of o) }
  step (mov_rsp o) m = record m { regs = assign m.regs rsp (m.regs (reg_of o)) }
  step (jmp o) m = record m { pc = m.regs (reg_of o) }
  step xor_rbp m = record m { regs = assign m.regs rbp 0 }

  pub run : List Instr → Cpu → Cpu
  run [] m = m
  run (i ∷ is) m = run is (step i m)

pub jump_to_kernel : List Instr
jump_to_kernel = mov_cr3 pml4 ∷ mov_rsp stack ∷ xor_rbp ∷ jmp entry ∷ []

-- Interrupts are turned off first.
pub enter_kernel : (Operand → Reg) → Cpu → Cpu
unfolding jump_to_kernel
enter_kernel reg_of m = run reg_of jump_to_kernel (record m { interrupts = false })

-- The kernel runs at its entry with the new tables and stack, no frame pointer, and the other
-- registers as they were.
pub record EntersKernel (table start : ℕ) (before after : Cpu) : Type 0 where
  pub tables : after.cr3 ≡ table
  pub pc : after.pc ≡ start
  pub pointer : after.regs rsp ≡ stack_top
  pub frame_pointer : after.regs rbp ≡ 0
  pub others : (r : Reg) → r ≢ rsp → r ≢ rbp → after.regs r ≡ before.regs r
  pub interrupts : after.interrupts ≡ false
  pub alignment : after.regs rsp % 16 ≡ 0

not_rsp : (r : Reg) → r ≢ rsp → (index r == 7) ≡ false
not_rsp rsp h = absurd (h refl)
not_rsp _ h = refl

not_rbp : (r : Reg) → r ≢ rbp → (index r == 6) ≡ false
not_rbp rbp h = absurd (h refl)
not_rbp _ h = refl

-- Whatever registers hold the operands, the stack and frame pointers apart, the kernel starts at its
-- entry point with the tables of the bootloader, interrupts off, the stack at its top, where no
-- return address lies, so that the pointer is a multiple of 16, the frame pointer 0, and in every
-- other register, rdi with the address of BootInfo among them, what it held.
pub enter_kernel-EntersKernel :
    (place : Operand → Reg) (table start : ℕ) (m : Cpu)
    → ((o : Operand) → place o ≢ rsp)
    → ((o : Operand) → place o ≢ rbp)
    → ((o : Operand) → m.regs (place o) ≡ operand table start o)
    → EntersKernel table start m (enter_kernel place m)
unfolding enter_kernel jump_to_kernel run step
enter_kernel-EntersKernel place table start m off_rsp off_rbp loaded =
    let entry_rsp : (index (place entry) == 7) ≡ false = not_rsp (place entry) (off_rsp entry) in
    let entry_rbp : (index (place entry) == 6) ≡ false = not_rbp (place entry) (off_rbp entry) in
    rw (loaded pml4, loaded stack, entry_rsp, entry_rbp, loaded entry)
      (record {
        tables = refl;
        pc = refl;
        pointer = refl;
        frame_pointer = refl;
        others = λ r a b.
            let first : (index r == 7) ≡ false = not_rsp r a in
            let second : (index r == 6) ≡ false = not_rbp r b in rw (first, second) refl;
        interrupts = refl;
        alignment = refl;
      })
