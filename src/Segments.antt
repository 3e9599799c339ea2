-- ===== src/Segments.antt =====
-- kernel/src/gdt.rs: the segment selectors and the stacks of the task state; and the registers that
-- `syscalls::init` of kernel/src/syscalls.rs writes, which name those selectors. The descriptor
-- table of the x86_64 crate is a parameter.
pub mod Laws
mod Flags
mod Tests
use cat.Common.{ℕ, ◌+◌, Bool, Run, done, panic, if◌then◌else◌, u64, bit_or}
use cat.Entry.{init_syscall_stack}

pub data Descriptor : Type 0 where
  kernel_code_segment kernel_data_segment user_data_segment user_code_segment tss_segment :
      Descriptor

-- `GlobalDescriptorTable` and `SegmentSelector::new`.
pub record Tables : Type 1 where
  pub Table : Type 0
  pub new : Table
  pub append : Descriptor → Table → ℕ × Table
  pub selector : ℕ → ℕ → ℕ

pub record Selectors : Type 0 where
  pub code_selector : ℕ
  pub data_selector : ℕ
  pub user_data_selector : ℕ
  pub user_code_selector : ℕ
  pub tss_selector : ℕ

-- The two entries of the task state segment that the code sets.
pub record TaskState : Type 0 where
  pub privilege_stack : ℕ
  pub interrupt_stack : ℕ

-- For the addresses of the two static stacks.
pub task_state : ℕ → ℕ → TaskState
task_state privilege_array interrupt_array = record {
  privilege_stack = u64 (privilege_array + 20480);
  interrupt_stack = u64 (interrupt_array + 20480);
}

pub record SegmentRegs (Table : Type 0) : Type 0 where
  pub gdt : Table
  pub cs : ℕ
  pub ss : ℕ
  pub ds : ℕ
  pub es : ℕ
  pub tr : ℕ

module _ (tables : Tables) where
  -- The lazy static `GDT`.
  pub global_table : tables.Table × Selectors
  global_table =
      let code = tables.append kernel_code_segment tables.new in
      let data_ = tables.append kernel_data_segment code.1 in
      let user_data = tables.append user_data_segment data_.1 in
      let user_code = tables.append user_code_segment user_data.1 in
      let tss = tables.append tss_segment user_code.1 in
      (
        tss.1,
        record {
          code_selector = code.0;
          data_selector = data_.0;
          user_data_selector = user_data.0;
          user_code_selector = user_code.0;
          tss_selector = tss.0;
        },
      )

  pub get_user_code_selector : ℕ
  get_user_code_selector = tables.selector 4 3

  pub get_user_data_selector : ℕ
  get_user_data_selector = tables.selector 3 3

  pub init_gdt : SegmentRegs tables.Table
  init_gdt =
      let selectors = global_table.1 in
      record {
        gdt = global_table.0;
        cs = selectors.code_selector;
        ss = selectors.data_selector;
        ds = selectors.data_selector;
        es = selectors.data_selector;
        tr = selectors.tss_selector;
      }

-- The machine registers of system calls, and the two statics that `syscalls::init` sets. STAR is its
-- two bases.
pub record SyscallRegs : Type 0 where
  pub efer : ℕ
  pub sysret_base : ℕ
  pub syscall_base : ℕ
  pub lstar : ℕ
  pub sfmask : ℕ
  pub hhdm_offset : ℕ
  pub kernel_stack_top : ℕ

-- Bit 0 of EFER enables SYSCALL; bits 9 and 8 of the flags are those of interrupts and traps.
-- `0x10 | 3` and `0x08` are the bases.
pub init_syscalls : (ℕ → Bool) → ℕ → ℕ → ℕ → SyscallRegs → Run SyscallRegs
init_syscalls virt_addr hhdm_offset stack_ptr syscall_entry m =
    let set : SyscallRegs = record {
      efer = bit_or m.efer 1;
      sysret_base = bit_or 0x10 3;
      syscall_base = 0x08;
      lstar = syscall_entry;
      sfmask = bit_or 0x200 0x100;
      hhdm_offset = hhdm_offset;
      kernel_stack_top = init_syscall_stack stack_ptr;
    } in
    if virt_addr syscall_entry then done set else panic
