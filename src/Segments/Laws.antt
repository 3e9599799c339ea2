-- ===== src/Segments/Laws.antt =====
-- kernel/src/gdt.rs, kernel/src/syscalls.rs and kernel/src/elf_loader.rs: the three places that name
-- selectors agree, and what a system call finds in the machine registers.
use cat.Common.{ℕ, ◌+◌, ◌*◌, ◌≤◌, ◌<◌, ◌≡◌, refl, ◌∙◌, sym, ap, arith, Bool, true, Ends}
use cat.Common.{bit_or}
use cat.Segments.{
  Descriptor, Tables, Selectors, SyscallRegs, global_table, get_user_code_selector,
  get_user_data_selector, init_syscalls, kernel_code_segment, kernel_data_segment,
  user_data_segment, user_code_segment, tss_segment,
}
use cat.Elf.Enter.{user_code_sel, user_data_sel}

-- The privilege level and the number of entries of a descriptor.
abbrev pub ring : Descriptor → ℕ
ring user_data_segment = 3
ring user_code_segment = 3
ring _ = 0

abbrev pub width : Descriptor → ℕ
width tss_segment = 2
width _ = 1

-- What the crate documents: a table starts with the null entry and has room for eight, `append`
-- puts a descriptor behind the others and returns its index with its privilege level, and a
-- selector is the index above two bits of privilege and a zero.
pub record IsDocumented (tables : Tables) : Type 0 where
  pub entries : tables.Table → ℕ
  pub start : entries tables.new ≡ 1
  pub appends :
      (d : Descriptor) (t : tables.Table)
      → entries t + width d ≤ 8
      → (tables.append d t).0 ≡ tables.selector (entries t) (ring d)
  pub grows :
      (d : Descriptor) (t : tables.Table)
      → entries t + width d ≤ 8
      → entries (tables.append d t).1 ≡ entries t + width d
  pub encodes : (i r : ℕ) → i < 8192 → r < 4 → tables.selector i r ≡ i * 8 + r

-- The selectors that the processor takes from STAR: SYSCALL the base and the base plus 8, SYSRET the
-- base plus 16 and plus 8, with level 3.
pub record Agrees (regs : SyscallRegs) (selectors : Selectors) (user_code user_data : ℕ)
    : Type 0 where
  pub syscall_cs : regs.syscall_base ≡ selectors.code_selector
  pub syscall_ss : regs.syscall_base + 8 ≡ selectors.data_selector
  pub sysret_cs : bit_or (regs.sysret_base + 16) 3 ≡ selectors.user_code_selector
  pub sysret_ss : bit_or (regs.sysret_base + 8) 3 ≡ selectors.user_data_selector
  pub enter_cs : user_code_sel ≡ selectors.user_code_selector
  pub enter_ss : user_data_sel ≡ selectors.user_data_selector
  pub getter_cs : user_code ≡ selectors.user_code_selector
  pub getter_ss : user_data ≡ selectors.user_data_selector
  pub tss : selectors.tss_selector ≡ 0x28

module _ (tables : Tables) (documented : IsDocumented tables) where
  placed :
      (d : Descriptor) (t : tables.Table) (n : ℕ)
      → documented.entries t ≡ n
      → n + width d ≤ 8
      → n < 8192
      → ring d < 4
      → ((tables.append d t).0 ≡ n * 8 + ring d)
        × (documented.entries (tables.append d t).1 ≡ n + width d)
  placed d t n e h low r =
      let at : documented.entries t + width d ≤ 8 = omega (arith, e, h) in
      (
        documented.appends d t at
            ∙ ap (λ i. tables.selector i (ring d)) e
            ∙ documented.encodes n (ring d) low r,
        documented.grows d t at ∙ ap (λ i. i + width d) e,
      )

  -- With a table as the crate documents it, syscalls::init ends when the address of syscall_entry is
  -- canonical. The selectors that SYSCALL and SYSRET then load, those that enter_userspace loads and
  -- those of the two getters are the ones of the table's segments.
  pub init_syscalls-Agrees :
      (virt_addr : ℕ → Bool) (hhdm_offset stack_ptr syscall_entry : ℕ) (m : SyscallRegs)
      → virt_addr syscall_entry ≡ true
      → Ends (init_syscalls virt_addr hhdm_offset stack_ptr syscall_entry m) (λ regs.
        Agrees regs
          (global_table tables).1
          (get_user_code_selector tables)
          (get_user_data_selector tables))
  unfolding init_syscalls global_table get_user_code_selector get_user_data_selector
  init_syscalls-Agrees virt_addr hhdm_offset stack_ptr syscall_entry m canonical =
      let a =
        placed kernel_code_segment tables.new 1 documented.start (omega arith) (omega arith)
          (omega arith) in
      let t1 = (tables.append kernel_code_segment tables.new).1 in
      let b = placed kernel_data_segment t1 2 a.1 (omega arith) (omega arith) (omega arith) in
      let t2 = (tables.append kernel_data_segment t1).1 in
      let c = placed user_data_segment t2 3 b.1 (omega arith) (omega arith) (omega arith) in
      let t3 = (tables.append user_data_segment t2).1 in
      let d = placed user_code_segment t3 4 c.1 (omega arith) (omega arith) (omega arith) in
      let t4 = (tables.append user_code_segment t3).1 in
      let e = placed tss_segment t4 5 d.1 (omega arith) (omega arith) (omega arith) in
      rw canonical (record {
        value = _;
        ends = refl;
        holds = record {
          syscall_cs = sym a.0;
          syscall_ss = sym b.0;
          sysret_cs = sym d.0;
          sysret_ss = sym c.0;
          enter_cs = sym d.0;
          enter_ss = sym c.0;
          getter_cs = documented.encodes 4 3 (omega arith) (omega arith) ∙ sym d.0;
          getter_ss = documented.encodes 3 3 (omega arith) (omega arith) ∙ sym c.0;
          tss = e.0;
        };
      })
