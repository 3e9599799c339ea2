-- ===== src/Boot/Main/Tests.antt =====
-- uefi_boot/src/main.rs and kernel/src/main.rs: a small machine from its firmware to the kernel.
use cat.Common.{ℕ, ◌^◌, ◌≡◌, ◌≢◌, refl, true, ltb, if◌then◌else◌, ◌==◌, leb}
use cat.Common.{Option, none, some, List, [], ◌∷◌, Run, done, ◌>>=◌}
use cat.Entry.{Reg, rax, rcx, rdx, rsp, rbp}
use cat.Pmm.{MemoryDescriptor}
use cat.Boot.{Mapper, max_phys_addr, uefi_bgr}
use cat.Boot.{
  load_segments, load_segment, fill_segment, map_segment, must_map, may_map, map_stack,
  map_stack_loop, map_stack_frame, allocate_frame, map_hhdm, map_hhdm_loop, map_identity,
  map_identity_loop, map_framebuffer, map_framebuffer_loop, bound_loop, new_bump,
}
use cat.Boot.Main.{
  Firmware, Graphics, ElfFile, Handover, main_, boot, kernel_data, segment_data, with_pages,
  desc_size, boot_info, frame_buffer_info, pml4_frame, load_kernel, map_memory,
}
use cat.Boot.Main.Jump.{
  Operand, pml4, stack, entry, Cpu, EntersKernel, enter_kernel, enter_kernel-EntersKernel, operand,
}

abbrev place : Operand → Reg
place pml4 = rax
place stack = rcx
place entry = rdx

abbrev cpu : Cpu
cpu = record { regs = λ r. operands r; cr3 = 0; interrupts = true; pc = 7 }
  where
    operands : Reg → ℕ
    operands rax = 8192
    operands rcx = 0xffffffff7ffff000
    operands rdx = 0xffffffff80000000
    operands _ = 5

off_rsp : (o : Operand) → place o ≢ rsp
off_rsp pml4 e = cc
off_rsp stack e = cc
off_rsp entry e = cc

off_rbp : (o : Operand) → place o ≢ rbp
off_rbp pml4 e = cc
off_rbp stack e = cc
off_rbp entry e = cc

loaded : (o : Operand) → cpu.regs (place o) ≡ operand 8192 0xffffffff80000000 o
loaded pml4 = refl
loaded stack = refl
loaded entry = refl

enter_kernel-EntersKernel_example :
    EntersKernel 8192 0xffffffff80000000 cpu (enter_kernel place cpu)
enter_kernel-EntersKernel_example =
    enter_kernel-EntersKernel place 8192 0xffffffff80000000 cpu off_rsp off_rbp loaded

abbrev region : ℕ → ℕ → MemoryDescriptor
region start pages = record {
  type_ = 7;
  phys_start = start;
  virt_start = 0;
  page_count = pages;
  attribute = 0;
}

-- Two entries of 48 bytes from address 4096 on.
abbrev in_memory : ℕ → MemoryDescriptor
in_memory a = if leb 4144 a then region 0x100000 1000 else region 0 160

abbrev first_map : List MemoryDescriptor
first_map = region 0 160 ∷ region 0x100000 1000 ∷ []

abbrev screen : Graphics
screen = record {
  phys_addr = 0x80000000;
  size = 8192;
  width = 32;
  height = 64;
  stride = 32;
  format = uefi_bgr;
}

-- Tables that are functions and need no frames.
abbrev plain : Mapper
plain = record {
  Table = ℕ → Option ℕ;
  translate_page = λ t page. t page;
  map_to = λ t a page frame w. some ((λ q. if q == page then some frame else t q), a);
  map_to_2m = λ t a page frame. some (t, a);
  phys_addr = λ x. ltb x (2 ^ 52);
  virt_addr = λ x. true;
}

-- A kernel of one segment, which lies behind a header of one byte.
abbrev parsed : List ℕ → Option ElfFile
parsed bytes = some (record {
  entry_point = 0xffffffff80000000;
  program_headers =
      record {
        offset = 1;
        segment = record {
          mem_size = 4098;
          file_size = 2;
          virtual_addr = 0xffffffff80000000;
          is_write = true;
        };
      }
      ∷ [];
})

abbrev firmware : Firmware
firmware = record {
  kernel_file = some (3, 7 ∷ 5 ∷ 6 ∷ []);
  pool = some 0x200000;
  segment_pages = some 0x300000 ∷ [];
  temp_mmap = some (8192 ∷ 8240 ∷ []);
  mmap_storage = some first_map;
  current_rip = 0x5123;
  graphics = some screen;
  boot_info_page = some 0x400000;
  mmap = 4096 ∷ 4144 ∷ [];
}

abbrev view : Run (Handover plain) → Run (List ℕ × List (Option ℕ))
view r = r >>= λ h. done (
  h.pml4
      ∷ h.entry
      ∷ h.boot_info_virt
      ∷ h.info.memory_map_addr
      ∷ h.info.memory_map_len
      ∷ h.info.memory_map_desc_size
      ∷ h.info.max_phys_memory
      ∷ h.loader.memory 0x300001
      ∷ [],
  h.loader.table 0xffffffff80001
      ∷ h.loader.table 0xffffffff7fffe
      ∷ h.loader.table 0xffffa00000001
      ∷ [],
)

handed_over :
    view (main_ plain parsed (λ q. none) firmware (λ a. 0))
    ≡ done (
      0x200000 ∷ 0xffffffff80000000 ∷ 0xffff800000400000 ∷ 4096 ∷ 2 ∷ 48 ∷ 0x600000 ∷ 6 ∷ [],
      some 0x301000 ∷ some 0x205000 ∷ some 0x80001000 ∷ [],
    )
unfolding main_ boot kernel_data segment_data with_pages desc_size boot_info frame_buffer_info
    pml4_frame load_kernel map_memory new_bump load_segments load_segment fill_segment map_segment
    must_map may_map map_stack map_stack_loop map_stack_frame allocate_frame map_hhdm map_hhdm_loop
    map_identity map_identity_loop map_framebuffer map_framebuffer_loop max_phys_addr bound_loop
handed_over = refl
