-- ===== src/Elf/Stack.antt =====
-- kernel/src/elf_loader.rs: `setup_user_stack`, over what it reads of the ELF header.
pub mod Laws
pub mod Start
mod Tests
use cat.Common.{
  ℕ, zero, suc, ◌+◌, ◌-◌, ◌*◌, ◌/◌, ◌%◌, ◌^◌, bit_and, Bool, Option, none, some, u64, not64,
}
use cat.Common.{Run, done, panic, ◌>>=◌, store, if◌then◌else◌}
use cat.Elf.{Paging, PageTableFlags, Space, use_frame, pool_flags, containing_page}

pub record ElfHeader : Type 0 where
  pub ph_offset : ℕ
  pub ph_count : ℕ
  pub ph_entry_size : ℕ
  pub entry_point : ℕ
  pub is_pie : Bool

abbrev pub user_base_addr : ℕ
user_base_addr = 4194304

abbrev pub user_stack_bottom : ℕ
user_stack_bottom = 0x7FFFFFFF0000

abbrev pub user_stack_size : ℕ
user_stack_size = 16 * 4096

unfoldable pub base_of : ElfHeader → ℕ
base_of elf = if elf.is_pie then user_base_addr else 0

-- The stack pointer that the program gets.
abbrev pub stack_pointer : ℕ
stack_pointer = bit_and (user_stack_bottom - 256) (not64 15)

module _ (paging : Paging) (hhdm : ℕ) where
  -- The loop over the stack's pages, which it takes to be free.
  pub map_stack_pages : PageTableFlags → ℕ → ℕ → Space paging hhdm → Run (Space paging hhdm)
  map_stack_pages flags zero page s = done s
  map_stack_pages flags (suc rounds) page s =
      use_frame paging hhdm flags page s (paging.allocate_frame s.frames)
      >>= map_stack_pages flags rounds (page + 1)

  pub put_word : ℕ → ℕ → Space paging hhdm → Option ℕ → Run (Space paging hhdm)
  put_word page_offset value s none = done s
  put_word page_offset value s (some frame) =
      done (record s { memory = store (u64 (u64 (frame + hhdm) + page_offset)) 8 value s.memory })

  -- The closure `write_to_stack`.
  pub write_to_stack : ℕ → ℕ → Space paging hhdm → Run (Space paging hhdm)
  write_to_stack addr value s =
      if paging.virt_addr addr
      then put_word (addr % 4096) value s (paging.translate_page s.table (containing_page addr))
      else panic

  pub write_aux : ℕ → ℕ → ℕ → Space paging hhdm → Run (Space paging hhdm)
  write_aux addr kind value s = write_to_stack addr kind s >>= write_to_stack (addr + 8) value

  -- From argc to the end of the auxiliary vector.
  pub build_stack : ElfHeader → Space paging hhdm → Run (Space paging hhdm)
  build_stack elf s =
      let sp = stack_pointer in
      let phdr_addr = u64 (base_of elf + elf.ph_offset) in
      let entry_addr = u64 (base_of elf + elf.entry_point) in
      write_to_stack (sp + 0) 0 s
      >>= write_to_stack (sp + 8) 0
      >>= write_to_stack (sp + 16) 0
      >>= write_aux (sp + 24) 3 phdr_addr
      >>= write_aux (sp + 40) 4 elf.ph_entry_size
      >>= write_aux (sp + 56) 5 elf.ph_count
      >>= write_aux (sp + 72) 6 4096
      >>= write_aux (sp + 88) 7 0
      >>= write_aux (sp + 104) 9 entry_addr
      >>= write_aux (sp + 120) 25 (sp + 240)
      >>= write_aux (sp + 136) 0 0

  pub setup_user_stack : ElfHeader → Space paging hhdm → Run (ℕ × Space paging hhdm)
  setup_user_stack elf s =
      let first = containing_page (user_stack_bottom - user_stack_size) in
      let last = containing_page (user_stack_bottom - 1) in
      map_stack_pages pool_flags (last + 1 - first) first s >>= λ t.
      (build_stack elf t >>= λ u.
      (if paging.virt_addr stack_pointer then done (stack_pointer, u) else panic))
