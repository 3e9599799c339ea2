-- ===== src/Elf.antt =====
-- kernel/src/elf_loader.rs: the pages of a segment, of the pool and of the heap, and the copy of a
-- segment's bytes. Page tables and frame allocators are those of the x86_64 crate, a parameter; a
-- page is its number, a frame the address of its first byte.
pub mod Supply
pub mod Pages
pub mod Copy
pub mod Segment
pub mod Stack
pub mod Load
pub mod Relocate
pub mod Enter
pub mod Flat
mod Tests
use cat.Common.{ℕ, zero, suc, ◌+◌, ◌-◌, ◌*◌, ◌/◌, ◌%◌, ◌^◌, min, Bool, true, false, not, ◌&&◌}
use cat.Common.{
  Option, none, some, List, length, get_elem?, Memory, fill, within, Run, done, panic, ◌>>=◌, ◌==◌,
  ltb, leb,
}
use cat.Common.{if◌then◌else◌, u64}

-- The flags that vary; all pages are present.
pub record PageTableFlags : Type 0 where
  pub user_accessible : Bool
  pub writable : Bool
  pub no_execute : Bool

pub record ProgramHeader : Type 0 where
  pub virtual_addr : ℕ
  pub mem_size : ℕ
  pub file_size : ℕ
  pub offset : ℕ
  pub is_write : Bool
  pub is_execute : Bool

-- What the loader uses of the crate. `virt_addr` tells whether `VirtAddr::new` takes an address.
pub record Paging : Type 1 where
  pub Table : Type 0
  pub Frames : Type 0
  pub translate_page : Table → ℕ → Option ℕ
  pub allocate_frame : Frames → Option ℕ × Frames
  pub map_to : Table → Frames → ℕ → ℕ → PageTableFlags → Option (Table × Frames)
  pub virt_addr : ℕ → Bool

pub pool_flags : PageTableFlags
pool_flags = record { user_accessible = true; writable = true; no_execute = true }

abbrev pub containing_page : ℕ → ℕ
containing_page addr = addr / 4096

abbrev pub get_byte : List ℕ → ℕ → ℕ
get_byte bytes i = elim (get_elem? bytes i) [ none ↦ 0 | some b ↦ b ]

module _ (paging : Paging) (hhdm : ℕ) where
  pub record Space : Type 0 where
    pub table : paging.Table
    pub frames : paging.Frames
    pub memory : Memory

  -- `core::ptr::write_bytes(frame_ptr, 0, 4096)`.
  abbrev pub zeroed : ℕ → Memory → Memory
  zeroed frame memory = fill (u64 (frame + hhdm)) 0 4096 memory

  pub use_mapping : ℕ → Memory → Option (paging.Table × paging.Frames) → Run Space
  use_mapping frame memory none = panic
  use_mapping frame memory (some (table, frames)) =
      done (record { table = table; frames = frames; memory = zeroed frame memory })

  pub use_frame : PageTableFlags → ℕ → Space → Option ℕ × paging.Frames → Run Space
  use_frame flags page s (none, frames) = panic
  use_frame flags page s (some frame, frames) =
      use_mapping frame s.memory (paging.map_to s.table frames page frame flags)

  pub map_unless : PageTableFlags → ℕ → Space → Option ℕ → Run Space
  map_unless flags page s (some frame) = done s
  map_unless flags page s none = use_frame flags page s (paging.allocate_frame s.frames)

  -- The loop over `Page::range_inclusive`, with the number of its pages.
  pub map_pages : PageTableFlags → ℕ → ℕ → Space → Run Space
  map_pages flags zero page s = done s
  map_pages flags (suc rounds) page s =
      map_unless flags page s (paging.translate_page s.table page)
      >>= map_pages flags rounds (page + 1)

  pub map_range : PageTableFlags → ℕ → ℕ → Space → Run Space
  map_range flags first last = map_pages flags (last + 1 - first) first

  -- The regions for mmap and brk that `load_user_elf` maps behind the segments.
  pub map_pools : Space → Run Space
  map_pools s =
      map_range pool_flags (containing_page 4718592) (containing_page (5242880 - 1)) s
      >>= map_range pool_flags (containing_page 134217728) (containing_page (135266304 - 1))

  pub copy_page : List ℕ → ℕ → ℕ → ℕ → Space → Option ℕ → Run Space
  copy_page file_data copied page_offset count s none = panic
  copy_page file_data copied page_offset count s (some frame) =
      let dest = u64 (u64 (frame + hhdm) + page_offset) in
      done (record s {
        memory = λ a.
            if within dest count a then get_byte file_data (copied + (a - dest)) else s.memory a;
      })

  -- `file_data` is the segment's part of the file. Each round copies a byte at least, so that
  -- `segment_filesz` rounds are enough.
  pub copy_loop : List ℕ → ℕ → ℕ → ℕ → ℕ → Space → Run Space
  copy_loop file_data filesz zero copied vaddr s = done s
  copy_loop file_data filesz (suc fuel) copied vaddr s =
      let page_offset = vaddr % 4096 in
      let count = min (4096 - page_offset) (filesz - copied) in
      let copy =
        if paging.virt_addr vaddr
        then copy_page file_data copied page_offset count s
            (paging.translate_page s.table (containing_page vaddr))
        else panic in
      let rest = copy >>= copy_loop file_data filesz fuel (copied + count) (u64 (vaddr + count)) in
      if ltb copied filesz then rest else done s

  -- `slice` gives a range of the file's bytes, or nothing past its end.
  pub load_segment : (ℕ → ℕ → Option (List ℕ)) → ProgramHeader → ℕ → Space → Run Space
  load_segment slice ph base_addr s =
      let vaddr = u64 (base_addr + ph.virtual_addr) in
      let end_addr = u64 (vaddr + ph.mem_size) in
      let flags : PageTableFlags = record {
        user_accessible = true;
        writable = ph.is_write;
        no_execute = not ph.is_execute;
      } in
      let copy : Space → Run Space = λ t. elim (slice ph.offset ph.file_size) [
        | none ↦ panic
        | some file_data ↦ copy_loop file_data ph.file_size ph.file_size 0 vaddr t
      ] in
      let mapped : Run Space =
        if paging.virt_addr vaddr && paging.virt_addr (end_addr - 1)
        then map_range flags (containing_page vaddr) (containing_page (end_addr - 1)) s
        else panic in
      if ph.mem_size == 0
      then done s
      else (mapped >>= λ t. if ph.file_size == 0 then done t else copy t)
