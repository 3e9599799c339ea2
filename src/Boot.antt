-- ===== src/Boot.antt =====
-- uefi_boot/src/main.rs: the bootloader. The firmware, the ELF parser and the page tables of the
-- x86_64 crate are parameters; `phys_addr` and `virt_addr` tell which addresses `PhysAddr::new` and
-- `VirtAddr::new` take. The mapping loops have the number of their rounds.
pub mod Bump
pub mod Bound
pub mod Kernel
pub mod Graphics
pub mod Main
mod Tests
use cat.Common.{ℕ, zero, suc, ◌+◌, ◌-◌, ◌*◌, ◌/◌, ◌%◌, ◌^◌, bit_and, Bool, true, false, not, ◌&&◌}
use cat.Common.{Option, none, some, List, [], ◌∷◌, length, Run, done, panic, ◌>>=◌, ◌==◌, ltb, leb}
use cat.Common.{if◌then◌else◌, u64, not64, div_ceil, Memory, within, fill}
use cat.Elf.{get_byte}
use cat.Pmm.{MemoryDescriptor}
use cat.Screen.{PixelFormat, rgb, bgr}

pub record BumpAllocator : Type 0 where
  pub next : ℕ
  pub end : ℕ

-- `BumpAllocator::new`.
pub new_bump : ℕ → ℕ → BumpAllocator
new_bump start pages =
    let size = u64 (pages * 4096) in record { next = start; end = u64 (start + size) }

pub allocate_frame : (ℕ → Bool) → BumpAllocator → Run (Option ℕ × BumpAllocator)
allocate_frame phys_addr a =
    if leb a.end a.next
    then done (none, a)
    else (if phys_addr a.next
        then done (some (a.next / 4096 * 4096), record a { next = u64 (a.next + 4096) })
        else panic)

-- The bound of physical memory, from the memory map.
pub bound_loop : List MemoryDescriptor → ℕ → ℕ
bound_loop [] max = max
bound_loop (d ∷ ds) max =
    let end = u64 (d.phys_start + u64 (d.page_count * 4096)) in
    bound_loop ds (if ltb max end then end else max)

pub max_phys_addr : List MemoryDescriptor → ℕ
max_phys_addr ds = bit_and (u64 (bound_loop ds 0 + 0x1fffff)) (not64 0x1fffff)

abbrev pub hhdm_offset : ℕ
hhdm_offset = 0xffff800000000000

abbrev pub stack_top : ℕ
stack_top = 0xffffffff80000000 - 0x1000

abbrev pub framebuffer_virt_base : ℕ
framebuffer_virt_base = 0xffffa00000000000

-- The formats of the firmware's graphics output.
pub data UefiPixelFormat : Type 0 where
  uefi_rgb uefi_bgr bitmask blt_only : UefiPixelFormat

pub pixel_format : UefiPixelFormat → PixelFormat
pixel_format uefi_rgb = rgb
pixel_format uefi_bgr = bgr
pixel_format _ = rgb

-- The flags of a page beside PRESENT, which every page has.
pub record PageFlags : Type 0 where
  pub writable : Bool
  pub no_cache : Bool

abbrev pub memory_flags : PageFlags
memory_flags = record { writable = true; no_cache = false }

abbrev pub framebuffer_flags : PageFlags
framebuffer_flags = record { writable = true; no_cache = true }

-- `map_to` for pages of 4 KiB and of 2 MiB: the page's number, the frame's address and, for 4 KiB, the
-- flags; a page of 2 MiB is writable. A page table of the firmware's is a value.
pub record Mapper : Type 1 where
  pub Table : Type 0
  pub translate_page : Table → ℕ → Option ℕ
  pub map_to : Table → BumpAllocator → ℕ → ℕ → PageFlags → Option (Table × BumpAllocator)
  pub map_to_2m : Table → BumpAllocator → ℕ → ℕ → Option (Table × BumpAllocator)
  pub phys_addr : ℕ → Bool
  pub virt_addr : ℕ → Bool

pub record Segment : Type 0 where
  pub mem_size : ℕ
  pub file_size : ℕ
  pub virtual_addr : ℕ
  pub is_write : Bool

module _ (mapper : Mapper) where
  pub record Loader : Type 0 where
    pub table : mapper.Table
    pub frames : BumpAllocator
    pub memory : Memory

  -- `.expect` on the result of `map_to`.
  pub must_map : Loader → Option (mapper.Table × BumpAllocator) → Run Loader
  must_map l none = panic
  must_map l (some (table, frames)) = done (record l { table = table; frames = frames })

  -- `let _ = … .ok()`: a failure leaves the tables as they were.
  pub may_map : Loader → Option (mapper.Table × BumpAllocator) → Loader
  may_map l none = l
  may_map l (some (table, frames)) = record l { table = table; frames = frames }

  -- Pages from `page` on, to frames that follow one another from `frame_addr`.
  pub map_segment : PageFlags → ℕ → ℕ → ℕ → Loader → Run Loader
  map_segment flags zero page frame_addr l = done l
  map_segment flags (suc rounds) page frame_addr l =
      (if mapper.phys_addr frame_addr
        then must_map l (mapper.map_to l.table l.frames page (frame_addr / 4096 * 4096) flags)
        else panic)
      >>= map_segment flags rounds (page + 1) (u64 (frame_addr + 4096))

  -- The segment's bytes at the frames that the firmware gave, with zeros behind them up to
  -- `mem_size`. A slice past the end panics.
  pub fill_segment : List ℕ → Segment → ℕ → Loader → Run Loader
  fill_segment file_data ph phys l =
      if leb ph.file_size (div_ceil ph.mem_size 4096 * 4096) && length file_data == ph.file_size
      then done (record l {
        memory = λ a.
            if within phys ph.file_size a
            then get_byte file_data (a - phys)
            else if within (phys + ph.file_size) (ph.mem_size - ph.file_size) a
            then 0
            else l.memory a;
      })
      else panic

  -- `allocate` is `boot::allocate_pages` for the segment, `file_data` its slice of the kernel file.
  pub load_segment : Option ℕ → Option (List ℕ) → Segment → Loader → Run Loader
  load_segment none file_data ph l = panic
  load_segment (some phys) none ph l = panic
  load_segment (some phys) (some file_data) ph l =
      let last = u64 (ph.virtual_addr + ph.mem_size + 2 ^ 64 - 1) in
      let first_page = ph.virtual_addr / 4096 in
      fill_segment file_data ph phys l >>= λ l'.
      (if mapper.virt_addr ph.virtual_addr && mapper.virt_addr last
        then map_segment (record { writable = ph.is_write; no_cache = false })
            (last / 4096 + 1 - first_page) first_page phys l'
        else panic)

  pub map_stack_frame : ℕ → Loader → Option ℕ × BumpAllocator → Run Loader
  map_stack_frame page l (none, frames) = panic
  map_stack_frame page l (some frame, frames) =
      must_map (record l { frames = frames }) (mapper.map_to l.table frames page frame memory_flags)

  pub map_stack_loop : ℕ → ℕ → Loader → Run Loader
  map_stack_loop zero page l = done l
  map_stack_loop (suc rounds) page l =
      allocate_frame mapper.phys_addr l.frames
      >>= map_stack_frame page l
      >>= map_stack_loop rounds (page + 1)

  pub map_stack : Loader → Run Loader
  map_stack l =
      let first = (stack_top - 20 * 1024) / 4096 in
      let last = (stack_top - 1) / 4096 in map_stack_loop (last + 1 - first) first l

  -- Frames of 2 MiB from `frame` on, into the direct map.
  pub map_hhdm_loop : ℕ → ℕ → Loader → Run Loader
  map_hhdm_loop zero frame l = done l
  map_hhdm_loop (suc rounds) frame l =
      let phys = frame * 0x200000 in
      let virt = u64 (phys + hhdm_offset) in
      (if mapper.virt_addr virt
        then done (may_map l (mapper.map_to_2m l.table l.frames (virt / 0x200000) phys))
        else panic)
      >>= map_hhdm_loop rounds (frame + 1)

  pub map_hhdm : ℕ → Loader → Run Loader
  map_hhdm max_phys l =
      let last = u64 (max_phys + 2 ^ 64 - 1) in
      if mapper.phys_addr last then map_hhdm_loop (last / 0x200000 + 1) 0 l else panic

  -- The running code, at its own addresses: 512 pages from that of `current_rip`.
  pub map_identity_loop : ℕ → ℕ → Loader → Run Loader
  map_identity_loop zero addr l = done l
  map_identity_loop (suc rounds) addr l =
      (if mapper.virt_addr addr && mapper.phys_addr addr
        then done (
            may_map l
              (mapper.map_to l.table l.frames (addr / 4096) (addr / 4096 * 4096) memory_flags))
        else panic)
      >>= map_identity_loop rounds (u64 (addr + 4096))

  pub map_identity : ℕ → Loader → Run Loader
  map_identity current_rip = map_identity_loop 512 (bit_and current_rip (not64 0xfff))

  -- The frames of the frame buffer, which starts at `phys`.
  pub map_framebuffer_loop : ℕ → ℕ → ℕ → Loader → Run Loader
  map_framebuffer_loop phys zero frame l = done l
  map_framebuffer_loop phys (suc rounds) frame l =
      let offset = u64 (frame * 4096 + 2 ^ 64 - phys) in
      let virt = u64 (framebuffer_virt_base + offset) in
      (if mapper.virt_addr virt
        then must_map l
            (mapper.map_to l.table l.frames (virt / 4096) (frame * 4096) framebuffer_flags)
        else panic)
      >>= map_framebuffer_loop phys rounds (frame + 1)

  pub map_framebuffer : ℕ → ℕ → Loader → Run Loader
  map_framebuffer phys size l =
      let last = u64 (phys + size + 2 ^ 64 - 1) in
      if mapper.phys_addr phys && mapper.phys_addr last
      then map_framebuffer_loop phys (last / 4096 + 1 - phys / 4096) (phys / 4096) l
      else panic

  -- The loadable segments, each with the pages that the firmware gave and its slice of the file.
  pub load_segments : List (Option ℕ × Option (List ℕ) × Segment) → Loader → Run Loader
  load_segments [] l = done l
  load_segments ((phys, file_data, ph) ∷ rest) l =
      load_segment phys file_data ph l >>= load_segments rest
