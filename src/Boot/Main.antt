-- ===== src/Boot/Main.antt =====
-- uefi_boot/src/main.rs: `main` as a whole, from the kernel file to the jump. What the firmware's calls
-- return is a record, with `none` for a call that fails; `parse` is the xmas_elf crate.
pub mod Jump
pub mod Manager
mod Tests
use cat.Common.{ℕ, ◌+◌, ◌-◌, ◌*◌, ◌^◌, Bool, true, false, ◌&&◌, Option, none, some, List, [], ◌∷◌}
use cat.Common.{
  length, take, drop, Memory, Run, done, panic, ◌>>=◌, if◌then◌else◌, leb, u64, div_ceil,
}
use cat.Pmm.{MemoryDescriptor, BitmapPmm, init_internal}
use cat.Screen.{FrameBufferInfo}
use cat.Boot.{BumpAllocator, new_bump, allocate_frame, max_phys_addr, hhdm_offset}
use cat.Boot.{
  framebuffer_virt_base, UefiPixelFormat, pixel_format, Mapper, Segment, Loader, load_segments,
  map_stack, map_hhdm, map_identity, map_framebuffer,
}

pub record BootInfo : Type 0 where
  pub memory_map_addr : ℕ
  pub memory_map_len : ℕ
  pub memory_map_desc_size : ℕ
  pub hhdm_offset : ℕ
  pub max_phys_memory : ℕ
  pub framebuffer : FrameBufferInfo

-- What `main` reads of the graphics output.
pub record Graphics : Type 0 where
  pub phys_addr : ℕ
  pub size : ℕ
  pub width : ℕ
  pub height : ℕ
  pub stride : ℕ
  pub format : UefiPixelFormat

-- A loadable segment, with its place in the file.
pub record ProgramHeader : Type 0 where
  pub offset : ℕ
  pub segment : Segment

pub record ElfFile : Type 0 where
  pub entry_point : ℕ
  pub program_headers : List ProgramHeader

-- `kernel_file` is the size of the file, whether its pages were allocated, and what `read` gave.
-- Entries of a memory map are listed by their addresses where only these are used.
pub record Firmware : Type 0 where
  pub kernel_file : Option (ℕ × List ℕ)
  pub pool : Option ℕ
  pub segment_pages : List (Option ℕ)
  pub temp_mmap : Option (List ℕ)
  pub mmap_storage : Option (List MemoryDescriptor)
  pub current_rip : ℕ
  pub graphics : Option Graphics
  pub boot_info_page : Option ℕ
  pub mmap : List ℕ

-- `.expect` on the result of a call.
abbrev pub expect {ℓ} : {A : Type ℓ} → Option A → Run A
expect none = panic
expect (some a) = done a

-- `&file_buffer[..len]`, for the buffer of whole pages.
pub kernel_data : ℕ × List ℕ → Run (List ℕ)
kernel_data (file_size, bytes) =
    if leb (length bytes) (div_ceil file_size 0x1000 * 0x1000) then done bytes else panic

-- `&kernel_data[start..end]`, where it is in range.
pub segment_data : List ℕ → ProgramHeader → Option (List ℕ)
segment_data bytes ph =
    let start = ph.offset in
    let end = u64 (start + ph.segment.file_size) in
    if leb start end && leb end (length bytes)
    then some (take (end - start) (drop start bytes))
    else none

-- Each segment with the pages that the firmware gives for it.
pub with_pages :
    List ℕ → List ProgramHeader → List (Option ℕ) → List (Option ℕ × Option (List ℕ) × Segment)
with_pages bytes [] pages = []
with_pages bytes (ph ∷ phs) [] = (none, segment_data bytes ph, ph.segment) ∷ with_pages bytes phs []
with_pages bytes (ph ∷ phs) (page ∷ pages) =
    (page, segment_data bytes ph, ph.segment) ∷ with_pages bytes phs pages

-- `desc_size`, from the first two entries.
pub desc_size : List ℕ → Run ℕ
desc_size (e1 ∷ e2 ∷ rest) = done (u64 (e2 + 2 ^ 64 - e1))
desc_size _ = panic

abbrev pub first_entry : List ℕ → ℕ
first_entry [] = 0
first_entry (d ∷ ds) = d

pub frame_buffer_info : Graphics → FrameBufferInfo
frame_buffer_info g = record {
  buffer_base = framebuffer_virt_base;
  buffer_size = g.size;
  width = g.width;
  height = g.height;
  stride = g.stride;
  format = pixel_format g.format;
}

-- The fields of `boot_info`, those that are filled in after the exit too.
pub boot_info : List MemoryDescriptor → Graphics → ℕ → List ℕ → BootInfo
boot_info mmap_storage g size mmap = record {
  memory_map_addr = first_entry mmap;
  memory_map_len = length mmap;
  memory_map_desc_size = size;
  hhdm_offset = hhdm_offset;
  max_phys_memory = max_phys_addr mmap_storage;
  framebuffer = frame_buffer_info g;
}

-- What `_start` of kernel/src/main.rs hands to `pmm::init`. `desc_at` reads at a virtual address.
pub init_pmm : (ℕ → MemoryDescriptor) → BootInfo → Run BitmapPmm
init_pmm desc_at b =
    init_internal desc_at b.memory_map_addr b.memory_map_len b.memory_map_desc_size b.hhdm_offset
      b.max_phys_memory

-- What the jump is given, and what is in memory then.
pub record Handover (mapper : Mapper) : Type 0 where
  pub loader : Loader mapper
  pub info : BootInfo
  pub pml4 : ℕ
  pub entry : ℕ
  pub boot_info_virt : ℕ

module _ (mapper : Mapper) (parse : List ℕ → Option ElfFile) (zeroed_table : mapper.Table) where
  -- `new_pool` with the pages of the pool, and the frame of the level 4 table.
  pub pml4_frame : ℕ → Run (ℕ × BumpAllocator)
  pml4_frame pool = allocate_frame mapper.phys_addr (new_bump pool 1024) >>= λ (frame, a).
      (expect frame >>= λ pml4. done (pml4, a))

  -- What is mapped before the firmware gives a memory map.
  pub load_kernel : Firmware → List ℕ → ElfFile → Loader mapper → Run (Loader mapper)
  load_kernel fw bytes elf l =
      load_segments mapper (with_pages bytes elf.program_headers fw.segment_pages) l
      >>= map_stack mapper

  -- What is mapped after it: the direct map and the running code, then the frame buffer.
  pub map_memory : Firmware → List MemoryDescriptor → Loader mapper → Run (Loader mapper)
  map_memory fw mmap_storage l =
      map_hhdm mapper (max_phys_addr mmap_storage) l >>= map_identity mapper fw.current_rip

  -- From the parsed file on.
  pub boot : Firmware → Memory → List ℕ → ElfFile → Run (Handover mapper)
  boot fw memory bytes elf = expect fw.pool >>= pml4_frame >>= λ (pml4, a).
      (load_kernel fw bytes elf (record { table = zeroed_table; frames = a; memory = memory })
        >>= λ l.
            (expect fw.temp_mmap >>= desc_size >>= λ size.
            (expect fw.mmap_storage >>= λ mmap_storage.
            (map_memory fw mmap_storage l >>= λ l'.
            (expect fw.graphics >>= λ g.
            (map_framebuffer mapper g.phys_addr g.size l' >>= λ loader.
            (expect fw.boot_info_page >>= λ page. done (record {
              loader = loader;
              info = boot_info mmap_storage g size fw.mmap;
              pml4 = pml4;
              entry = elf.entry_point;
              boot_info_virt = u64 (page + hhdm_offset);
            }))))))))

  pub main_ : Firmware → Memory → Run (Handover mapper)
  main_ fw memory = expect fw.kernel_file >>= kernel_data >>= λ bytes.
      (expect (parse bytes) >>= boot fw memory bytes)
