-- ===== src/Boot/Main/Manager.antt =====
-- uefi_boot/src/main.rs and kernel/src/main.rs: from the firmware's memory map, through BootInfo, to
-- the kernel's memory manager.
use cat.Common.{ℕ, zero, suc, ◌+◌, ◌-◌, ◌/◌}
use cat.Common.{Bool, false, ◌&&◌, ◌||◌, ◌==◌, List, [], ◌∷◌, length, Run}
use cat.Pmm.{MemoryDescriptor, BitmapPmm, page_size}
use cat.Common.{◌>>=◌}
use cat.Pmm.Regions.{in_range}
use cat.Boot.{hhdm_offset}
use cat.Boot.Main.{Graphics, boot_info, desc_size, first_entry, init_pmm}

-- The frame lies in memory that the map says is free to use.
abbrev pub is_listed : List MemoryDescriptor → ℕ → Bool
is_listed [] f = false
is_listed (d ∷ ds) f =
    (d.type_ == 7 && in_range (d.phys_start / page_size) d.page_count f) || is_listed ds f

-- What the kernel reads at a virtual address, through the direct map.
abbrev pub through_map : (ℕ → MemoryDescriptor) → ℕ → MemoryDescriptor
through_map desc_phys v = desc_phys (v - hhdm_offset)

-- A map of `n` entries, `size` bytes apart, in physical memory.
module _ (desc_phys : ℕ → MemoryDescriptor) (size : ℕ) where
  abbrev pub entries : ℕ → ℕ → List MemoryDescriptor
  entries zero a = []
  entries (suc n) a = desc_phys a ∷ entries n (a + size)

-- How the kernel finds its memory: the bootloader measures an entry on the first two of a map.
pub manager_from :
    (ℕ → MemoryDescriptor) → List MemoryDescriptor → Graphics → List ℕ → List ℕ → Run BitmapPmm
manager_from desc_phys mmap_storage g temp mmap =
    desc_size temp >>= λ size. init_pmm (through_map desc_phys) (boot_info mmap_storage g size mmap)

-- The final map: `len` entries of `size` bytes, the first where `mmap` has it.
abbrev pub final_map : (ℕ → MemoryDescriptor) → ℕ → List ℕ → List MemoryDescriptor
final_map desc_phys size mmap = entries desc_phys size (length mmap) (first_entry mmap)
