-- ===== src/Boot/Graphics.antt =====
-- uefi_boot/src/main.rs: where the kernel finds the frame buffer.
use cat.Common.{ℕ, ◌+◌, ◌*◌, ◌/◌, ◌%◌, ◌^◌, ◌≤◌, ◌<◌, ◌≡◌}
use cat.Common.{true, none, some, ◌⊎◌}
use cat.Boot.{Mapper, Loader, framebuffer_virt_base}
use cat.Boot.Kernel.{IsMapper}

abbrev pub first_page : ℕ
first_page = framebuffer_virt_base / 4096

module _ (mapper : Mapper) (laws : IsMapper mapper) where
  -- A frame buffer in whole pages below 2^46, with addresses that VirtAddr::new takes.
  pub record IsMappable (phys size : ℕ) (l : Loader mapper) : Type 0 where
    pub aligned : phys % 4096 ≡ 0
    pub nonempty : 1 ≤ size
    pub low : phys + size ≤ 2 ^ 46
    pub accepts :
        (v : ℕ)
        → framebuffer_virt_base ≤ v
        → v < framebuffer_virt_base + size
        → mapper.virt_addr v ≡ true
    pub enough : l.frames.next + (size / 4096 + 1) * 3 * 4096 ≤ l.frames.end
    pub unmapped :
        (q : ℕ)
        → first_page ≤ q
        → q < first_page + (size + 4095) / 4096
        → mapper.translate_page l.table q ≡ none

  -- Byte `i` of the frame buffer is found `i` bytes behind its virtual address.
  pub record Reaches (phys size : ℕ) (l m : Loader mapper) : Type 0 where
    pub at :
        (i : ℕ)
        → i < size
        → mapper.translate_page m.table ((framebuffer_virt_base + i) / 4096)
          ≡ some ((phys + i) / 4096 * 4096)
    pub outside :
        (q : ℕ)
        → q < first_page ⊎ first_page + (size + 4095) / 4096 ≤ q
        → mapper.translate_page m.table q ≡ mapper.translate_page l.table q
    pub memory : m.memory ≡ l.memory
