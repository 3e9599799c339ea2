-- ===== src/Boot/Bound.antt =====
-- uefi_boot/src/main.rs: the bound of physical memory, and what the kernel's memory manager asks of
-- it.
use cat.Common.{ℕ, ◌+◌, ◌*◌, ◌/◌, ◌%◌, ◌^◌, ◌≤◌, ◌<◌, ◌≡◌, ◌∙◌, arith}
use cat.Common.{List, [], ◌∷◌, u64, bit_and-high, max}
use cat.Common.{if◌then◌else◌, ltb}
use cat.Pmm.{MemoryDescriptor}
use cat.Pmm.Init.{IsMemoryMap}
use cat.Boot.{bound_loop, max_phys_addr}

abbrev pub end_of : MemoryDescriptor → ℕ
end_of d = d.phys_start + d.page_count * 4096

-- The end of the highest region.
abbrev pub highest : List MemoryDescriptor → ℕ
highest [] = 0
highest (d ∷ ds) = max (end_of d) (highest ds)

bound_loop-highest :
    (ds : List MemoryDescriptor) (m : ℕ)
    → highest ds < 2 ^ 64
    → bound_loop ds m ≡ max m (highest ds)
unfolding bound_loop
bound_loop-highest [] m h = ground arith
bound_loop-highest (d ∷ ds) m h =
    let low : highest ds < 2 ^ 64 = ground arith in
    let own : end_of d < 2 ^ 64 = ground arith in
    let exact : u64 (d.phys_start + u64 (d.page_count * 4096)) ≡ end_of d = omega arith in
    rw exact (bound_loop-highest ds (if ltb m (end_of d) then end_of d else m) low ∙ ground arith)

-- The bound is the end of the highest region, rounded up to 2 MiB.
max_phys_addr_lem :
    (ds : List MemoryDescriptor)
    → highest ds + 2 ^ 21 ≤ 2 ^ 64
    → max_phys_addr ds ≡ (highest ds + 0x1fffff) / 2 ^ 21 * 2 ^ 21
unfolding max_phys_addr
max_phys_addr_lem ds h =
    let low : highest ds < 2 ^ 64 = omega arith in
    let top : max 0 (highest ds) ≡ highest ds = ground arith in
    let exact : u64 (bound_loop ds 0 + 0x1fffff) ≡ highest ds + 0x1fffff =
      omega (arith, bound_loop-highest ds 0 low, top) in
    rw exact (bit_and-high 21 (highest ds + 0x1fffff) (omega arith) (omega arith))

-- Where no region of the firmware's map wraps and one has memory, the bound is a multiple of 2 MiB
-- less than 2 MiB above the end of the highest region, and it is what init_internal asks of a map
-- that has no region beyond that end, as the map at the exit of the boot services.
pub max_phys_addr-IsMemoryMap :
    (ds : List MemoryDescriptor) (desc : ℕ → MemoryDescriptor) (len : ℕ)
    → highest ds + 2 ^ 21 ≤ 2 ^ 64
    → 1 ≤ highest ds
    → ((j : ℕ) → j < len → end_of (desc j) ≤ highest ds)
    → (max_phys_addr ds % 2 ^ 21 ≡ 0)
      × (max_phys_addr ds < highest ds + 2 ^ 21)
      × IsMemoryMap desc len (max_phys_addr ds)
max_phys_addr-IsMemoryMap ds desc len fits some_memory inside =
    let bound = max_phys_addr_lem ds fits in
    rw bound (
      omega arith,
      omega arith,
      record {
        within = λ j h. omega (arith, inside j h);
        width = omega arith;
        has_frame = omega arith;
      },
    )
