-- ===== src/Elf/Tests.antt =====
-- kernel/src/elf_loader.rs: the loader over page tables that are functions.
use cat.Common.{ℕ, ◌+◌, ◌≡◌, refl, arith, [], ◌∷◌, Option, some, Run, done, Ends, true, false}
use cat.Common.{◌>>=◌}
use cat.Elf.{
  ProgramHeader, Space, pool_flags, map_pages, map_range, map_pools, map_unless, use_frame,
  use_mapping, copy_page, copy_loop, load_segment,
}
use cat.Common.{u64}
use cat.Elf.Flat.{flat, flat-IsSupplied, start, start-IsApart}
use cat.Elf.Pages.{Maps, map_pages-Maps}
use cat.Elf.Segment.{IsLoadable, Loaded, load_segment-Loaded}

-- Three bytes at the end of page 1024, two of which are in the file; the third is page 1025's.
abbrev header : ProgramHeader
header = record {
  virtual_addr = 4095;
  mem_size = 3;
  file_size = 2;
  offset = 0;
  is_write = true;
  is_execute = false;
}

abbrev summary : Run (Space flat 1000000) → Run (Option ℕ × ℕ × ℕ × ℕ)
summary r = r >>= λ s. done (s.table 1025, s.memory 1004095, s.memory 1008192, s.memory 1008193)

segment_loaded :
    summary (load_segment flat 1000000 (λ _ _. some (5 ∷ 6 ∷ [])) header 4194304 start)
    ≡ done (some 8192, 5, 6, 0)
unfolding load_segment map_range map_pages map_unless use_frame use_mapping copy_loop copy_page
segment_loaded = refl

pool_mapped : (map_pools flat 1000000 start >>= λ s. done (s.table 1279)) ≡ done (some 528384)
unfolding map_pools pool_flags map_range map_pages map_unless use_frame use_mapping
pool_mapped = refl

three_pages_mapped :
    Ends
      (map_pages flat 1000000 pool_flags 3 1023 start)
      (Maps flat 1000000 flat-IsSupplied 1023 (1023 + 3) start)
three_pages_mapped =
    map_pages-Maps flat 1000000 flat-IsSupplied pool_flags 3 1023 start start-IsApart (omega arith)

-- The same bytes two pages further, where no page is mapped.
abbrev later_header : ProgramHeader
later_header = record header { virtual_addr = 12287 }

later_header-IsLoadable :
    IsLoadable flat 1000000 flat-IsSupplied later_header (u64 (4194304 + 12287)) start
later_header-IsLoadable = record {
  apart = start-IsApart;
  sizes = omega arith;
  lower = omega arith;
  unmapped = λ q low high. ground arith;
  enough = omega arith;
}

load_segment-Loaded_example :
    Ends
      (load_segment flat 1000000 (λ _ _. some (5 ∷ 6 ∷ [])) later_header 4194304 start)
      (Loaded flat 1000000 flat-IsSupplied later_header (5 ∷ 6 ∷ []) (u64 (4194304 + 12287)) start)
load_segment-Loaded_example =
    load_segment-Loaded flat 1000000 flat-IsSupplied (λ _ _. some (5 ∷ 6 ∷ [])) later_header 4194304
      (5 ∷ 6 ∷ []) start refl later_header-IsLoadable (omega arith)
