-- ===== src/Boot/Tests.antt =====
-- uefi_boot/src/main.rs: the bootloader at small inputs.
use cat.Common.{
  ℕ, ◌+◌, ◌^◌, ◌%◌, ◌<◌, ◌≡◌, refl, arith, List, [], ◌∷◌, Option, none, some, done, Ends, true,
}
use cat.Common.{◌==◌, if◌then◌else◌, ltb}
use cat.Pmm.{MemoryDescriptor}
use cat.Pmm.Init.{IsMemoryMap}
use cat.Boot.{
  Mapper, Loader, Segment, new_bump, max_phys_addr, bound_loop, load_segment, pixel_format,
  blt_only,
}
use cat.Screen.{rgb}
use cat.Boot.Bump.{take_frames, take_frames-new_bump}
use cat.Boot.Bound.{highest, max_phys_addr-IsMemoryMap}
use cat.Boot.Kernel.{IsMapper, IsPlaceable, Placed, load_segment-Placed}

take_frames-new_bump_example :
    take_frames (λ x. ltb x (2 ^ 52)) 3 (new_bump 8192 2)
    ≡ done (some 8192 ∷ some 12288 ∷ none ∷ [])
take_frames-new_bump_example =
    take_frames-new_bump (λ x. ltb x (2 ^ 52)) 8192 2 (omega arith) (omega arith)
      (λ x h. ground arith) 3

abbrev region : ℕ → ℕ → MemoryDescriptor
region start pages = record {
  type_ = 7;
  phys_start = start;
  virt_start = 0;
  page_count = pages;
  attribute = 0;
}

abbrev regions : List MemoryDescriptor
regions = region 0 160 ∷ region 0x100000 1000 ∷ region 0x700000 1 ∷ []

bound_of_regions : max_phys_addr regions ≡ 0x800000
unfolding max_phys_addr bound_loop
bound_of_regions = refl

regions_bounded :
    (max_phys_addr regions % 2 ^ 21 ≡ 0)
    × (max_phys_addr regions < highest regions + 2 ^ 21)
    × IsMemoryMap (λ _. region 0x700000 1) 4 (max_phys_addr regions)
regions_bounded =
    max_phys_addr-IsMemoryMap regions (λ _. region 0x700000 1) 4 (omega arith) (omega arith)
      (λ j h. omega arith)

-- Tables that are functions and need no frames.
abbrev flat : Mapper
flat = record {
  Table = ℕ → Option ℕ;
  translate_page = λ t page. t page;
  map_to = λ t a page frame w. some ((λ q. if q == page then some frame else t q), a);
  map_to_2m = λ t a page frame. some (t, a);
  phys_addr = λ x. ltb x (2 ^ 52);
  virt_addr = λ x. true;
}

flat_hit :
    (t : ℕ → Option ℕ) (page frame : ℕ) → (if page == page then some frame else t page) ≡ some frame
flat_hit t page frame = ground arith

flat_miss :
    (t : ℕ → Option ℕ) (page frame q : ℕ)
    → (q ≡ page → ⊥)
    → (if q == page then some frame else t q) ≡ t q
flat_miss t page frame q ne = ground arith

flat_accepts : (x : ℕ) → x < 2 ^ 52 → flat.phys_addr x ≡ true
flat_accepts x h = ground arith

abbrev flat-IsMapper : IsMapper flat
flat-IsMapper = record {
  after = λ t a page frame w. ((λ q. if q == page then some frame else t q), a);
  maps = λ t a page frame w e h. refl;
  hit = λ t a page frame w. flat_hit t page frame;
  miss = λ t a page frame w q ne. flat_miss t page frame q ne;
  same_end = λ t a page frame w. refl;
  takes = λ t a page frame w. omega arith;
  accepts = flat_accepts;
}

abbrev empty : Loader flat
empty = record {
  table = λ q. none;
  frames = record { next = 4096; end = 4194304 };
  memory = λ a. 9;
}

abbrev segment : Segment
segment = record {
  mem_size = 4098;
  file_size = 2;
  virtual_addr = 0xffffffff80000000;
  is_write = true;
}

segment-IsPlaceable : IsPlaceable flat flat-IsMapper (5 ∷ 6 ∷ []) segment 8192 empty
segment-IsPlaceable = record {
  sizes = omega arith;
  nonempty = omega arith;
  whole = refl;
  upper = omega arith;
  aligned = omega arith;
  low = omega arith;
  accepts_start = refl;
  accepts_last = refl;
  enough = omega arith;
  unmapped = λ q h k. refl;
}

load_segment-Placed_example :
    Ends
      (load_segment flat (some 8192) (some (5 ∷ 6 ∷ [])) segment empty)
      (Placed flat flat-IsMapper (5 ∷ 6 ∷ []) segment empty)
load_segment-Placed_example =
    load_segment-Placed flat flat-IsMapper (5 ∷ 6 ∷ []) segment 8192 empty segment-IsPlaceable

fallback_format : pixel_format blt_only ≡ rgb
unfolding pixel_format
fallback_format = refl
