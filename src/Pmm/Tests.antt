-- ===== src/Pmm/Tests.antt =====
-- kernel/src/pmm.rs: runs of the model at concrete memory maps, and the theorems at them.
use cat.Common.{ℕ, zero, suc, ◌+◌, ◌*◌, ◌^◌, ◌≤◌, ◌<◌, ◌≡◌, refl, arith, List, [], ◌∷◌, none, some}
use cat.Common.{Option, not, ◌&&◌, ◌||◌, done, panic, ltb, if◌then◌else◌, ◌⊎◌, ◌-◌}
use cat.Pmm.{BitmapPmm, MemoryDescriptor, init_internal, allocate_frame_internal}
use cat.Pmm.Bits.{FitsWords, is_free, Marks}
use cat.Pmm.Regions.{mark_region_free-Marks, mark_region_used-Marks, in_range}
use cat.Pmm.Init.{IsMemoryMap, IsSuitable, Initialises, is_usable, init_internal-cases}
use cat.Pmm.{
  free_if_usable, mark_free_if_managed, mark_used, mark_free, mark_region_free, mark_region_used,
  descriptor,
}
use cat.Pmm.Alloc.{IsValid, Allocates, allocate_frame_internal-Allocates}
use cat.Pmm.Sequence.{allocate_frames, Ascends, allocate_frames-Ascends}

-- 128 frames; 3, 64 and 65 are free.
abbrev sparse : BitmapPmm
sparse = record {
  bitmap = (2 ^ 64 - 9) ∷ (2 ^ 64 - 4) ∷ [];
  total_frames = 128;
  bitmap_size_u64 = 2;
  bitmap_start_addr = 4096;
}

sparse_fits : FitsWords sparse
sparse_fits zero = omega arith
sparse_fits (suc zero) = omega arith
sparse_fits (suc (suc i)) = omega arith

sparse-IsValid : IsValid sparse
sparse-IsValid = record {
  all_mapped = refl;
  covers = omega arith;
  addressable = omega arith;
  fits = sparse_fits;
}

sparse_frames : allocate_frames 4 sparse ≡ done (some 12288 ∷ some 262144 ∷ some 266240 ∷ none ∷ [])
unfolding allocate_frames allocate_frame_internal
sparse_frames = refl

-- Two usable regions, the first at address 0, and one of another type between them.
abbrev sample_map : ℕ → MemoryDescriptor
sample_map addr =
    if ltb addr 48
    then record { type_ = 7; phys_start = 0; virt_start = 0; page_count = 2; attribute = 0 }
    else if ltb addr 96
    then record { type_ = 4; phys_start = 8192; virt_start = 0; page_count = 4; attribute = 0 }
    else record { type_ = 7; phys_start = 24576; virt_start = 0; page_count = 3; attribute = 0 }

sample_init :
    init_internal sample_map 0 3 48 0 36864
    ≡ done (record {
      bitmap = (2 ^ 64 - 1 - (2 + 128 + 256)) ∷ [];
      total_frames = 9;
      bitmap_size_u64 = 1;
      bitmap_start_addr = 24576;
    })
unfolding init_internal free_if_usable mark_region_free mark_free_if_managed mark_free
    mark_region_used mark_used
sample_init = refl

sample_within :
    (j : ℕ)
    → j < 3
    → (descriptor sample_map 0 48 j).phys_start + (descriptor sample_map 0 48 j).page_count * 4096
      ≤ 36864
sample_within zero h = omega arith
sample_within (suc zero) h = omega arith
sample_within (suc (suc zero)) h = omega arith
sample_within (suc (suc (suc j))) h = absurd (omega arith)

sample_map-IsMemoryMap : IsMemoryMap (descriptor sample_map 0 48) 3 36864
sample_map-IsMemoryMap = record {
  within = sample_within;
  width = omega arith;
  has_frame = omega arith;
}

allocate_frame_internal-Allocates_example : Allocates sparse (allocate_frame_internal sparse)
allocate_frame_internal-Allocates_example = allocate_frame_internal-Allocates sparse sparse-IsValid

allocate_frames-Ascends_example :
    (rs : List (Option ℕ)) × (allocate_frames 4 sparse ≡ done rs) × Ascends 524288 0 rs
allocate_frames-Ascends_example =
    allocate_frames-Ascends 4 0 sparse sparse-IsValid (λ g h. absurd (omega arith))

init_internal-cases_example :
    let desc = descriptor sample_map 0 48 in
    let r = init_internal sample_map 0 3 48 0 36864 in
    ((r ≡ panic) × ((j : ℕ) → j < 3 → ¬ IsSuitable 8 (desc j)))
    ⊎ ((j : ℕ) × (j < 3)
        × IsSuitable 8 (desc j)
        × Initialises (is_usable sample_map 0 48 3 0) 36864 (desc j).phys_start r)
init_internal-cases_example = init_internal-cases sample_map 0 3 48 0 36864 sample_map-IsMemoryMap

three_more_free :
    (q : BitmapPmm) × (mark_region_free sparse 8192 3 ≡ done q)
    × Marks sparse q (λ g. is_free sparse g || in_range 2 3 g && ltb g 128)
three_more_free = mark_region_free-Marks sparse 8192 3 (omega arith) (omega arith)

two_more_used :
    (q : BitmapPmm) × (mark_region_used sparse 12288 2 ≡ done q)
    × Marks sparse q (λ g. is_free sparse g && not (in_range 3 2 g))
two_more_used = mark_region_used-Marks sparse 12288 2 (omega arith) (omega arith)
