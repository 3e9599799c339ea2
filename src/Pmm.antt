-- ===== src/Pmm.antt =====
-- kernel/src/pmm.rs: the physical memory manager, a bitmap with one bit for each 4 KiB frame.
-- The memory behind `bitmap` is the list of its 64-bit words; an index past its end is a fault.
-- The memory map is read through `desc_at`, what a `MemoryDescriptor` pointer reads at an address.
mod Bits
pub mod Spec
pub mod Alloc
pub mod Sequence
pub mod Regions
pub mod Init
pub mod Allocator
mod Tests
use Prim.Native.Nat.{ℕ, zero, suc, ◌+◌, ◌-◌, ◌*◌, ◌/◌, ◌%◌, ◌^◌, bit_and, bit_or}
use mathlib.Core.Bool.{Bool, true, false, not, ◌&&◌, ◌||◌}
use mathlib.Core.Option.{Option, none, some}
use mathlib.Core.List.{List, []}
use cat.Common.{u64, not64, div_ceil, trailing_zeros, ltb, leb, ◌==◌, if◌then◌else◌}
use cat.Common.{get_elem?, set, replicate, Run, done, panic, fault, ◌>>=◌, deref}

abbrev pub page_size : ℕ
page_size = 4096

pub record MemoryDescriptor : Type 0 where
  pub type_ : ℕ
  pub phys_start : ℕ
  pub virt_start : ℕ
  pub page_count : ℕ
  pub attribute : ℕ

pub record BitmapPmm : Type 0 where
  pub bitmap : List ℕ
  pub total_frames : ℕ
  pub bitmap_size_u64 : ℕ
  pub bitmap_start_addr : ℕ

-- The static `PMM` before `init`.
abbrev pub empty_pmm : BitmapPmm
empty_pmm = record { bitmap = []; total_frames = 0; bitmap_size_u64 = 0; bitmap_start_addr = 0 }

-- `*self.bitmap.add(idx)`, read and written.
pub load : BitmapPmm → ℕ → Run ℕ
load p idx = deref (get_elem? p.bitmap idx)

abbrev pub store : BitmapPmm → ℕ → ℕ → BitmapPmm
store p idx word = record p { bitmap = set p.bitmap idx word }

pub mark_used : BitmapPmm → ℕ → Run BitmapPmm
unfolding load
mark_used p frame_idx =
    let word_idx = frame_idx / 64 in
    let bit_idx = frame_idx % 64 in
    do word ← load p word_idx; done (store p word_idx (bit_or word (2 ^ bit_idx)))

pub mark_free : BitmapPmm → ℕ → Run BitmapPmm
unfolding load
mark_free p frame_idx =
    let word_idx = frame_idx / 64 in
    let bit_idx = frame_idx % 64 in
    do word ← load p word_idx; done (store p word_idx (bit_and word (not64 (2 ^ bit_idx))))

-- The loops of the region helpers from index `i`, with `rounds` left.
pub mark_used_loop : ℕ → ℕ → ℕ → BitmapPmm → Run BitmapPmm
mark_used_loop start_frame zero i p = done p
mark_used_loop start_frame (suc rounds) i p = do
  p' ← mark_used p (u64 (start_frame + i))
  mark_used_loop start_frame rounds (i + 1) p'

pub mark_region_used : BitmapPmm → ℕ → ℕ → Run BitmapPmm
unfolding mark_used_loop
mark_region_used p start_addr page_count = mark_used_loop (start_addr / page_size) page_count 0 p

pub mark_free_if_managed : BitmapPmm → ℕ → Run BitmapPmm
mark_free_if_managed p frame = if ltb frame p.total_frames then mark_free p frame else done p

pub mark_free_loop : ℕ → ℕ → ℕ → BitmapPmm → Run BitmapPmm
mark_free_loop start_frame zero i p = done p
mark_free_loop start_frame (suc rounds) i p = do
  p' ← mark_free_if_managed p (u64 (start_frame + i))
  mark_free_loop start_frame rounds (i + 1) p'

pub mark_region_free : BitmapPmm → ℕ → ℕ → Run BitmapPmm
unfolding mark_free_loop
mark_region_free p start_addr page_count = mark_free_loop (start_addr / page_size) page_count 0 p

-- The body of the search loop at a word that is not all ones.
pub take_from : BitmapPmm → ℕ → ℕ → Run (Option ℕ × BitmapPmm)
unfolding mark_used trailing_zeros
take_from p idx entry =
    let inverted = not64 entry in
    let bit_idx = trailing_zeros 64 inverted in
    let frame_idx = idx * 64 + bit_idx in
    if leb p.total_frames frame_idx
    then done (none, p)
    else (mark_used p frame_idx >>= λ p'. done (some (u64 (frame_idx * page_size)), p'))

pub allocate_loop : ℕ → ℕ → BitmapPmm → Run (Option ℕ × BitmapPmm)
unfolding load take_from
allocate_loop zero idx p = done (none, p)
allocate_loop (suc rounds) idx p = do
  entry ← load p idx
  let rest = allocate_loop rounds (idx + 1) p
  if not (entry == not64 0) then take_from p idx entry else rest

pub allocate_frame_internal : BitmapPmm → Run (Option ℕ × BitmapPmm)
unfolding allocate_loop
allocate_frame_internal p = allocate_loop p.bitmap_size_u64 0 p

-- The two tests of the first loop of `init_internal`.
pub fits_bitmap : ℕ → MemoryDescriptor → Bool
fits_bitmap bytes desc =
    (desc.type_ == 7 && not (desc.phys_start == 0)) && leb bytes (u64 (desc.page_count * page_size))

-- The body of the second loop of `init_internal`.
pub free_if_usable : BitmapPmm → MemoryDescriptor → Run BitmapPmm
free_if_usable p desc =
    if desc.type_ == 7 then mark_region_free p desc.phys_start desc.page_count else done p

module _ (desc_at : ℕ → MemoryDescriptor) (mmap_addr_virt desc_size : ℕ) where
  abbrev pub descriptor : ℕ → MemoryDescriptor
  descriptor i = desc_at (u64 (mmap_addr_virt + u64 (i * desc_size)))

  -- The first loop of `init_internal`; `none` is its initial `u64::MAX`.
  pub find_bitmap_region : ℕ → ℕ → ℕ → Option ℕ
  unfolding fits_bitmap
  find_bitmap_region bytes zero i = none
  find_bitmap_region bytes (suc rounds) i =
      let desc = descriptor i in
      let rest = find_bitmap_region bytes rounds (i + 1) in
      if fits_bitmap bytes desc then some desc.phys_start else rest

  -- The second loop of `init_internal`.
  pub free_usable_regions : ℕ → ℕ → BitmapPmm → Run BitmapPmm
  free_usable_regions zero i p = done p
  free_usable_regions (suc rounds) i p =
      free_if_usable p (descriptor i) >>= λ p'. free_usable_regions rounds (i + 1) p'

-- What follows once the region at `bitmap_phys_addr` has been chosen.
pub init_at : (ℕ → MemoryDescriptor) → ℕ → ℕ → ℕ → ℕ → ℕ → Run BitmapPmm
unfolding free_usable_regions
init_at desc_at mmap_addr_virt mmap_len desc_size max_phys_addr bitmap_phys_addr =
    let total = max_phys_addr / page_size in
    let size = div_ceil total 64 in
    let filled : BitmapPmm = record {
      bitmap = replicate size (not64 0);
      total_frames = total;
      bitmap_size_u64 = size;
      bitmap_start_addr = bitmap_phys_addr;
    } in
    do
      freed ← free_usable_regions desc_at mmap_addr_virt desc_size mmap_len 0 filled
      reserved ← mark_region_used freed bitmap_phys_addr (div_ceil (size * 8) page_size)
      mark_used reserved 0

-- `init_internal` over the virtual address of the map. A region at `u64::MAX` would count as none
-- found.
pub init_mapped : (ℕ → MemoryDescriptor) → ℕ → ℕ → ℕ → ℕ → Run BitmapPmm
unfolding find_bitmap_region init_at
init_mapped desc_at mmap_addr_virt mmap_len desc_size max_phys_addr =
    let bytes = div_ceil (max_phys_addr / page_size) 64 * 8 in
    elim (find_bitmap_region desc_at mmap_addr_virt desc_size bytes mmap_len 0) [
      | none ↦ panic
      | some addr ↦
          if addr == not64 0
          then panic
          else init_at desc_at mmap_addr_virt mmap_len desc_size max_phys_addr addr
    ]

pub init_internal : (ℕ → MemoryDescriptor) → ℕ → ℕ → ℕ → ℕ → ℕ → Run BitmapPmm
unfolding init_mapped
init_internal desc_at mmap_addr_phys mmap_len desc_size hhdm_offset max_phys_addr =
    let mmap_addr_virt = u64 (mmap_addr_phys + hhdm_offset) in
    init_mapped desc_at mmap_addr_virt mmap_len desc_size max_phys_addr
