-- ===== src/Pmm/Init.antt =====
-- kernel/src/pmm.rs: `init_internal` turns the memory map into the bitmap.
use cat.Common.{ℕ, zero, suc, ◌+◌, ◌*◌, ◌/◌, ◌^◌, ◌≤◌, ◌<◌, ◌≡◌, ◌≢◌, refl, arith, Bool, true}
use cat.Common.{false, not, ◌&&◌, ◌||◌, ◌⊎◌, ltb, ◌==◌, Bool-cases, inl, inr, length, u64, Run}
use cat.Common.{done, panic, ◌∙◌, bind-done, not64, div_ceil, replicate, get_or}
use cat.Common.{length-replicate, get_or-replicate, none, some, ==→eq}
use cat.Common.{bit-complement, zero-bit, ◌%◌}
use native.Mathlib.Decide.{dec_lt}
use cat.Pmm.{BitmapPmm, MemoryDescriptor, page_size, descriptor}
use cat.Pmm.{
  free_if_usable, fits_bitmap, find_bitmap_region, free_usable_regions, init_at, init_internal,
}
use cat.Pmm.{init_mapped}
use cat.Pmm.Bits.{is_free, Marks, mark_used-Marks}
use cat.Pmm.Alloc.{IsValid, Marks-IsValid}
use cat.Pmm.Regions.{in_range, Marks-trans, Marks-none, mark_region_used-Marks}
use cat.Pmm.Regions.{mark_region_free-Marks}

-- A region that the bitmap of `bytes` bytes may be put in.
pub record IsSuitable (bytes : ℕ) (d : MemoryDescriptor) : Type 0 where
  pub usable : d.type_ ≡ 7
  pub not_null : d.phys_start ≢ 0
  pub large : bytes ≤ u64 (d.page_count * page_size)

fits_bitmap-IsSuitable :
    (bytes : ℕ) (d : MemoryDescriptor) → fits_bitmap bytes d ≡ true → IsSuitable bytes d
unfolding fits_bitmap
fits_bitmap-IsSuitable bytes d h = record {
  usable = ground arith;
  not_null = ground arith;
  large = ground arith;
}

IsSuitable-fits_bitmap :
    (bytes : ℕ) (d : MemoryDescriptor) → IsSuitable bytes d → fits_bitmap bytes d ≡ true
unfolding fits_bitmap
IsSuitable-fits_bitmap bytes d h = ground (arith, h.not_null)

unsuitable : {bytes : ℕ} (d : MemoryDescriptor) → fits_bitmap bytes d ≡ false → ¬ IsSuitable bytes d
unsuitable {bytes} d e s = cc (IsSuitable-fits_bitmap bytes d s)

free_if_usable-Marks :
    (p : BitmapPmm) (d : MemoryDescriptor)
    → p.total_frames ≤ length p.bitmap * 64
    → d.phys_start / page_size + d.page_count ≤ 2 ^ 64
    → (q : BitmapPmm) × (free_if_usable p d ≡ done q)
      × Marks p q (λ f.
        is_free p f
        || (d.type_ == 7 && in_range (d.phys_start / page_size) d.page_count f)
          && ltb f p.total_frames)
unfolding free_if_usable
free_if_usable-Marks p d h w = elim (Bool-cases (d.type_ == 7)) [
  | inl usable ↦
      let m = mark_region_free-Marks p d.phys_start d.page_count h w in
      (
        m.0,
        rw usable m.1,
        Marks-trans _ m.2 (Marks-none m.0 _ (λ f. refl)) (λ f e. e ∙ rw usable (ground arith)),
      )
  | inr other ↦ (p, rw other refl, Marks-none p _ (λ f. rw other (ground arith)))
]

module _ (desc_at : ℕ → MemoryDescriptor) (base desc_size : ℕ) where
  abbrev desc : ℕ → MemoryDescriptor
  desc i = descriptor desc_at base desc_size i

  -- Frame `f` lies in usable memory, by the `rounds` entries of the map from entry `i` on.
  abbrev pub is_usable : ℕ → ℕ → ℕ → Bool
  is_usable zero i f = false
  is_usable (suc rounds) i f =
      ((desc i).type_ == 7 && in_range ((desc i).phys_start / page_size) (desc i).page_count f)
      || is_usable rounds (i + 1) f

  free_usable_regions-Marks :
      (rounds i : ℕ) (p : BitmapPmm)
      → p.total_frames ≤ length p.bitmap * 64
      → ((j : ℕ)
          → i ≤ j
          → j < i + rounds
          → (desc j).phys_start / page_size + (desc j).page_count ≤ 2 ^ 64)
      → (q : BitmapPmm) × (free_usable_regions desc_at base desc_size rounds i p ≡ done q)
        × Marks p q (λ f. is_free p f || is_usable rounds i f && ltb f p.total_frames)
  unfolding free_usable_regions
  free_usable_regions-Marks zero i p h w = (p, refl, Marks-none p _ (λ f. ground arith))
  free_usable_regions-Marks (suc rounds) i p h w =
      let m = free_if_usable-Marks p (desc i) h (w i (omega arith) (omega arith)) in
      let rest =
        free_usable_regions-Marks rounds (i + 1) m.0
          (omega (arith, m.2.same_length, m.2.same_total))
          (λ j a b. w j (omega arith) (omega arith)) in
      (
        rest.0,
        bind-done _ _ m.1 rest.1,
        Marks-trans _ m.2 rest.2 (λ f e. rw (e, m.2.same_total) (ground arith)),
      )

  -- The search ends at the first suitable entry, or has passed over none.
  find_bitmap_region-cases :
      (bytes rounds i : ℕ)
      → ((find_bitmap_region desc_at base desc_size bytes rounds i ≡ none)
          × ((j : ℕ) → i ≤ j → j < i + rounds → ¬ IsSuitable bytes (desc j)))
        ⊎ ((j : ℕ) × (i ≤ j)
            × (j < i + rounds)
            × IsSuitable bytes (desc j)
            × (find_bitmap_region desc_at base desc_size bytes rounds i ≡ some (desc j).phys_start))
  unfolding find_bitmap_region
  find_bitmap_region-cases bytes zero i = inl (refl, λ j a b. absurd (omega arith))
  find_bitmap_region-cases bytes (suc rounds) i = elim (Bool-cases (fits_bitmap bytes (desc i))) [
    | inl here ↦ inr (i, omega arith, omega arith, fits_bitmap-IsSuitable _ _ here, rw here refl)
    | inr not_here ↦ elim (find_bitmap_region-cases bytes rounds (i + 1)) [
      | inl (e, h) ↦ inl (
        rw not_here e,
        λ j a b s. elim (Bool-cases (j == i)) [
          | inl same ↦
              let s' : IsSuitable bytes (desc i) = rw (==→eq j i same) at s in
              unsuitable (desc i) not_here s'
          | inr later ↦ h j (ground arith) (omega arith) s
        ],
      )
      | inr (j, a, b, s, e) ↦ inr (j, omega arith, omega arith, s, rw not_here e)
    ]
  ]

-- The memory map and the bound that the bootloader hands over: the bound is the end of the last
-- region or above it, fits 64 bits, and leaves room for a frame.
pub record IsMemoryMap (desc : ℕ → MemoryDescriptor) (len max_phys : ℕ) : Type 0 where
  pub within : (j : ℕ) → j < len → (desc j).phys_start + (desc j).page_count * page_size ≤ max_phys
  pub width : max_phys < 2 ^ 64
  pub has_frame : page_size ≤ max_phys

abbrev pub words_for : ℕ → ℕ
words_for max_phys = div_ceil (max_phys / page_size) 64

-- `r` ends with a valid bitmap at `addr` in which a frame below the bound is free exactly when it
-- lies in usable memory, is not taken by the bitmap itself, and is not frame 0.
pub record Initialises (usable : ℕ → Bool) (max_phys addr : ℕ) (r : Run BitmapPmm) : Type 0 where
  pub pmm : BitmapPmm
  pub returns : r ≡ done pmm
  pub valid : IsValid pmm
  pub total : pmm.total_frames ≡ max_phys / page_size
  pub frames :
      (f : ℕ)
      → f < max_phys / page_size
      → is_free pmm f ≡ (
          usable f
          && not (in_range (addr / page_size) (div_ceil (words_for max_phys * 8) page_size) f)
          && not (f == 0))

-- The bitmap after `write_bytes`.
abbrev filled : ℕ → ℕ → BitmapPmm
filled max_phys addr = record {
  bitmap = replicate (words_for max_phys) (not64 0);
  total_frames = max_phys / page_size;
  bitmap_size_u64 = words_for max_phys;
  bitmap_start_addr = addr;
}

get_or-replicate_past : (n i a : ℕ) → n ≤ i → get_or (replicate n a) i 0 ≡ 0
get_or-replicate_past zero i a h = refl
get_or-replicate_past (suc n) zero a h = absurd (omega arith)
get_or-replicate_past (suc n) (suc i) a h = get_or-replicate_past n i a (omega arith)

filled-IsValid : (max_phys addr : ℕ) → max_phys < 2 ^ 64 → IsValid (filled max_phys addr)
filled-IsValid max_phys addr h = record {
  all_mapped = length-replicate (words_for max_phys) (not64 0);
  covers = omega arith;
  addressable = omega arith;
  fits = λ i. elim (dec_lt i (words_for max_phys)) [
    | yes inside ↦ rw (get_or-replicate (words_for max_phys) i (not64 0) 0 inside) (omega arith)
    | no outside ↦
        rw (get_or-replicate_past (words_for max_phys) i (not64 0) (omega arith)) (omega arith)
  ];
}

filled-used :
    (max_phys addr f : ℕ) → f < words_for max_phys * 64 → is_free (filled max_phys addr) f ≡ false
unfolding is_free
filled-used max_phys addr f h =
    let word = get_or-replicate (words_for max_phys) (f / 64) (not64 0) 0 (omega arith) in
    let ones = bit-complement 64 (f % 64) 0 (omega arith) (omega arith) in
    rw word (ground (arith, ones, zero-bit (f % 64)))

module _ (desc_at : ℕ → MemoryDescriptor) (base mmap_len desc_size max_phys : ℕ)
    (map : IsMemoryMap (descriptor desc_at base desc_size) mmap_len max_phys) where
  init_at-Initialises :
      (j : ℕ)
      → j < mmap_len
      → IsSuitable (words_for max_phys * 8) (descriptor desc_at base desc_size j)
      → let addr = (descriptor desc_at base desc_size j).phys_start in
        Initialises
          (is_usable desc_at base desc_size mmap_len 0)
          max_phys
          addr
          (init_at desc_at base mmap_len desc_size max_phys addr)
  unfolding init_at
  init_at-Initialises j h s =
      let d = descriptor desc_at base desc_size j in
      let start = filled max_phys d.phys_start in
      let pages = div_ceil (words_for max_phys * 8) page_size in
      let v = filled-IsValid max_phys d.phys_start map.width in
      let region = map.within j h in
      let room : d.phys_start / page_size + pages ≤ max_phys / page_size =
        omega (arith, s.large, map.width) in
      let freed =
        free_usable_regions-Marks desc_at base desc_size mmap_len 0 start
          (omega (arith, v.all_mapped))
          (λ i a b. omega (arith, map.within i (omega arith), map.width)) in
      let reserved =
        mark_region_used-Marks freed.0 d.phys_start pages
          (omega (arith, freed.2.same_length, v.all_mapped)) (omega (arith, map.width)) in
      let last =
        mark_used-Marks reserved.0 0 (
          omega
            (arith, reserved.2.same_length, freed.2.same_length, v.all_mapped, map.has_frame)) in
      record {
        pmm = last.0;
        returns = bind-done _ _ freed.1 (bind-done _ _ reserved.1 last.1);
        valid = Marks-IsValid last.2 (Marks-IsValid reserved.2 (Marks-IsValid freed.2 v));
        total = last.2.same_total ∙ reserved.2.same_total ∙ freed.2.same_total;
        frames = λ f inside. ground (
          arith,
          last.2.frees f,
          reserved.2.frees f,
          freed.2.frees f,
          filled-used max_phys d.phys_start f (omega arith),
        );
      }

  -- `r` is what the search for a place of the bitmap allows.
  abbrev Outcome : Run BitmapPmm → Type 0
  Outcome r =
      ((r ≡ panic)
        × ((j : ℕ)
            → j < mmap_len
            → ¬ IsSuitable (words_for max_phys * 8) (descriptor desc_at base desc_size j)))
      ⊎ ((j : ℕ) × (j < mmap_len)
          × IsSuitable (words_for max_phys * 8) (descriptor desc_at base desc_size j)
          × Initialises (is_usable desc_at base desc_size mmap_len 0) max_phys
              (descriptor desc_at base desc_size j).phys_start r)

  init_mapped-Outcome : Outcome (init_mapped desc_at base mmap_len desc_size max_phys)
  unfolding init_mapped
  init_mapped-Outcome =
      elim (find_bitmap_region-cases desc_at base desc_size (words_for max_phys * 8) mmap_len 0) [
        | inl (n, h) ↦ inl (rw (n, init_mapped) refl, λ j a. h j (omega arith) (omega arith))
        | inr (j, a, b, s, f) ↦
            let here = map.within j (omega arith) in
            let not_top : ((descriptor desc_at base desc_size j).phys_start == not64 0) ≡ false =
              ground (arith, here, map.width, s.large, map.has_frame) in
            inr (
              j,
              omega arith,
              s,
              rw (f, not_top, init_mapped) (init_at-Initialises j (omega arith) s),
            )
      ]

-- `init_internal` panics exactly when no usable region other than one at address 0 is large
-- enough for the bitmap. Otherwise it places the bitmap at the start of such a region, and leaves
-- it valid with exactly those frames below the bound free that lie in usable memory and are
-- neither the bitmap's nor frame 0. No region ends above the bound, which fits 64 bits and is a
-- page at least.
pub init_internal-cases :
    (desc_at : ℕ → MemoryDescriptor) (mmap_addr_phys mmap_len desc_size hhdm_offset max_phys : ℕ)
    → let base = u64 (mmap_addr_phys + hhdm_offset) in
      let desc = descriptor desc_at base desc_size in
      IsMemoryMap desc mmap_len max_phys
      → let r = init_internal desc_at mmap_addr_phys mmap_len desc_size hhdm_offset max_phys in
        ((r ≡ panic) × ((j : ℕ) → j < mmap_len → ¬ IsSuitable (words_for max_phys * 8) (desc j)))
        ⊎ ((j : ℕ) × (j < mmap_len)
            × IsSuitable (words_for max_phys * 8) (desc j)
            × Initialises
                (is_usable desc_at base desc_size mmap_len 0)
                max_phys
                (desc j).phys_start
                r)
unfolding init_internal
init_internal-cases desc_at mmap_addr_phys mmap_len desc_size hhdm_offset max_phys map =
    init_mapped-Outcome desc_at (u64 (mmap_addr_phys + hhdm_offset)) mmap_len desc_size max_phys map
