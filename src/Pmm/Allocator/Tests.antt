-- ===== src/Pmm/Allocator/Tests.antt =====
-- kernel/src/pmm.rs: the kernel's frame allocator on a bitmap of 128 frames.
use cat.Common.{ℕ, zero, suc, ◌^◌, ◌≡◌, refl, arith, Bool, ltb, ◌-◌}
use cat.Common.{Option, some, [], ◌∷◌}
use cat.Elf.{PageTableFlags}
use cat.Pmm.{BitmapPmm}
use cat.Pmm.Bits.{FitsWords, is_free}
use cat.Pmm.Alloc.{IsValid}
use cat.Pmm.Allocator.Supply.{Managed, supply, Serves, kernel_allocate_frame-Serves}

-- 3, 64 and 65 are free.
abbrev few_frames : BitmapPmm
few_frames = record {
  bitmap = (2 ^ 64 - 9) ∷ (2 ^ 64 - 4) ∷ [];
  total_frames = 128;
  bitmap_size_u64 = 2;
  bitmap_start_addr = 4096;
}

few_fits : FitsWords few_frames
few_fits zero = omega arith
few_fits (suc zero) = omega arith
few_fits (suc (suc i)) = omega arith

few_frames-IsValid : IsValid few_frames
few_frames-IsValid = record {
  all_mapped = refl;
  covers = omega arith;
  addressable = omega arith;
  fits = few_fits;
}

abbrev direct_map : ℕ
direct_map = 2 ^ 63

abbrev few_managed : Managed direct_map
few_managed = record {
  pmm = few_frames;
  valid = few_frames-IsValid;
  physical = omega arith;
  in_direct = omega arith;
}

abbrev narrow : ℕ → Bool
narrow a = ltb a (2 ^ 52)

few_supply : supply direct_map few_managed ≡ 3
unfolding supply is_free
few_supply = refl

-- Page tables that are a function; their frames are all there from the start.
abbrev FlatTable : Type 0
FlatTable = ℕ → Option ℕ

abbrev map_flat :
    FlatTable
    → Managed direct_map
    → ℕ
    → ℕ
    → PageTableFlags
    → Option (FlatTable × Managed direct_map)
map_flat t m page frame flags = some ((λ q. some frame), m)

kernel_allocate_frame-Serves_example :
    Serves direct_map FlatTable (λ t. t) map_flat narrow narrow few_managed
kernel_allocate_frame-Serves_example =
    kernel_allocate_frame-Serves direct_map FlatTable (λ t. t) map_flat narrow narrow
      (λ a h. ground (arith, h)) few_managed (omega (arith, few_supply))
