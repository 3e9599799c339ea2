-- ===== src/Pmm/Allocator.antt =====
-- kernel/src/pmm.rs: `KernelFrameAllocator`, with which the loader and the heap map their pages.
-- `phys_addr` tells which addresses `PhysAddr::new` of the x86_64 crate takes.
mod Count
pub mod Supply
mod Tests
use cat.Common.{ℕ, ◌+◌, ◌*◌, ◌/◌, Bool, Option, none, some, Run, done, panic, ◌>>=◌, if◌then◌else◌}
use cat.Pmm.{BitmapPmm, allocate_frame_internal}

-- The lock is taken with interrupts off, so that a call is one step.
pub allocate_frame : BitmapPmm → Run (Option ℕ × BitmapPmm)
allocate_frame p = allocate_frame_internal p

module _ (phys_addr : ℕ → Bool) where
  abbrev pub containing_frame : Option ℕ × BitmapPmm → Run (Option ℕ × BitmapPmm)
  containing_frame (none, p) = done (none, p)
  containing_frame (some phys, p) =
      if phys_addr phys then done (some (phys / 4096 * 4096), p) else panic

  pub kernel_allocate_frame : BitmapPmm → Run (Option ℕ × BitmapPmm)
  kernel_allocate_frame p = allocate_frame p >>= containing_frame
