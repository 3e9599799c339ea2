-- ===== src/Start.antt =====
-- kernel/src/main.rs: what `_start` does to the memory, from the heap to the jump to the program. The
-- prints and the registers that it sets in between have no part in this.
pub mod Laws
mod Tests
use cat.Common.{ℕ, Option, none, some, List, Run, done, panic, ◌>>=◌}
use cat.Elf.{Paging, Space}
use cat.Elf.Load.{ElfFile, start_user}
use cat.Heap.{MapToError, KernelHeap, init_heap}

module _ (paging : Paging) (hhdm : ℕ) where
  -- `.expect("Heap initialization failed")`.
  pub expect_heap : Option MapToError × KernelHeap paging hhdm → Run (KernelHeap paging hhdm)
  expect_heap (none, h) = done h
  expect_heap (some e, h) = panic

  -- The heap, and with what the program is entered.
  pub start_memory :
      (ℕ → ℕ → Option (List ℕ))
      → ElfFile
      → KernelHeap paging hhdm
      → Run (KernelHeap paging hhdm × (ℕ × ℕ × Space paging hhdm))
  start_memory slice elf h = init_heap paging hhdm h >>= expect_heap >>= λ ready.
      (start_user paging hhdm slice elf ready.space >>= λ user. done (ready, user))
