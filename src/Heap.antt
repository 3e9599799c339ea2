-- ===== src/Heap.antt =====
-- kernel/src/heap_allocator.rs: `init_heap`, and the allocator's wrappers. The page tables and the
-- frame allocator are those of the x86_64 crate, which checks the address after `+` and after `-`, and
-- the heap is that of linked_list_allocator.
pub mod Laws
mod Tests
use cat.Common.{ℕ, zero, suc, ◌+◌, ◌-◌, ◌*◌, ◌/◌, ◌^◌, Bool, true, false, ◌&&◌, Option, none, some}
use cat.Common.{Run, done, panic, if◌then◌else◌, ◌==◌, u64}
use cat.Elf.{Paging, PageTableFlags, Space, containing_page}

abbrev pub kernel_heap_start : ℕ
kernel_heap_start = 0xFFFF900000000000

abbrev pub kernel_heap_size : ℕ
kernel_heap_size = 100 * 1024

pub data MapToError : Type 0 where
  frame_allocation_failed map_failed : MapToError

-- Present and writable, for the kernel.
abbrev pub heap_flags : PageTableFlags
heap_flags = record { user_accessible = false; writable = true; no_execute = false }

module _ (paging : Paging) (hhdm : ℕ) where
  -- A step ends with an error, or goes on; the space is changed in place.
  abbrev pub Step : Type 0
  Step = Option MapToError × Space paging hhdm

  pub use_tables : Space paging hhdm → Option (paging.Table × paging.Frames) → Step
  use_tables s none = (some map_failed, s)
  use_tables s (some (table, frames)) = (none, record s { table = table; frames = frames })

  pub map_heap_page : ℕ → Space paging hhdm → Option ℕ × paging.Frames → Step
  map_heap_page page s (none, frames) = (some frame_allocation_failed, record s { frames = frames })
  map_heap_page page s (some frame, frames) =
      use_tables (record s { frames = frames }) (paging.map_to s.table frames page frame heap_flags)

  -- The `?` operator.
  abbrev pub and_then : Step → (Space paging hhdm → Step) → Step
  and_then (some e, s) rest = (some e, s)
  and_then (none, s) rest = rest s

  pub map_heap_pages : ℕ → ℕ → Space paging hhdm → Step
  map_heap_pages zero page s = (none, s)
  map_heap_pages (suc rounds) page s =
      and_then (map_heap_page page s (paging.allocate_frame s.frames))
        (map_heap_pages rounds (page + 1))

  -- `region` is what the heap was initialised with.
  pub record KernelHeap : Type 0 where
    pub space : Space paging hhdm
    pub region : Option (ℕ × ℕ)

  pub start_heap : Option (ℕ × ℕ) → Step → Option MapToError × KernelHeap
  start_heap before (some e, s) = (some e, record { space = s; region = before })
  start_heap before (none, s) =
      (none, record { space = s; region = some (kernel_heap_start, kernel_heap_size) })

  pub init_heap : KernelHeap → Run (Option MapToError × KernelHeap)
  init_heap h =
      let past_end = u64 (kernel_heap_start + kernel_heap_size) in
      let heap_end = u64 (past_end + 2 ^ 64 - 1) in
      let first = containing_page kernel_heap_start in
      if paging.virt_addr kernel_heap_start
        && paging.virt_addr past_end
        && paging.virt_addr heap_end
      then done (
          start_heap h.region (map_heap_pages (containing_page heap_end + 1 - first) first h.space))
      else panic

-- `GlobalAlloc`, over the crate's heap: a failed allocation is the null pointer, and null is not
-- given back.
module _ (Heap Layout : Type 0) (allocate_first_fit : Heap → Layout → Option ℕ × Heap)
    (deallocate : Heap → ℕ → Layout → Heap) where
  pub or_null : Option ℕ × Heap → ℕ × Heap
  or_null (none, h) = (0, h)
  or_null (some ptr, h) = (ptr, h)

  pub alloc : Heap → Layout → ℕ × Heap
  alloc h layout = or_null (allocate_first_fit h layout)

  pub dealloc : Heap → ℕ → Layout → Heap
  dealloc h ptr layout = if ptr == 0 then h else deallocate h ptr layout
