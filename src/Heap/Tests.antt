-- ===== src/Heap/Tests.antt =====
-- kernel/src/heap_allocator.rs: the heap over page tables that are functions.
use cat.Common.{ℕ, ◌≡◌, refl, arith, none, some, done, Ends}
use cat.Elf.Flat.{flat, flat-IsSupplied, start, start-IsApart}
use cat.Heap.{KernelHeap, init_heap, frame_allocation_failed, alloc, dealloc, or_null}
use cat.Heap.Laws.{Ready, init_heap-Ready, init_heap-fails}

abbrev heap : KernelHeap flat 1000000
heap = record { space = start; region = none }

init_heap-Ready_example :
    Ends (init_heap flat 1000000 heap) (Ready flat 1000000 flat-IsSupplied start)
init_heap-Ready_example =
    init_heap-Ready flat 1000000 flat-IsSupplied heap refl refl refl start-IsApart (omega arith)
      (λ q low high. ground arith)

-- All frames are taken.
abbrev full_heap : KernelHeap flat 1000000
full_heap = record { space = record start { frames = 4000 }; region = none }

frames_missing : init_heap flat 1000000 full_heap ≡ done (some frame_allocation_failed, full_heap)
frames_missing = init_heap-fails flat 1000000 full_heap refl refl refl 4000 refl

-- A null pointer is not given back to the crate's heap.
null_kept : dealloc ℕ ℕ (λ h size. (none, h)) (λ h ptr size. 0) 7 0 16 ≡ 7
unfolding dealloc
null_kept = refl

failed_is_null : alloc ℕ ℕ (λ h size. (none, h)) (λ h ptr size. 0) 7 16 ≡ (0, 7)
unfolding alloc or_null
failed_is_null = refl
