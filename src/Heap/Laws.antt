-- ===== src/Heap/Laws.antt =====
-- kernel/src/heap_allocator.rs: what `init_heap` leaves, with and without frames enough.
use cat.Common.{ℕ, zero, suc, ◌+◌, ◌-◌, ◌*◌, ◌/◌, ◌≤◌, ◌<◌, ◌≡◌, refl, ◌∙◌, arith}
use cat.Common.{true, Option, none, some, inl, inr, ◌⊎◌, Bool-cases, ◌==◌, done, Ends}
use cat.Elf.{Paging, Space}
use cat.Elf.Supply.{IsSupplied, IsApart}
use cat.Elf.Pages.{after-Maps}
use cat.Heap.{
  MapToError, frame_allocation_failed, KernelHeap, kernel_heap_start, kernel_heap_size, heap_flags,
  use_tables, map_heap_page, map_heap_pages, start_heap, init_heap,
}

module _ (paging : Paging) (hhdm : ℕ) (supplied : IsSupplied paging hhdm) where
  -- The pages from `first` to below `last` have frames, and no memory and no other page's
  -- translation has changed.
  pub record Backed (first last : ℕ) (s t : Space paging hhdm) : Type 0 where
    pub has_frame :
        (q : ℕ)
        → first ≤ q
        → q < last
        → (frame : ℕ) × (paging.translate_page t.table q ≡ some frame)
    pub outside :
        (q : ℕ)
        → q < first ⊎ last ≤ q
        → paging.translate_page t.table q ≡ paging.translate_page s.table q
    pub apart : IsApart paging hhdm supplied t
    pub memory : t.memory ≡ s.memory
    pub counted : supplied.supply s.frames ≤ 4 * (last - first) + supplied.supply t.frames

  map_heap_pages-Backed :
      (rounds page last : ℕ) (s : Space paging hhdm)
      → page + rounds ≡ last
      → IsApart paging hhdm supplied s
      → 4 * rounds ≤ supplied.supply s.frames
      → ((q : ℕ) → page ≤ q → q < last → paging.translate_page s.table q ≡ none)
      → (t : Space paging hhdm) × (map_heap_pages paging hhdm rounds page s ≡ (none, t))
        × Backed page last s t
  unfolding map_heap_pages map_heap_page use_tables
  map_heap_pages-Backed zero page last s e apart enough unmapped = (
    s,
    refl,
    record {
      has_frame = λ q h k. absurd (omega arith);
      outside = λ q h. refl;
      apart = apart;
      memory = refl;
      counted = omega arith;
    },
  )
  map_heap_pages-Backed (suc rounds) page last s e apart enough unmapped =
      let free_page = unmapped page (omega arith) (omega arith) in
      let given = supplied.allocates s.frames (omega arith) in
      let left = given.counted in
      let mapped =
        supplied.maps s.table given.rest page given.frame heap_flags free_page (omega arith) in
      let left' = mapped.counted in
      let m = after-Maps paging hhdm supplied heap_flags page s apart free_page given mapped in
      let t = record s { table = mapped.table; frames = mapped.rest } in
      let t_apart : IsApart paging hhdm supplied t = record {
        injective = m.apart.injective;
        owned = m.apart.owned;
        aligned = m.apart.aligned;
        direct = m.apart.direct;
      } in
      let (u, ends, later) =
        map_heap_pages-Backed rounds (page + 1) last t (omega arith) t_apart (omega arith)
          (λ q h k. m.outside q (inr h) ∙ unmapped q (omega arith) k) in
      (
        u,
        rw (given.result, mapped.result) ends,
        record {
          has_frame = λ q h k. elim (Bool-cases (q == page)) [
            | inl here ↦
                let (f, found) = m.has_frame q h (ground arith) in
                (f, later.outside q (inl (ground arith)) ∙ found)
            | inr behind ↦ later.has_frame q (ground arith) k
          ];
          outside = λ q h.
              later.outside q (outer q page last h)
              ∙ m.outside q (inner q page last (omega arith) h);
          apart = later.apart;
          memory = later.memory;
          counted = let rest = later.counted in omega (arith, left, left', rest);
        },
      )
    where
      outer : (q page last : ℕ) → q < page ⊎ last ≤ q → q < page + 1 ⊎ last ≤ q
      outer q page last (inl h) = inl (omega arith)
      outer q page last (inr h) = inr h

      inner : (q page last : ℕ) → page < last → q < page ⊎ last ≤ q → q < page ⊎ page + 1 ≤ q
      inner q page last lt (inl h) = inl h
      inner q page last lt (inr h) = inr (omega arith)

  -- init_heap succeeded: every page of the heap has a frame of its own, and the allocator has
  -- exactly these bytes.
  pub record Ready (s : Space paging hhdm) (r : Option MapToError × KernelHeap paging hhdm)
      : Type 0 where
    pub no_error : r.0 ≡ none
    pub region : r.1.region ≡ some (kernel_heap_start, kernel_heap_size)
    pub backed :
        (a : ℕ)
        → kernel_heap_start ≤ a
        → a < kernel_heap_start + kernel_heap_size
        → (frame : ℕ) × (paging.translate_page r.1.space.table (a / 4096) ≡ some frame)
    pub others :
        (q : ℕ)
        → q < kernel_heap_start / 4096 ⊎ (kernel_heap_start + kernel_heap_size) / 4096 ≤ q
        → paging.translate_page r.1.space.table q ≡ paging.translate_page s.table q
    pub apart : IsApart paging hhdm supplied r.1.space
    pub memory : r.1.space.memory ≡ s.memory
    pub counted : supplied.supply s.frames ≤ 100 + supplied.supply r.1.space.frames

  module _ (h : KernelHeap paging hhdm) (start_ok : paging.virt_addr kernel_heap_start ≡ true)
      (end_ok : paging.virt_addr (kernel_heap_start + kernel_heap_size) ≡ true)
      (last_ok : paging.virt_addr (kernel_heap_start + kernel_heap_size - 1) ≡ true) where
    -- With addresses that VirtAddr::new takes, pages that have frames of their own, 100 free frames
    -- and no page of the heap mapped,
    -- init_heap succeeds: every address of the heap then has a frame, the frames of pages are again
    -- their own, the allocator gets exactly the heap's bytes, and no memory nor other page changes.
    pub init_heap-Ready :
        IsApart paging hhdm supplied h.space
        → 100 ≤ supplied.supply h.space.frames
        → ((q : ℕ)
            → kernel_heap_start / 4096 ≤ q
            → q < (kernel_heap_start + kernel_heap_size) / 4096
            → paging.translate_page h.space.table q ≡ none)
        → Ends (init_heap paging hhdm h) (Ready h.space)
    unfolding init_heap start_heap
    init_heap-Ready apart enough unmapped =
        let (t, ends, b) =
          map_heap_pages-Backed 25 (kernel_heap_start / 4096)
            ((kernel_heap_start + kernel_heap_size) / 4096) h.space (omega arith) apart enough
            unmapped in
        rw (start_ok, end_ok, last_ok, ends)
          (record {
            value =
                (none, record { space = t; region = some (kernel_heap_start, kernel_heap_size) });
            ends = refl;
            holds = record {
              no_error = refl;
              region = refl;
              backed = λ a low high. b.has_frame (a / 4096) (omega arith) (omega arith);
              others = b.outside;
              apart = b.apart;
              memory = b.memory;
              counted = let used = b.counted in omega (arith, used);
            };
          })

module _ (paging : Paging) (hhdm : ℕ) (h : KernelHeap paging hhdm)
    (start_ok : paging.virt_addr kernel_heap_start ≡ true)
    (end_ok : paging.virt_addr (kernel_heap_start + kernel_heap_size) ≡ true)
    (last_ok : paging.virt_addr (kernel_heap_start + kernel_heap_size - 1) ≡ true) where
  -- If VirtAddr::new takes the addresses and the frame allocator has no frame, init_heap returns FrameAllocationFailed, and neither the
  -- page tables nor the allocator's region nor memory have changed.
  pub init_heap-fails :
      (rest : paging.Frames)
      → paging.allocate_frame h.space.frames ≡ (none, rest)
      → init_heap paging hhdm h
        ≡ done (some frame_allocation_failed, record h { space = record h.space { frames = rest } })
  unfolding init_heap start_heap map_heap_pages map_heap_page
  init_heap-fails rest none_left = rw (start_ok, end_ok, last_ok, none_left) refl
