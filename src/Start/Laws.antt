-- ===== src/Start/Laws.antt =====
-- kernel/src/main.rs: the heap and the program, together in memory.
use cat.Common.{ℕ, ◌+◌, ◌-◌, ◌/◌, ◌^◌, ◌≤◌, ◌<◌, ◌≡◌, refl, ◌∙◌, ap, arith, true}
use cat.Common.{Option, none, some, inl, inr, ◌⊎◌, List, [], ◌∷◌, Ends, done, u64}
use native.Mathlib.Decide.{dec_lt}
use cat.Elf.{Paging, Space, ProgramHeader}
use cat.Elf.Supply.{IsSupplied, IsApart}
use cat.Elf.Stack.{base_of}
use cat.Elf.Load.{ElfFile, is_magic}
use cat.Elf.Load.Laws.{AreFit, IsAwayAll, Keeps, frames_for}
use cat.Elf.Load.Start
use cat.Elf.Load.Start.{frame_at, start_user-Ready}
use cat.Heap.{MapToError, KernelHeap, kernel_heap_start, kernel_heap_size}
use cat.Heap.Laws
use cat.Heap.Laws.{init_heap-Ready}
use cat.Start.{expect_heap, start_memory}

module _ (paging : Paging) (hhdm : ℕ) (supplied : IsSupplied paging hhdm)
    (slice : ℕ → ℕ → Option (List ℕ)) (data_of : ProgramHeader → List ℕ) where
  -- Segments in the lower half fit as they did when only higher pages have changed.
  AreFit-higher :
      (base : ℕ) (headers : List (Option ProgramHeader)) (s t : Space paging hhdm)
      → ((q : ℕ) → q < 2 ^ 35 → paging.translate_page t.table q ≡ paging.translate_page s.table q)
      → AreFit paging hhdm supplied slice data_of base headers s
      → AreFit paging hhdm supplied slice data_of base headers t
  AreFit-higher base [] s t same fit = tt
  AreFit-higher base (none ∷ headers) s t same fit = AreFit-higher base headers s t same fit
  AreFit-higher base (some ph ∷ headers) s t same fit = (
    record {
      sliced = fit.0.sliced;
      sizes = fit.0.sizes;
      some_size = fit.0.some_size;
      lower = fit.0.lower;
      unmapped =
          λ q low high. let lower = fit.0.lower in same q (omega arith) ∙ fit.0.unmapped q low high;
    },
    (fit.1.0, AreFit-higher base headers s t same fit.1.1),
  )

  module _ (h : KernelHeap paging hhdm) (elf : ElfFile) where
    -- The heap has its bytes, also behind the loading of the program, and the program is in
    -- memory.
    pub record Started (r : KernelHeap paging hhdm × (ℕ × ℕ × Space paging hhdm)) : Type 0 where
      pub region : r.0.region ≡ some (kernel_heap_start, kernel_heap_size)
      pub backed :
          (a : ℕ)
          → kernel_heap_start ≤ a
          → a < kernel_heap_start + kernel_heap_size
          → (frame : ℕ) × (paging.translate_page r.1.2.table (a / 4096) ≡ some frame)
      pub user : Start.Ready paging hhdm supplied slice data_of elf r.0.space r.1
      pub keeps : Keeps paging hhdm h.space r.1.2

  module _ (h : KernelHeap paging hhdm)
      (clear : (q : ℕ)
        → kernel_heap_start / 4096 ≤ q
        → q < (kernel_heap_start + kernel_heap_size) / 4096
        → paging.translate_page h.space.table q ≡ none) where
    expect_ready :
        (v : Option MapToError × KernelHeap paging hhdm)
        → v.0 ≡ none
        → expect_heap paging hhdm v ≡ done v.1
    unfolding expect_heap
    expect_ready (none, ready) e = refl
    expect_ready (some x, ready) e = cc

    elsewhere :
        (q frame : ℕ)
        → paging.translate_page h.space.table q ≡ some frame
        → q < kernel_heap_start / 4096 ⊎ (kernel_heap_start + kernel_heap_size) / 4096 ≤ q
    elsewhere q frame e = elim (dec_lt q (kernel_heap_start / 4096)) [
      | yes below ↦ inl below
      | no above ↦ elim (dec_lt q ((kernel_heap_start + kernel_heap_size) / 4096)) [
        | yes inside ↦ absurd (none_some (clear q (omega arith) inside) e)
        | no beyond ↦ inr (omega arith)
      ]
    ]
      where
        none_some : {o : Option ℕ} {f : ℕ} → o ≡ none → o ≡ some f → ⊥
        none_some a b = cc

    -- The heap takes no page that had a frame.
    Ready-Keeps :
        (r : Option MapToError × KernelHeap paging hhdm)
        → Laws.Ready paging hhdm supplied h.space r
        → Keeps paging hhdm h.space r.1.space
    Ready-Keeps r ready addr a lies = (
      record {
        frame = lies.frame;
        translated =
            ready.others (addr / 4096) (elsewhere (addr / 4096) lies.frame lies.translated)
            ∙ lies.translated;
        place = lies.place;
      },
      ap (λ (mem : ℕ → ℕ). mem a) ready.memory,
    )

    module _ (elf : ElfFile) where
      abbrev base : ℕ
      base = base_of elf.header

      -- From a space in which pages have frames of their own and none of the heap's has one, with
      -- addresses that VirtAddr::new takes, a file with the right magic number, segments in the
      -- lower half that hold what the file has for them and share no page with one another, with the
      -- stack or with a page that is mapped, an entry point in the lower half, and frames for all of
      -- this: init_heap and the loading of the program end. The allocator has exactly the heap's
      -- bytes, each of which still has a frame when the program is entered; the program is in memory
      -- with its stack; and what had a frame at the start keeps it, with its bytes.
      pub start_memory-Started :
          paging.virt_addr kernel_heap_start ≡ true
          → paging.virt_addr (kernel_heap_start + kernel_heap_size) ≡ true
          → paging.virt_addr (kernel_heap_start + kernel_heap_size - 1) ≡ true
          → is_magic elf.magic ≡ true
          → IsApart paging hhdm supplied h.space
          → AreFit paging hhdm supplied slice data_of base elf.program_headers h.space
          → ((q : ℕ)
              → 0x7FFFFFFE0 ≤ q
              → q < 0x7FFFFFFF0
              → (paging.translate_page h.space.table q ≡ none)
                × IsAwayAll q base elf.program_headers)
          → u64 (base + elf.header.entry_point) < 2 ^ 47
          → frames_for elf.program_headers + 1700 ≤ supplied.supply h.space.frames
          → Ends (start_memory paging hhdm slice elf h) (Started h elf)
      unfolding start_memory expect_heap
      start_memory-Started start_ok end_ok last_ok magic apart fit stack_clear low enough =
          let heap =
            init_heap-Ready paging hhdm supplied h start_ok end_ok last_ok apart (omega arith)
              clear in
          let b = heap.holds in
          let used = b.counted in
          let s = heap.value.1.space in
          let lower = λ (q : ℕ) (k : q < 2 ^ 35). b.others q (inl (omega arith)) in
          let user =
            start_user-Ready paging hhdm supplied slice data_of elf s magic b.apart
              (AreFit-higher base elf.program_headers h.space s lower fit)
              (λ q from to.
                let was = stack_clear q from to in (lower q (omega arith) ∙ was.0, was.1))
              low (omega arith) in
          rw (heap.ends, expect_ready heap.value b.no_error, user.ends)
            (record {
              value = (heap.value.1, user.value);
              ends = refl;
              holds = record {
                region = b.region;
                backed = λ a from to.
                    let there = b.backed a from to in
                    frame_at paging hhdm supplied s user.value.2 (a / 4096) there.0 user.holds.keeps
                      there.1;
                user = user.holds;
                keeps = λ addr a lies.
                    let kept = Ready-Keeps heap.value b addr a lies in
                    let later = user.holds.keeps addr a kept.0 in (later.0, later.1 ∙ kept.1);
              };
            })
