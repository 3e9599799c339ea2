-- ===== src/Pmm/Allocator/Supply.antt =====
-- kernel/src/pmm.rs: the kernel's frame allocator as the one that the loader of
-- kernel/src/elf_loader.rs relies on. `phys_addr` is the test of the x86_64 crate's `PhysAddr::new`.
use cat.Common.{ℕ, suc, ◌+◌, ◌*◌, ◌/◌, ◌%◌, ◌^◌, ◌≤◌, ◌<◌, ◌≡◌, refl, arith, Bool, true}
use cat.Common.{◌&&◌, not, Option, none, some, done, ◌==◌, ltb, inl, inr, ◌∙◌, ap}
use cat.Elf.{Paging, PageTableFlags}
use cat.Elf.Supply.{Given, Mapped, IsSupplied}
use cat.Pmm.{BitmapPmm}
use cat.Pmm.Bits.{is_free}
use cat.Pmm.Spec
use cat.Pmm.Alloc.{IsValid, allocate_frame_internal-Allocates}
use cat.Pmm.Allocator.{allocate_frame, kernel_allocate_frame}
use cat.Pmm.Allocator.Count.{count_free, count_free-none, count_free-same, count_free-without}

-- A manager whose memory has physical addresses and lies in the direct map.
pub record Managed (hhdm : ℕ) : Type 0 where
  pub pmm : BitmapPmm
  pub valid : IsValid pmm
  pub physical : pmm.total_frames ≤ 2 ^ 40
  pub in_direct : pmm.total_frames * 4096 + hhdm ≤ 2 ^ 64

module _ (hhdm : ℕ) where
  -- The addresses of the managed frames that are free.
  unfoldable pub free_at : Managed hhdm → ℕ → Bool
  free_at m x = x % 4096 == 0 && (ltb (x / 4096) m.pmm.total_frames && is_free m.pmm (x / 4096))

  unfoldable pub supply : Managed hhdm → ℕ
  supply m = count_free (is_free m.pmm) m.pmm.total_frames

  after_call : (m : Managed hhdm) → Managed hhdm
  after_call m =
      let a = allocate_frame_internal-Allocates m.pmm m.valid in
      record {
        pmm = a.after;
        valid = a.valid;
        physical = omega (arith, m.physical, a.same_total);
        in_direct = omega (arith, m.in_direct, a.same_total);
      }

  unfoldable pub allocate_managed : Managed hhdm → Option ℕ × Managed hhdm
  unfolding after_call
  allocate_managed m = ((Spec.allocate m.pmm.total_frames (is_free m.pmm)).0, after_call m)

  free_at-frame :
      (m : Managed hhdm) (f : ℕ) → f < m.pmm.total_frames → free_at m (f * 4096) ≡ is_free m.pmm f
  unfolding free_at
  free_at-frame m f h =
      let page : f * 4096 / 4096 ≡ f = omega arith in
      let low : f * 4096 % 4096 ≡ 0 = omega arith in rw (page, low) (ground (arith, h))

  free_at-aligned : (m : Managed hhdm) (x : ℕ) → free_at m x ≡ true → x % 4096 ≡ 0
  unfolding free_at
  free_at-aligned m x h = ground (arith, h)

  free_at-direct : (m : Managed hhdm) (x : ℕ) → free_at m x ≡ true → x + hhdm + 4096 ≤ 2 ^ 64
  unfolding free_at
  free_at-direct m x h =
      let inside : x / 4096 < m.pmm.total_frames = ground (arith, h) in
      let low : x % 4096 ≡ 0 = ground (arith, h) in omega (arith, m.in_direct)

  free_at-less :
      (m n : Managed hhdm)
      → n.pmm.total_frames ≡ m.pmm.total_frames
      → ((f : ℕ) → is_free n.pmm f ≡ true → is_free m.pmm f ≡ true)
      → (x : ℕ) → free_at n x ≡ true
      → free_at m x ≡ true
  unfolding free_at
  free_at-less m n e h x k =
      let frame : is_free m.pmm (x / 4096) ≡ true = h (x / 4096) (ground (arith, k)) in
      ground (arith, k, e, frame)

  record Took (m : Managed hhdm) : Type 0 where
    frame : ℕ
    inside : frame < m.pmm.total_frames
    lowest : is_free m.pmm frame ≡ true
    result : (allocate_managed m).0 ≡ some (frame * 4096)
    left : (g : ℕ) → is_free (after_call m).pmm g ≡ (is_free m.pmm g && not (g == frame))
    same_total : (after_call m).pmm.total_frames ≡ m.pmm.total_frames

  call-Took : (m : Managed hhdm) → 1 ≤ supply m → Took m
  unfolding supply allocate_managed after_call Spec.allocate
  call-Took m h =
      let a = allocate_frame_internal-Allocates m.pmm m.valid in
      elim (Spec.first_free-cases (is_free m.pmm) m.pmm.total_frames 0) [
        | inl (e, k) ↦
            let empty =
              count_free-none (is_free m.pmm) m.pmm.total_frames
                (λ g q. k g (omega arith) (omega arith)) in
            absurd (omega (arith, h, empty))
        | inr (f, e, lo, hi, fr, k) ↦ record {
          frame = f;
          inside = omega (arith, hi);
          lowest = fr;
          result = rw e refl;
          left = λ g. a.frames g ∙ rw e refl;
          same_total = a.same_total;
        }
      ]

  supply-Took : (m : Managed hhdm) → Took m → supply m ≤ suc (supply (after_call m))
  unfolding supply
  supply-Took m t =
      let one_less = count_free-without (is_free m.pmm) t.frame m.pmm.total_frames in
      let same =
        count_free-same (λ g. is_free m.pmm g && not (g == t.frame)) (is_free (after_call m).pmm)
          m.pmm.total_frames (λ g q. t.left g) in
      rw (t.same_total, same) one_less

  module _ (Table : Type 0) (translate_page : Table → ℕ → Option ℕ)
      (map_to : Table → Managed hhdm → ℕ → ℕ → PageTableFlags → Option (Table × Managed hhdm))
      (virt_addr phys_addr : ℕ → Bool) where
    -- The crate's page tables with the kernel's own allocator.
    abbrev pub kernel_paging : Paging
    kernel_paging = record {
      Table = Table;
      Frames = Managed hhdm;
      translate_page = translate_page;
      allocate_frame = allocate_managed;
      map_to = map_to;
      virt_addr = virt_addr;
    }

    kernel_frames-Given :
        (m : Managed hhdm) → 1 ≤ supply m → Given kernel_paging hhdm free_at supply m
    unfolding allocate_managed
    kernel_frames-Given m h =
        let t = call-Took m h in
        let n = after_call m in
        let in_n : t.frame < n.pmm.total_frames = omega (arith, t.inside, t.same_total) in
        record {
          frame = t.frame * 4096;
          rest = n;
          result = ap (λ (r : Option ℕ). (r, n)) t.result;
          was_free = free_at-frame m t.frame t.inside ∙ t.lowest;
          taken = free_at-frame n t.frame in_n ∙ t.left t.frame ∙ ground arith;
          less = free_at-less m n t.same_total (λ f k. ground (arith, t.left f, k));
          counted = supply-Took m t;
        }

    kernel_allocate_frame-returns :
        ((a : ℕ) → a < 2 ^ 52 → phys_addr a ≡ true)
        → (m : Managed hhdm)
        → kernel_allocate_frame phys_addr m.pmm
          ≡ done ((allocate_managed m).0, (allocate_managed m).1.pmm)
    unfolding kernel_allocate_frame allocate_frame allocate_managed after_call Spec.allocate
    kernel_allocate_frame-returns accepts m =
        let a = allocate_frame_internal-Allocates m.pmm m.valid in
        rw a.returns (elim (Spec.first_free-cases (is_free m.pmm) m.pmm.total_frames 0) [
          | inl (e, k) ↦ rw e refl
          | inr (f, e, lo, hi, fr, k) ↦
              let page : f * 4096 / 4096 ≡ f = omega arith in
              let small : f * 4096 < 2 ^ 52 = omega (arith, m.physical, hi) in
              rw (e, accepts (f * 4096) small, page) refl
        ])

    -- A call of the kernel's allocator against what the loader relies on.
    pub record Serves (m : Managed hhdm) : Type 0 where
      pub runs :
          kernel_allocate_frame phys_addr m.pmm
          ≡ done ((allocate_managed m).0, (allocate_managed m).1.pmm)
      pub given : Given kernel_paging hhdm free_at supply m
      pub aligned : (x : ℕ) → free_at m x ≡ true → x % 4096 ≡ 0
      pub direct : (x : ℕ) → free_at m x ≡ true → x + hhdm + 4096 ≤ 2 ^ 64

    -- Let `PhysAddr::new` take the addresses below 2^52. On a valid bitmap whose memory lies in
    -- the direct map and which has a free frame, `allocate_frame` of `KernelFrameAllocator` never
    -- faults and does what the loader relies on: it returns the address of a frame that was free
    -- and is so no more, frees none, and leaves all but one of the free frames. Free frames are
    -- aligned, and the direct map holds each whole.
    pub kernel_allocate_frame-Serves :
        ((a : ℕ) → a < 2 ^ 52 → phys_addr a ≡ true) → (m : Managed hhdm) → 1 ≤ supply m → Serves m
    kernel_allocate_frame-Serves accepts m h = record {
      runs = kernel_allocate_frame-returns accepts m;
      given = kernel_frames-Given m h;
      aligned = free_at-aligned m;
      direct = free_at-direct m;
    }

    -- With the crate's `map_to` and `VirtAddr::new` as the loader relies on them, the loader's
    -- theorems hold of the kernel's own allocator.
    pub kernel_paging-IsSupplied :
        ((t : Table) (m : Managed hhdm) (page frame : ℕ) (flags : PageTableFlags)
          → translate_page t page ≡ none
          → 3 ≤ supply m
          → Mapped kernel_paging hhdm free_at supply t m page frame flags)
        → ((addr : ℕ) → addr < 2 ^ 47 → virt_addr addr ≡ true)
        → IsSupplied kernel_paging hhdm
    kernel_paging-IsSupplied maps accepts = record {
      free = free_at;
      supply = supply;
      allocates = kernel_frames-Given;
      maps = maps;
      aligned = free_at-aligned;
      direct = free_at-direct;
      accepts = accepts;
    }
