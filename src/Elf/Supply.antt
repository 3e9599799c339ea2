-- ===== src/Elf/Supply.antt =====
-- kernel/src/elf_loader.rs: what the loader relies on of its page tables and its frame allocator.
use cat.Common.{ℕ, suc, ◌+◌, ◌/◌, ◌%◌, ◌^◌, ◌≤◌, ◌<◌, ◌≡◌, ◌≢◌, ◌∙◌, ap, arith}
use cat.Common.{Bool, true, false, none, some}
use cat.Elf.{Paging, PageTableFlags, Space}

module _ (paging : Paging) (hhdm : ℕ) where
  -- An allocator hands out a free frame, which is free no more. `supply` counts frames.
  pub record Given (free : paging.Frames → ℕ → Bool) (supply : paging.Frames → ℕ)
      (f : paging.Frames) : Type 0 where
    pub frame : ℕ
    pub rest : paging.Frames
    pub result : paging.allocate_frame f ≡ (some frame, rest)
    pub was_free : free f frame ≡ true
    pub taken : free rest frame ≡ false
    pub less : (x : ℕ) → free rest x ≡ true → free f x ≡ true
    pub counted : supply f ≤ suc (supply rest)

  -- `map_to` on a page without a frame gives it the frame, and changes no other page. It takes at
  -- most three free frames for tables of its own.
  pub record Mapped (free : paging.Frames → ℕ → Bool) (supply : paging.Frames → ℕ)
      (t : paging.Table) (f : paging.Frames) (page frame : ℕ) (flags : PageTableFlags)
      : Type 0 where
    pub table : paging.Table
    pub rest : paging.Frames
    pub result : paging.map_to t f page frame flags ≡ some (table, rest)
    pub hit : paging.translate_page table page ≡ some frame
    pub miss : (q : ℕ) → q ≢ page → paging.translate_page table q ≡ paging.translate_page t q
    pub less : (x : ℕ) → free rest x ≡ true → free f x ≡ true
    pub counted : supply f ≤ 3 + supply rest

  pub record IsSupplied : Type 0 where
    pub free : paging.Frames → ℕ → Bool
    pub supply : paging.Frames → ℕ
    pub allocates : (f : paging.Frames) → 1 ≤ supply f → Given free supply f
    pub maps :
        (t : paging.Table) (f : paging.Frames) (page frame : ℕ) (flags : PageTableFlags)
        → paging.translate_page t page ≡ none
        → 3 ≤ supply f
        → Mapped free supply t f page frame flags
    -- Free frames are aligned, and the direct map holds them.
    pub aligned : (f : paging.Frames) (x : ℕ) → free f x ≡ true → x % 4096 ≡ 0
    pub direct : (f : paging.Frames) (x : ℕ) → free f x ≡ true → x + hhdm + 4096 ≤ 2 ^ 64
    pub accepts : (addr : ℕ) → addr < 2 ^ 47 → paging.virt_addr addr ≡ true

  -- Where the kernel sees the byte at a user address: through the frame of its page.
  pub record Lies (table : paging.Table) (addr a : ℕ) : Type 0 where
    pub frame : ℕ
    pub translated : paging.translate_page table (addr / 4096) ≡ some frame
    pub place : a ≡ frame + hhdm + addr % 4096

  module _ (supplied : IsSupplied) where
    -- Pages have frames of their own, and none of these is free.
    pub record IsApart (s : Space paging hhdm) : Type 0 where
      pub injective :
          (p q frame : ℕ)
          → paging.translate_page s.table p ≡ some frame
          → paging.translate_page s.table q ≡ some frame
          → p ≡ q
      pub owned :
          (p frame : ℕ)
          → paging.translate_page s.table p ≡ some frame
          → supplied.free s.frames frame ≡ false
      pub aligned : (p frame : ℕ) → paging.translate_page s.table p ≡ some frame → frame % 4096 ≡ 0
      pub direct :
          (p frame : ℕ)
          → paging.translate_page s.table p ≡ some frame
          → frame + hhdm + 4096 ≤ 2 ^ 64

    -- Two addresses that lie at one place are one.
    pub Lies-injective :
        (s : Space paging hhdm)
        → IsApart s
        → (x y a : ℕ) → Lies s.table x a
        → Lies s.table y a
        → x ≡ y
    Lies-injective s apart x y a l m =
        let lf = apart.aligned (x / 4096) l.frame l.translated in
        let mf = apart.aligned (y / 4096) m.frame m.translated in
        let lp = l.place in
        let mp = m.place in
        let same : l.frame ≡ m.frame = omega arith in
        let page : x / 4096 ≡ y / 4096 =
          apart.injective (x / 4096) (y / 4096) m.frame (l.translated ∙ ap some same)
            m.translated in
        omega arith
