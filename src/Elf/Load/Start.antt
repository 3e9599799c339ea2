-- ===== src/Elf/Load/Start.antt =====
-- kernel/src/elf_loader.rs and kernel/src/main.rs: `load_user_elf`, and the program as `_start`
-- leaves it before it jumps.
use cat.Common.{ℕ, ◌+◌, ◌*◌, ◌/◌, ◌%◌, ◌^◌, ◌≤◌, ◌<◌, ◌≡◌, refl, ◌∙◌, ap, sym, arith, true}
use cat.Common.{Option, none, some, inl, inr, ◌⊎◌, List}
use cat.Common.{Ends, Ends-bind, u64}
use cat.Elf.{Paging, Space, ProgramHeader, map_pools, map_range}
use cat.Elf.Supply.{IsSupplied, IsApart, Lies}
use cat.Elf.Pages.{Maps, Lies-Maps, map_to_last}
use cat.Elf.Stack.{base_of}
use cat.Elf.Stack.Start.{Starts, setup_user_stack-Starts}
use cat.Elf.Load.{ElfFile, is_magic, load_file, load_user_elf, start_user}
use cat.Elf.Load.Laws.{
  AreFit, HoldAll, HoldAll-Keeps, IsAwayAll, Keeps, frames_for, load_segments-AllLoaded,
}

-- The pages of the two regions for mmap and brk.
abbrev pub IsPool : ℕ → Type 0
IsPool q = (1152 ≤ q × q < 1280) ⊎ (32768 ≤ q × q < 33024)

module _ (paging : Paging) (hhdm : ℕ) (supplied : IsSupplied paging hhdm) where
  record Pooled (s t : Space paging hhdm) : Type 0 where
    keeps : Keeps paging hhdm s t
    pools : (q : ℕ) → IsPool q → (frame : ℕ) × (paging.translate_page t.table q ≡ some frame)
    outside :
        (q : ℕ) → 33024 ≤ q → paging.translate_page t.table q ≡ paging.translate_page s.table q
    apart : IsApart paging hhdm supplied t
    counted : supplied.supply s.frames ≤ 1536 + supplied.supply t.frames

  map_pools-Pooled :
      (s : Space paging hhdm)
      → IsApart paging hhdm supplied s
      → 1536 ≤ supplied.supply s.frames
      → Ends (map_pools paging hhdm s) (Pooled s)
  unfolding map_pools map_range
  map_pools-Pooled s apart enough =
      Ends-bind _ _
        (map_to_last paging hhdm supplied _ 128 1152 1280 s (omega arith) apart (omega arith))
        (λ t m.
          let left = m.counted in
          let second =
            map_to_last paging hhdm supplied _ 256 32768 33024 t (omega arith) m.apart
              (omega arith) in
          let n = second.holds in
          let last = n.counted in
          record {
            value = second.value;
            ends = second.ends;
            holds = record {
              keeps = λ addr a l.
                  let (there, byte) =
                    Lies-Maps paging hhdm supplied 1152 1280 s t apart m addr a l in
                  let (kept, later) =
                    Lies-Maps paging hhdm supplied 32768 33024 t second.value m.apart n addr a
                      there in
                  (kept, later ∙ byte);
              pools = λ q h. both m n q h;
              outside = λ q h. n.outside q (inr h) ∙ m.outside q (inr (omega arith));
              apart = n.apart;
              counted = omega arith;
            };
          })
    where
      both :
          {t u : Space paging hhdm}
          → Maps paging hhdm supplied 1152 1280 s t
          → Maps paging hhdm supplied 32768 33024 t u
          → (q : ℕ) → IsPool q
          → (frame : ℕ) × (paging.translate_page u.table q ≡ some frame)
      both m n q (inl h) = let (frame, e) = m.has_frame q h.0 h.1 in (frame, n.same q frame e)
      both m n q (inr h) = n.has_frame q h.0 h.1

  pub frame_at :
      (s t : Space paging hhdm) (q frame : ℕ)
      → Keeps paging hhdm s t
      → paging.translate_page s.table q ≡ some frame
      → (f : ℕ) × (paging.translate_page t.table q ≡ some f)
  frame_at s t q frame keeps e =
      let page : q * 4096 / 4096 ≡ q = omega arith in
      let here : Lies paging hhdm s.table (q * 4096) (frame + hhdm + q * 4096 % 4096) = record {
        frame = frame;
        translated = ap (paging.translate_page s.table) page ∙ e;
        place = refl;
      } in
      let kept = (keeps (q * 4096) (frame + hhdm + q * 4096 % 4096) here).0 in
      (kept.frame, ap (paging.translate_page t.table) (sym page) ∙ kept.translated)

  module _ (slice : ℕ → ℕ → Option (List ℕ)) (data_of : ProgramHeader → List ℕ)
      (elf : ElfFile) where
    abbrev base : ℕ
    base = base_of elf.header

    -- The program is in memory: the entry point, its segments, the two regions, and its stack.
    pub record Ready (s : Space paging hhdm) (r : ℕ × ℕ × Space paging hhdm) : Type 0 where
      pub entry : r.0 ≡ u64 (base + elf.header.entry_point)
      pub segments : HoldAll paging hhdm supplied slice data_of base elf.program_headers r.2
      pub pools :
          (q : ℕ) → IsPool q → (frame : ℕ) × (paging.translate_page r.2.table q ≡ some frame)
      pub before : Space paging hhdm
      pub stack : Starts paging hhdm supplied elf.header before (r.1, r.2)
      pub keeps : Keeps paging hhdm s r.2

    -- From a space in which pages have frames of their own, the end of _start enters the program:
    -- when the magic number is right, the segments are in the lower half, hold what the file has for
    -- them and share no page with one another, with the stack or with a page that is mapped, the
    -- entry point is in the lower half, and there are frames for all this. Each segment then reads as
    -- its bytes of the file, followed by zeros, although others were loaded behind it; the regions
    -- for mmap and brk have frames, the stack is as setup_user_stack promises, and what had a frame
    -- before keeps it with its bytes.
    pub start_user-Ready :
        (s : Space paging hhdm)
        → is_magic elf.magic ≡ true
        → IsApart paging hhdm supplied s
        → AreFit paging hhdm supplied slice data_of base elf.program_headers s
        → ((q : ℕ)
            → 0x7FFFFFFE0 ≤ q
            → q < 0x7FFFFFFF0
            → (paging.translate_page s.table q ≡ none) × IsAwayAll q base elf.program_headers)
        → u64 (base + elf.header.entry_point) < 2 ^ 47
        → frames_for elf.program_headers + 1600 ≤ supplied.supply s.frames
        → Ends (start_user paging hhdm slice elf s) (Ready s)
    unfolding start_user load_user_elf load_file
    start_user-Ready s magic apart fit clear low enough =
        let loads =
          load_segments-AllLoaded paging hhdm supplied slice data_of base elf.program_headers s
            apart fit (omega arith) in
        let l = loads.holds in
        let left = l.counted in
        let regions = map_pools-Pooled loads.value l.apart (omega arith) in
        let p = regions.holds in
        let rest = p.counted in
        let accepted = supplied.accepts (u64 (base + elf.header.entry_point)) low in
        let stack =
          setup_user_stack-Starts paging hhdm supplied elf.header regions.value p.apart
            (omega arith)
            (λ q h k. p.outside q (omega arith) ∙ l.outside q (clear q h k).1 ∙ (clear q h k).0) in
        let all : Keeps paging hhdm loads.value stack.value.1 = λ addr a there.
          let (kept, byte) = p.keeps addr a there in
          let (last, later) = stack.holds.kept addr a kept in (last, later ∙ byte) in
        rw (magic, loads.ends, regions.ends, accepted, stack.ends)
          (record {
            value = _;
            ends = refl;
            holds = record {
              entry = refl;
              segments =
                  HoldAll-Keeps paging hhdm supplied slice data_of base elf.program_headers
                    loads.value stack.value.1 all l.holds;
              pools = λ q h.
                  let (frame, e) = p.pools q h in
                  frame_at regions.value stack.value.1 q frame stack.holds.kept e;
              before = regions.value;
              stack = stack.holds;
              keeps = λ addr a there.
                  let (kept, byte) = l.keeps addr a there in
                  let (last, later) = all addr a kept in (last, later ∙ byte);
            };
          })
