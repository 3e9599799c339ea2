-- ===== src/Elf/Stack/Start.antt =====
-- kernel/src/elf_loader.rs: `setup_user_stack` as a whole.
use cat.Common.{
  ℕ, zero, suc, ◌+◌, ◌-◌, ◌*◌, ◌/◌, ◌%◌, ◌^◌, ◌≤◌, ◌<◌, ◌≡◌, ◌≢◌, refl, ◌∙◌, ap, sym, arith,
}
use cat.Common.{Option, none, some, inl, inr, ◌⊎◌, Bool-cases, List, [], ◌∷◌}
use cat.Common.{Ends, Ends-bind, u64, ltb, get_or}
use mathlib.Core.Path.{subst}
use cat.Elf.{Paging, PageTableFlags, Space}
use cat.Elf.Supply.{IsSupplied, IsApart, Lies}
use cat.Elf.Pages.{some-eq, Maps, Maps-none, Maps-trans, Lies-Maps, use_frame-Maps}
use cat.Elf.Stack.{
  ElfHeader, base_of, stack_pointer, user_stack_bottom, user_stack_size, map_stack_pages,
  setup_user_stack,
}
use cat.Elf.Stack.Laws.{
  Start, parse_start, stack_words, user_word, read_words, read_words_lem, Wrote,
  build_stack-Written,
}

module _ (paging : Paging) (hhdm : ℕ) (supplied : IsSupplied paging hhdm) where
  map_stack_pages-Maps :
      (flags : PageTableFlags) (rounds page last : ℕ) (s : Space paging hhdm)
      → page + rounds ≡ last
      → IsApart paging hhdm supplied s
      → 4 * rounds ≤ supplied.supply s.frames
      → ((q : ℕ) → page ≤ q → q < last → paging.translate_page s.table q ≡ none)
      → Ends
          (map_stack_pages paging hhdm flags rounds page s)
          (Maps paging hhdm supplied page last s)
  unfolding map_stack_pages
  map_stack_pages-Maps flags zero page last s e apart enough unmapped =
      let stop : last ≡ page = omega arith in
      rw stop
        (record { value = s; ends = refl; holds = Maps-none paging hhdm supplied page s apart })
  map_stack_pages-Maps flags (suc rounds) page last s e apart enough unmapped =
      Ends-bind _ _
        (use_frame-Maps paging hhdm supplied flags page s apart (omega arith)
          (unmapped page (omega arith) (omega arith)))
        (λ t first.
          let left = first.counted in
          let later =
            map_stack_pages-Maps flags rounds (page + 1) last t (omega arith) first.apart
              (omega arith)
              (λ q low high. first.outside q (inr low) ∙ unmapped q (omega arith) high) in
          record {
            value = later.value;
            ends = later.ends;
            holds =
                Maps-trans paging hhdm supplied page (page + 1) last s t later.value (omega arith)
                  (omega arith) apart first later.holds;
          })

  -- The program starts without arguments and environment, with this auxiliary vector.
  abbrev pub start_of : ElfHeader → Start
  start_of elf = record {
    argc = 0;
    argv = [];
    envp = [];
    aux =
        (3, u64 (base_of elf + elf.ph_offset))
        ∷ (4, u64 elf.ph_entry_size)
        ∷ (5, u64 elf.ph_count)
        ∷ (6, 4096)
        ∷ (7, 0)
        ∷ (9, u64 (base_of elf + elf.entry_point))
        ∷ (25, 0x7FFFFFFEFFF0)
        ∷ [];
  }

  abbrev parse_words : Option (List ℕ) → Option Start
  parse_words none = none
  parse_words (some ws) = parse_start ws

  pub record Starts (elf : ElfHeader) (s : Space paging hhdm) (r : ℕ × Space paging hhdm)
      : Type 0 where
    pub aligned : r.0 % 16 ≡ 0
    pub inside : (user_stack_bottom - user_stack_size ≤ r.0) × (r.0 + 19 * 8 ≤ user_stack_bottom)
    pub start : parse_words (read_words paging hhdm r.1 19 r.0) ≡ some (start_of elf)
    pub random :
        (i a : ℕ) → i < 16 → Lies paging hhdm r.1.table (0x7FFFFFFEFFF0 + i) a → r.1.memory a ≡ 0
    pub kept :
        (addr a : ℕ)
        → Lies paging hhdm s.table addr a
        → Lies paging hhdm r.1.table addr a × (r.1.memory a ≡ s.memory a)

  module _ (s t u : Space paging hhdm) (frame : ℕ) (elf : ElfHeader)
      (apart : IsApart paging hhdm supplied s)
      (m : Maps paging hhdm supplied 0x7FFFFFFE0 0x7FFFFFFF0 s t)
      (found : paging.translate_page t.table (stack_pointer / 4096) ≡ some frame)
      (direct : frame + hhdm + 4096 ≤ 2 ^ 64)
      (w : Wrote paging hhdm supplied t frame elf found direct 19 u)
      (unmapped : (q : ℕ)
        → 0x7FFFFFFE0 ≤ q
        → q < 0x7FFFFFFF0
        → paging.translate_page s.table q ≡ none) where
    in_stack : (q : ℕ) → q ≡ stack_pointer / 4096 → paging.translate_page u.table q ≡ some frame
    in_stack q e =
        ap (paging.translate_page u.table) e
        ∙ ap (λ (tb : paging.Table). paging.translate_page tb (stack_pointer / 4096)) w.table
        ∙ found

    read_back :
        (i : ℕ)
        → i < 19
        → user_word paging hhdm u (stack_pointer + 8 * i) ≡ some (get_or (stack_words elf) i 0)
    read_back i h =
        let page = in_stack ((stack_pointer + 8 * i) / 4096) (omega arith) in
        let offset : frame + hhdm + (stack_pointer + 8 * i) % 4096 ≡ frame + hhdm + 3840 + 8 * i =
          omega arith in
        rw (page, offset) (ap some (w.words i h))

    not_stack :
        (addr a : ℕ)
        → Lies paging hhdm s.table addr a
        → a < frame + hhdm + 3840 ⊎ frame + hhdm + 3840 + 8 * 19 ≤ a
    not_stack addr a l = elim (Bool-cases (ltb a (frame + hhdm + 3840))) [
      | inl low ↦ inl (ground arith)
      | inr high ↦
          let other : addr / 4096 ≢ stack_pointer / 4096 =
            λ (e : addr / 4096 ≡ stack_pointer / 4096). cc (
              l.translated,
              ap (paging.translate_page s.table) e,
              unmapped (stack_pointer / 4096) (omega arith) (omega arith),
            ) in
          let kept = m.same (addr / 4096) l.frame l.translated in
          let apart_frames : l.frame ≢ frame = λ (e : l.frame ≡ frame). other (
            m.apart.injective (addr / 4096) (stack_pointer / 4096) frame (kept ∙ ap some e)
              found) in
          let lf = m.apart.aligned (addr / 4096) l.frame kept in
          let ff = m.apart.aligned (stack_pointer / 4096) frame found in
          let place = l.place in inr (ground arith)
    ]

    starts : Starts elf s (stack_pointer, u)
    starts = record {
      aligned = omega arith;
      inside = (omega arith, omega arith);
      start =
          ap parse_words (read_words_lem paging hhdm u (stack_words elf) stack_pointer read_back);
      random = λ i a h l.
          let page = in_stack ((0x7FFFFFFEFFF0 + i) / 4096) (omega arith) in
          let same : l.frame ≡ frame = some-eq (sym l.translated ∙ page) in
          let place : a ≡ frame + hhdm + 3840 + 240 + i = omega (arith, l.place) in
          w.kept a (inr (omega arith))
          ∙ m.zeros (stack_pointer / 4096) frame (omega arith) (omega arith)
              (unmapped (stack_pointer / 4096) (omega arith) (omega arith)) found a (ground arith);
      kept = λ addr a l.
          let (place, byte) =
            Lies-Maps paging hhdm supplied 0x7FFFFFFE0 0x7FFFFFFF0 s t apart m addr a l in
          (
            subst (λ (tb : paging.Table). Lies paging hhdm tb addr a) (sym w.table) place,
            w.kept a (not_stack addr a l) ∙ byte,
          );
    }

  -- With pages that have frames of their own, 64 free frames, and no page of the stack mapped yet,
  -- setup_user_stack ends. The stack pointer it returns is a multiple of 16 inside the stack, and a
  -- program reads there argc 0, no argument, no environment and the seven entries of the auxiliary
  -- vector with their values; AT_RANDOM's 16 bytes are zeros. What was mapped before is unchanged.
  pub setup_user_stack-Starts :
      (elf : ElfHeader) (s : Space paging hhdm)
      → IsApart paging hhdm supplied s
      → 64 ≤ supplied.supply s.frames
      → ((q : ℕ) → 0x7FFFFFFE0 ≤ q → q < 0x7FFFFFFF0 → paging.translate_page s.table q ≡ none)
      → Ends (setup_user_stack paging hhdm elf s) (Starts elf s)
  unfolding setup_user_stack
  setup_user_stack-Starts elf s apart enough unmapped =
      Ends-bind _ _
        (map_stack_pages-Maps _ 16 0x7FFFFFFE0 0x7FFFFFFF0 s (omega arith) apart enough unmapped)
        (λ t m.
          let (frame, found) = m.has_frame (stack_pointer / 4096) (omega arith) (omega arith) in
          let direct = m.apart.direct (stack_pointer / 4096) frame found in
          let accepted = supplied.accepts stack_pointer (omega arith) in
          Ends-bind _ _ (build_stack-Written paging hhdm supplied t frame elf found direct) (λ u w.
            rw accepted (record {
              value = (stack_pointer, u);
              ends = refl;
              holds = starts s t u frame elf apart m found direct w unmapped;
            })))
