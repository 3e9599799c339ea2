-- ===== src/Elf/Segment.antt =====
-- kernel/src/elf_loader.rs: the address space that `load_segment` leaves.
use cat.Common.{ℕ, ◌+◌, ◌-◌, ◌*◌, ◌/◌, ◌^◌, ◌≤◌, ◌<◌, ◌≡◌, refl, ◌∙◌, ap, sym, arith}
use cat.Common.{false, Option, none, some, inl, inr, ◌⊎◌, Bool-cases, ◌==◌, List}
use cat.Common.{Ends, Ends-bind, u64, if◌then◌else◌, ltb}
use mathlib.Core.Path.{subst}
use cat.Elf.{Paging, Space, ProgramHeader, get_byte, map_range, load_segment}
use cat.Elf.Supply.{IsSupplied, IsApart, Lies, Lies-injective}
use cat.Elf.Pages.{Maps, Lies-Maps, map_to_last}
use cat.Elf.Copy.{Copied, IsApart-Copied, copy_loop-Copied}

module _ (paging : Paging) (hhdm : ℕ) (supplied : IsSupplied paging hhdm) where
  -- A segment in the lower half that the file holds, none of whose pages is mapped yet, and frames
  -- enough for it.
  pub record IsLoadable (ph : ProgramHeader) (vaddr : ℕ) (s : Space paging hhdm) : Type 0 where
    pub apart : IsApart paging hhdm supplied s
    pub sizes : ph.file_size ≤ ph.mem_size
    pub lower : vaddr + ph.mem_size < 2 ^ 47
    pub unmapped :
        (q : ℕ)
        → vaddr / 4096 ≤ q
        → q ≤ (vaddr + ph.mem_size - 1) / 4096
        → paging.translate_page s.table q ≡ none
    pub enough : 4 * (ph.mem_size / 4096 + 2) ≤ supplied.supply s.frames

  -- The segment's addresses have frames of their own and read as the bytes of the file, then zeros.
  -- Other pages translate as before, and those that were mapped hold what they held.
  pub record Loaded (ph : ProgramHeader) (file_data : List ℕ) (vaddr : ℕ) (s t : Space paging hhdm)
      : Type 0 where
    pub has_frame :
        (i : ℕ)
        → i < ph.mem_size
        → (frame : ℕ) × (paging.translate_page t.table ((vaddr + i) / 4096) ≡ some frame)
    pub bytes :
        (i a : ℕ)
        → i < ph.mem_size
        → Lies paging hhdm t.table (vaddr + i) a
        → t.memory a ≡ (if ltb i ph.file_size then get_byte file_data i else 0)
    pub same :
        (addr a : ℕ)
        → Lies paging hhdm s.table addr a
        → Lies paging hhdm t.table addr a × (t.memory a ≡ s.memory a)
    pub outside :
        (q : ℕ)
        → (q < vaddr / 4096) ⊎ (vaddr + ph.mem_size ≤ q * 4096)
        → paging.translate_page t.table q ≡ paging.translate_page s.table q
    pub apart : IsApart paging hhdm supplied t
    pub counted : supplied.supply s.frames ≤ 4 * (ph.mem_size / 4096 + 2) + supplied.supply t.frames

  last_page : ℕ → ℕ → ℕ
  last_page vaddr size = (vaddr + size - 1) / 4096

  module _ (ph : ProgramHeader) (file_data : List ℕ) (vaddr : ℕ) (s t u : Space paging hhdm)
      (h : IsLoadable ph vaddr s) (some_size : 1 ≤ ph.mem_size)
      (m : Maps paging hhdm supplied (vaddr / 4096) ((vaddr + ph.mem_size - 1) / 4096 + 1) s t)
      (c : Copied paging hhdm supplied file_data vaddr ph.file_size 0 t u) where
    back : (addr a : ℕ) → Lies paging hhdm u.table addr a → Lies paging hhdm t.table addr a
    back addr a l = subst (λ (tb : paging.Table). Lies paging hhdm tb addr a) c.table l

    in_segment :
        (i : ℕ)
        → i < ph.mem_size
        → (vaddr / 4096 ≤ (vaddr + i) / 4096)
          × ((vaddr + i) / 4096 < (vaddr + ph.mem_size - 1) / 4096 + 1)
    in_segment i below = (omega arith, omega arith)

    far :
        (q : ℕ)
        → q < vaddr / 4096 ⊎ vaddr + ph.mem_size ≤ q * 4096
        → q < vaddr / 4096 ⊎ (vaddr + ph.mem_size - 1) / 4096 + 1 ≤ q
    far q (inl h) = inl h
    far q (inr h) = inr (omega arith)

    both-Loaded : Loaded ph file_data vaddr s u
    both-Loaded = record {
      has_frame = λ i below.
          let (low, high) = in_segment i below in
          let (f, e) = m.has_frame ((vaddr + i) / 4096) low high in
          (
            f,
            ap (λ (tb : paging.Table). paging.translate_page tb ((vaddr + i) / 4096)) c.table ∙ e,
          );
      bytes = λ i a below l. elim (Bool-cases (ltb i ph.file_size)) [
        | inl early ↦
            let index : 0 + i ≡ i = omega arith in
            rw early
              (c.bytes i a (ground arith) (back (vaddr + i) a l) ∙ ap (get_byte file_data) index)
        | inr late ↦
            let (low, high) = in_segment i below in
            let old = back (vaddr + i) a l in
            let new = h.unmapped ((vaddr + i) / 4096) low (omega arith) in
            rw late (
              c.kept a (λ j k l'.
                let clash =
                  Lies-injective paging hhdm supplied t m.apart (vaddr + i) (vaddr + j) a old l' in
                ground arith)
              ∙ m.zeros ((vaddr + i) / 4096) old.frame low high new old.translated a
                  (let place = old.place in ground arith))
      ];
      same = λ addr a l.
          let (kept_place, kept_byte) =
            Lies-Maps paging hhdm supplied (vaddr / 4096) ((vaddr + ph.mem_size - 1) / 4096 + 1) s t
              h.apart m addr a l in
          (
            subst (λ (tb : paging.Table). Lies paging hhdm tb addr a) (sym c.table) kept_place,
            c.kept a (λ j below l'.
                  let clash : addr ≡ vaddr + j =
                    Lies-injective paging hhdm supplied t m.apart addr (vaddr + j) a kept_place
                      l' in
                  let bound = h.sizes in
                  cc (l.translated, h.unmapped (addr / 4096) (omega arith) (omega arith)))
                ∙ kept_byte,
          );
      outside = λ q away.
          ap (λ (tb : paging.Table). paging.translate_page tb q) c.table ∙ m.outside q (far q away);
      apart = IsApart-Copied paging hhdm supplied file_data vaddr ph.file_size 0 t u c m.apart;
      counted =
          let left = m.counted in let same_frames = ap supplied.supply c.frames in omega arith;
    }

  -- Nothing is copied.
  Copied-none :
      (file_data : List ℕ) (vaddr count : ℕ) (t : Space paging hhdm)
      → count ≡ 0
      → Copied paging hhdm supplied file_data vaddr count 0 t t
  Copied-none file_data vaddr count t e = record {
    table = refl;
    frames = refl;
    bytes = λ i a h l. absurd (omega arith);
    kept = λ a h. refl;
  }

  -- Let pages have frames of their own, and the file hold the bytes of a segment of at least a byte
  -- in the lower half, with a file part no larger than its size, no page of it mapped yet and frames
  -- enough. load_segment then ends. The addresses of the segment have frames of their own and read as
  -- the bytes of the file, followed by zeros; other pages translate as before, and those that were
  -- mapped hold what they held.
  pub load_segment-Loaded :
      (slice : ℕ → ℕ → Option (List ℕ)) (ph : ProgramHeader) (base_addr : ℕ) (file_data : List ℕ)
      (s : Space paging hhdm)
      → slice ph.offset ph.file_size ≡ some file_data
      → IsLoadable ph (u64 (base_addr + ph.virtual_addr)) s
      → 1 ≤ ph.mem_size
      → Ends
          (load_segment paging hhdm slice ph base_addr s)
          (Loaded ph file_data (u64 (base_addr + ph.virtual_addr)) s)
  unfolding load_segment map_range
  load_segment-Loaded slice ph base_addr file_data s sliced h some_size =
      let vaddr = u64 (base_addr + ph.virtual_addr) in
      let end_addr = u64 (vaddr + ph.mem_size) in
      let lower = h.lower in
      let enough = h.enough in
      let sizes = h.sizes in
      let whole : end_addr ≡ vaddr + ph.mem_size = omega arith in
      let nonempty : (ph.mem_size == 0) ≡ false = ground arith in
      let first_ok = supplied.accepts vaddr (omega arith) in
      let last_ok = supplied.accepts (end_addr - 1) (omega arith) in
      rw (nonempty, first_ok, last_ok)
        (Ends-bind _ _
          (map_to_last paging hhdm supplied _ ((end_addr - 1) / 4096 + 1 - vaddr / 4096)
            (vaddr / 4096) ((vaddr + ph.mem_size - 1) / 4096 + 1) s (omega arith) h.apart
            (omega arith))
          (λ t m. elim (Bool-cases (ph.file_size == 0)) [
            | inl empty ↦ rw empty (record {
              value = t;
              ends = refl;
              holds =
                  both-Loaded ph file_data vaddr s t t h some_size m
                    (Copied-none file_data vaddr ph.file_size t (ground arith));
            })
            | inr bytes ↦
                let later =
                  copy_loop-Copied paging hhdm supplied file_data ph.file_size ph.file_size 0 vaddr
                    t m.apart
                    (λ i below. m.has_frame ((vaddr + i) / 4096) (omega arith) (omega arith))
                    (omega arith) (omega arith) in
                let all_bytes : ph.file_size - 0 ≡ ph.file_size = omega arith in
                rw (bytes, sliced)
                  (record {
                    value = later.value;
                    ends = later.ends;
                    holds = both-Loaded ph file_data vaddr s t later.value h some_size m (
                        subst
                          (λ (n : ℕ). Copied paging hhdm supplied file_data vaddr n 0 t later.value)
                          all_bytes later.holds);
                  })
          ]))
