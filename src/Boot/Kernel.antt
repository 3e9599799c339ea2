-- ===== src/Boot/Kernel.antt =====
-- uefi_boot/src/main.rs: where the bytes of the kernel's segments lie.
use cat.Common.{
  ℕ, zero, suc, ◌+◌, ◌-◌, ◌*◌, ◌/◌, ◌%◌, ◌^◌, ◌≤◌, ◌<◌, ◌≡◌, ◌≢◌, refl, ◌∙◌, ap, arith,
}
use cat.Common.{true, false, inl, inr, ◌⊎◌, Bool-cases, List, length, u64, some, none, ==→eq, ◌==◌}
use cat.Common.{if◌then◌else◌, ltb, leb, Ends, within, div_ceil}
use cat.Elf.{get_byte}
use cat.Boot.{
  BumpAllocator, PageFlags, Mapper, Loader, Segment, must_map, map_segment, fill_segment,
  load_segment,
}

-- The firmware's page tables, while the pool has the frames that map_to may take for tables.
pub record IsMapper (mapper : Mapper) : Type 0 where
  pub after : mapper.Table → BumpAllocator → ℕ → ℕ → PageFlags → mapper.Table × BumpAllocator
  pub maps :
      (t : mapper.Table) (a : BumpAllocator) (page frame : ℕ) (w : PageFlags)
      → mapper.translate_page t page ≡ none
      → a.next + 3 * 4096 ≤ a.end
      → mapper.map_to t a page frame w ≡ some (after t a page frame w)
  pub hit :
      (t : mapper.Table) (a : BumpAllocator) (page frame : ℕ) (w : PageFlags)
      → mapper.translate_page (after t a page frame w).0 page ≡ some frame
  pub miss :
      (t : mapper.Table) (a : BumpAllocator) (page frame : ℕ) (w : PageFlags) (q : ℕ)
      → q ≢ page
      → mapper.translate_page (after t a page frame w).0 q ≡ mapper.translate_page t q
  pub same_end :
      (t : mapper.Table) (a : BumpAllocator) (page frame : ℕ) (w : PageFlags)
      → (after t a page frame w).1.end ≡ a.end
  pub takes :
      (t : mapper.Table) (a : BumpAllocator) (page frame : ℕ) (w : PageFlags)
      → (after t a page frame w).1.next ≤ a.next + 3 * 4096
  pub accepts : (x : ℕ) → x < 2 ^ 52 → mapper.phys_addr x ≡ true

module _ (mapper : Mapper) (laws : IsMapper mapper) where
  -- The pages from `first` to below `last` follow one another in memory from `phys`; the other
  -- pages and the memory are as they were.
  pub record InRow (first last phys : ℕ) (l m : Loader mapper) : Type 0 where
    pub row :
        (q : ℕ)
        → first ≤ q
        → q < last
        → mapper.translate_page m.table q ≡ some (phys + (q - first) * 4096)
    pub outside :
        (q : ℕ)
        → q < first ⊎ last ≤ q
        → mapper.translate_page m.table q ≡ mapper.translate_page l.table q
    pub memory : m.memory ≡ l.memory

  pub map_segment-InRow :
      (w : PageFlags) (rounds first last phys : ℕ) (l : Loader mapper)
      → first + rounds ≡ last
      → phys % 4096 ≡ 0
      → phys + rounds * 4096 ≤ 2 ^ 52
      → l.frames.next + rounds * 3 * 4096 ≤ l.frames.end
      → ((q : ℕ) → first ≤ q → q < last → mapper.translate_page l.table q ≡ none)
      → Ends (map_segment mapper w rounds first phys l) (InRow first last phys l)
  unfolding map_segment must_map
  map_segment-InRow w zero first last phys l e aligned low enough unmapped = record {
    value = l;
    ends = refl;
    holds = record { row = λ q h k. absurd (omega arith); outside = λ q h. refl; memory = refl };
  }
  map_segment-InRow w (suc rounds) first last phys l e aligned low enough unmapped =
      let accepted = laws.accepts phys (omega arith) in
      let frame : phys / 4096 * 4096 ≡ phys = omega arith in
      let mapped =
        laws.maps l.table l.frames first phys w (unmapped first (omega arith) (omega arith))
          (omega arith) in
      let t = laws.after l.table l.frames first phys w in
      let next : u64 (phys + 4096) ≡ phys + 4096 = omega arith in
      let taken = laws.takes l.table l.frames first phys w in
      let ends = laws.same_end l.table l.frames first phys w in
      let m = record l { table = t.0; frames = t.1 } in
      let miss = λ (q : ℕ) (ne : q ≢ first). laws.miss l.table l.frames first phys w q ne in
      let later =
        map_segment-InRow w rounds (first + 1) last (phys + 4096) m (omega arith) (omega arith)
          (omega arith) (omega arith)
          (λ q h k. miss q (λ (s : q ≡ first). omega arith) ∙ unmapped q (omega arith) k) in
      rw (accepted, frame, mapped, next)
        (record {
          value = later.value;
          ends = later.ends;
          holds = record {
            row = λ q h k. elim (Bool-cases (q == first)) [
              | inl here ↦
                  let at : q ≡ first = ==→eq q first here in
                  let start : phys + (first - first) * 4096 ≡ phys = omega arith in
                  rw (at, start)
                    (later.holds.outside first (inl (omega arith))
                      ∙ laws.hit l.table l.frames first phys w)
              | inr after ↦
                  let place : phys + 4096 + (q - (first + 1)) * 4096 ≡ phys + (q - first) * 4096 =
                    ground arith in
                  later.holds.row q (ground arith) k ∙ ap some place
            ];
            outside = λ q h.
                later.holds.outside q (beyond q first last h)
                ∙ miss q (away q first last (omega arith) h);
            memory = later.holds.memory;
          };
        })
    where
      beyond : (q first last : ℕ) → q < first ⊎ last ≤ q → q < first + 1 ⊎ last ≤ q
      beyond q first last (inl h) = inl (omega arith)
      beyond q first last (inr h) = inr h

      away : (q first last : ℕ) → first < last → q < first ⊎ last ≤ q → q ≢ first
      away q first last lt (inl h) s = omega arith
      away q first last lt (inr h) s = omega arith

  -- A segment whose file part is there and no larger than the segment, whole frames for it from
  -- `phys`, addresses that VirtAddr::new takes, no page of it mapped, and a pool with tables enough.
  pub record IsPlaceable (file_data : List ℕ) (ph : Segment) (phys : ℕ) (l : Loader mapper)
      : Type 0 where
    pub sizes : ph.file_size ≤ ph.mem_size
    pub nonempty : 1 ≤ ph.mem_size
    pub whole : length file_data ≡ ph.file_size
    pub upper : ph.virtual_addr + ph.mem_size ≤ 2 ^ 64
    pub aligned : phys % 4096 ≡ 0
    pub low : phys + (ph.mem_size / 4096 + 2) * 4096 ≤ 2 ^ 52
    pub accepts_start : mapper.virt_addr ph.virtual_addr ≡ true
    pub accepts_last : mapper.virt_addr (ph.virtual_addr + ph.mem_size - 1) ≡ true
    pub enough : l.frames.next + (ph.mem_size / 4096 + 2) * 3 * 4096 ≤ l.frames.end
    pub unmapped :
        (q : ℕ)
        → ph.virtual_addr / 4096 ≤ q
        → q < (ph.virtual_addr + ph.mem_size - 1) / 4096 + 1
        → mapper.translate_page l.table q ≡ none

  -- Byte `i` of the segment, read from the address `i` behind the start of the first page.
  pub record Placed (file_data : List ℕ) (ph : Segment) (l m : Loader mapper) : Type 0 where
    pub reads :
        (i : ℕ)
        → i < ph.mem_size
        → (frame : ℕ) × (mapper.translate_page m.table ((ph.virtual_addr / 4096 * 4096 + i) / 4096)
            ≡ some frame)
          × (m.memory (frame + i % 4096) ≡ (if ltb i ph.file_size then get_byte file_data i else 0))
    pub outside :
        (q : ℕ)
        → q < ph.virtual_addr / 4096 ⊎ (ph.virtual_addr + ph.mem_size - 1) / 4096 + 1 ≤ q
        → mapper.translate_page m.table q ≡ mapper.translate_page l.table q

  -- load_segment of the bootloader ends on such a segment, and byte i of it, the file's or a zero,
  -- is read i bytes behind the start of the segment's first page: at its own address exactly when
  -- the segment starts a page. The pages of other addresses translate as before.
  pub load_segment-Placed :
      (file_data : List ℕ) (ph : Segment) (phys : ℕ) (l : Loader mapper)
      → IsPlaceable file_data ph phys l
      → Ends (load_segment mapper (some phys) (some file_data) ph l) (Placed file_data ph l)
  unfolding load_segment fill_segment
  load_segment-Placed file_data ph phys l h =
      let upper = h.upper in
      let nonempty = h.nonempty in
      let sizes = h.sizes in
      let enough = h.enough in
      let low = h.low in
      let room : leb ph.file_size (div_ceil ph.mem_size 4096 * 4096) ≡ true = ground arith in
      let all : (length file_data == ph.file_size) ≡ true = ground (arith, h.whole) in
      let last : u64 (ph.virtual_addr + ph.mem_size + 2 ^ 64 - 1)
          ≡ ph.virtual_addr + ph.mem_size - 1 =
        omega arith in
      let first_page = ph.virtual_addr / 4096 in
      let last_page = (ph.virtual_addr + ph.mem_size - 1) / 4096 in
      rw (room, all, last, h.accepts_start, h.accepts_last)
        (let l' = record l {
          memory = λ a.
              if within phys ph.file_size a
              then get_byte file_data (a - phys)
              else if within (phys + ph.file_size) (ph.mem_size - ph.file_size) a
              then 0
              else l.memory a;
        } in
          let rows =
            map_segment-InRow (record { writable = ph.is_write; no_cache = false })
              (last_page + 1 - first_page) first_page (last_page + 1) phys l' (omega arith)
              h.aligned (omega arith) (omega arith) h.unmapped in
          record {
            value = rows.value;
            ends = rows.ends;
            holds = record {
              reads = λ i k.
                  let q = (first_page * 4096 + i) / 4096 in
                  let page : (q ≡ first_page + i / 4096) = omega arith in
                  let place : phys + (q - first_page) * 4096 + i % 4096 ≡ phys + i = omega arith in
                  (
                    phys + (q - first_page) * 4096,
                    rows.holds.row q (omega arith) (omega arith),
                    ap (λ (mem : ℕ → ℕ). mem (phys + (q - first_page) * 4096 + i % 4096))
                          rows.holds.memory
                        ∙ ap l'.memory place
                        ∙ filled i k,
                  );
              outside = λ q away. rows.holds.outside q away;
            };
          })
    where
      filled :
          (i : ℕ)
          → i < ph.mem_size
          → (if within phys ph.file_size (phys + i)
              then get_byte file_data (phys + i - phys)
              else if within (phys + ph.file_size) (ph.mem_size - ph.file_size) (phys + i)
              then 0
              else l.memory (phys + i))
            ≡ (if ltb i ph.file_size then get_byte file_data i else 0)
      filled i k = elim (Bool-cases (ltb i ph.file_size)) [
        | inl early ↦
            let inside : within phys ph.file_size (phys + i) ≡ true = ground arith in
            let index : phys + i - phys ≡ i = omega arith in rw (early, inside, index) refl
        | inr late ↦
            let outside : within phys ph.file_size (phys + i) ≡ false = ground arith in
            let inside : within (phys + ph.file_size) (ph.mem_size - ph.file_size) (phys + i)
                ≡ true =
              ground arith in
            rw (late, outside, inside) refl
      ]
