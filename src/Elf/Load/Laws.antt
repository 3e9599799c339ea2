-- ===== src/Elf/Load/Laws.antt =====
-- kernel/src/elf_loader.rs: the segments of a file, one after the other.
use cat.Common.{ℕ, ◌+◌, ◌-◌, ◌*◌, ◌/◌, ◌^◌, ◌≤◌, ◌<◌, ◌≡◌, refl, ◌∙◌, ap, sym, arith}
use cat.Common.{Option, none, some, inl, inr, ◌⊎◌, List, [], ◌∷◌}
use cat.Common.{Ends, Ends-bind, u64, if◌then◌else◌, ltb}
use cat.Elf.{Paging, Space, ProgramHeader, get_byte}
use cat.Elf.Supply.{IsSupplied, IsApart, Lies}
use cat.Elf.Pages.{some-eq}
use cat.Elf.Segment.{IsLoadable, Loaded, load_segment-Loaded}
use cat.Elf.Load.{load_segments}

abbrev pub address : ℕ → ProgramHeader → ℕ
address base ph = u64 (base + ph.virtual_addr)

abbrev pub last_page : ℕ → ProgramHeader → ℕ
last_page base ph = (address base ph + ph.mem_size - 1) / 4096

-- The page has no byte of the segment, or of any of the segments.
abbrev pub IsAway : ℕ → ℕ → ProgramHeader → Type 0
IsAway q base ph = q < address base ph / 4096 ⊎ address base ph + ph.mem_size ≤ q * 4096

abbrev pub IsAwayAll : ℕ → ℕ → List (Option ProgramHeader) → Type 0
IsAwayAll q base [] = Unit {0}
IsAwayAll q base (none ∷ headers) = IsAwayAll q base headers
IsAwayAll q base (some ph ∷ headers) = IsAway q base ph × IsAwayAll q base headers

-- No page has bytes of the segment and of one of the others.
abbrev pub IsSeparate : ℕ → ProgramHeader → List (Option ProgramHeader) → Type 0
IsSeparate base ph [] = Unit {0}
IsSeparate base ph (none ∷ headers) = IsSeparate base ph headers
IsSeparate base ph (some other ∷ headers) =
    (last_page base other < address base ph / 4096 ⊎ last_page base ph < address base other / 4096)
    × IsSeparate base ph headers

-- Frames that the segments may take, those of page tables included.
abbrev pub frames_for : List (Option ProgramHeader) → ℕ
frames_for [] = 0
frames_for (none ∷ headers) = frames_for headers
frames_for (some ph ∷ headers) = 4 * (ph.mem_size / 4096 + 2) + frames_for headers

module _ (paging : Paging) (hhdm : ℕ) where
  -- What had a frame has it still, with the same bytes.
  abbrev pub Keeps : Space paging hhdm → Space paging hhdm → Type 0
  Keeps s t =
      (addr a : ℕ)
      → Lies paging hhdm s.table addr a
      → Lies paging hhdm t.table addr a × (t.memory a ≡ s.memory a)

  one_place :
      (t : Space paging hhdm) (addr a b : ℕ)
      → Lies paging hhdm t.table addr a
      → Lies paging hhdm t.table addr b
      → a ≡ b
  one_place t addr a b l m =
      let frames = some-eq (sym l.translated ∙ m.translated) in
      let lp = l.place in let mp = m.place in omega arith

module _ (paging : Paging) (hhdm : ℕ) (supplied : IsSupplied paging hhdm)
    (slice : ℕ → ℕ → Option (List ℕ)) (data_of : ProgramHeader → List ℕ) (base : ℕ) where
  -- A segment in the lower half of at least a byte, which the file holds, with no page mapped yet.
  pub record IsFit (ph : ProgramHeader) (s : Space paging hhdm) : Type 0 where
    pub sliced : slice ph.offset ph.file_size ≡ some (data_of ph)
    pub sizes : ph.file_size ≤ ph.mem_size
    pub some_size : 1 ≤ ph.mem_size
    pub lower : address base ph + ph.mem_size < 2 ^ 47
    pub unmapped :
        (q : ℕ)
        → address base ph / 4096 ≤ q
        → q ≤ last_page base ph
        → paging.translate_page s.table q ≡ none

  abbrev pub AreFit : List (Option ProgramHeader) → Space paging hhdm → Type 0
  AreFit [] s = Unit {0}
  AreFit (none ∷ headers) s = AreFit headers s
  AreFit (some ph ∷ headers) s = IsFit ph s × (IsSeparate base ph headers × AreFit headers s)

  -- What a program reads of a segment: the bytes of the file, then zeros.
  pub record Holds (ph : ProgramHeader) (t : Space paging hhdm) : Type 0 where
    pub has_frame :
        (i : ℕ)
        → i < ph.mem_size
        → (frame : ℕ) × (paging.translate_page t.table ((address base ph + i) / 4096) ≡ some frame)
    pub bytes :
        (i a : ℕ)
        → i < ph.mem_size
        → Lies paging hhdm t.table (address base ph + i) a
        → t.memory a ≡ (if ltb i ph.file_size then get_byte (data_of ph) i else 0)

  abbrev pub HoldAll : List (Option ProgramHeader) → Space paging hhdm → Type 0
  HoldAll [] t = Unit {0}
  HoldAll (none ∷ headers) t = HoldAll headers t
  HoldAll (some ph ∷ headers) t = Holds ph t × HoldAll headers t

  pub Holds-Keeps :
      (ph : ProgramHeader) (s t : Space paging hhdm)
      → Keeps paging hhdm s t
      → Holds ph s
      → Holds ph t
  Holds-Keeps ph s t keeps h =
      let old : (i : ℕ)
          → i < ph.mem_size
          → (a : ℕ) × Lies paging hhdm s.table (address base ph + i) a =
        λ i below.
          let (frame, found) = h.has_frame i below in
          (_, record { frame = frame; translated = found; place = refl }) in
      record {
        has_frame = λ i below.
            let (a, l) = old i below in
            let kept = (keeps (address base ph + i) a l).0 in (kept.frame, kept.translated);
        bytes = λ i a below l.
            let (b, m) = old i below in
            let (kept, byte) = keeps (address base ph + i) b m in
            let same = one_place paging hhdm t (address base ph + i) a b l kept in
            ap t.memory same ∙ byte ∙ h.bytes i b below m;
      }

  pub HoldAll-Keeps :
      (headers : List (Option ProgramHeader)) (s t : Space paging hhdm)
      → Keeps paging hhdm s t
      → HoldAll headers s
      → HoldAll headers t
  HoldAll-Keeps [] s t keeps h = tt
  HoldAll-Keeps (none ∷ headers) s t keeps h = HoldAll-Keeps headers s t keeps h
  HoldAll-Keeps (some ph ∷ headers) s t keeps h =
      (Holds-Keeps ph s t keeps h.0, HoldAll-Keeps headers s t keeps h.1)

  pub record AllLoaded (headers : List (Option ProgramHeader)) (s t : Space paging hhdm)
      : Type 0 where
    pub holds : HoldAll headers t
    pub keeps : Keeps paging hhdm s t
    pub outside :
        (q : ℕ)
        → IsAwayAll q base headers
        → paging.translate_page t.table q ≡ paging.translate_page s.table q
    pub apart : IsApart paging hhdm supplied t
    pub counted : supplied.supply s.frames ≤ frames_for headers + supplied.supply t.frames

  away :
      (ph other : ProgramHeader) (q : ℕ)
      → 1 ≤ ph.mem_size
      → last_page base other < address base ph / 4096
        ⊎ last_page base ph < address base other / 4096
      → address base other / 4096 ≤ q
      → q ≤ last_page base other
      → IsAway q base ph
  away ph other q size (inl h) low high = inl (omega arith)
  away ph other q size (inr h) low high = inr (omega arith)

  AreFit-Loaded :
      (ph : ProgramHeader) (headers : List (Option ProgramHeader)) (s t : Space paging hhdm)
      → 1 ≤ ph.mem_size
      → Loaded paging hhdm supplied ph (data_of ph) (address base ph) s t
      → IsSeparate base ph headers
      → AreFit headers s
      → AreFit headers t
  AreFit-Loaded ph [] s t size loaded separate fit = tt
  AreFit-Loaded ph (none ∷ headers) s t size loaded separate fit =
      AreFit-Loaded ph headers s t size loaded separate fit
  AreFit-Loaded ph (some other ∷ headers) s t size loaded separate fit = (
    record {
      sliced = fit.0.sliced;
      sizes = fit.0.sizes;
      some_size = fit.0.some_size;
      lower = fit.0.lower;
      unmapped = λ q low high.
          loaded.outside q (away ph other q size separate.0 low high) ∙ fit.0.unmapped q low high;
    },
    (fit.1.0, AreFit-Loaded ph headers s t size loaded separate.1 fit.1.1),
  )

  pub load_segments-AllLoaded :
      (headers : List (Option ProgramHeader)) (s : Space paging hhdm)
      → IsApart paging hhdm supplied s
      → AreFit headers s
      → frames_for headers ≤ supplied.supply s.frames
      → Ends (load_segments paging hhdm slice base headers s) (AllLoaded headers s)
  unfolding load_segments
  load_segments-AllLoaded [] s apart fit enough = record {
    value = s;
    ends = refl;
    holds = record {
      holds = tt;
      keeps = λ addr a l. (l, refl);
      outside = λ q h. refl;
      apart = apart;
      counted = omega arith;
    };
  }
  load_segments-AllLoaded (none ∷ headers) s apart fit enough =
      let rest = load_segments-AllLoaded headers s apart fit enough in
      record { value = rest.value; ends = rest.ends; holds = as_tail rest.holds }
    where
      as_tail : {t : Space paging hhdm} → AllLoaded headers s t → AllLoaded (none ∷ headers) s t
      as_tail h = record {
        holds = h.holds;
        keeps = h.keeps;
        outside = h.outside;
        apart = h.apart;
        counted = h.counted;
      }
  load_segments-AllLoaded (some ph ∷ headers) s apart fit enough =
      let f = fit.0 in
      let loadable : IsLoadable paging hhdm supplied ph (address base ph) s = record {
        apart = apart;
        sizes = f.sizes;
        lower = f.lower;
        unmapped = f.unmapped;
        enough = omega arith;
      } in
      Ends-bind _ _
        (load_segment-Loaded paging hhdm supplied slice ph base (data_of ph) s f.sliced loadable
          f.some_size)
        (λ t loaded.
          let left = loaded.counted in
          let rest =
            load_segments-AllLoaded headers t loaded.apart
              (AreFit-Loaded ph headers s t f.some_size loaded fit.1.0 fit.1.1) (omega arith) in
          let first : Holds ph t = record { has_frame = loaded.has_frame; bytes = loaded.bytes } in
          record {
            value = rest.value;
            ends = rest.ends;
            holds = record {
              holds = (Holds-Keeps ph t rest.value rest.holds.keeps first, rest.holds.holds);
              keeps = λ addr a l.
                  let (there, byte) = loaded.same addr a l in
                  let (kept, later) = rest.holds.keeps addr a there in (kept, later ∙ byte);
              outside = λ q h. rest.holds.outside q h.1 ∙ loaded.outside q h.0;
              apart = rest.holds.apart;
              counted = let last = rest.holds.counted in omega arith;
            };
          })
