-- ===== src/Elf/Relocate/Tests.antt =====
-- kernel/src/elf_loader.rs: relocations in page 1024 of page tables that are functions.
use cat.Common.{ℕ, ◌+◌, ◌-◌, ◌^◌, ◌≡◌, refl, arith, [], ◌∷◌, List, Option, some, none}
use cat.Common.{Run, done, Ends, ◌>>=◌, load_bytes, store, inl}
use cat.Elf.{Space}
use cat.Elf.Flat.{flat, flat-IsSupplied, start, start-IsApart}
use cat.Elf.Relocate.{
  Rela, Relocation, apply_at, apply_relocation, apply_section, apply_sections, process_relocations,
  relocate_dynamic_segment, relocate_entries, relocate_entry, relocate_mapped, is_address,
  is_one_of,
}
use cat.Elf.Relocate.Laws.{Fits, Relocated}
use cat.Elf.Relocate.Sections.{process_relocations-Relocated, entries_of}

abbrev rela : ℕ → ℕ → ℕ → Rela
rela kind offset addend = record { r_type = kind; r_offset = offset; r_addend = addend }

-- Two relative entries and one of another type; the addend of the second is minus one.
abbrev sections : List (Option (List Rela))
sections = some (rela 8 0 5 ∷ rela 6 0 0 ∷ []) ∷ none ∷ some (rela 8 8 (2 ^ 64 - 1) ∷ []) ∷ []

abbrev counts : Run (Relocation flat 1000000) → Run (ℕ × ℕ × ℕ)
counts r = r >>= λ q. done (q.total_relocs, q.applied_relocs, q.skipped_relocs)

relocations_counted :
    counts (process_relocations flat 1000000 4194304 sections start) ≡ done (3, 2, 0)
unfolding process_relocations apply_sections apply_section apply_relocation apply_at
relocations_counted = refl

-- No page is mapped there.
relocation_skipped :
    counts (process_relocations flat 1000000 4198400 sections start) ≡ done (3, 0, 2)
unfolding process_relocations apply_sections apply_section apply_relocation apply_at
relocation_skipped = refl

process_relocations-Relocated_example :
    Ends (process_relocations flat 1000000 4194304 sections start) (
      Relocated flat 1000000 flat-IsSupplied 4194304 start start-IsApart
        (entries_of sections)
        (record { space = start; total_relocs = 0; applied_relocs = 0; skipped_relocs = 0 }))
process_relocations-Relocated_example =
    process_relocations-Relocated flat 1000000 flat-IsSupplied 4194304 start start-IsApart sections
      ((λ e. fits_first), ((λ e. cc), ((λ e. fits_second), tt)))
      ((λ e. ((λ f. cc), ((λ f. inl (omega arith)), tt))), ((λ e. cc), ((λ e. tt), tt)))
  where
    fits_first : Fits flat 1000000 flat-IsSupplied 4194304 start start-IsApart (rela 8 0 5)
    fits_first = record { accepted = refl; in_page = omega arith; frame = 0; found = refl }

    fits_second :
        Fits flat 1000000 flat-IsSupplied 4194304 start start-IsApart (rela 8 8 (2 ^ 64 - 1))
    fits_second = record { accepted = refl; in_page = omega arith; frame = 0; found = refl }

-- DT_STRTAB at 0x100, DT_STRSZ, DT_HASH at zero, the end, and DT_INIT behind it.
abbrev words : List ℕ
words = 5 ∷ 256 ∷ 10 ∷ 256 ∷ 4 ∷ 0 ∷ 0 ∷ 0 ∷ 12 ∷ 256 ∷ []

abbrev put_words : List ℕ → ℕ → (ℕ → ℕ) → ℕ → ℕ
put_words [] a memory = memory
put_words (w ∷ ws) a memory = put_words ws (a + 8) (store a 8 w memory)

abbrev dynamic : Space flat 1000000
dynamic = record start { memory = put_words words 1000000 start.memory }

abbrev d_vals : Run (Space flat 1000000) → Run (ℕ × ℕ × ℕ × ℕ)
d_vals r = r >>= λ s. done (
  load_bytes s.memory 8 1000008,
  load_bytes s.memory 8 1000024,
  load_bytes s.memory 8 1000040,
  load_bytes s.memory 8 1000072,
)

dynamic_segment_relocated :
    d_vals (relocate_dynamic_segment flat 1000000 4194304 (some (0, 80)) dynamic)
    ≡ done (4194560, 256, 0, 256)
unfolding relocate_dynamic_segment relocate_entries relocate_mapped relocate_entry is_address
    is_one_of load_bytes
dynamic_segment_relocated = refl
