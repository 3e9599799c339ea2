-- ===== src/Elf/Relocate/Sections.antt =====
-- kernel/src/elf_loader.rs: `process_relocations` over all sections of a file.
use cat.Common.{ℕ, ◌≡◌, refl, ◌∙◌, sym, Option, none, some, List, [], ◌∷◌, ◌++◌}
use cat.Common.{Run, done, panic, fault, ◌>>=◌, Ends}
use mathlib.Core.Path.{subst}
use cat.Elf.{Paging, Space}
use cat.Elf.Supply.{IsSupplied, IsApart}
use cat.Elf.Relocate.{
  Rela, Relocation, apply_relocation, apply_section, apply_sections, process_relocations,
}
use cat.Elf.Relocate.Laws.{AllFit, AllDisjoint, Relocated, apply_section-Relocated}

-- The entries of the sections that have some, in the order of the file.
abbrev pub entries_of : List (Option (List Rela)) → List Rela
entries_of [] = []
entries_of (none ∷ sections) = entries_of sections
entries_of (some relas ∷ sections) = relas ++ entries_of sections

module _ (paging : Paging) (hhdm base : ℕ) where
  bind_assoc :
      {A B C : Type 0} (r : Run A) (f : A → Run B) (g : B → Run C)
      → ((r >>= f) >>= g) ≡ (r >>= λ a. f a >>= g)
  bind_assoc (done a) f g = refl
  bind_assoc panic f g = refl
  bind_assoc fault f g = refl

  bind_ext :
      {A B : Type 0} (r : Run A) (f g : A → Run B) → ((a : A) → f a ≡ g a) → (r >>= f) ≡ (r >>= g)
  bind_ext (done a) f g h = h a
  bind_ext panic f g h = refl
  bind_ext fault f g h = refl

  apply_section-append :
      (rs ss : List Rela) (p : Relocation paging hhdm)
      → apply_section paging hhdm base (rs ++ ss) p
        ≡ (apply_section paging hhdm base rs p >>= apply_section paging hhdm base ss)
  unfolding apply_section
  apply_section-append [] ss p = refl
  apply_section-append (r ∷ rs) ss p =
      bind_ext (apply_relocation paging hhdm base r p) (apply_section paging hhdm base (rs ++ ss))
        (λ q. apply_section paging hhdm base rs q >>= apply_section paging hhdm base ss)
        (apply_section-append rs ss)
      ∙ sym (
          bind_assoc (apply_relocation paging hhdm base r p) (apply_section paging hhdm base rs)
            (apply_section paging hhdm base ss))

  apply_sections-entries :
      (sections : List (Option (List Rela))) (p : Relocation paging hhdm)
      → apply_sections paging hhdm base sections p
        ≡ apply_section paging hhdm base (entries_of sections) p
  unfolding apply_sections apply_section
  apply_sections-entries [] p = refl
  apply_sections-entries (none ∷ sections) p = apply_sections-entries sections p
  apply_sections-entries (some rs ∷ sections) p =
      bind_ext (apply_section paging hhdm base rs p) (apply_sections paging hhdm base sections)
        (apply_section paging hhdm base (entries_of sections)) (apply_sections-entries sections)
      ∙ sym (apply_section-append rs (entries_of sections) p)

module _ (paging : Paging) (hhdm : ℕ) (supplied : IsSupplied paging hhdm) (base : ℕ)
    (s : Space paging hhdm) (apart : IsApart paging hhdm supplied s) where
  -- From a space in which pages have frames of their own, when each relative entry of the sections
  -- names a word in one mapped page and no two of them overlap, process_relocations ends. Each word
  -- that an entry names reads as the base plus its addend, every word that no entry names reads as
  -- before, the page tables are as they were, and the counts are right: all entries, the relative
  -- ones, and none skipped.
  pub process_relocations-Relocated :
      (sections : List (Option (List Rela)))
      → AllFit paging hhdm supplied base s apart (entries_of sections)
      → AllDisjoint base (entries_of sections)
      → Ends (process_relocations paging hhdm base sections s) (
          Relocated paging hhdm supplied base s apart
            (entries_of sections)
            (record { space = s; total_relocs = 0; applied_relocs = 0; skipped_relocs = 0 }))
  unfolding process_relocations
  process_relocations-Relocated sections fit dis =
      let p : Relocation paging hhdm = record {
        space = s;
        total_relocs = 0;
        applied_relocs = 0;
        skipped_relocs = 0;
      } in
      subst (λ r. Ends r (Relocated paging hhdm supplied base s apart (entries_of sections) p))
        (sym (apply_sections-entries paging hhdm base sections p))
        (apply_section-Relocated paging hhdm supplied base s apart (entries_of sections) p refl fit
          dis)
