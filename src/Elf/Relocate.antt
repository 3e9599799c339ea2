-- ===== src/Elf/Relocate.antt =====
-- kernel/src/elf_loader.rs: `process_relocations` and `relocate_dynamic_segment`, over the entries
-- that the xmas_elf crate reads. The lines that they print are not modelled, the counts are.
pub mod Laws
mod Sections
mod Tests
use cat.Common.{
  ℕ, zero, suc, ◌+◌, ◌*◌, ◌/◌, ◌%◌, ◌^◌, Bool, true, false, not, ◌&&◌, Option, none, some, List, [],
  ◌∷◌,
}
use cat.Common.{Run, done, panic, ◌>>=◌, ◌==◌, if◌then◌else◌, u64, store, load_bytes}
use cat.Elf.{Paging, Space, containing_page}

-- `r_addend` as its 64-bit pattern.
pub record Rela : Type 0 where
  pub r_type : ℕ
  pub r_offset : ℕ
  pub r_addend : ℕ

pub is_one_of : List ℕ → ℕ → Bool
is_one_of [] d_tag = false
is_one_of (t ∷ ts) d_tag = if d_tag == t then true else is_one_of ts d_tag

-- The tags of the dynamic section that the code lists as addresses, DT_RELACOUNT among them.
pub is_address : ℕ → Bool
is_address = is_one_of (
    3 ∷ 4 ∷ 5 ∷ 6 ∷ 7 ∷ 12 ∷ 13 ∷ 17 ∷ 23 ∷ 25 ∷ 26 ∷ 0x6ffffef5 ∷ 0x6ffffff0 ∷ 0x6ffffffe
    ∷ 0x6ffffff9 ∷ [])

module _ (paging : Paging) (hhdm : ℕ) where
  pub record Relocation : Type 0 where
    pub space : Space paging hhdm
    pub total_relocs : ℕ
    pub applied_relocs : ℕ
    pub skipped_relocs : ℕ

  pub apply_at : ℕ → ℕ → Relocation → Option ℕ → Relocation
  apply_at page_offset value p none = record p { skipped_relocs = p.skipped_relocs + 1 }
  apply_at page_offset value p (some frame) = record p {
    space = record p.space {
      memory = store (u64 (u64 (frame + hhdm) + page_offset)) 8 value p.space.memory;
    };
    applied_relocs = p.applied_relocs + 1;
  }

  -- The body of the loop over the entries of a section.
  pub apply_relocation : ℕ → Rela → Relocation → Run Relocation
  apply_relocation base_addr rela p =
      let counted = record p { total_relocs = p.total_relocs + 1 } in
      let target_vaddr = u64 (base_addr + rela.r_offset) in
      let value = u64 (base_addr + rela.r_addend) in
      if rela.r_type == 8
      then (if paging.virt_addr target_vaddr
          then done (
              apply_at (target_vaddr % 4096) value counted
                (paging.translate_page p.space.table (containing_page target_vaddr)))
          else panic)
      else done counted

  pub apply_section : ℕ → List Rela → Relocation → Run Relocation
  apply_section base_addr [] p = done p
  apply_section base_addr (rela ∷ relas) p =
      apply_relocation base_addr rela p >>= apply_section base_addr relas

  -- The sections, each with its entries if they are of the kind `Rela64`.
  pub apply_sections : ℕ → List (Option (List Rela)) → Relocation → Run Relocation
  apply_sections base_addr [] p = done p
  apply_sections base_addr (none ∷ sections) p = apply_sections base_addr sections p
  apply_sections base_addr (some relas ∷ sections) p =
      apply_section base_addr relas p >>= apply_sections base_addr sections

  pub process_relocations : ℕ → List (Option (List Rela)) → Space paging hhdm → Run Relocation
  process_relocations base_addr sections s =
      apply_sections base_addr sections
        (record { space = s; total_relocs = 0; applied_relocs = 0; skipped_relocs = 0 })

  -- What becomes of the memory at one entry: `none` ends the loop.
  pub relocate_entry : ℕ → ℕ → Space paging hhdm → Option (Space paging hhdm)
  relocate_entry base_addr ptr s =
      let d_tag = load_bytes s.memory 8 ptr in
      let d_val = load_bytes s.memory 8 (u64 (ptr + 8)) in
      let moved = record s {
        memory = store (u64 (ptr + 8)) 8 (u64 (d_val + base_addr)) s.memory;
      } in
      if d_tag == 0
      then none
      else if d_tag == 0x6ffffff9
      then some s
      else if is_address d_tag && not (d_val == 0)
      then some moved
      else some s

  pub relocate_mapped : ℕ → ℕ → Space paging hhdm → Option ℕ → Option (Space paging hhdm)
  relocate_mapped base_addr page_offset s none = some s
  relocate_mapped base_addr page_offset s (some frame) =
      relocate_entry base_addr (u64 (u64 (frame + hhdm) + page_offset)) s

  abbrev pub or_stop :
      Option (Space paging hhdm)
      → Space paging hhdm
      → (Space paging hhdm → Run (Space paging hhdm))
      → Run (Space paging hhdm)
  or_stop none s rest = done s
  or_stop (some t) s rest = rest t

  pub relocate_entries : ℕ → ℕ → ℕ → Space paging hhdm → Run (Space paging hhdm)
  relocate_entries base_addr zero entry_vaddr s = done s
  relocate_entries base_addr (suc rounds) entry_vaddr s =
      let rest =
        or_stop
          (relocate_mapped base_addr (entry_vaddr % 4096) s
            (paging.translate_page s.table (containing_page entry_vaddr)))
          s (relocate_entries base_addr rounds (u64 (entry_vaddr + 16))) in
      if paging.virt_addr entry_vaddr then rest else panic

  -- On the first program header of the kind `Dynamic`, by its address and size.
  pub relocate_dynamic_segment : ℕ → Option (ℕ × ℕ) → Space paging hhdm → Run (Space paging hhdm)
  relocate_dynamic_segment base_addr none s = done s
  relocate_dynamic_segment base_addr (some (virtual_addr, mem_size)) s =
      relocate_entries base_addr (mem_size / 16) (u64 (base_addr + virtual_addr)) s
