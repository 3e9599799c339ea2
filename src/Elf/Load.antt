-- ===== src/Elf/Load.antt =====
-- kernel/src/elf_loader.rs: `load_user_elf`. The file as the xmas_elf crate reads it is an argument:
-- nothing when it cannot be parsed, and the program headers that are not of the type LOAD are left
-- out as `none`.
pub mod Laws
pub mod Start
mod Tests
use cat.Common.{ℕ, ◌+◌, ◌^◌, Bool, true, false, ◌&&◌, ◌==◌, Option, none, some, List, [], ◌∷◌}
use cat.Common.{Run, done, panic, ◌>>=◌, if◌then◌else◌, u64}
use cat.Elf.{Paging, Space, ProgramHeader, load_segment, map_pools}
use cat.Elf.Stack.{ElfHeader, base_of, setup_user_stack}

pub record ElfFile : Type 0 where
  pub header : ElfHeader
  pub magic : List ℕ
  pub program_headers : List (Option ProgramHeader)

unfoldable pub is_magic : List ℕ → Bool
is_magic (a ∷ b ∷ c ∷ d ∷ []) = (a == 0x7F) && ((b == 69) && ((c == 76) && (d == 70)))
is_magic _ = false

module _ (paging : Paging) (hhdm : ℕ) (slice : ℕ → ℕ → Option (List ℕ)) where
  pub load_segments : ℕ → List (Option ProgramHeader) → Space paging hhdm → Run (Space paging hhdm)
  load_segments base_addr [] s = done s
  load_segments base_addr (none ∷ headers) s = load_segments base_addr headers s
  load_segments base_addr (some ph ∷ headers) s =
      load_segment paging hhdm slice ph base_addr s >>= load_segments base_addr headers

  pub load_file : ElfFile → Space paging hhdm → Run (ℕ × Space paging hhdm)
  load_file elf s =
      let base_addr = base_of elf.header in
      let entry_point = u64 (base_addr + elf.header.entry_point) in
      let loaded = load_segments base_addr elf.program_headers s >>= map_pools paging hhdm >>= λ t.
      (if paging.virt_addr entry_point then done (entry_point, t) else panic) in
      if is_magic elf.magic then loaded else panic

  pub load_user_elf : Option ElfFile → Space paging hhdm → Run (ℕ × Space paging hhdm)
  load_user_elf none s = panic
  load_user_elf (some elf) s = load_file elf s

  -- The end of `_start` in kernel/src/main.rs: what the program is entered with. The code parses the
  -- same bytes again for the stack.
  pub start_user : ElfFile → Space paging hhdm → Run (ℕ × ℕ × Space paging hhdm)
  start_user elf s = load_user_elf (some elf) s >>= λ loaded.
      (setup_user_stack paging hhdm elf.header loaded.1 >>= λ ready.
      done (loaded.0, ready.0, ready.1))
