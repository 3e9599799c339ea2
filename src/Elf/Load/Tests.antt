-- ===== src/Elf/Load/Tests.antt =====
-- kernel/src/elf_loader.rs: a file with two segments and a header of another type.
use cat.Common.{ℕ, ◌≡◌, refl, arith, [], ◌∷◌, List, Option, some, none, true, false}
use cat.Common.{panic, Ends, inr}
use cat.Elf.{ProgramHeader}
use cat.Elf.Flat.{flat, flat-IsSupplied, start, start-IsApart}
use cat.Elf.Stack.{base_of}
use cat.Elf.Load.{ElfFile, is_magic, load_file, load_user_elf, start_user}
use cat.Elf.Load.Laws.{IsFit}
use cat.Elf.Load.Start.{Ready, start_user-Ready}

-- Three bytes over the end of page 1026, and two pages of zeros from page 1029.
abbrev text : ProgramHeader
text = record {
  virtual_addr = 12287;
  mem_size = 3;
  file_size = 2;
  offset = 0;
  is_write = false;
  is_execute = true;
}

abbrev data_ : ProgramHeader
data_ = record {
  virtual_addr = 20480;
  mem_size = 8192;
  file_size = 0;
  offset = 2;
  is_write = true;
  is_execute = false;
}

abbrev file : ElfFile
file = record {
  header = record {
    ph_offset = 64;
    ph_count = 3;
    ph_entry_size = 56;
    entry_point = 12287;
    is_pie = true;
  };
  magic = 127 ∷ 69 ∷ 76 ∷ 70 ∷ [];
  program_headers = some text ∷ none ∷ some data_ ∷ [];
}

abbrev slice : ℕ → ℕ → Option (List ℕ)
slice offset size = some (5 ∷ 6 ∷ [])

no_file : load_user_elf flat 1000000 slice none start ≡ panic
unfolding load_user_elf
no_file = refl

wrong_magic :
    load_user_elf flat 1000000 slice (some (record file { magic = 127 ∷ 69 ∷ 76 ∷ 71 ∷ [] })) start
    ≡ panic
unfolding load_user_elf load_file is_magic
wrong_magic = refl

abbrev FitsStart : ProgramHeader → Type 0
FitsStart ph = IsFit flat 1000000 flat-IsSupplied slice (λ h. 5 ∷ 6 ∷ []) 4194304 ph start

text-IsFit : FitsStart text
text-IsFit = record {
  sliced = refl;
  sizes = omega arith;
  some_size = omega arith;
  lower = omega arith;
  unmapped = λ q low high. ground arith;
}

data-IsFit : FitsStart data_
data-IsFit = record {
  sliced = refl;
  sizes = omega arith;
  some_size = omega arith;
  lower = omega arith;
  unmapped = λ q low high. ground arith;
}

start_user-Ready_example :
    Ends
      (start_user flat 1000000 slice file start)
      (Ready flat 1000000 flat-IsSupplied slice (λ h. 5 ∷ 6 ∷ []) file start)
unfolding base_of is_magic
start_user-Ready_example =
    start_user-Ready flat 1000000 flat-IsSupplied slice (λ h. 5 ∷ 6 ∷ []) file start refl
      start-IsApart (text-IsFit, ((inr (omega arith), tt), (data-IsFit, (tt, tt))))
      (λ q low high. (ground arith, (inr (omega arith), (inr (omega arith), tt)))) (omega arith)
      (omega arith)
