-- ===== src/Start/Tests.antt =====
-- kernel/src/main.rs: a program without segments over page tables that are functions.
use cat.Common.{ℕ, refl, arith, none, some, List, [], ◌∷◌, Ends, inr, Option, true, false}
use cat.Elf.{ProgramHeader}
use cat.Elf.Flat.{flat, flat-IsSupplied, start, start-IsApart}
use cat.Elf.Stack.{base_of}
use cat.Elf.Load.{ElfFile, is_magic}
use cat.Elf.Load.Laws.{IsFit}
use cat.Heap.{KernelHeap}
use cat.Start.{start_memory}
use cat.Start.Laws.{Started, start_memory-Started}

abbrev heap : KernelHeap flat 1000000
heap = record { space = start; region = none }

-- Two pages of zeros from page 1029.
abbrev zeros : ProgramHeader
zeros = record {
  virtual_addr = 20480;
  mem_size = 8192;
  file_size = 0;
  offset = 2;
  is_write = true;
  is_execute = false;
}

abbrev program : ElfFile
program = record {
  header = record {
    ph_offset = 64;
    ph_count = 1;
    ph_entry_size = 56;
    entry_point = 20480;
    is_pie = true;
  };
  magic = 127 ∷ 69 ∷ 76 ∷ 70 ∷ [];
  program_headers = some zeros ∷ [];
}

abbrev slice : ℕ → ℕ → Option (List ℕ)
slice offset size = some (5 ∷ 6 ∷ [])

zeros-IsFit : IsFit flat 1000000 flat-IsSupplied slice (λ h. 5 ∷ 6 ∷ []) 4194304 zeros start
zeros-IsFit = record {
  sliced = refl;
  sizes = omega arith;
  some_size = omega arith;
  lower = omega arith;
  unmapped = λ q low high. ground arith;
}

start_memory-Started_example :
    Ends
      (start_memory flat 1000000 slice program heap)
      (Started flat 1000000 flat-IsSupplied slice (λ h. 5 ∷ 6 ∷ []) heap program)
unfolding base_of is_magic
start_memory-Started_example =
    start_memory-Started flat 1000000 flat-IsSupplied slice (λ h. 5 ∷ 6 ∷ []) heap
      (λ q low high. ground arith) program refl refl refl refl start-IsApart (zeros-IsFit, (tt, tt))
      (λ q low high. (ground arith, (inr (omega arith), tt))) (omega arith) (omega arith)
