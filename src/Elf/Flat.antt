-- ===== src/Elf/Flat.antt =====
-- kernel/src/elf_loader.rs: page tables that are functions, with an allocator that counts up. They
-- meet what the loader relies on.
use cat.Common.{
  ℕ, ◌+◌, ◌-◌, ◌*◌, ◌/◌, ◌%◌, ◌^◌, ◌≤◌, ◌<◌, ◌≡◌, refl, arith, Bool, true, Option, none, some,
}
use cat.Common.{◌==◌, if◌then◌else◌, ltb, leb, ◌&&◌, ◌||◌}
use cat.Elf.{Paging, PageTableFlags, Space}
use cat.Elf.Supply.{Given, Mapped, IsSupplied, IsApart}

-- Frames 0 to 3999 exist; the allocator counts up.
abbrev pub flat : Paging
flat = record {
  Table = ℕ → Option ℕ;
  Frames = ℕ;
  translate_page = λ t page. t page;
  allocate_frame = λ f. if ltb f 4000 then (some (f * 4096), f + 1) else (none, f);
  map_to = λ t f page frame flags. some ((λ q. if q == page then some frame else t q), f);
  virt_addr = λ addr. ltb addr (2 ^ 47) || leb (2 ^ 64 - 2 ^ 47) addr;
}

abbrev pub is_free : ℕ → ℕ → Bool
is_free f x = (x % 4096 == 0) && (leb f (x / 4096) && ltb (x / 4096) 4000)

pub flat-Given : (f : ℕ) → 1 ≤ 4000 - f → Given flat 1000000 is_free (λ n. 4000 - n) f
flat-Given f h = record {
  frame = f * 4096;
  rest = f + 1;
  result = ground arith;
  was_free = ground arith;
  taken = ground arith;
  less = λ x e. ground arith;
  counted = omega arith;
}

pub flat-Mapped :
    (t : ℕ → Option ℕ) (f page frame : ℕ) (flags : PageTableFlags)
    → Mapped flat 1000000 is_free (λ n. 4000 - n) t f page frame flags
flat-Mapped t f page frame flags = record {
  table = λ q. if q == page then some frame else t q;
  rest = f;
  result = refl;
  hit = ground arith;
  miss = λ q ne. ground arith;
  less = λ x e. e;
  counted = omega arith;
}

pub flat_placed : (f x : ℕ) → is_free f x ≡ true → (x % 4096 ≡ 0) × (x + 1000000 + 4096 ≤ 2 ^ 64)
flat_placed f x e = ground arith

pub flat_accepts : (addr : ℕ) → addr < 2 ^ 47 → flat.virt_addr addr ≡ true
flat_accepts addr h = ground arith

abbrev pub flat-IsSupplied : IsSupplied flat 1000000
flat-IsSupplied = record {
  free = is_free;
  supply = λ f. 4000 - f;
  allocates = flat-Given;
  maps = λ t f page frame flags e h. flat-Mapped t f page frame flags;
  aligned = λ f x e. (flat_placed f x e).0;
  direct = λ f x e. (flat_placed f x e).1;
  accepts = flat_accepts;
}

-- Page 1024 has a frame before.
abbrev pub start : Space flat 1000000
start = record { table = λ q. if q == 1024 then some 0 else none; frames = 2; memory = λ a. 7 }

pub start-IsApart : IsApart flat 1000000 flat-IsSupplied start
start-IsApart = record {
  injective = λ p q f h k. ground arith;
  owned = λ p f h. ground arith;
  aligned = λ p f h. ground arith;
  direct = λ p f h. ground arith;
}
