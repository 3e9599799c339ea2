-- ===== src/Interrupts/Exceptions.antt =====
-- kernel/src/interrupts.rs: the handlers of exceptions, which report on the serial port. The texts
-- of the processor's state and of numbers are parameters; a handler is
-- the lines that it prints, behind which all but the one of breakpoints halt.
mod Report
mod Tests
use cat.Common.{ℕ, ◌+◌, ◌^◌, Bool, true, false, not, ◌==◌, bit_and, List, [], ◌∷◌, ◌++◌}
use cat.Common.{if◌then◌else◌}
use cat.Console.{Crates, Console, Code, Attempt, ended, chain, serial_print}

pub data Exception : Type 0 where
  breakpoint double_fault page_fault general_protection : Exception

-- The bits of `PageFaultErrorCode`, in the order in which the code prints them.
abbrev pub fault_bits : List ℕ
fault_bits = 2 ^ 0 ∷ 2 ^ 1 ∷ 2 ^ 2 ∷ 2 ^ 3 ∷ 2 ^ 4 ∷ 2 ^ 5 ∷ 2 ^ 6 ∷ 2 ^ 7 ∷ 2 ^ 15 ∷ 2 ^ 31 ∷ []

pub flags_of : ℕ → List ℕ → List Bool
flags_of bits [] = []
flags_of bits (mask ∷ masks) = not (bit_and bits mask == 0) ∷ flags_of bits masks

pub details : ℕ → List Bool
details bits = flags_of bits fault_bits

-- Whether the cause is a protection violation, rather than a page that is not present.
pub is_violation : ℕ → Bool
is_violation bits = not (bit_and bits (2 ^ 0) == 0)

-- The lines that the handlers print, by what is in them. `error_flags` shows the flags of the code
-- too.
pub data Line : Type 0 where
  title : Exception → Line
  stack_frame : Line
  accessed_address error_code error_flags : ℕ → Line
  cause : Bool → Line
  detail_list : List Bool → Line

pub lines : Exception → ℕ → ℕ → List Line
lines breakpoint code cr2 = title breakpoint ∷ []
lines double_fault code cr2 = title double_fault ∷ stack_frame ∷ []
lines page_fault code cr2 =
    title page_fault
    ∷ accessed_address cr2
    ∷ error_flags code
    ∷ cause (is_violation code)
    ∷ detail_list (details code)
    ∷ stack_frame
    ∷ []
lines general_protection code cr2 = title general_protection ∷ error_code code ∷ stack_frame ∷ []

module _ (crates : Crates) (without_interrupts : Code crates → Code crates)
    (text : Line → List ℕ) where
  pub print_lines : List Line → Code crates
  print_lines [] c = ended c
  print_lines (l ∷ ls) c =
      chain (serial_print crates without_interrupts (text l) c) (print_lines ls)

  pub exception_handler : Exception → ℕ → ℕ → Code crates
  exception_handler e code cr2 = print_lines (lines e code cr2)
