-- ===== src/Interrupts/Exceptions/Tests.antt =====
-- kernel/src/interrupts.rs: a page fault at address 4096 by a write of a user program.
use cat.Common.{ℕ, ◌≡◌, refl, true, false, List, [], ◌∷◌}
use cat.Interrupts.Exceptions.{
  Line, page_fault, title, details, flags_of, is_violation, lines, cause, detail_list, error_flags,
  accessed_address, stack_frame,
}

abbrev text : Line → List ℕ
text stack_frame = 83 ∷ []
text (accessed_address a) = a ∷ []
text _ = 76 ∷ []

fault_lines :
    lines page_fault 6 4096
    ≡ title page_fault
      ∷ accessed_address 4096
      ∷ error_flags 6
      ∷ cause false
      ∷ detail_list
          (false ∷ true ∷ true ∷ false ∷ false ∷ false ∷ false ∷ false ∷ false ∷ false ∷ [])
      ∷ stack_frame
      ∷ []
unfolding lines details flags_of is_violation
fault_lines = refl

-- The texts of this example have a character in front that the port takes.
text_of : Line → List ℕ
text_of l = 1 ∷ text l
