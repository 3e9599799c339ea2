-- ===== src/Interrupts/Exceptions/Report.antt =====
-- kernel/src/interrupts.rs: what a handler of an exception reports, and when it cannot.
use cat.Common.{ℕ, ◌^◌, ◌≡◌, Bool, true, false, List, [], ◌∷◌}
use cat.Console.{Crates, Console, Code, Attempt, ended, spins}
use cat.Console.Documented.{IsLock, IsCritical, sent}
use cat.Common.{bit, ◌==◌}
use cat.Interrupts.Exceptions.{
  title, Exception, Line, breakpoint, double_fault, page_fault, general_protection, stack_frame,
  accessed_address, error_code, error_flags, cause, detail_list, exception_handler,
}

-- The bits of the error code that have a meaning, in the order of the report.
abbrev pub meant : List ℕ
meant = 0 ∷ 1 ∷ 2 ∷ 3 ∷ 4 ∷ 5 ∷ 6 ∷ 7 ∷ 15 ∷ 31 ∷ []

abbrev pub bits_at : ℕ → List ℕ → List Bool
bits_at code [] = []
bits_at code (i ∷ is) = (bit code i == 1) ∷ bits_at code is

abbrev powers : List ℕ → List ℕ
powers [] = []
powers (k ∷ ks) = 2 ^ k ∷ powers ks

-- What an exception is to be reported with: its title, what the processor says of it, in which a
-- page fault's cause and flags are bits of the error code, and the stack frame.
abbrev pub report : Exception → ℕ → ℕ → List Line
report breakpoint code cr2 = title breakpoint ∷ []
report double_fault code cr2 = title double_fault ∷ stack_frame ∷ []
report page_fault code cr2 =
    title page_fault
    ∷ accessed_address cr2
    ∷ error_flags code
    ∷ cause (bit code 0 == 1)
    ∷ detail_list (bits_at code meant)
    ∷ stack_frame
    ∷ []
report general_protection code cr2 = title general_protection ∷ error_code code ∷ stack_frame ∷ []

module _ (crates : Crates) (mutex : IsLock crates) (without_interrupts : Code crates → Code crates)
    (critical : IsCritical crates without_interrupts) (text : Line → List ℕ) where
  -- What the port has behind some lines.
  abbrev pub sent_all : List Line → crates.Port → crates.Port
  sent_all [] port = port
  sent_all (l ∷ ls) port = sent_all ls (sent crates (text l) port)

  pub record Reported (ls : List Line) (c : Console crates) (attempt : Attempt (Console crates))
      : Type 0 where
    pub after : Console crates
    pub ends : attempt ≡ ended after
    pub port : after.port ≡ sent_all ls c.port
    pub free : mutex.held after.serial_lock ≡ false
    pub interrupts : after.interrupts ≡ c.interrupts
    pub screen : after.writer ≡ c.writer

  -- The report of an exception by the state of the port's lock.
  pub record Reports (e : Exception) (code cr2 : ℕ) (c : Console crates) : Type 0 where
    pub free :
        mutex.held c.serial_lock ≡ false
        → Reported
            (report e code cr2)
            c
            (exception_handler crates without_interrupts text e code cr2 c)
    pub held :
        mutex.held c.serial_lock ≡ true
        → exception_handler crates without_interrupts text e code cr2 c ≡ spins
