-- ===== src/Interrupts/Vectors/Tests.antt =====
-- kernel/src/interrupts.rs: controllers with the offsets that are asked for, those that they are
-- programmed with, and their masks.
use cat.Common.{ℕ, ◌+◌, ◌-◌, ◌≡◌, refl, arith, none, some, bit, if◌then◌else◌, ltb}
use cat.Interrupts.Timer.{as_u8}
use cat.Interrupts.Exceptions.{double_fault}
use cat.Interrupts.Vectors.{
  Pics, IsDriver, Answers, interrupt_table, set_handler, locked_pics, initialize_pics, on_exception,
  initialize_pics-Answers,
}

abbrev Chips : Type 0
Chips = (ℕ × ℕ) × (ℕ × ℕ) × (ℕ × ℕ)

abbrev chips : Pics
chips = record {
  Chained = Chips;
  new = λ a b. ((a, b), (8, 112), (255, 255));
  initialize = λ c. (c.0, c.0, c.2);
  write_masks = λ a b c. (c.0, c.1, (a, b));
}

abbrev vector : Chips → ℕ → ℕ
vector c line = if ltb line 8 then c.1.0 + line else c.1.1 + (line - 8)

abbrev is_masked : Chips → ℕ → ℕ
is_masked c line = if ltb line 8 then bit c.2.0 line else bit c.2.1 (line - 8)

chips-IsDriver : IsDriver chips
chips-IsDriver = record {
  vector = vector;
  is_masked = is_masked;
  offsets = λ a b line. refl;
  stays = λ a b c line. refl;
  masks = λ a b c line. refl;
}

double_fault_has_stack :
    interrupt_table 8 ≡ some (record { handler = on_exception double_fault; stack_index = some 0 })
unfolding interrupt_table set_handler as_u8
double_fault_has_stack = refl

no_other_handler : interrupt_table 34 ≡ none
unfolding interrupt_table set_handler as_u8
no_other_handler = refl

initialize_pics-Answers_example :
    Answers (chips-IsDriver.vector (initialize_pics chips (locked_pics chips)) 1)
unfolding chips-IsDriver initialize_pics locked_pics
initialize_pics-Answers_example = initialize_pics-Answers chips chips-IsDriver 1 (omega arith) refl
