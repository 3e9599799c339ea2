-- ===== src/Interrupts/Handlers/Tests.antt =====
-- kernel/src/interrupts.rs: a history of interrupts with pops between them.
use cat.Common.{arith, List, [], ◌∷◌, Ends}
use cat.Interrupts.Keyboard.{keyboard_buffer}
use cat.Interrupts.Keyboard.Refine.{IsValid}
use cat.Interrupts.Handlers.{
  Controller, Happening, timer_fires, reader_pops, key_pressed, happen_all, Handled,
  happen_all-Handled,
}

abbrev idle : Controller
idle = record { ticks = 0; buffer = keyboard_buffer; acknowledged = []; popped = [] }

abbrev history : List Happening
history = timer_fires ∷ key_pressed 30 ∷ timer_fires ∷ reader_pops ∷ reader_pops ∷ []

idle-IsValid : IsValid idle.buffer
idle-IsValid = omega arith

happen_all-Handled_example : Ends (happen_all history idle) (Handled history idle)
happen_all-Handled_example = happen_all-Handled history idle idle-IsValid
