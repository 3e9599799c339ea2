-- ===== src/Interrupts/Keyboard/Tests.antt =====
-- kernel/src/interrupts.rs: the scancode buffer at concrete histories.
use cat.Common.{◌≡◌, refl, arith, List, [], ◌∷◌, none, some, done}
use cat.Interrupts.Keyboard.Delivery.{run-delivers}
use cat.Common.{get_elem?, Option, ℕ, List}
use cat.Interrupts.Keyboard.Refine.{waiting}
use cat.Interrupts.Keyboard.{Event, key, pop, run, keyboard_buffer}
use cat.Interrupts.Keyboard.Refine.{IsValid, contents, run_queue, run-refines}

abbrev typing : List Event
typing = key 30 ∷ key 158 ∷ pop ∷ key 48 ∷ pop ∷ pop ∷ pop ∷ []

keyboard_buffer-IsValid : IsValid keyboard_buffer
keyboard_buffer-IsValid = omega arith

typing_history : run typing keyboard_buffer ≡ done (some 30 ∷ some 158 ∷ some 48 ∷ none ∷ [])
unfolding run
typing_history = refl

run-refines_example :
    run typing keyboard_buffer ≡ done (run_queue typing (contents keyboard_buffer))
run-refines_example = run-refines typing keyboard_buffer keyboard_buffer-IsValid

run-delivers_example :
    (results : List (Option ℕ)) × (run (key 30 ∷ key 48 ∷ pop ∷ []) keyboard_buffer ≡ done results)
    × (get_elem? results (waiting keyboard_buffer) ≡ some (some 30))
run-delivers_example =
    run-delivers keyboard_buffer 30 (key 48 ∷ pop ∷ []) keyboard_buffer-IsValid (omega arith)
      (omega arith)
