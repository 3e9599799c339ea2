-- ===== src/Console/Tests.antt =====
-- shared/src/serial.rs, shared/src/panic.rs and kernel/src/writer.rs: runs on a console whose locks
-- are flags.
use cat.Common.{ℕ, ◌≡◌, refl, Bool, true, false, Option, none, some, List, [], ◌∷◌, ◌++◌}
use cat.Common.{length, ap, sym, ◌∙◌, ◌==◌, Bool-cases, inl, inr, arith}
use cat.Screen.{FrameBufferWriter}
use cat.Screen.Terminal.{empty_terminal}
use cat.Screen.Terminal.Shown.{Shown, IsTerminal}
use cat.Screen.Sample.{font, writer, writer-IsVisible}
use cat.Console.{
  Console, Attempt, Location, ended, serial_print, serial_write, print, panic_handler_impl,
  print_panic, panic_write, take_port, force_print, location_text, message_prefix,
}
use cat.Console.Sample.{flags, flags-IsLock, critical, critical-IsCritical, console}
use cat.Console.Panic.{Prints, panic_handler_impl-Prints}
use cat.Console.Print.{Printed, print-Printed}

abbrev here : Location
here = record { file = 97 ∷ []; line = 3; column = 4 }

abbrev on_port : Attempt (Console flags) → Option (List ℕ × Bool)
on_port (ended c) = some (c.port, c.serial_lock)
on_port _ = none

message_forced :
    on_port (panic_handler_impl flags critical none [] (console true))
    ≡ some (
      force_print ++ location_text flags none ++ force_print ++ message_prefix ++ (10 ∷ []),
      false,
    )
unfolding panic_handler_impl print_panic panic_write take_port
message_forced = refl

print_blocked : on_port (serial_print flags critical (65 ∷ []) (console true)) ≡ none
unfolding serial_print serial_write
print_blocked = refl

panic_handler_impl-Prints_example :
    Prints flags flags-IsLock
      (force_print
        ++ location_text flags (some here)
        ++ force_print
        ++ message_prefix
        ++ (66 ∷ [])
        ++ (10 ∷ []))
      (console true)
      (panic_handler_impl flags critical (some here) (66 ∷ []) (console true))
panic_handler_impl-Prints_example =
    panic_handler_impl-Prints flags flags-IsLock critical critical-IsCritical (some here) (66 ∷ [])
      (console true)

-- A blank screen.
abbrev blank_writer : FrameBufferWriter
blank_writer = record writer { pixels = λ i. 1; y_pos = 0 }

abbrev blank_console : Console flags
blank_console = record (console false) { writer = some blank_writer }

blank-Shown : Shown font blank_writer empty_terminal blank_writer
blank-Shown = record {
  placed = refl;
  cells = λ r c y x hr hc hy hx. refl;
  margin = λ y x low high hx. refl;
  in_row = omega arith;
  in_col = omega arith;
}

blank-IsTerminal : IsTerminal blank_writer
blank-IsTerminal = record {
  screen = writer-IsVisible.screen;
  scaled = omega arith;
  tall = omega arith;
  broad = omega arith;
}

abbrev or_blank : Option (List ℕ) → List ℕ
or_blank none = 0 ∷ 0 ∷ 0 ∷ 0 ∷ 0 ∷ 0 ∷ 0 ∷ 0 ∷ []
or_blank (some g) = g

glyph_size : (c : ℕ) (g : List ℕ) → font c ≡ some g → length g ≡ 8
glyph_size c g e =
    sym (ap (λ (o : Option (List ℕ)). length (or_blank o)) e)
    ∙ elim (Bool-cases (c == 65)) [ inl here ↦ rw here refl | inr other ↦ rw other refl ]

print-Printed_example :
    Printed flags flags-IsLock font critical critical-IsCritical blank_writer empty_terminal
      (65 ∷ 10 ∷ [])
      blank_console
      (print flags font critical (65 ∷ 10 ∷ []) blank_console)
print-Printed_example =
    print-Printed flags flags-IsLock font critical critical-IsCritical blank_writer empty_terminal
      (65 ∷ 10 ∷ []) blank_writer blank_console refl refl refl refl blank-IsTerminal glyph_size
      blank-Shown
