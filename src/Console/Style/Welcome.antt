-- ===== src/Console/Style/Welcome.antt =====
-- kernel/src/main.rs: what the start of `_start` leaves on the screen.
use cat.Common.{ℕ, ◌≡◌, false, List, Option, some}
use cat.Screen
use cat.Screen.{FrameBufferWriter}
use cat.Screen.Cursor.{IsVisible}
use cat.Screen.Terminal.{empty_terminal, type_text}
use cat.Screen.Terminal.Shown.{Shown, rows_of, cols_of, has_glyph}
use cat.Console.{Crates, Console, Code, Attempt, ended}
use cat.Console.Documented.{IsLock, IsCritical, sent}
use cat.Console.Style.{reset_style, welcome_text}

module _ (crates : Crates) (mutex : IsLock crates) (font : ℕ → Option (List ℕ))
    (without_interrupts : Code crates → Code crates)
    (critical : IsCritical crates without_interrupts) where
  -- The welcome is on the port and on the screen, from its top left corner in the large style, and
  -- later texts find the default style.
  pub record Welcomes (b : FrameBufferWriter) (c : Console crates)
      (attempt : Attempt (Console crates)) : Type 0 where
    pub after : Console crates
    pub ends : attempt ≡ ended after
    pub port : after.port ≡ sent crates welcome_text c.port
    pub serial_free : mutex.held after.serial_lock ≡ false
    pub writer_free : mutex.held after.writer_lock ≡ false
    pub interrupts : after.interrupts ≡ c.interrupts
    pub written : FrameBufferWriter
    pub shown :
        Shown font b
          (type_text (rows_of b) (cols_of b) (has_glyph font) welcome_text empty_terminal)
          written
    pub writer : after.writer ≡ some (Screen.reset_style written)
    pub visible : IsVisible (Screen.reset_style written)
