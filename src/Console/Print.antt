-- ===== src/Console/Print.antt =====
-- shared/src/serial.rs and kernel/src/writer.rs: what `print!` does on each state of the locks.
use cat.Common.{ℕ, ◌≡◌, refl, true, false, Option, some, List, [], ◌∷◌, ◌++◌}
use cat.Common.{done}
use cat.Screen.{FrameBufferWriter, write_str}
use cat.Screen.Terminal.{Terminal, type_text}
use cat.Screen.Terminal.Shown.{IsTerminal, Shown, rows_of, cols_of, has_glyph}
use cat.Screen.Terminal.Refine.{write_str-Shown}
use cat.Common.{length}
use cat.Console.{
  Crates, Console, Code, Attempt, Location, ended, panics, spins, chain, serial_write, serial_print,
  screen_write, with_writer, print, force_print, location_text, message_prefix, panic_handler_impl,
}
use cat.Console.Documented.{IsLock, IsCritical, masked, sent}
use cat.Console.Serial.{serial_write-sent}
use cat.Console.Panic.{Prints, restored}

module _ (crates : Crates) (mutex : IsLock crates) (font : ℕ → Option (List ℕ))
    (without_interrupts : Code crates → Code crates)
    (critical : IsCritical crates without_interrupts) where
  -- A printed text, with what the screen then shows.
  pub record Draws (v : FrameBufferWriter) (args : List ℕ) (c : Console crates)
      (attempt : Attempt (Console crates)) : Type 0 where
    pub after : Console crates
    pub ends : attempt ≡ ended after
    pub port : after.port ≡ sent crates args c.port
    pub serial_free : mutex.held after.serial_lock ≡ false
    pub writer_free : mutex.held after.writer_lock ≡ false
    pub interrupts : after.interrupts ≡ c.interrupts
    pub writer : after.writer ≡ some v

  screen_write-shown :
      (args : List ℕ) (c : Console crates) (m : crates.Mutex) (w v : FrameBufferWriter)
      → crates.lock c.writer_lock ≡ some m
      → c.writer ≡ some w
      → write_str font w args ≡ done v
      → screen_write crates font args c
        ≡ ended (record c { writer_lock = crates.release m; writer = some v })
  unfolding screen_write with_writer
  screen_write-shown args c m w v lock here drawn = rw (lock, here, drawn) refl

  pub print-Draws :
      (args : List ℕ) (w v : FrameBufferWriter) (c : Console crates)
      → mutex.held c.serial_lock ≡ false
      → mutex.held c.writer_lock ≡ false
      → (crates.write_fmt args c.port).1 ≡ true
      → c.writer ≡ some w
      → write_str font w args ≡ done v
      → Draws v args c (print crates font without_interrupts args c)
  unfolding print serial_print
  print-Draws args w v c serial_free writer_free accepted here drawn =
      let serial = mutex.lock_free c.serial_lock serial_free in
      let lock = mutex.lock_free c.writer_lock writer_free in
      let code : Code crates = λ d.
        chain (serial_print crates without_interrupts args d) (screen_write crates font args) in
      let before = masked crates c in
      let between : Console crates = record before {
        serial_lock = crates.release serial.mutex;
        port = sent crates args c.port;
      } in
      rw
        (
          critical code c,
          critical (serial_write crates args) before,
          serial_write-sent crates args before serial.mutex serial.result accepted,
          screen_write-shown args between lock.mutex w v lock.result here drawn,
        )
        (record {
          after = _;
          ends = refl;
          port = refl;
          serial_free = mutex.released serial.mutex;
          writer_free = mutex.released lock.mutex;
          interrupts = restored crates mutex c.interrupts;
          writer = refl;
        })

  -- The text is on the port, and typed on the terminal that the screen showed.
  pub record Printed (b : FrameBufferWriter) (t : Terminal) (args : List ℕ) (c : Console crates)
      (attempt : Attempt (Console crates)) : Type 0 where
    pub written : FrameBufferWriter
    pub draws : Draws written args c attempt
    pub shown : Shown font b (type_text (rows_of b) (cols_of b) (has_glyph font) args t) written

  -- With both locks free, a port that takes the text, a mode with room for a character and glyphs
  -- of eight rows, on a screen that shows a terminal, print ends. The text is then on the port, and
  -- the screen shows the terminal on which it was typed next: each pixel of each cell has the colour
  -- of its character. Both locks are free again, and the interrupts are as they were.
  pub print-Printed :
      (b : FrameBufferWriter) (t : Terminal) (args : List ℕ) (w : FrameBufferWriter)
      (c : Console crates)
      → mutex.held c.serial_lock ≡ false
      → mutex.held c.writer_lock ≡ false
      → (crates.write_fmt args c.port).1 ≡ true
      → c.writer ≡ some w
      → IsTerminal b
      → ((ch : ℕ) (g : List ℕ) → font ch ≡ some g → length g ≡ 8)
      → Shown font b t w
      → Printed b t args c (print crates font without_interrupts args c)
  print-Printed b t args w c serial_free writer_free accepted here mode size shows =
      let drawn = write_str-Shown font b mode args t w size shows in
      record {
        written = drawn.value;
        draws = print-Draws args w drawn.value c serial_free writer_free accepted here drawn.ends;
        shown = drawn.holds;
      }

  -- A print that panics, with what follows.
  pub record Recovers (args : List ℕ) (c : Console crates) (attempt : Attempt (Console crates))
      : Type 0 where
    pub stopped : Console crates
    pub ends : attempt ≡ panics stopped
    pub sends : stopped.port ≡ sent crates args c.port
    pub screen : stopped.writer ≡ c.writer
    pub writer_lock : stopped.writer_lock ≡ c.writer_lock
    pub held : mutex.held stopped.serial_lock ≡ true
    pub masked_still : stopped.interrupts ≡ false
    pub blocked : (text : List ℕ) → serial_print crates without_interrupts text stopped ≡ spins
    pub reports :
        (location : Option Location) (message : List ℕ)
        → Prints crates mutex
            (sent crates (message_prefix ++ message ++ (10 ∷ [])) (
              sent crates force_print (
                sent crates
                  (location_text crates location)
                  (sent crates force_print stopped.port))))
            stopped
            (panic_handler_impl crates without_interrupts location message stopped)
