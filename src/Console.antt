-- ===== src/Console.antt =====
-- shared/src/serial.rs, shared/src/panic.rs and kernel/src/writer.rs: printing to the serial port and
-- the screen, and the panic handler. The locks of the spin crate, the port of the uart_16550 crate
-- and `without_interrupts` of the x86_64 crate are parameters. A text is the list of its characters.
pub mod Documented
mod Panic
pub mod Serial
pub mod Sample
pub mod Style
mod Print
mod Tests
use cat.Common.{
  ℕ, Bool, true, false, Option, none, some, List, [], ◌∷◌, ◌++◌, Run, done, panic, fault,
}
use cat.Common.{if◌then◌else◌}
use cat.Screen.{FrameBufferWriter, write_str}

-- How a call goes on: it returns, it panics (the state stays as it is then, its locks held), it waits
-- for a lock for ever, or it writes outside of the frame buffer.
pub data Attempt (A : Type 0) : Type 0 where
  ended : A → Attempt A
  panics : A → Attempt A
  spins : Attempt A
  faults : Attempt A

abbrev pub chain : {A : Type 0} → Attempt A → (A → Attempt A) → Attempt A
chain (ended a) f = f a
chain (panics a) f = panics a
chain spins f = spins
chain faults f = faults

-- What the code calls of other crates. `lock` has no result when it waits for ever; `release` is
-- what dropping a guard does; `write_fmt` of the port says whether it succeeded, which it does unless
-- the formatting of an argument fails; `show` is the decimal text of a number.
pub record Crates : Type 1 where
  pub Mutex : Type 0
  pub lock : Mutex → Option Mutex
  pub try_lock : Mutex → Option Mutex
  pub force_unlock : Mutex → Mutex
  pub release : Mutex → Mutex
  pub Port : Type 0
  pub write_fmt : List ℕ → Port → Port × Bool
  pub show : ℕ → List ℕ

-- "\n[FORCE_PRINT] "
abbrev pub force_print : List ℕ
force_print = 10 ∷ 91 ∷ 70 ∷ 79 ∷ 82 ∷ 67 ∷ 69 ∷ 95 ∷ 80 ∷ 82 ∷ 73 ∷ 78 ∷ 84 ∷ 93 ∷ 32 ∷ []

-- "panic at "
abbrev pub panic_at : List ℕ
panic_at = 112 ∷ 97 ∷ 110 ∷ 105 ∷ 99 ∷ 32 ∷ 97 ∷ 116 ∷ 32 ∷ []

-- "<unknown location>\n"
abbrev pub unknown_location : List ℕ
unknown_location =
    60 ∷ 117 ∷ 110 ∷ 107 ∷ 110 ∷ 111 ∷ 119 ∷ 110 ∷ 32 ∷ 108 ∷ 111 ∷ 99 ∷ 97 ∷ 116 ∷ 105 ∷ 111 ∷ 110
    ∷ 62 ∷ 10 ∷ []

-- "message: "
abbrev pub message_prefix : List ℕ
message_prefix = 109 ∷ 101 ∷ 115 ∷ 115 ∷ 97 ∷ 103 ∷ 101 ∷ 58 ∷ 32 ∷ []

pub record Location : Type 0 where
  pub file : List ℕ
  pub line : ℕ
  pub column : ℕ

module _ (crates : Crates) where
  pub record Console : Type 0 where
    pub interrupts : Bool
    pub serial_lock : crates.Mutex
    pub port : crates.Port
    pub writer_lock : crates.Mutex
    pub writer : Option FrameBufferWriter

  abbrev pub Code : Type 0
  Code = Console → Attempt Console

  -- The closure of `serial::_print`, by the result of `lock`.
  abbrev pub serial_locked : List ℕ → Console → Option crates.Mutex → Attempt Console
  serial_locked args c none = spins
  serial_locked args c (some serial) =
      let written = crates.write_fmt args c.port in
      if written.1
      then ended (record c { serial_lock = crates.release serial; port = written.0 })
      else panics (record c { serial_lock = serial; port = written.0 })

  pub serial_write : List ℕ → Code
  serial_write args c = serial_locked args c (crates.lock c.serial_lock)

  abbrev pub with_port : Option crates.Mutex → Console → Code → Attempt Console
  with_port none c other = other c
  with_port (some lock) c other = ended (record c { serial_lock = lock })

  -- The `match` on `try_lock`.
  pub take_port : Code
  take_port c =
      with_port (crates.try_lock c.serial_lock) c
        (λ d. with_port (crates.lock (crates.force_unlock d.serial_lock)) d (λ e. spins))

  -- The closure of `print_panic`.
  pub panic_write : List ℕ → Code
  panic_write args c = chain (take_port c) (λ d.
      let prefixed = crates.write_fmt force_print d.port in
      let written = crates.write_fmt args prefixed.0 in
      ended (record d { serial_lock = crates.release d.serial_lock; port = written.0 }))

  abbrev pub location_text : Option Location → List ℕ
  location_text none = panic_at ++ unknown_location
  location_text (some l) =
      panic_at ++ l.file ++ (58 ∷ crates.show l.line ++ (58 ∷ crates.show l.column ++ (10 ∷ [])))

  module _ (without_interrupts : Code → Code) where
    pub serial_print : List ℕ → Code
    serial_print args = without_interrupts (serial_write args)

    pub print_panic : List ℕ → Code
    print_panic args = without_interrupts (panic_write args)

    -- Up to the loop that halts.
    pub panic_handler_impl : Option Location → List ℕ → Code
    panic_handler_impl location message c =
        chain (print_panic (location_text location) c)
          (print_panic (message_prefix ++ message ++ (10 ∷ [])))

  abbrev pub screen_done : crates.Mutex → Console → Run FrameBufferWriter → Attempt Console
  screen_done lock c (done w) =
      ended (record c { writer_lock = crates.release lock; writer = some w })
  screen_done lock c panic = panics (record c { writer_lock = lock })
  screen_done lock c fault = faults

  abbrev pub writer_locked :
      (FrameBufferWriter → Run FrameBufferWriter)
      → Console
      → Option crates.Mutex
      → Option FrameBufferWriter
      → Attempt Console
  writer_locked use_writer c none writer = spins
  writer_locked use_writer c (some lock) none =
      ended (record c { writer_lock = crates.release lock })
  writer_locked use_writer c (some lock) (some w) = screen_done lock c (use_writer w)

  -- `if let Some(writer)` on the locked `WRITER`, with what is done with the writer.
  pub with_writer : (FrameBufferWriter → Run FrameBufferWriter) → Code
  with_writer use_writer c = writer_locked use_writer c (crates.lock c.writer_lock) c.writer

  module _ (font : ℕ → Option (List ℕ)) where
    -- The second part of the closure of `writer::_print`.
    pub screen_write : List ℕ → Code
    screen_write args = with_writer (λ w. write_str font w args)

    pub print : (Code → Code) → List ℕ → Code
    print without_interrupts args =
        without_interrupts (λ c. chain (serial_print without_interrupts args c) (screen_write args))
