-- ===== src/Console/Style/Tests.antt =====
-- kernel/src/main.rs: the welcome on a screen of 48 by 48 pixels.
use cat.Common.{ℕ, ◌≡◌, refl, Bool, true, false, Option, none, some, List, [], ◌∷◌}
use cat.Screen.{FrameBufferInfo, PixelFormat, rgb, bgr}
use cat.Console.{Console, spins, with_writer}
use cat.Console.Sample.{flags, console}
use cat.Console.Style.{set_scale}

abbrev square : FrameBufferInfo
square = record {
  buffer_base = 0;
  buffer_size = 9216;
  width = 48;
  height = 48;
  stride = 48;
  format = bgr;
}

-- Every character is a frame.
abbrev frame : List ℕ
frame = 255 ∷ 129 ∷ 129 ∷ 129 ∷ 129 ∷ 129 ∷ 129 ∷ 255 ∷ []

abbrev frames : ℕ → Option (List ℕ)
frames c = some frame

abbrev or_frame : Option (List ℕ) → List ℕ
or_frame none = frame
or_frame (some g) = g

abbrev blank : Console flags
blank = record {
  interrupts = false;
  serial_lock = false;
  port = [];
  writer_lock = false;
  writer = none;
}

-- A call while another holds the writer waits for ever.
held_writer : set_scale flags 5 (record (console false) { writer_lock = true }) ≡ spins
unfolding set_scale with_writer
held_writer = refl

abbrev is_rgb : PixelFormat → Bool
is_rgb rgb = true
is_rgb _ = false
