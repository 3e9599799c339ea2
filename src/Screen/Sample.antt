-- ===== src/Screen/Sample.antt =====
-- kernel/src/screen.rs: a writer on a screen of 16 by 16 pixels.
use cat.Common.{ℕ, List, [], ◌∷◌, Option, none, some, arith, if◌then◌else◌, ◌==◌}
use cat.Screen.{FrameBufferInfo, FrameBufferWriter, rgb}
use cat.Screen.Cursor.{IsVisible}

abbrev pub small : FrameBufferInfo
small = record {
  buffer_base = 0;
  buffer_size = 1024;
  width = 16;
  height = 16;
  stride = 16;
  format = rgb;
}

-- One glyph, for the letter A: its first row is full, the others are empty.
abbrev pub font : ℕ → Option (List ℕ)
font c = if c == 65 then some (255 ∷ 0 ∷ 0 ∷ 0 ∷ 0 ∷ 0 ∷ 0 ∷ 0 ∷ []) else none

abbrev pub writer : FrameBufferWriter
writer = record {
  info = small;
  pixels = λ i. 0;
  x_pos = 0;
  y_pos = 8;
  scale = 1;
  text_color = 7;
  bg_color = 1;
}

pub writer-IsVisible : IsVisible writer
writer-IsVisible = record {
  screen = record {
    fits = omega arith;
    wide = omega arith;
    small = omega arith;
    width_small = omega arith;
    height_small = omega arith;
  };
  tall = omega arith;
  broad = omega arith;
  x_in = omega arith;
  y_in = omega arith;
}
