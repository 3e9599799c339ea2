-- ===== src/Screen/Terminal/Shown.antt =====
-- kernel/src/screen.rs: when the pixels and the cursor of a writer show a terminal.
use cat.Common.{ℕ, ◌+◌, ◌*◌, ◌/◌, ◌≤◌, ◌<◌, ◌≡◌}
use cat.Common.{Bool, true, false}
use cat.Common.{List, Option, none, some}
use cat.Screen.{FrameBufferWriter, Pixels}
use cat.Screen.Bounds.{IsScreen}
use cat.Screen.Picture.{at}
use cat.Screen.Glyph.{glyph_colour}
use cat.Screen.Terminal.{Terminal}

-- A mode with room for a character of the writer's scale.
pub record IsTerminal (b : FrameBufferWriter) : Type 0 where
  pub screen : IsScreen b.info
  pub scaled : 1 ≤ b.scale
  pub tall : 8 * b.scale ≤ b.info.height
  pub broad : 8 * b.scale ≤ b.info.width

abbrev pub rows_of : FrameBufferWriter → ℕ
rows_of b = b.info.height / (8 * b.scale)

abbrev pub cols_of : FrameBufferWriter → ℕ
cols_of b = b.info.width / (8 * b.scale)

abbrev pub is_some : Option (List ℕ) → Bool
is_some none = false
is_some (some glyph) = true

abbrev pub has_glyph : (ℕ → Option (List ℕ)) → ℕ → Bool
has_glyph font ch = is_some (font ch)

abbrev pub colour_of : FrameBufferWriter → Option (List ℕ) → ℕ → ℕ → ℕ
colour_of b none y x = b.bg_color
colour_of b (some glyph) y x = glyph_colour b glyph y x

module _ (font : ℕ → Option (List ℕ)) (b : FrameBufferWriter) where
  -- The colour of a pixel of a cell: a blank cell is background.
  abbrev pub cell_colour : Option ℕ → ℕ → ℕ → ℕ
  cell_colour none y x = b.bg_color
  cell_colour (some ch) y x = colour_of b (font ch) y x

  abbrev pub side : ℕ
  side = 8 * b.scale

  -- Each pixel of each cell has the colour of the cell's character, and the writer's cursor is the
  -- terminal's. The mode, the scale and the colours are those of `b`.
  pub record Shown (t : Terminal) (v : FrameBufferWriter) : Type 0 where
    pub placed : v ≡ record b { pixels = v.pixels; x_pos = t.col * side; y_pos = t.row * side }
    pub cells :
        (r c y x : ℕ)
        → r < rows_of b
        → c < cols_of b
        → y < side
        → x < side
        → at b.info v.pixels (r * side + y) (c * side + x) ≡ cell_colour (t.cells r c) y x
    pub margin :
        (y x : ℕ)
        → rows_of b * side ≤ y
        → y < b.info.height
        → x < b.info.width
        → at b.info v.pixels y x ≡ b.bg_color
    pub in_row : t.row < rows_of b
    pub in_col : t.col ≤ cols_of b

  abbrev pub placed_at : Terminal → Pixels → FrameBufferWriter
  placed_at t px = record b { pixels = px; x_pos = t.col * side; y_pos = t.row * side }
