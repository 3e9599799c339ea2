-- ===== src/Screen/Terminal.antt =====
-- What the screen promises, with no pixels: a terminal, a grid of characters with a cursor.
pub mod Geometry
pub mod Shown
mod Steps
pub mod Refine
mod Tests
use cat.Common.{ℕ, ◌+◌, Bool, true, false, ◌&&◌, Option, none, some, List, [], ◌∷◌}
use cat.Common.{◌==◌, leb, if◌then◌else◌, u8}

pub record Terminal : Type 0 where
  pub cells : ℕ → ℕ → Option ℕ
  pub row : ℕ
  pub col : ℕ

abbrev pub empty_terminal : Terminal
empty_terminal = record { cells = λ r c. none; row = 0; col = 0 }

module _ (rows cols : ℕ) where
  -- To the start of the next row, for which the last row makes room.
  abbrev pub advance : Terminal → Terminal
  advance t =
      if t.row + 1 == rows
      then record t { cells = λ r c. if r + 1 == rows then none else t.cells (r + 1) c; col = 0 }
      else record t { row = t.row + 1; col = 0 }

  abbrev pub blank_rest : Terminal → Terminal
  blank_rest t = record t { cells = λ r c. if r == t.row && leb t.col c then none else t.cells r c }

  -- A character with a glyph fills the cell at the cursor, any other one leaves it.
  abbrev pub put_cell : Bool → ℕ → Terminal → Terminal
  put_cell has_glyph ch t = record t {
    cells = λ r c. if has_glyph && (r == t.row && c == t.col) then some ch else t.cells r c;
    col = t.col + 1;
  }

  abbrev pub type_char : (ℕ → Bool) → ℕ → Terminal → Terminal
  type_char has_glyph ch t =
      if ch == 10
      then advance (blank_rest t)
      else put_cell (has_glyph ch) ch (if t.col == cols then advance t else t)

  pub type_text : (ℕ → Bool) → List ℕ → Terminal → Terminal
  type_text has_glyph [] t = t
  type_text has_glyph (c ∷ cs) t = type_text has_glyph cs (type_char has_glyph (u8 c) t)
