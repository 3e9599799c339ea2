-- ===== src/Screen/Terminal/Refine.antt =====
-- kernel/src/screen.rs: the pixels show the terminal, and the operations of the writer are its own.
use cat.Common.{ℕ, ◌+◌, ◌*◌, ◌≤◌, ◌<◌, ◌≡◌, refl, ◌∙◌, ap, sym, arith}
use cat.Common.{
  true, false, ◌&&◌, Ends, Ends-bind, ltb, leb, ◌==◌, if◌then◌else◌, u64, u8, Bool-cases, inl, inr,
}
use cat.Common.{==→eq, List, [], ◌∷◌, Option, none, some, length, ◌>>=◌}
use mathlib.Core.Path.{subst}
use native.Mathlib.Nat.{mul-le-mul_right}
use cat.Screen.{
  draw_glyph, FrameBufferWriter, Pixels, scaled, fill_remainder, draw_char, write_byte, write_str,
  clear, convert_color,
}
use cat.Screen.Clear.{clear-Cleared}
use cat.Screen.Terminal.{
  Terminal, empty_terminal, advance, blank_rest, put_cell, type_char, type_text,
}
use cat.Screen.Terminal.Shown.{
  IsTerminal, rows_of, cols_of, has_glyph, cell_colour, side, Shown, placed_at,
}
use cat.Screen.Terminal.Steps.{
  grid, row_in, col_in, new_line-Shown, blank_rest-Shown, put_cell-Shown, after_glyph,
}

module _ (font : ℕ → Option (List ℕ)) (b : FrameBufferWriter) (mode : IsTerminal b) where
  with_pixels :
      (t : Terminal) (v : FrameBufferWriter)
      → Shown font b t v
      → Shown font b t (placed_at font b t v.pixels)
  with_pixels t v h = record {
    placed = refl;
    cells = h.cells;
    margin = h.margin;
    in_row = h.in_row;
    in_col = h.in_col;
  }

  some_column : 1 ≤ (cols_of b)
  some_column =
      let g = grid font b mode in
      let broad = mode.broad in
      elim (Bool-cases ((cols_of b) == 0)) [
        | inl none_at_all ↦
            let e : (cols_of b) * (8 * b.scale) ≡ 0 * (8 * b.scale) =
              ap (λ (n : ℕ). n * (8 * b.scale)) (==→eq (cols_of b) 0 none_at_all) in
            absurd (omega arith)
        | inr some_col ↦ ground arith
      ]

  nothing_left :
      (t : Terminal) (px : Pixels)
      → Shown font b t (placed_at font b t px)
      → b.info.width ≤ t.col * (8 * b.scale)
      → Shown font b (blank_rest (rows_of b) (cols_of b) t) (placed_at font b t px)
  nothing_left t px h full =
      let g = grid font b mode in
      record {
        placed = refl;
        cells = λ r c y x hr hc hy hx. elim (Bool-cases (leb t.col c)) [
          | inl behind ↦
              let m : t.col * (8 * b.scale) ≤ c * (8 * b.scale) =
                mul-le-mul_right (8 * b.scale) (ground arith) in
              let cb = col_in font b mode c hc in
              let scaled = mode.scaled in absurd (omega (arith, m, cb))
          | inr before ↦ rw before (untouched r c y x t (h.cells r c y x hr hc hy hx))
        ];
        margin = h.margin;
        in_row = h.in_row;
        in_col = h.in_col;
      }
    where
      untouched :
          (r c y x : ℕ) (t : Terminal) {p : ℕ}
          → p ≡ cell_colour font b (t.cells r c) y x
          → p ≡ cell_colour font b (if (r == t.row) && false then none else t.cells r c) y x
      untouched r c y x t e = elim (Bool-cases (r == t.row)) [
        | inl on ↦ rw on e
        | inr off ↦ rw off e
      ]

  put_on-Shown :
      (t : Terminal) (v : FrameBufferWriter) (ch : ℕ)
      → ((c : ℕ) (g : List ℕ) → font c ≡ some g → length g ≡ 8)
      → Shown font b t v
      → t.col < (cols_of b)
      → Ends
          (draw_glyph v v.x_pos v.y_pos (font ch) >>= after_glyph font b mode)
          (Shown font b (put_cell (rows_of b) (cols_of b) (has_glyph font ch) ch t))
  put_on-Shown t v ch size h room =
      subst
        (λ (u : FrameBufferWriter).
          Ends (draw_glyph u u.x_pos u.y_pos (font ch) >>= after_glyph font b mode)
            (Shown font b (put_cell (rows_of b) (cols_of b) (has_glyph font ch) ch t)))
        (sym h.placed)
        (put_cell-Shown font b mode t v.pixels ch (font ch) (with_pixels t v h) room refl (size ch))

  advance_col : (t : Terminal) → (advance (rows_of b) (cols_of b) t).col ≡ 0
  advance_col t = elim (Bool-cases (t.row + 1 == (rows_of b))) [
    | inl last ↦ rw last refl
    | inr room ↦ rw room refl
  ]

  fill_remainder-Shown :
      (t : Terminal) (px : Pixels)
      → Shown font b t (placed_at font b t px)
      → Ends
          (fill_remainder (placed_at font b t px))
          (Shown font b (advance (rows_of b) (cols_of b) (blank_rest (rows_of b) (cols_of b) t)))
  unfolding fill_remainder
  fill_remainder-Shown t px h =
      let ws = mode.screen.width_small in
      let hs = mode.screen.height_small in
      let g = grid font b mode in
      let exact : scaled (placed_at font b t px) ≡ side font b = omega arith in
      elim (Bool-cases (ltb (t.col * (8 * b.scale)) b.info.width)) [
        | inl rest ↦
            rw (rest, exact)
              (Ends-bind _ _ (blank_rest-Shown font b mode t px h) (λ q blanked.
                new_line-Shown font b mode (blank_rest (rows_of b) (cols_of b) t) q blanked))
        | inr no_rest ↦ rw no_rest (
            new_line-Shown font b mode (blank_rest (rows_of b) (cols_of b) t) px
              (nothing_left t px h (ground arith)))
      ]

  write_byte-Shown :
      (t : Terminal) (px : Pixels) (ch : ℕ)
      → ((c : ℕ) (g : List ℕ) → font c ≡ some g → length g ≡ 8)
      → Shown font b t (placed_at font b t px)
      → Ends
          (write_byte font (placed_at font b t px) ch)
          (Shown font b (type_char (rows_of b) (cols_of b) (has_glyph font) ch t))
  unfolding write_byte draw_char
  write_byte-Shown t px ch size h =
      let ws = mode.screen.width_small in
      let g = grid font b mode in
      elim (Bool-cases (ch == 10)) [
        | inl newline ↦ rw newline (fill_remainder-Shown t px h)
        | inr printable ↦ elim (Bool-cases (t.col == (cols_of b))) [
          | inl full ↦
              let at_end : t.col ≡ (cols_of b) = ==→eq t.col (cols_of b) full in
              let end_col : t.col * (8 * b.scale) ≡ (cols_of b) * (8 * b.scale) =
                ap (λ (n : ℕ). n * (8 * b.scale)) at_end in
              let over : ltb b.info.width (u64 (t.col * (8 * b.scale) + scaled b)) ≡ true =
                ground (arith, end_col, g) in
              rw (printable, over, full)
                (Ends-bind _ _ (new_line-Shown font b mode t px h) (λ v wrapped.
                  put_on-Shown (advance (rows_of b) (cols_of b) t) v ch size wrapped
                    (omega (arith, advance_col t, some_column))))
          | inr room ↦
              let inside : t.col < (cols_of b) = ground (arith, h.in_col) in
              let col_end = col_in font b mode t.col inside in
              let under : ltb b.info.width (u64 (t.col * (8 * b.scale) + scaled b)) ≡ false =
                ground arith in
              rw (printable, under, room) (put_on-Shown t (placed_at font b t px) ch size h inside)
        ]
      ]

  -- From a writer that shows a terminal, with glyphs of eight rows, write_str ends, and the writer
  -- then shows the terminal on which the text was typed: each pixel of each cell has its colour.
  pub write_str-Shown :
      (cs : List ℕ) (t : Terminal) (v : FrameBufferWriter)
      → ((c : ℕ) (g : List ℕ) → font c ≡ some g → length g ≡ 8)
      → Shown font b t v
      → Ends
          (write_str font v cs)
          (Shown font b (type_text (rows_of b) (cols_of b) (has_glyph font) cs t))
  unfolding write_str type_text
  write_str-Shown [] t v size h = record { value = v; ends = refl; holds = h }
  write_str-Shown (c ∷ cs) t v size h =
      Ends-bind _ _
        (subst
          (λ (u : FrameBufferWriter).
            Ends (write_byte font u (u8 c))
              (Shown font b (type_char (rows_of b) (cols_of b) (has_glyph font) (u8 c) t)))
          (sym h.placed) (write_byte-Shown t v.pixels (u8 c) size (with_pixels t v h)))
        (λ u shown.
          write_str-Shown cs (type_char (rows_of b) (cols_of b) (has_glyph font) (u8 c) t) u size
            shown)

  some_row : 1 ≤ rows_of b
  some_row =
      let g = grid font b mode in
      let tall = mode.tall in
      elim (Bool-cases (rows_of b == 0)) [
        | inl none_at_all ↦
            let e : rows_of b * (8 * b.scale) ≡ 0 * (8 * b.scale) =
              ap (λ (n : ℕ). n * (8 * b.scale)) (==→eq (rows_of b) 0 none_at_all) in
            absurd (omega arith)
        | inr one ↦ ground arith
      ]

  -- A cleared screen is an empty terminal, when the colour is that of the background.
  pub clear-Shown :
      (color : ℕ)
      → convert_color b.info color ≡ b.bg_color
      → Ends (clear b color) (Shown font b empty_terminal)
  clear-Shown color same =
      let g = grid font b mode in
      let cleared = clear-Cleared b mode.screen color in
      let c = cleared.holds in
      let start : 0 * (8 * b.scale) ≡ 0 = omega arith in
      record {
        value = cleared.value;
        ends = cleared.ends;
        holds = record {
          placed = rw start c.style;
          cells = λ r k y x hr hk hy hx.
              let rb = row_in font b mode r hr in
              let cb = col_in font b mode k hk in
              c.painted (r * (8 * b.scale) + y) (k * (8 * b.scale) + x) (omega arith) (omega arith)
              ∙ same;
          margin = λ y x low high hx. c.painted y x high hx ∙ same;
          in_row = some_row;
          in_col = omega arith;
        };
      }

  -- On a mode with room for a character, with glyphs of eight rows, clearing the screen in the colour
  -- of the background and writing a text ends with the terminal on the screen on which that text was
  -- typed from the start: each pixel of each cell has the colour of its character's glyph, through
  -- new lines, full rows and scrolling, and the cursor is the terminal's.
  pub write_str-clear-Shown :
      (color : ℕ) (cs : List ℕ)
      → convert_color b.info color ≡ b.bg_color
      → ((c : ℕ) (g : List ℕ) → font c ≡ some g → length g ≡ 8)
      → Ends
          (clear b color >>= λ v. write_str font v cs)
          (Shown font b (type_text (rows_of b) (cols_of b) (has_glyph font) cs empty_terminal))
  write_str-clear-Shown color cs same size =
      Ends-bind _ _ (clear-Shown color same) (λ v h. write_str-Shown cs empty_terminal v size h)
