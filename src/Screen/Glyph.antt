-- ===== src/Screen/Glyph.antt =====
-- kernel/src/screen.rs: what `draw_char` paints, pixel by pixel.
use cat.Common.{ℕ, suc, ◌+◌, ◌-◌, ◌*◌, ◌/◌, ◌^◌, ◌≤◌, ◌<◌, ◌≡◌, refl, ◌∙◌, ap, sym, arith}
use cat.Common.{true, not, ◌&&◌, Ends, Ends-bind, ltb, ◌==◌, if◌then◌else◌, u64}
use cat.Common.{List, [], ◌∷◌, some, length, get_or, bit_and}
use mathlib.Core.Path.{subst}
use native.Mathlib.Nat.{mul-le-mul_right, div-eq_of_lt-le}
use cat.Screen.{FrameBufferWriter, Pixels, draw_dot, draw_bit, draw_rows, draw_glyph, for_range}
use cat.Screen.Bounds.{IsScreen, row-end, for_range-carries}
use cat.Screen.Picture.{
  Redraws, put-Redraws, line-Redraws, lines-Redraws, Redraws-beside, Redraws-below,
  Redraws-no_columns, Redraws-no_rows, Redraws-same_colours,
}

-- The colour of a bit of a glyph, and of a pixel whose distance from the glyph's corner is known.
abbrev pub bit_colour : FrameBufferWriter → ℕ → ℕ → ℕ
bit_colour w row_byte col =
    if not (bit_and row_byte (2 ^ col) == 0) then w.text_color else w.bg_color

abbrev pub glyph_colour : FrameBufferWriter → List ℕ → ℕ → ℕ → ℕ
glyph_colour w glyph dy dx = bit_colour w (get_or glyph (dy / w.scale) 0) (dx / w.scale)

quotient : (k s d : ℕ) → k * s ≤ d → d < k * s + s → d / s ≡ k
quotient k s d low high = div-eq_of_lt-le s low (omega (arith, high, next))
  where
    next : (k + 1) * s ≡ k * s + s
    next = omega arith

module _ (w : FrameBufferWriter) (screen : IsScreen w.info) where
  draw_dot-Redraws :
      (dx dy c : ℕ) (px : Pixels)
      → dx < w.info.width
      → dy < w.info.height
      → Ends (draw_dot w dx dy c px) (Redraws w.info dy dx 1 1 (λ _ _. c) px)
  unfolding draw_dot
  draw_dot-Redraws dx dy c px beside below =
      let on : (ltb dx w.info.width && ltb dy w.info.height) ≡ true = ground arith in
      let in_row = row-end w.info dy below in
      let small = screen.small in
      let wide = screen.wide in
      let exact : u64 (u64 (dy * w.info.stride) + dx) ≡ dy * w.info.stride + dx = omega arith in
      rw (on, exact) (put-Redraws w.info screen dy dx c px below (omega arith))

  draw_bit-Redraws :
      (x y row_byte row col top left : ℕ) (px : Pixels)
      → y + row * w.scale ≡ top
      → x + col * w.scale ≡ left
      → top + w.scale ≤ w.info.height
      → left + w.scale ≤ w.info.width
      → Ends
          (draw_bit w x y row_byte row col px)
          (Redraws w.info top left w.scale w.scale (λ _ _. bit_colour w row_byte col) px)
  unfolding draw_bit
  draw_bit-Redraws x y row_byte row col top left px et el tall broad =
      let hs = screen.height_small in
      let ws = screen.width_small in
      lines-Redraws w.info screen w.scale top left w.scale _ _ px (λ sy p hy.
        line-Redraws w.info screen w.scale (top + sy) left _ _ p (λ sx q hx.
          let column : u64 (u64 (x + u64 (col * w.scale)) + sx) ≡ left + sx = omega arith in
          let line : u64 (u64 (y + u64 (row * w.scale)) + sy) ≡ top + sy = omega arith in
          rw (column, line)
            (draw_dot-Redraws (left + sx) (top + sy) _ q (omega arith) (omega arith))))

  row-Redraws :
      (x y row_byte row top : ℕ) (px : Pixels)
      → y + row * w.scale ≡ top
      → 1 ≤ w.scale
      → top + w.scale ≤ w.info.height
      → x + 8 * w.scale ≤ w.info.width
      → Ends (for_range 8 0 (draw_bit w x y row_byte row) px) (
          Redraws w.info top x w.scale
            (8 * w.scale)
            (λ _ x'. bit_colour w row_byte ((x' - x) / w.scale))
            px)
  row-Redraws x y row_byte row top px e scaled tall broad =
      for_range-carries
        (λ k q.
          Redraws w.info top x w.scale (k * w.scale)
            (λ _ x'. bit_colour w row_byte ((x' - x) / w.scale)) px q)
        8 0 8 _ px (omega arith)
        (Redraws-no_columns w.info screen top x w.scale (0 * w.scale) _ px (omega arith))
        (λ k p h before.
          let m : suc k * w.scale ≤ 8 * w.scale = mul-le-mul_right w.scale h in
          let next : k * w.scale + w.scale ≡ suc k * w.scale = omega arith in
          let square =
            draw_bit-Redraws x y row_byte row k top (x + k * w.scale) p e refl tall (omega arith) in
          record {
            value = square.value;
            ends = square.ends;
            holds =
                subst
                  (λ (n : ℕ).
                    Redraws w.info top x w.scale n
                      (λ _ x'. bit_colour w row_byte ((x' - x) / w.scale)) px square.value)
                  next
                  (Redraws-beside w.info screen top x w.scale (k * w.scale) w.scale _ px p
                    square.value before
                    (Redraws-same_colours w.info screen top (x + k * w.scale) w.scale w.scale _ _ p
                      square.value
                      (λ y' x' on.
                        ap (bit_colour w row_byte)
                          (sym (quotient k w.scale (x' - x) (ground arith) (ground arith))))
                      square.holds));
          })

  -- From row `row` of a glyph on, whose rows are `rows`.
  rows-Redraws :
      (glyph rows : List ℕ) (x y row height top : ℕ) (px : Pixels)
      → y + row * w.scale ≡ top
      → length rows * w.scale ≡ height
      → 1 ≤ w.scale
      → ((i : ℕ) → i < length rows → get_or rows i 0 ≡ get_or glyph (row + i) 0)
      → top + height ≤ w.info.height
      → x + 8 * w.scale ≤ w.info.width
      → Ends (draw_rows w x y rows row px) (
          Redraws w.info top x height
            (8 * w.scale)
            (λ y' x'. glyph_colour w glyph (y' - y) (x' - x))
            px)
  unfolding draw_rows
  rows-Redraws glyph [] x y row height top px e size scaled same tall broad = record {
    value = px;
    ends = refl;
    holds = Redraws-no_rows w.info screen top x height (8 * w.scale) _ px (omega arith);
  }
  rows-Redraws glyph (row_byte ∷ rows) x y row height top px e size scaled same tall broad =
      let rest_size : w.scale + length rows * w.scale ≡ height = omega arith in
      let next_row : y + (row + 1) * w.scale ≡ top + w.scale = omega arith in
      let first : row_byte ≡ get_or glyph row 0 =
        same 0 (omega arith) ∙ ap (λ (i : ℕ). get_or glyph i 0) (omega arith) in
      let line = row-Redraws x y row_byte row top px e scaled (omega arith) broad in
      Ends-bind _ _ line (λ p drawn.
        let later =
          rows-Redraws glyph rows x y (row + 1) (length rows * w.scale) (top + w.scale) p next_row
            refl scaled
            (λ i h. same (suc i) (omega arith) ∙ ap (λ (j : ℕ). get_or glyph j 0) (omega arith))
            (omega arith) broad in
        record {
          value = later.value;
          ends = later.ends;
          holds =
              subst
                (λ (n : ℕ).
                  Redraws w.info top x n (8 * w.scale)
                    (λ y' x'. glyph_colour w glyph (y' - y) (x' - x)) px later.value)
                rest_size
                (Redraws-below w.info screen top x w.scale (length rows * w.scale) (8 * w.scale) _
                  px p later.value
                  (Redraws-same_colours w.info screen top x w.scale (8 * w.scale) _ _ px p
                    (λ y' x' on.
                      let here : (y' - y) / w.scale ≡ row =
                        quotient row w.scale (y' - y) (ground arith) (ground arith) in
                      ap (λ b. bit_colour w b ((x' - x) / w.scale))
                        (first ∙ ap (λ (i : ℕ). get_or glyph i 0) (sym here)))
                    drawn)
                  later.holds);
        })

  pub draw_glyph-Redraws :
      (glyph : List ℕ) (x y : ℕ)
      → length glyph ≡ 8
      → 1 ≤ w.scale
      → y + 8 * w.scale ≤ w.info.height
      → x + 8 * w.scale ≤ w.info.width
      → Ends (draw_glyph w x y (some glyph)) (λ v.
        (v ≡ record w { pixels = v.pixels })
        × Redraws w.info y x
            (8 * w.scale)
            (8 * w.scale)
            (λ y' x'. glyph_colour w glyph (y' - y) (x' - x))
            w.pixels
            v.pixels)
  unfolding draw_glyph
  draw_glyph-Redraws glyph x y size scaled tall broad =
      Ends-bind _ _
        (rows-Redraws glyph glyph x y 0 (8 * w.scale) y w.pixels (omega arith)
          (ap (λ (n : ℕ). n * w.scale) size) scaled
          (λ i h. ap (λ (j : ℕ). get_or glyph j 0) (omega arith)) tall broad)
        (λ px drawn. record {
          value = record w { pixels = px };
          ends = refl;
          holds = (refl, drawn);
        })
