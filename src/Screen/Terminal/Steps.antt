-- ===== src/Screen/Terminal/Steps.antt =====
-- kernel/src/screen.rs: the steps of the writer on a terminal: the rest of a row, a new line, a glyph.
use cat.Common.{ℕ, suc, ◌+◌, ◌-◌, ◌*◌, ◌^◌, ◌≤◌, ◌<◌, ◌≡◌, refl, ◌∙◌, ap, sym, arith}
use cat.Common.{
  Bool, true, false, ◌&&◌, Run, done, Ends, Ends-bind, ltb, leb, ◌==◌, if◌then◌else◌, u64,
  Bool-cases, inl, inr,
}
use cat.Common.{==→eq, List, Option, none, some, length, ◌>>=◌}
use native.Mathlib.Nat.{mul-le-mul_right}
use cat.Screen.{draw_glyph, FrameBufferWriter, Pixels, scaled, new_line, fill_rows}
use cat.Screen.Picture.{at, in_rect}
use cat.Screen.Glyph.{draw_glyph-Redraws}
use cat.Screen.Scroll.{Scrolled, scroll_up-Scrolled, fill_rows-Redraws}
use cat.Screen.Terminal.{Terminal, advance, blank_rest, put_cell}
use cat.Screen.Terminal.Geometry.{before_cell, in_cell, last_cell}
use cat.Screen.Terminal.Shown.{IsTerminal, rows_of, cols_of, is_some, Shown, placed_at}

offset : (s a b x : ℕ) → a ≡ b → a * s + x - b * s ≡ x
offset s a b x e = omega (arith, ap (λ (n : ℕ). n * s) e)

rect_blank :
    (s r c y x row col width : ℕ)
    → (leb (row * s) (r * s + y) && ltb (r * s + y) (row * s + s)) ≡ (r == row)
    → leb (col * s) (c * s + x) ≡ leb col c
    → ltb (c * s + x) (col * s + width) ≡ true
    → in_rect (row * s) (col * s) s width (r * s + y) (c * s + x) ≡ (r == row && leb col c)
rect_blank s r c y x row col width e1 e2 inside = rw (e1, e2, inside) (and_true (leb col c))
  where
    and_true : (p : Bool) → (r == row && (p && true)) ≡ (r == row && p)
    and_true true = refl
    and_true false = refl

module _ (font : ℕ → Option (List ℕ)) (b : FrameBufferWriter) (mode : IsTerminal b) where
  abbrev pub s : ℕ
  s = 8 * b.scale

  abbrev pub rows : ℕ
  rows = rows_of b

  abbrev pub cols : ℕ
  cols = cols_of b

  pub grid :
      ((rows * s ≤ b.info.height) × (b.info.height < rows * s + s))
      × ((cols * s ≤ b.info.width) × (b.info.width < cols * s + s))
  grid =
      let scaled = mode.scaled in
      (
        last_cell s rows b.info.height refl (omega arith),
        last_cell s cols b.info.width refl (omega arith),
      )

  pub row_in : (r : ℕ) → r < rows → r * s + s ≤ rows * s
  row_in r h = let m : suc r * s ≤ rows * s = mul-le-mul_right s h in omega (arith, m)

  pub col_in : (c : ℕ) → c < cols → c * s + s ≤ cols * s
  col_in c h = let m : suc c * s ≤ cols * s = mul-le-mul_right s h in omega (arith, m)

  pub blank_rest-Shown :
      (t : Terminal) (px : Pixels)
      → Shown font b t (placed_at font b t px)
      → Ends
          (fill_rows (placed_at font b t px) s 0 px)
          (λ q. Shown font b (blank_rest rows cols t) (placed_at font b t q))
  blank_rest-Shown t px h =
      let screen = mode.screen in
      let wide = screen.wide in
      let g = grid in
      let row_end = row_in t.row h.in_row in
      let m : t.col * s ≤ cols * s = mul-le-mul_right s h.in_col in
      let filled =
        fill_rows-Redraws (placed_at font b t px) screen s 0 (t.row * s) px (omega arith)
          (omega arith) (omega arith) in
      record {
        value = filled.value;
        ends = filled.ends;
        holds = record {
          placed = refl;
          cells = λ r c y x hr hc hy hx.
              let e1 = in_cell s r t.row y hy in
              let e2 = before_cell s c t.col x hx in
              let rb = row_in r hr in
              let cb = col_in c hc in
              let inside : ltb (c * s + x) (t.col * s + (b.info.width - t.col * s)) ≡ true =
                ground arith in
              filled.holds (r * s + y) (c * s + x) (omega arith) (omega arith)
              ∙ rw (rect_blank s r c y x t.row t.col (b.info.width - t.col * s) e1 e2 inside)
                  (elim (Bool-cases (r == t.row && leb t.col c)) [
                    | inl on ↦ rw on refl
                    | inr off ↦ rw off (h.cells r c y x hr hc hy hx)
                  ]);
          margin = λ y x low high hx.
              filled.holds y x high (omega arith) ∙ ground (arith, h.margin y x low high hx);
          in_row = h.in_row;
          in_col = h.in_col;
        };
      }

  scrolls :
      (t : Terminal) (px : Pixels) (v : FrameBufferWriter)
      → t.row + 1 ≡ rows
      → Shown font b t (placed_at font b t px)
      → Scrolled (record b { pixels = px; x_pos = 0; y_pos = t.row * s + s }) mode.screen v
      → Shown font b
          (record t { cells = λ r c. if r + 1 == rows then none else t.cells (r + 1) c; col = 0 })
          (record v { y_pos = t.row * s })
  scrolls t px v last h scrolled =
      let wide = mode.screen.wide in
      let g = grid in
      let zero_col : 0 * s ≡ 0 = omega arith in
      let below_grid : (y x : ℕ)
          → rows * s ≤ y + s
          → x < b.info.width
          → (if ltb (y + s) b.info.height then at b.info px (y + s) x else b.bg_color)
            ≡ b.bg_color =
        λ y x low hx. elim (Bool-cases (ltb (y + s) b.info.height)) [
          | inl on ↦ rw on (h.margin (y + s) x low (ground arith) hx)
          | inr off ↦ rw off refl
        ] in
      record {
        placed =
            ap (λ (u : FrameBufferWriter). record u { y_pos = t.row * s }) scrolled.rest
            ∙ ap (λ (x : ℕ). record b { pixels = v.pixels; x_pos = x; y_pos = t.row * s })
                (sym zero_col);
        cells = λ r c y x hr hc hy hx.
            let rb = row_in r hr in
            let cb = col_in c hc in
            scrolled.rows (r * s + y) (c * s + x) (omega arith) (omega arith)
            ∙ elim (Bool-cases (r + 1 == rows)) [
              | inl bottom ↦ rw bottom (
                  let e : (r + 1) * s ≡ rows * s =
                    ap (λ (n : ℕ). n * s) (==→eq (r + 1) rows bottom) in
                  below_grid (r * s + y) (c * s + x) (omega (arith, e)) (omega arith))
              | inr higher ↦ rw higher (
                  let up : r + 1 < rows = ground arith in
                  let upper = row_in (r + 1) up in
                  let line : r * s + y + s ≡ (r + 1) * s + y = omega arith in
                  let on : ltb ((r + 1) * s + y) b.info.height ≡ true = ground arith in
                  rw (line, on) (h.cells (r + 1) c y x up hc hy hx))
            ];
        margin = λ y x low high hx.
            scrolled.rows y x high (omega arith) ∙ below_grid y x (omega arith) hx;
        in_row = h.in_row;
        in_col = omega arith;
      }

  pub new_line-Shown :
      (t : Terminal) (px : Pixels)
      → Shown font b t (placed_at font b t px)
      → Ends (new_line (placed_at font b t px)) (Shown font b (advance rows cols t))
  unfolding new_line
  new_line-Shown t px h =
      let hs = mode.screen.height_small in
      let row_end = row_in t.row h.in_row in
      let g = grid in
      let exact : scaled (placed_at font b t px) ≡ s = omega arith in
      let sum : u64 (t.row * s + s) ≡ t.row * s + s = omega arith in
      let next : u64 (t.row * s + s + s) ≡ t.row * s + s + s = omega arith in
      elim (Bool-cases (t.row + 1 == rows)) [
        | inl last ↦
            let last_rows : (t.row + 1) * s ≡ rows * s =
              ap (λ (n : ℕ). n * s) (==→eq (t.row + 1) rows last) in
            let over : ltb b.info.height (t.row * s + s + s) ≡ true = ground (arith, last_rows) in
            let scrolled =
              scroll_up-Scrolled (record b { pixels = px; x_pos = 0; y_pos = t.row * s + s })
                mode.screen mode.tall in
            let back : u64 (t.row * s + s + 2 ^ 64 - s) ≡ t.row * s = omega arith in
            rw (exact, sum, next, over, last)
              (Ends-bind _ _ scrolled (λ v done_scroll. record {
                value = record v { y_pos = t.row * s };
                ends = rw back refl;
                holds = scrolls t px v (==→eq (t.row + 1) rows last) h done_scroll;
              }))
        | inr room ↦
            let further : t.row + 1 < rows = ground (arith, h.in_row) in
            let under : ltb b.info.height (t.row * s + s + s) ≡ false =
              ground (arith, row_in (t.row + 1) further) in
            let zero_col : 0 * s ≡ 0 = omega arith in
            let next_row : (t.row + 1) * s ≡ t.row * s + s = omega arith in
            rw (exact, sum, next, under, room)
              (record {
                value = record b { pixels = px; x_pos = 0; y_pos = t.row * s + s };
                ends = refl;
                holds = record {
                  placed = rw (zero_col, next_row) refl;
                  cells = h.cells;
                  margin = h.margin;
                  in_row = further;
                  in_col = omega arith;
                };
              })
      ]

  -- What `write_byte` does once there is room.
  abbrev pub after_glyph : FrameBufferWriter → Run FrameBufferWriter
  after_glyph d = done (record d { x_pos = u64 (d.x_pos + scaled b) })

  moved-right :
      (t : Terminal) (px : Pixels)
      → t.col < cols
      → after_glyph (placed_at font b t px)
        ≡ done (record b { pixels = px; x_pos = (t.col + 1) * s; y_pos = t.row * s })
  moved-right t px room =
      let ws = mode.screen.width_small in
      let g = grid in
      let col_end = col_in t.col room in
      let exact : u64 (t.col * s + scaled b) ≡ (t.col + 1) * s = omega arith in rw exact refl

  pub put_cell-Shown :
      (t : Terminal) (px : Pixels) (ch : ℕ) (glyph : Option (List ℕ))
      → Shown font b t (placed_at font b t px)
      → t.col < cols
      → font ch ≡ glyph
      → ((g : List ℕ) → glyph ≡ some g → length g ≡ 8)
      → Ends
          (draw_glyph (placed_at font b t px) (t.col * s) (t.row * s) glyph >>= after_glyph)
          (Shown font b (put_cell rows cols (is_some glyph) ch t))
  unfolding draw_glyph
  put_cell-Shown t px ch none h room e size = record {
    value = record b { pixels = px; x_pos = (t.col + 1) * s; y_pos = t.row * s };
    ends = moved-right t px room;
    holds = record {
      placed = refl;
      cells = h.cells;
      margin = h.margin;
      in_row = h.in_row;
      in_col = omega arith;
    };
  }
  put_cell-Shown t px ch (some g) h room e size =
      let wide = mode.screen.wide in
      let row_end = row_in t.row h.in_row in
      let col_end = col_in t.col room in
      let gr = grid in
      Ends-bind _ _
        (draw_glyph-Redraws (placed_at font b t px) mode.screen g (t.col * s) (t.row * s)
          (size g refl) mode.scaled (omega arith) (omega arith))
        (λ d drawn. record {
          value = record b { pixels = d.pixels; x_pos = (t.col + 1) * s; y_pos = t.row * s };
          ends = ap after_glyph drawn.0 ∙ moved-right t d.pixels room;
          holds = record {
            placed = refl;
            cells = λ r c y x hr hc hy hx.
                let rb = row_in r hr in
                let cb = col_in c hc in
                drawn.1 (r * s + y) (c * s + x) (omega arith) (omega arith)
                ∙ rw (in_cell s r t.row y hy, in_cell s c t.col x hx)
                    (elim (Bool-cases (r == t.row && c == t.col)) [
                      | inl here ↦
                          rw (here, e)
                            (rw
                              (offset s r t.row y (ground arith), offset s c t.col x (ground arith))
                              refl)
                      | inr other ↦ rw other (h.cells r c y x hr hc hy hx)
                    ]);
            margin = λ y x low high hx.
                drawn.1 y x high (omega arith) ∙ ground (arith, h.margin y x low high hx);
            in_row = h.in_row;
            in_col = omega arith;
          };
        })
