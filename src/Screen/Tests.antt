-- ===== src/Screen/Tests.antt =====
-- kernel/src/screen.rs: the writer on a screen of 16 by 16 pixels.
use cat.Common.{ℕ, ◌≡◌, refl, [], ◌∷◌, Run, done, Ends}
use cat.Common.{◌>>=◌, ◌≢◌, ◌⊎◌}
use cat.Screen.{
  FrameBufferWriter, rgb, init, reset_style, clear, write_str, write_byte, draw_char, draw_glyph,
  draw_rows, draw_bit, draw_dot, for_range, new_line, scroll_up, copy_to_start, fill_remainder,
  fill_rows,
}
use cat.Screen.Clear.{Cleared, clear-Cleared, IsTextStyle, reset_style-init}
use cat.Screen.Cursor.{Shows, write_str-Shows}
use cat.Screen.Sample.{small, font, writer, writer-IsVisible}

-- The cursor and two pixels: the glyph's corner, and the one below it.
abbrev summary : Run FrameBufferWriter → Run (ℕ × ℕ × ℕ × ℕ)
summary r = r >>= λ w. done (w.x_pos, w.y_pos, w.pixels 128, w.pixels 144)

letter_drawn : summary (write_str font writer (65 ∷ [])) ≡ done (8, 8, 7, 1)
unfolding write_str write_byte draw_char draw_glyph draw_rows draw_bit draw_dot for_range
letter_drawn = refl

-- A new line on the last row scrolls: the letter has left the last row.
scrolled : summary (write_str font writer (65 ∷ 10 ∷ [])) ≡ done (0, 8, 1, 1)
unfolding write_str write_byte draw_char draw_glyph draw_rows draw_bit draw_dot for_range
    fill_remainder fill_rows new_line scroll_up copy_to_start
scrolled = refl

all_blank : Ends (clear writer 255) (Cleared writer 255)
all_blank = clear-Cleared writer writer-IsVisible.screen 255

reset_style-init_example :
    let start = init small (λ i. 0) in
    IsTextStyle start (reset_style writer)
    × (((small.format ≢ rgb) × ((reset_style writer).bg_color ≡ start.bg_color))
        ⊎ ((small.format ≡ rgb) × ((reset_style writer).bg_color ≢ start.bg_color)))
reset_style-init_example = reset_style-init writer

text_stays_visible : Ends (write_str font writer (65 ∷ 10 ∷ 65 ∷ 65 ∷ [])) (Shows writer)
text_stays_visible = write_str-Shows font writer (65 ∷ 10 ∷ 65 ∷ 65 ∷ []) writer-IsVisible
