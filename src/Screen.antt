-- ===== src/Screen.antt =====
-- kernel/src/screen.rs and shared/src/framebuffer.rs: `FrameBufferWriter` and its operations.
-- The frame buffer holds `buffer_size / 4` pixels; a pixel is written by its index, and an index
-- past the buffer is a fault. The glyphs of the font8x8 crate are a parameter.
pub mod Bounds
pub mod Cursor
pub mod Clear
pub mod Picture
pub mod Glyph
pub mod Scroll
pub mod Terminal
pub mod Restyle
pub mod Sample
mod Tests
use cat.Common.{
  ℕ, zero, suc, ◌+◌, ◌-◌, ◌*◌, ◌/◌, ◌%◌, ◌^◌, bit_and, bit_or, Bool, true, false, not, ◌&&◌,
}
use cat.Common.{Option, none, some, List, [], ◌∷◌, Run, done, fault, ◌>>=◌, ◌==◌, ltb, leb}
use cat.Common.{if◌then◌else◌, u8, u64}

pub data PixelFormat : Type 0 where
  rgb bgr other : PixelFormat

pub record FrameBufferInfo : Type 0 where
  pub buffer_base : ℕ
  pub buffer_size : ℕ
  pub width : ℕ
  pub height : ℕ
  pub stride : ℕ
  pub format : PixelFormat

-- Pixels by their index in the frame buffer.
abbrev pub Pixels : Type 0
Pixels = ℕ → ℕ

pub record FrameBufferWriter : Type 0 where
  pub info : FrameBufferInfo
  pub pixels : Pixels
  pub x_pos : ℕ
  pub y_pos : ℕ
  pub scale : ℕ
  pub text_color : ℕ
  pub bg_color : ℕ

abbrev pub pixel_count : FrameBufferInfo → ℕ
pixel_count info = info.buffer_size / 4

abbrev pub put : FrameBufferInfo → ℕ → ℕ → Pixels → Run Pixels
put info i color px =
    if ltb i (pixel_count info) then done (λ j. if j == i then color else px j) else fault

-- `for i in start..start + rounds`, on the pixels.
unfoldable pub for_range : ℕ → ℕ → (ℕ → Pixels → Run Pixels) → Pixels → Run Pixels
for_range zero start body px = done px
for_range (suc rounds) start body px = body start px >>= for_range rounds (start + 1) body

abbrev pub scaled : FrameBufferWriter → ℕ
scaled w = u64 (8 * w.scale)

pub convert_color : FrameBufferInfo → ℕ → ℕ
convert_color info color =
    let r = bit_and (color / 2 ^ 16) 255 in
    let g = bit_and (color / 2 ^ 8) 255 in
    let b = bit_and color 255 in
    elim info.format [
      | rgb ↦ bit_or (bit_or (b * 2 ^ 16) (g * 2 ^ 8)) r
      | bgr ↦ color
      | other ↦ color
    ]

pub set_scale : FrameBufferWriter → ℕ → FrameBufferWriter
set_scale w scale = record w { scale = scale }

pub set_text_color : FrameBufferWriter → ℕ → FrameBufferWriter
set_text_color w color = record w { text_color = convert_color w.info color }

pub set_background_color : FrameBufferWriter → ℕ → FrameBufferWriter
set_background_color w color = record w { bg_color = convert_color w.info color }

pub clear : FrameBufferWriter → ℕ → Run FrameBufferWriter
clear w color =
    let info = w.info in
    let clear_row : ℕ → Pixels → Run Pixels = λ y.
      for_range info.width 0
        (λ x. put info (u64 (y * info.stride) + x) (convert_color info color)) in
    for_range info.height 0 clear_row w.pixels >>= λ px.
    done (record w { pixels = px; x_pos = 0; y_pos = 0 })

-- `ptr::copy` of `count` pixels from `src` to the start of the buffer.
pub copy_to_start : FrameBufferInfo → ℕ → ℕ → Pixels → Run Pixels
copy_to_start info src count px =
    if leb (src + count) (pixel_count info)
    then done (λ i. if ltb i count then px (src + i) else px i)
    else fault

pub scroll_up : FrameBufferWriter → Run FrameBufferWriter
scroll_up w =
    let info = w.info in
    let copy_lines = u64 (info.height + 2 ^ 64 - scaled w) in
    let copy_len = u64 (copy_lines * info.stride) in
    let fill_len = u64 (scaled w * info.stride) in
    copy_to_start info (u64 (info.stride * scaled w)) copy_len w.pixels >>= λ copied.
    (for_range fill_len 0 (λ i. put info (copy_len + i) w.bg_color) copied >>= λ px.
    done (record w { pixels = px }))

pub new_line : FrameBufferWriter → Run FrameBufferWriter
new_line w =
    let y = u64 (w.y_pos + scaled w) in
    let w' = record w { x_pos = 0; y_pos = y } in
    if ltb w.info.height (u64 (y + scaled w))
    then (scroll_up w' >>= λ s. done (record s { y_pos = u64 (y + 2 ^ 64 - scaled w) }))
    else done w'

-- One pixel of a glyph, where it lies on the screen.
pub draw_dot : FrameBufferWriter → ℕ → ℕ → ℕ → Pixels → Run Pixels
draw_dot w dx dy color px =
    if ltb dx w.info.width && ltb dy w.info.height
    then put w.info (u64 (u64 (dy * w.info.stride) + dx)) color px
    else done px

-- The square of `scale` by `scale` pixels for one bit of a glyph.
pub draw_bit : FrameBufferWriter → ℕ → ℕ → ℕ → ℕ → ℕ → Pixels → Run Pixels
draw_bit w x y row_byte row_idx col_idx =
    let bit_is_set = not (bit_and row_byte (2 ^ col_idx) == 0) in
    let pixel_color = if bit_is_set then w.text_color else w.bg_color in
    for_range w.scale 0 (λ sy. for_range w.scale 0 (λ sx.
      draw_dot w (u64 (u64 (x + u64 (col_idx * w.scale)) + sx))
        (u64 (u64 (y + u64 (row_idx * w.scale)) + sy)) pixel_color))

pub draw_rows : FrameBufferWriter → ℕ → ℕ → List ℕ → ℕ → Pixels → Run Pixels
draw_rows w x y [] row_idx px = done px
draw_rows w x y (row_byte ∷ rows) row_idx px =
    for_range 8 0 (draw_bit w x y row_byte row_idx) px >>= draw_rows w x y rows (row_idx + 1)

-- The loop of `fill_remainder`, which ends at the bottom of the screen.
pub fill_rows : FrameBufferWriter → ℕ → ℕ → Pixels → Run Pixels
fill_rows w zero y_offset px = done px
fill_rows w (suc rounds) y_offset px =
    let dy = u64 (w.y_pos + y_offset) in
    let fill : ℕ → Pixels → Run Pixels =
      λ i. put w.info (u64 (dy * w.info.stride) + (w.x_pos + i)) w.bg_color in
    let rest = for_range (w.info.width - w.x_pos) 0 fill px >>= fill_rows w rounds (y_offset + 1) in
    if leb w.info.height dy then done px else rest

pub fill_remainder : FrameBufferWriter → Run FrameBufferWriter
fill_remainder w =
    if ltb w.x_pos w.info.width
    then (fill_rows w (scaled w) 0 w.pixels >>= λ px. new_line (record w { pixels = px }))
    else new_line w

pub draw_glyph : FrameBufferWriter → ℕ → ℕ → Option (List ℕ) → Run FrameBufferWriter
draw_glyph w x y none = done w
draw_glyph w x y (some bitmap) =
    draw_rows w x y bitmap 0 w.pixels >>= λ px. done (record w { pixels = px })

module _ (font : ℕ → Option (List ℕ)) where
  pub draw_char : FrameBufferWriter → ℕ → ℕ → ℕ → Run FrameBufferWriter
  draw_char w x y c = draw_glyph w x y (font c)

  pub write_byte : FrameBufferWriter → ℕ → Run FrameBufferWriter
  write_byte w byte =
      if byte == 10
      then fill_remainder w
      else ((if ltb w.info.width (u64 (w.x_pos + scaled w)) then new_line w else done w) >>= λ v.
          (draw_char v v.x_pos v.y_pos byte >>= λ d.
          done (record d { x_pos = u64 (d.x_pos + scaled w) })))

  -- On the characters of the string, as code points.
  pub write_str : FrameBufferWriter → List ℕ → Run FrameBufferWriter
  write_str w [] = done w
  write_str w (c ∷ cs) = write_byte w (u8 c) >>= λ w'. write_str w' cs

-- The writer that `screen::init` makes, with whatever the frame buffer shows.
pub init : FrameBufferInfo → Pixels → FrameBufferWriter
init info px = record {
  info = info;
  pixels = px;
  x_pos = 0;
  y_pos = 0;
  scale = 2;
  text_color = 16777215;
  bg_color = 255;
}

pub reset_style : FrameBufferWriter → FrameBufferWriter
reset_style w = set_background_color (set_scale (set_text_color w 16777215) 2) 255
