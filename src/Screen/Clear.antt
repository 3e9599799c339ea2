-- ===== src/Screen/Clear.antt =====
-- kernel/src/screen.rs: what `clear` leaves on the screen, and the colours of `init`.
use cat.Common.{ℕ, ◌+◌, ◌*◌, ◌<◌, ◌≡◌, refl, ◌∙◌, arith}
use cat.Common.{
  ◌≢◌, ◌⊎◌, sym, ap, Bool, false, Bool-cases, inl, inr, ==→eq, Ends, Ends-bind, true, ltb, ◌==◌,
  if◌then◌else◌, u64,
}
use cat.Screen.{
  FrameBufferInfo, FrameBufferWriter, Pixels, pixel_count, put, for_range, clear, convert_color,
  rgb, bgr, other, PixelFormat, init, reset_style, set_text_color, set_background_color, set_scale,
}
use cat.Screen.Bounds.{IsScreen, Kept, row-end, for_range-carries}

-- Every pixel of the screen has the colour, no other pixel has changed, and the cursor is at the
-- start.
pub record Cleared (w : FrameBufferWriter) (color : ℕ) (v : FrameBufferWriter) : Type 0 where
  pub painted :
      (y x : ℕ)
      → y < w.info.height
      → x < w.info.width
      → v.pixels (y * w.info.stride + x) ≡ convert_color w.info color
  pub kept : Kept w.info w.pixels v.pixels
  pub at_start : (v.x_pos ≡ 0) × (v.y_pos ≡ 0)
  pub style : v ≡ record w { pixels = v.pixels; x_pos = 0; y_pos = 0 }

module _ (info : FrameBufferInfo) (screen : IsScreen info) (c : ℕ) where
  -- Pixels keep the colour once they have it, and those off the screen keep theirs.
  record Paints (px p : Pixels) : Type 0 where
    pub stays : (i : ℕ) → px i ≡ c → p i ≡ c
    pub kept : Kept info px p

  none_yet : (px : Pixels) → Paints px px
  none_yet px = record { stays = λ i e. e; kept = λ i h. refl }

  clear_row-Paints :
      (y : ℕ) (px : Pixels)
      → y < info.height
      → Ends
          (for_range info.width 0 (λ x. put info (u64 (y * info.stride) + x) c) px)
          (λ p. ((x : ℕ) → x < info.width → p (y * info.stride + x) ≡ c) × Paints px p)
  clear_row-Paints y px h =
      for_range-carries (λ n p. ((x : ℕ) → x < n → p (y * info.stride + x) ≡ c) × Paints px p)
        info.width 0 info.width _ px (omega arith) ((λ x k. absurd (omega arith)), none_yet px)
        (λ n p k (row, paints).
          let small = screen.small in
          let in_row = row-end info y h in
          let exact : u64 (y * info.stride) ≡ y * info.stride = omega arith in
          let inside : ltb (y * info.stride + n) (pixel_count info) ≡ true =
            ground (arith, screen.fits, screen.wide) in
          rw (exact, inside)
            (record {
              value = λ j. if j == y * info.stride + n then c else p j;
              ends = refl;
              holds = (
                (λ x below. ground (arith, row x)),
                record {
                  stays = λ i e. ground (arith, paints.stays i e);
                  kept = λ i out. ground (arith, paints.kept i out, screen.wide);
                },
              );
            }))

-- Whatever the screen shows, in a mode whose rows fit the frame buffer, clear ends without a write
-- outside it, gives every pixel of the screen the converted colour, changes no pixel outside the
-- rows of the screen nor the style, and puts the cursor at the start.
pub clear-Cleared :
    (w : FrameBufferWriter) → IsScreen w.info → (color : ℕ) → Ends (clear w color) (Cleared w color)
unfolding clear
clear-Cleared w screen color =
    let info = w.info in
    let c = convert_color info color in
    Ends-bind _ _
      (for_range-carries
        (λ n p.
          ((y x : ℕ) → y < n → x < info.width → p (y * info.stride + x) ≡ c)
          × Paints info screen c w.pixels p)
        info.height 0 info.height _ w.pixels (omega arith)
        ((λ y x k. absurd (omega arith)), none_yet info screen c w.pixels)
        (λ n p k (rows, paints).
          let row = clear_row-Paints info screen c n p k in
          record {
            value = row.value;
            ends = row.ends;
            holds = (
              (λ y x below hx. elim (Bool-cases (y == n)) [
                | inl same ↦ rw (==→eq y n same) (row.holds.0 x hx)
                | inr earlier ↦ row.holds.1.stays _ (rows y x (ground arith) hx)
              ]),
              record {
                stays = λ i e. row.holds.1.stays i (paints.stays i e);
                kept = λ i out. row.holds.1.kept i out ∙ paints.kept i out;
              },
            );
          }))
      (λ px (rows, paints). record {
        value = record w { pixels = px; x_pos = 0; y_pos = 0 };
        ends = refl;
        holds = record {
          painted = λ y x hy hx. rows y x (omega arith) hx;
          kept = paints.kept;
          at_start = (refl, refl);
          style = refl;
        };
      })

abbrev is_rgb : PixelFormat → Bool
is_rgb rgb = true
is_rgb _ = false

not_rgb : (f : PixelFormat) → is_rgb f ≡ false → f ≢ rgb
not_rgb f e same = tell_apart (sym e ∙ ap is_rgb same)
  where
    tell_apart : false ≡ true → ⊥
    tell_apart e = cc

pub format_cases : (f : PixelFormat) → (f ≡ rgb) ⊎ ((f ≢ rgb) × ((f ≡ bgr) ⊎ (f ≡ other)))
format_cases rgb = inl refl
format_cases bgr = inr (not_rgb bgr refl, inl refl)
format_cases other = inr (not_rgb other refl, inr refl)

-- The scale and the colour of texts are those of `v`.
abbrev pub IsTextStyle : FrameBufferWriter → FrameBufferWriter → Type 0
IsTextStyle v w = (w.scale ≡ v.scale) × (w.text_color ≡ v.text_color)

-- Whatever style a writer has, reset_style gives it the scale and the colour of texts that init does.
-- The background is that of init too when the pixel format is not RGB, and another when it is.
pub reset_style-init :
    (w : FrameBufferWriter)
    → let start = init w.info w.pixels in
      IsTextStyle start (reset_style w)
      × (((w.info.format ≢ rgb) × ((reset_style w).bg_color ≡ start.bg_color))
          ⊎ ((w.info.format ≡ rgb) × ((reset_style w).bg_color ≢ start.bg_color)))
unfolding init reset_style set_text_color set_background_color set_scale convert_color
reset_style-init w = elim (format_cases w.info.format) [
  | inl e ↦ rw e ((refl, refl), inr (refl, λ d. omega arith))
  | inr (ne, inl e) ↦ ((refl, rw e refl), inl (ne, rw e refl))
  | inr (ne, inr e) ↦ ((refl, rw e refl), inl (ne, rw e refl))
]
