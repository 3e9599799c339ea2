-- ===== src/Screen/Cursor.antt =====
-- kernel/src/screen.rs: the operations keep the cursor where the next character is visible.
use cat.Common.{ℕ, ◌+◌, ◌-◌, ◌*◌, ◌^◌, ◌≤◌, ◌≡◌, refl, ◌∙◌, ap, sym, arith}
use cat.Common.{Option, none, some, List, [], ◌∷◌, done, Ends, Ends-bind}
use cat.Common.{true, Bool-cases, inl, inr, ◌==◌, ltb, leb, if◌then◌else◌, u8, u64}
use mathlib.Core.Path.{subst}
use cat.Screen.{
  FrameBufferInfo, FrameBufferWriter, Pixels, pixel_count, scaled, fill_remainder, draw_char,
  draw_glyph, write_byte, write_str, new_line, scroll_up, copy_to_start,
}
use cat.Screen.Bounds.{IsScreen, Kept, put-Kept, for_range-Kept, draw_rows-Kept, fill_rows-Kept}

-- A character of the present scale fits the screen, and the cursor is where one can be drawn, or at
-- the end of such a row.
pub record IsVisible (w : FrameBufferWriter) : Type 0 where
  pub screen : IsScreen w.info
  pub tall : 8 * w.scale ≤ w.info.height
  pub broad : 8 * w.scale ≤ w.info.width
  pub x_in : w.x_pos ≤ w.info.width
  pub y_in : w.y_pos + 8 * w.scale ≤ w.info.height

-- The mode and the style are the same, and no pixel has changed outside the rows of the screen.
pub record Repaints (w v : FrameBufferWriter) : Type 0 where
  pub info : v.info ≡ w.info
  pub scale : v.scale ≡ w.scale
  pub text_color : v.text_color ≡ w.text_color
  pub bg_color : v.bg_color ≡ w.bg_color
  pub kept : Kept w.info w.pixels v.pixels

Repaints-trans : (u v w : FrameBufferWriter) → Repaints u v → Repaints v w → Repaints u w
Repaints-trans u v w a b = record {
  info = b.info ∙ a.info;
  scale = b.scale ∙ a.scale;
  text_color = b.text_color ∙ a.text_color;
  bg_color = b.bg_color ∙ a.bg_color;
  kept = λ i h.
      b.kept i (subst (λ (t : FrameBufferInfo). t.height * t.stride ≤ i) (sym a.info) h)
      ∙ a.kept i h;
}

-- Drawn, with the cursor at `x`.
pub record Shows (w : FrameBufferWriter) (v : FrameBufferWriter) : Type 0 where
  pub repaints : Repaints w v
  pub visible : IsVisible v

Shows-trans : (u v w : FrameBufferWriter) → Shows u v → Shows v w → Shows u w
Shows-trans u v w a b = record {
  repaints = Repaints-trans u v w a.repaints b.repaints;
  visible = b.visible;
}

recolours :
    (w : FrameBufferWriter) (px : Pixels)
    → Kept w.info w.pixels px
    → Repaints w (record w { pixels = px })
recolours w px kept = record {
  info = refl;
  scale = refl;
  text_color = refl;
  bg_color = refl;
  kept = kept;
}

unchanged : (w : FrameBufferWriter) → Repaints w w
unchanged w = recolours w w.pixels (λ i _. refl)

moved_to :
    (w v : FrameBufferWriter) (a b : ℕ)
    → Repaints (record w { x_pos = a; y_pos = b }) v
    → (x y : ℕ) → Repaints w (record v { x_pos = x; y_pos = y })
moved_to w v a b r x y = record {
  info = r.info;
  scale = r.scale;
  text_color = r.text_color;
  bg_color = r.bg_color;
  kept = r.kept;
}

seen_at :
    (w v : FrameBufferWriter)
    → IsVisible w
    → Repaints w v
    → v.x_pos ≤ w.info.width
    → v.y_pos + 8 * w.scale ≤ w.info.height
    → IsVisible v
seen_at w v h r x y = record {
  screen = subst IsScreen (sym r.info) h.screen;
  tall = rw (r.scale, r.info) h.tall;
  broad = rw (r.scale, r.info) h.broad;
  x_in = rw r.info x;
  y_in = rw (r.scale, r.info) y;
}

split-mul : (a b c s : ℕ) → a + b ≡ c → a * s + b * s ≡ c * s
split-mul a b c s e = omega (arith, ap (λ (t : ℕ). t * s) e)

copy_to_start-Kept :
    (info : FrameBufferInfo) (screen : IsScreen info) (src count : ℕ) (px : Pixels)
    → src + count ≤ info.height * info.stride
    → Ends (copy_to_start info src count px) (Kept info px)
unfolding copy_to_start
copy_to_start-Kept info screen src count px h =
    let inside : leb (src + count) (pixel_count info) ≡ true = ground (arith, screen.fits) in
    rw inside (record { value = _; ends = refl; holds = λ i outside. ground arith })

scroll_up-Repaints :
    (w : FrameBufferWriter)
    → IsScreen w.info
    → 8 * w.scale ≤ w.info.height
    → Ends (scroll_up w) (λ v. Repaints w v × (v.x_pos ≡ w.x_pos))
unfolding scroll_up
scroll_up-Repaints w screen tall =
    let info = w.info in
    let sh = scaled w in
    let lines = u64 (info.height + 2 ^ 64 - sh) in
    let hs = screen.height_small in
    let small = screen.small in
    let area = split-mul lines sh info.height info.stride (omega arith) in
    Ends-bind _ _ (copy_to_start-Kept info screen _ _ w.pixels (omega (arith, area)))
      (λ copied moved.
        Ends-bind _ _
          (for_range-Kept info screen (u64 (sh * info.stride)) 0 _ copied
            (λ i p _ h. put-Kept info screen _ w.bg_color p (omega (arith, area))))
          (λ px filled. record {
            value = record w { pixels = px };
            ends = refl;
            holds = (recolours w px (λ j h. filled j h ∙ moved j h), refl);
          }))

new_line-Shows :
    (w : FrameBufferWriter) → IsVisible w → Ends (new_line w) (λ v. Shows w v × (v.x_pos ≡ 0))
unfolding new_line
new_line-Shows w h =
    let sh = scaled w in
    let y = u64 (w.y_pos + sh) in
    let hs = h.screen.height_small in
    let w' = record w { x_pos = 0; y_pos = y } in
    elim (Bool-cases (ltb w.info.height (u64 (y + sh)))) [
      | inl over ↦ rw over (
          Ends-bind _ _ (scroll_up-Repaints w' h.screen h.tall) (λ s (drawn, at_start).
            let v = record s { y_pos = u64 (y + 2 ^ 64 - sh) } in
            let repaints = moved_to w s 0 y drawn v.x_pos v.y_pos in
            record {
              value = v;
              ends = refl;
              holds = (
                record {
                  repaints = repaints;
                  visible = seen_at w v h repaints (rw at_start (omega arith)) (omega arith);
                },
                at_start,
              );
            }))
      | inr room ↦ rw room (record {
        value = w';
        ends = refl;
        holds = (
          record {
            repaints = moved_to w w w.x_pos w.y_pos (unchanged w) 0 y;
            visible =
                seen_at w w' h (moved_to w w w.x_pos w.y_pos (unchanged w) 0 y) (omega arith)
                  (ground arith);
          },
          refl,
        );
      })
    ]

fill_remainder-Shows : (w : FrameBufferWriter) → IsVisible w → Ends (fill_remainder w) (Shows w)
unfolding fill_remainder
fill_remainder-Shows w h = elim (Bool-cases (ltb w.x_pos w.info.width)) [
  | inl rest ↦ rw rest (
      Ends-bind _ _ (fill_rows-Kept w h.screen (scaled w) 0 w.pixels) (λ px kept.
        let filled = recolours w px kept in
        let v = record w { pixels = px } in
        let next = new_line-Shows v (seen_at w v h filled h.x_in h.y_in) in
        record {
          value = next.value;
          ends = next.ends;
          holds = record {
            repaints = Repaints-trans w v next.value filled next.holds.0.repaints;
            visible = next.holds.0.visible;
          };
        }))
  | inr none_left ↦ rw none_left (
      let next = new_line-Shows w h in
      record { value = next.value; ends = next.ends; holds = next.holds.0 })
]

-- Before a character is drawn, the rest of the row has room for it.
with_room :
    (w : FrameBufferWriter)
    → IsVisible w
    → Ends
        (if ltb w.info.width (u64 (w.x_pos + scaled w)) then new_line w else done w)
        (λ v. Shows w v × (v.x_pos + 8 * w.scale ≤ v.info.width))
with_room w h =
    let ws = h.screen.width_small in
    elim (Bool-cases (ltb w.info.width (u64 (w.x_pos + scaled w)))) [
      | inl full ↦ rw full (
          let next = new_line-Shows w h in
          record {
            value = next.value;
            ends = next.ends;
            holds = (
              next.holds.0,
              rw (next.holds.1, next.holds.0.repaints.info) (omega (arith, h.broad)),
            );
          })
      | inr room ↦ rw room (record {
        value = w;
        ends = refl;
        holds = (record { repaints = unchanged w; visible = h }, ground arith);
      })
    ]

draw_glyph-Repaints :
    (w : FrameBufferWriter)
    → IsScreen w.info
    → (x y : ℕ) (glyph : Option (List ℕ))
    → Ends (draw_glyph w x y glyph) (λ v. Repaints w v × (v.x_pos ≡ w.x_pos) × (v.y_pos ≡ w.y_pos))
unfolding draw_glyph
draw_glyph-Repaints w screen x y none = record {
  value = w;
  ends = refl;
  holds = (unchanged w, refl, refl);
}
draw_glyph-Repaints w screen x y (some rows) =
    Ends-bind _ _ (draw_rows-Kept w screen x y rows 0 w.pixels) (λ px kept. record {
      value = record w { pixels = px };
      ends = refl;
      holds = (recolours w px kept, refl, refl);
    })

module _ (font : ℕ → Option (List ℕ)) where
  write_byte-Shows :
      (w : FrameBufferWriter) (byte : ℕ) → IsVisible w → Ends (write_byte font w byte) (Shows w)
  unfolding write_byte draw_char
  write_byte-Shows w byte h = elim (Bool-cases (byte == 10)) [
    | inl newline ↦ rw newline (fill_remainder-Shows w h)
    | inr printable ↦ rw printable (
        Ends-bind _ _ (with_room w h) (λ v (shown, room).
          let visible = shown.visible in
          Ends-bind _ _ (draw_glyph-Repaints v visible.screen v.x_pos v.y_pos (font byte))
            (λ d (drawn, same_x, same_y).
              let next = record d { x_pos = u64 (d.x_pos + scaled w) } in
              let moved = moved_to v d v.x_pos v.y_pos drawn next.x_pos d.y_pos in
              record {
                value = next;
                ends = refl;
                holds = Shows-trans w v next shown (record {
                  repaints = moved;
                  visible =
                      seen_at v next visible moved (rw same_x (omega arith))
                        (rw same_y visible.y_in);
                });
              })))
  ]

  -- On a visible cursor, in a mode whose rows fit the frame buffer and whatever the font, write_str
  -- ends without a write outside the buffer, keeps the mode, scale and colours, changes no pixel
  -- outside the rows of the screen, and leaves the cursor visible.
  pub write_str-Shows :
      (w : FrameBufferWriter) (cs : List ℕ) → IsVisible w → Ends (write_str font w cs) (Shows w)
  unfolding write_str
  write_str-Shows w [] h = record {
    value = w;
    ends = refl;
    holds = record { repaints = unchanged w; visible = h };
  }
  write_str-Shows w (c ∷ cs) h = Ends-bind _ _ (write_byte-Shows w (u8 c) h) (λ v shown.
      let rest = write_str-Shows v cs shown.visible in
      record {
        value = rest.value;
        ends = rest.ends;
        holds = Shows-trans w v rest.value shown rest.holds;
      })
