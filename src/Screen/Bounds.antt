-- ===== src/Screen/Bounds.antt =====
-- kernel/src/screen.rs: where the operations write, and where they leave the cursor.
use cat.Common.{ℕ, zero, suc, ◌+◌, ◌-◌, ◌*◌, ◌^◌, ◌≤◌, ◌<◌, ◌≡◌, refl, ◌∙◌, arith}
use cat.Common.{List, [], ◌∷◌, Run, Ends, Ends-bind}
use cat.Common.{true, Bool-cases, inl, inr, ltb, leb, u64, ◌&&◌}
use mathlib.Core.Path.{subst}
use native.Mathlib.Nat.{mul-le-mul_right}
use cat.Screen.{
  FrameBufferInfo, FrameBufferWriter, Pixels, pixel_count, put, for_range, draw_dot, draw_bit,
  draw_rows, fill_rows,
}

-- A property of the pixels that each round carries from its number to the next.
pub for_range-carries :
    (P : ℕ → Pixels → Type 0) (rounds start stop : ℕ) (body : ℕ → Pixels → Run Pixels) (px : Pixels)
    → start + rounds ≡ stop
    → P start px
    → ((i : ℕ) (p : Pixels) → i < stop → P i p → Ends (body i p) (P (suc i)))
    → Ends (for_range rounds start body px) (P stop)
unfolding for_range
for_range-carries P zero start stop body px e base step =
    let here : stop ≡ start = omega arith in
    rw here (record { value = px; ends = refl; holds = base })
for_range-carries P (suc rounds) start stop body px e base step =
    let next : suc start ≡ start + 1 = omega arith in
    Ends-bind (body start px) _ (step start px (omega arith) base) (λ q carried.
      for_range-carries P rounds (start + 1) stop body q (omega arith)
        (subst (λ (n : ℕ). P n q) next carried) step)

-- A mode whose rows fit the buffer, of a size that no product or sum below overflows.
pub record IsScreen (info : FrameBufferInfo) : Type 0 where
  pub fits : info.height * info.stride ≤ pixel_count info
  pub wide : info.width ≤ info.stride
  pub small : info.height * info.stride < 2 ^ 62
  pub width_small : info.width < 2 ^ 32
  pub height_small : info.height < 2 ^ 32

-- Nothing outside the rows of the screen has changed.
abbrev pub Kept : FrameBufferInfo → Pixels → Pixels → Type 0
Kept info px px' = (i : ℕ) → info.height * info.stride ≤ i → px' i ≡ px i

pub row-end :
    (info : FrameBufferInfo) (y : ℕ)
    → y < info.height
    → y * info.stride + info.stride ≤ info.height * info.stride
row-end info y h =
    let m : suc y * info.stride ≤ info.height * info.stride = mul-le-mul_right info.stride h in
    omega (arith, m)

module _ (info : FrameBufferInfo) (screen : IsScreen info) where
  pub put-Kept :
      (i color : ℕ) (px : Pixels)
      → i < info.height * info.stride
      → Ends (put info i color px) (Kept info px)
  put-Kept i color px h =
      let inside : ltb i (pixel_count info) ≡ true = ground (arith, screen.fits) in
      rw inside (record { value = _; ends = refl; holds = λ j outside. ground arith })

  pub for_range-Kept :
      (rounds start : ℕ) (body : ℕ → Pixels → Run Pixels) (px : Pixels)
      → ((i : ℕ) (p : Pixels) → start ≤ i → i < start + rounds → Ends (body i p) (Kept info p))
      → Ends (for_range rounds start body px) (Kept info px)
  unfolding for_range
  for_range-Kept zero start body px each = record { value = px; ends = refl; holds = λ j h. refl }
  for_range-Kept (suc rounds) start body px each =
      Ends-bind (body start px) _ (each start px (omega arith) (omega arith)) (λ q kept.
        let later =
          for_range-Kept rounds (start + 1) body q
            (λ i p h k. each i p (omega arith) (omega arith)) in
        record {
          value = later.value;
          ends = later.ends;
          holds = λ j h. later.holds j h ∙ kept j h;
        })

module _ (w : FrameBufferWriter) (screen : IsScreen w.info) where
  draw_dot-Kept :
      (dx dy color : ℕ) (px : Pixels) → Ends (draw_dot w dx dy color px) (Kept w.info px)
  unfolding draw_dot
  draw_dot-Kept dx dy color px = elim (Bool-cases (ltb dx w.info.width && ltb dy w.info.height)) [
    | inl on ↦
        let below : dy < w.info.height = ground arith in
        let beside : dx < w.info.width = ground arith in
        rw on (
          put-Kept w.info screen (u64 (u64 (dy * w.info.stride) + dx)) color px
            (omega (arith, row-end w.info dy below, screen.wide)))
    | inr off ↦ rw off (record { value = px; ends = refl; holds = λ j h. refl })
  ]

  draw_bit-Kept :
      (x y row_byte row_idx col_idx : ℕ) (px : Pixels)
      → Ends (draw_bit w x y row_byte row_idx col_idx px) (Kept w.info px)
  unfolding draw_bit
  draw_bit-Kept x y row_byte row_idx col_idx px =
      for_range-Kept w.info screen w.scale 0 _ px
        (λ sy p _ _. for_range-Kept w.info screen w.scale 0 _ p (λ sx q _ _. draw_dot-Kept _ _ _ q))

  pub draw_rows-Kept :
      (x y : ℕ) (rows : List ℕ) (row_idx : ℕ) (px : Pixels)
      → Ends (draw_rows w x y rows row_idx px) (Kept w.info px)
  unfolding draw_rows
  draw_rows-Kept x y [] row_idx px = record { value = px; ends = refl; holds = λ j h. refl }
  draw_rows-Kept x y (row_byte ∷ rows) row_idx px =
      Ends-bind _ _
        (for_range-Kept w.info screen 8 0 _ px (λ i p _ _. draw_bit-Kept x y row_byte row_idx i p))
        (λ q kept.
          let later = draw_rows-Kept x y rows (row_idx + 1) q in
          record {
            value = later.value;
            ends = later.ends;
            holds = λ j h. later.holds j h ∙ kept j h;
          })

  pub fill_rows-Kept :
      (rounds y_offset : ℕ) (px : Pixels) → Ends (fill_rows w rounds y_offset px) (Kept w.info px)
  unfolding fill_rows
  fill_rows-Kept zero y_offset px = record { value = px; ends = refl; holds = λ j h. refl }
  fill_rows-Kept (suc rounds) y_offset px =
      let dy = u64 (w.y_pos + y_offset) in
      elim (Bool-cases (leb w.info.height dy)) [
        | inl below ↦ rw below (record { value = px; ends = refl; holds = λ j h. refl })
        | inr within ↦
            let above : dy < w.info.height = ground arith in
            rw within (
              Ends-bind _ _
                (for_range-Kept w.info screen (w.info.width - w.x_pos) 0 _ px (λ i p _ h.
                  put-Kept w.info screen _ w.bg_color p
                    (omega (arith, row-end w.info dy above, screen.wide, screen.small))))
                (λ q kept.
                  let later = fill_rows-Kept rounds (y_offset + 1) q in
                  record {
                    value = later.value;
                    ends = later.ends;
                    holds = λ j h. later.holds j h ∙ kept j h;
                  }))
      ]
