-- ===== src/Screen/Scroll.antt =====
-- kernel/src/screen.rs: what `scroll_up` and `fill_remainder` leave on the screen.
use cat.Common.{ℕ, zero, suc, ◌+◌, ◌-◌, ◌*◌, ◌^◌, ◌≤◌, ◌<◌, ◌≡◌, refl, ◌∙◌, ap, arith}
use cat.Common.{
  true, false, Ends, Ends-bind, ltb, leb, ◌&&◌, if◌then◌else◌, u64, Bool-cases, inl, inr,
}
use mathlib.Core.Path.{subst}
use native.Mathlib.Nat.{mul-le-mul_right}
use cat.Screen.{
  FrameBufferWriter, Pixels, pixel_count, put, for_range, scaled, copy_to_start, scroll_up,
  fill_rows,
}
use cat.Screen.Bounds.{IsScreen, row-end, for_range-carries}
use cat.Screen.Picture.{at, Redraws, line-Redraws, put-Redraws, Redraws-below, Redraws-no_rows}

module _ (w : FrameBufferWriter) (screen : IsScreen w.info) where
  fill_tail :
      (start count : ℕ) (px : Pixels)
      → start + count ≤ w.info.height * w.info.stride
      → Ends
          (for_range count 0 (λ i. put w.info (start + i) w.bg_color) px)
          (λ q. (j : ℕ) → q j ≡ (if leb start j && ltb j (start + count) then w.bg_color else px j))
  fill_tail start count px fits =
      for_range-carries
        (λ k q. (j : ℕ) → q j ≡ (if leb start j && ltb j (start + k) then w.bg_color else px j))
        count 0 count _ px (omega arith) (λ j. ground arith)
        (λ i p h before.
          let inside : ltb (start + i) (pixel_count w.info) ≡ true = ground (arith, screen.fits) in
          rw inside (record { value = _; ends = refl; holds = λ j. ground (arith, before j) }))

  -- Rows by their height below the top of the screen: those that come from below, and new ones.
  pub record Scrolled (v : FrameBufferWriter) : Type 0 where
    pub rest : v ≡ record w { pixels = v.pixels }
    pub rows :
        (y x : ℕ)
        → y < w.info.height
        → x < w.info.stride
        → at w.info v.pixels y x ≡ (
            if ltb (y + 8 * w.scale) w.info.height
            then at w.info w.pixels (y + 8 * w.scale) x
            else w.bg_color)

  before_tail :
      (lines y x : ℕ)
      → x < w.info.stride
      → ltb (y * w.info.stride + x) (lines * w.info.stride) ≡ ltb y lines
  before_tail lines y x h = elim (Bool-cases (ltb y lines)) [
    | inl less ↦
        let m : suc y * w.info.stride ≤ lines * w.info.stride =
          mul-le-mul_right w.info.stride (ground arith) in
        rw less (ground (arith, m))
    | inr more ↦
        let m : lines * w.info.stride ≤ y * w.info.stride =
          mul-le-mul_right w.info.stride (ground arith) in
        rw more (ground (arith, m))
  ]

  pub scroll_up-Scrolled : 8 * w.scale ≤ w.info.height → Ends (scroll_up w) Scrolled
  unfolding scroll_up copy_to_start
  scroll_up-Scrolled tall =
      let stride = w.info.stride in
      let sh = 8 * w.scale in
      let lines = w.info.height - sh in
      let hs = screen.height_small in
      let small = screen.small in
      let sum : lines * stride + sh * stride ≡ w.info.height * stride =
        sums lines sh w.info.height (omega arith) in
      let exact_lines : u64 (w.info.height + 2 ^ 64 - scaled w) ≡ lines = omega arith in
      let exact_len : u64 (lines * stride) ≡ lines * stride = omega arith in
      let exact_scaled : scaled w ≡ sh = omega arith in
      let exact_fill : u64 (sh * stride) ≡ sh * stride = omega (arith, sum) in
      let exact_src : u64 (stride * sh) ≡ sh * stride = omega (arith, sum) in
      let inside : leb (sh * stride + lines * stride) (pixel_count w.info) ≡ true =
        ground (arith, screen.fits, sum) in
      rw (exact_lines, exact_scaled, exact_len, exact_fill, exact_src, inside)
        (Ends-bind _ _ (fill_tail (lines * stride) (sh * stride) _ (omega (arith, sum)))
          (λ px filled. record {
            value = record w { pixels = px };
            ends = refl;
            holds = record {
              rest = refl;
              rows = λ y x hy hx.
                  let place : (y + sh) * stride + x ≡ sh * stride + (y * stride + x) =
                    omega arith in
                  filled (y * stride + x)
                  ∙ ground (
                    arith,
                    before_tail lines y x hx,
                    row-end w.info y hy,
                    sum,
                    ap w.pixels place,
                  );
            };
          }))
    where
      sums : (a b c : ℕ) → a + b ≡ c → a * w.info.stride + b * w.info.stride ≡ c * w.info.stride
      sums a b c e = omega (arith, ap (λ (t : ℕ). t * w.info.stride) e)

  fill_line-Redraws :
      (dy : ℕ) (px : Pixels)
      → dy < w.info.height
      → w.x_pos ≤ w.info.width
      → Ends
          (for_range
            (w.info.width - w.x_pos)
            0
            (λ i. put w.info (u64 (dy * w.info.stride) + (w.x_pos + i)) w.bg_color)
            px)
          (Redraws w.info dy w.x_pos 1 (w.info.width - w.x_pos) (λ _ _. w.bg_color) px)
  fill_line-Redraws dy px below x_in =
      let in_row = row-end w.info dy below in
      let small = screen.small in
      let wide = screen.wide in
      let exact : u64 (dy * w.info.stride) ≡ dy * w.info.stride = omega arith in
      rw exact (
        line-Redraws w.info screen _ dy w.x_pos w.bg_color _ px
          (λ i p h. put-Redraws w.info screen dy (w.x_pos + i) w.bg_color p below (omega arith)))

  pub fill_rows-Redraws :
      (rounds y_offset top : ℕ) (px : Pixels)
      → w.y_pos + y_offset ≡ top
      → top + rounds ≤ w.info.height
      → w.x_pos ≤ w.info.width
      → Ends
          (fill_rows w rounds y_offset px)
          (Redraws w.info top w.x_pos rounds (w.info.width - w.x_pos) (λ _ _. w.bg_color) px)
  unfolding fill_rows
  fill_rows-Redraws zero y_offset top px e room x_in = record {
    value = px;
    ends = refl;
    holds = Redraws-no_rows w.info screen top w.x_pos 0 _ _ px refl;
  }
  fill_rows-Redraws (suc rounds) y_offset top px e room x_in =
      let hs = screen.height_small in
      let here : u64 (w.y_pos + y_offset) ≡ top = omega arith in
      let on : leb w.info.height top ≡ false = ground arith in
      rw (here, on)
        (Ends-bind _ _ (fill_line-Redraws top px (omega arith) x_in) (λ p line.
          let later =
            fill_rows-Redraws rounds (y_offset + 1) (top + 1) p (omega arith) (omega arith) x_in in
          let tall : 1 + rounds ≡ suc rounds = omega arith in
          record {
            value = later.value;
            ends = later.ends;
            holds =
                subst
                  (λ (n : ℕ).
                    Redraws w.info top w.x_pos n (w.info.width - w.x_pos) (λ _ _. w.bg_color) px
                      later.value)
                  tall
                  (Redraws-below w.info screen top w.x_pos 1 rounds _ _ px p later.value line
                    later.holds);
          }))
