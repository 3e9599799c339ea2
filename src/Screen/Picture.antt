-- ===== src/Screen/Picture.antt =====
-- kernel/src/screen.rs: the frame buffer by rows and columns, and rectangles in it.
use cat.Common.{ℕ, suc, ◌+◌, ◌*◌, ◌≤◌, ◌<◌, ◌≡◌, refl, ◌∙◌, ap, arith}
use cat.Common.{Bool, true, ◌&&◌, Run, Ends, ltb, leb, if◌then◌else◌}
use cat.Common.{Bool-cases, inl, inr}
use mathlib.Core.Path.{subst}
use native.Mathlib.Nat.{mul-le-mul_right}
use cat.Screen.{FrameBufferInfo, Pixels, pixel_count, put, for_range}
use cat.Screen.Bounds.{IsScreen, row-end, for_range-carries}

abbrev pub at : FrameBufferInfo → Pixels → ℕ → ℕ → ℕ
at info px y x = px (y * info.stride + x)

abbrev pub in_rect : ℕ → ℕ → ℕ → ℕ → ℕ → ℕ → Bool
in_rect top left height width y x =
    (leb top y && ltb y (top + height)) && (leb left x && ltb x (left + width))

-- The pixels of `q` are those of `p`, but for a rectangle, which has its colours from `colour`.
abbrev pub Redraws : FrameBufferInfo → ℕ → ℕ → ℕ → ℕ → (ℕ → ℕ → ℕ) → Pixels → Pixels → Type 0
Redraws info top left height width colour p q =
    (y x : ℕ)
    → y < info.height
    → x < info.stride
    → at info q y x ≡ (if in_rect top left height width y x then colour y x else at info p y x)

same_place :
    (stride y x y' x' : ℕ)
    → x < stride
    → x' < stride
    → y * stride + x ≡ y' * stride + x'
    → (y ≡ y') × (x ≡ x')
same_place stride y x y' x' h h' e = elim (Bool-cases (ltb y y')) [
  | inl less ↦
      let below : suc y ≤ y' = ground arith in
      let m : suc y * stride ≤ y' * stride = mul-le-mul_right stride below in
      absurd (omega (arith, m))
  | inr not_less ↦ elim (Bool-cases (ltb y' y)) [
    | inl more ↦
        let above : suc y' ≤ y = ground arith in
        let m : suc y' * stride ≤ y * stride = mul-le-mul_right stride above in
        absurd (omega (arith, m))
    | inr not_more ↦ let same : y ≡ y' = ground arith in (same, same_column same e)
  ]
]
  where
    same_column : {a b : ℕ} → a ≡ b → a * stride + x ≡ b * stride + x' → x ≡ x'
    same_column p q = omega (arith, ap (λ (t : ℕ). t * stride) p)

module _ (info : FrameBufferInfo) (screen : IsScreen info) where
  pub put-Redraws :
      (dy dx c : ℕ) (px : Pixels)
      → dy < info.height
      → dx < info.stride
      → Ends (put info (dy * info.stride + dx) c px) (Redraws info dy dx 1 1 (λ y x. c) px)
  put-Redraws dy dx c px below beside =
      let inside : ltb (dy * info.stride + dx) (pixel_count info) ≡ true =
        ground (arith, screen.fits, row-end info dy below) in
      rw inside (record {
        value = _;
        ends = refl;
        holds = λ y x hy hx. ground (arith, same_place info.stride y x dy dx hx beside);
      })

  -- Rectangles of the same colours, side by side or one below the other.
  pub Redraws-beside :
      (top left height m n : ℕ) (colour : ℕ → ℕ → ℕ) (p q r : Pixels)
      → Redraws info top left height m colour p q
      → Redraws info top (left + m) height n colour q r
      → Redraws info top left height (m + n) colour p r
  Redraws-beside top left height m n colour p q r f g y x hy hx =
      ground (arith, f y x hy hx, g y x hy hx)

  pub Redraws-below :
      (top left m n width : ℕ) (colour : ℕ → ℕ → ℕ) (p q r : Pixels)
      → Redraws info top left m width colour p q
      → Redraws info (top + m) left n width colour q r
      → Redraws info top left (m + n) width colour p r
  Redraws-below top left m n width colour p q r f g y x hy hx =
      ground (arith, f y x hy hx, g y x hy hx)

  -- Nothing, and colours that are the same in the rectangle.
  pub Redraws-no_columns :
      (top left height width : ℕ) (colour : ℕ → ℕ → ℕ) (p : Pixels)
      → width ≡ 0
      → Redraws info top left height width colour p p
  Redraws-no_columns top left height width colour p e y x hy hx = ground arith

  pub Redraws-no_rows :
      (top left height width : ℕ) (colour : ℕ → ℕ → ℕ) (p : Pixels)
      → height ≡ 0
      → Redraws info top left height width colour p p
  Redraws-no_rows top left height width colour p e y x hy hx = ground arith

  pub Redraws-same_colours :
      (top left height width : ℕ) (c d : ℕ → ℕ → ℕ) (p q : Pixels)
      → ((y x : ℕ) → in_rect top left height width y x ≡ true → c y x ≡ d y x)
      → Redraws info top left height width c p q
      → Redraws info top left height width d p q
  Redraws-same_colours top left height width c d p q same f y x hy hx =
      elim (Bool-cases (in_rect top left height width y x)) [
        | inl on ↦ rw on (f y x hy hx ∙ (rw on (same y x on)))
        | inr off ↦ rw off (f y x hy hx ∙ (rw off refl))
      ]

  -- A line and a rectangle of one colour, pixel by pixel.
  pub line-Redraws :
      (n y left c : ℕ) (body : ℕ → Pixels → Run Pixels) (px : Pixels)
      → ((i : ℕ) (p : Pixels)
          → i < n
          → Ends (body i p) (Redraws info y (left + i) 1 1 (λ _ _. c) p))
      → Ends (for_range n 0 body px) (Redraws info y left 1 n (λ _ _. c) px)
  line-Redraws n y left c body px each =
      for_range-carries (λ k q. Redraws info y left 1 k (λ _ _. c) px q) n 0 n body px (omega arith)
        (Redraws-no_columns y left 1 0 (λ _ _. c) px refl)
        (λ i p h before.
          let dot = each i p h in
          let wide : i + 1 ≡ suc i = omega arith in
          record {
            value = dot.value;
            ends = dot.ends;
            holds =
                subst (λ (k : ℕ). Redraws info y left 1 k (λ _ _. c) px dot.value) wide
                  (Redraws-beside y left 1 i 1 (λ _ _. c) px p dot.value before dot.holds);
          })

  pub lines-Redraws :
      (n top left width : ℕ) (colour : ℕ → ℕ → ℕ) (body : ℕ → Pixels → Run Pixels) (px : Pixels)
      → ((i : ℕ) (p : Pixels)
          → i < n
          → Ends (body i p) (Redraws info (top + i) left 1 width colour p))
      → Ends (for_range n 0 body px) (Redraws info top left n width colour px)
  lines-Redraws n top left width colour body px each =
      for_range-carries (λ k q. Redraws info top left k width colour px q) n 0 n body px
        (omega arith) (Redraws-no_rows top left 0 width colour px refl)
        (λ i p h before.
          let line = each i p h in
          let tall : i + 1 ≡ suc i = omega arith in
          record {
            value = line.value;
            ends = line.ends;
            holds =
                subst (λ (k : ℕ). Redraws info top left k width colour px line.value) tall
                  (Redraws-below top left i 1 width colour px p line.value before line.holds);
          })
