-- ===== src/Screen/Restyle.antt =====
-- kernel/src/screen.rs: a style set between `clear` and the text.
use cat.Common.{◌≢◌, inl, inr}
use cat.Common.{ℕ, ◌≤◌, ◌≡◌, refl, ◌∙◌, ap, sym, arith, List, Option, some, length}
use cat.Common.{Run, done, panic, fault, ◌>>=◌, Ends}
use mathlib.Core.Path.{subst}
use cat.Screen.{FrameBufferWriter, Pixels, clear, convert_color, write_str}
use cat.Screen.{set_text_color, set_background_color, set_scale, reset_style}
use cat.Screen.{FrameBufferInfo, rgb, init}
use cat.Screen.Bounds.{IsScreen}
use cat.Screen.Clear.{clear-Cleared, format_cases}
use cat.Screen.Cursor.{IsVisible}
use cat.Screen.Terminal.{Terminal, empty_terminal, type_text}
use cat.Screen.Terminal.Shown.{IsTerminal, Shown, rows_of, cols_of, has_glyph}
use cat.Screen.Terminal.Refine.{clear-Shown, write_str-Shown}

-- The scale and the colour of the text, set anew.
abbrev pub restyled : ℕ → ℕ → FrameBufferWriter → FrameBufferWriter
restyled scale color w = set_text_color (set_scale w scale) color

then_done :
    (r : Run Pixels) (f : Pixels → FrameBufferWriter) (g : FrameBufferWriter → FrameBufferWriter)
    → (r >>= λ px. done (g (f px))) ≡ ((r >>= λ px. done (f px)) >>= λ v. done (g v))
then_done (done px) f g = refl
then_done panic f g = refl
then_done fault f g = refl

-- Clearing does not look at them.
clear-restyled :
    (w : FrameBufferWriter) (scale text color : ℕ)
    → clear (restyled scale text w) color ≡ (clear w color >>= λ v. done (restyled scale text v))
unfolding clear set_text_color set_scale
clear-restyled w scale text color =
    then_done _ (λ px. record w { pixels = px; x_pos = 0; y_pos = 0 }) (restyled scale text)

abbrev value_or {ℓ} : {A : Type ℓ} → A → Run A → A
value_or a (done b) = b
value_or a _ = a

holds_of : {A : Type 0} {P : A → Type 0} (r : Run A) (x : A) → Ends r P → r ≡ done x → P x
holds_of {P = P} r x e result = subst P (ap (value_or x) (sym e.ends ∙ result)) e.holds

-- The screen is cleared, restyled and written on.
pub record Writes (font : ℕ → Option (List ℕ)) (w : FrameBufferWriter) (scale text color : ℕ)
    (cs : List ℕ) : Type 0 where
  pub cleared : FrameBufferWriter
  pub clears : clear w color ≡ done cleared
  pub written : FrameBufferWriter
  pub writes : write_str font (restyled scale text cleared) cs ≡ done written
  pub shown :
      let b = restyled scale text w in
      Shown font b (type_text (rows_of b) (cols_of b) (has_glyph font) cs empty_terminal) written

pub clear-restyled-Writes :
    (font : ℕ → Option (List ℕ)) (w : FrameBufferWriter) (scale text color : ℕ) (cs : List ℕ)
    → IsTerminal (restyled scale text w)
    → convert_color w.info color ≡ w.bg_color
    → ((c : ℕ) (g : List ℕ) → font c ≡ some g → length g ≡ 8)
    → Writes font w scale text color cs
unfolding set_text_color set_scale
clear-restyled-Writes font w scale text color cs mode same size =
    let b = restyled scale text w in
    let plain = clear-Cleared w mode.screen color in
    let styled : clear b color ≡ done (restyled scale text plain.value) =
      clear-restyled w scale text color ∙ rw plain.ends refl in
    let empty =
      holds_of _ (restyled scale text plain.value) (clear-Shown font b mode color same) styled in
    let text_on =
      write_str-Shown font b mode cs empty_terminal (restyled scale text plain.value) size empty in
    record {
      cleared = plain.value;
      clears = plain.ends;
      written = text_on.value;
      writes = text_on.ends;
      shown = text_on.holds;
    }

-- In the smaller scale of the default style, the cursor stays visible.
pub reset_style-IsVisible :
    (font : ℕ → Option (List ℕ)) (w v : FrameBufferWriter) (text : ℕ) (t : Terminal)
    → IsTerminal (restyled 3 text w)
    → Shown font (restyled 3 text w) t v
    → IsVisible (reset_style v)
unfolding reset_style set_background_color set_text_color set_scale
reset_style-IsVisible font w v text t mode shown =
    let row = shown.in_row in
    let col = shown.in_col in
    let tall = mode.tall in
    let broad = mode.broad in
    subst (λ (u : FrameBufferWriter). IsVisible (reset_style u)) (sym shown.placed)
      (record {
        screen = mode.screen;
        tall = omega arith;
        broad = omega arith;
        x_in = omega arith;
        y_in = omega arith;
      })

-- The style of the first text of `_start`, with the writer that `init` makes.
abbrev pub large_style : FrameBufferInfo → Pixels → FrameBufferWriter
large_style info px = restyled 3 0xFF0000 (init info px)

pub large_style-IsTerminal :
    (info : FrameBufferInfo) (px : Pixels)
    → IsScreen info
    → 24 ≤ info.width
    → 24 ≤ info.height
    → IsTerminal (large_style info px)
unfolding init set_text_color set_scale
large_style-IsTerminal info px screen wide high = record {
  screen = screen;
  scaled = omega arith;
  tall = high;
  broad = wide;
}

-- Where colours stay as they are written, the first background is `0x0000FF`.
pub init-background :
    (info : FrameBufferInfo) (px : Pixels)
    → info.format ≢ rgb
    → convert_color (init info px).info 0x0000FF ≡ (init info px).bg_color
unfolding init convert_color
init-background info px ne = elim (format_cases info.format) [
  | inl e ↦ absurd (ne e)
  | inr (_, inl e) ↦ rw e refl
  | inr (_, inr e) ↦ rw e refl
]
