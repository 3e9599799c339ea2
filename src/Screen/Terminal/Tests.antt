-- ===== src/Screen/Terminal/Tests.antt =====
-- kernel/src/screen.rs: a terminal of two rows and two columns.
use cat.Common.{
  ℕ, ◌≡◌, refl, ◌∙◌, ap, sym, arith, List, [], ◌∷◌, Option, none, some, Ends, length, ◌>>=◌,
}
use cat.Common.{Bool-cases, inl, inr, ◌==◌}
use cat.Screen.{clear, convert_color, write_str}
use cat.Screen.Sample.{font, writer, writer-IsVisible}
use cat.Screen.Terminal.{Terminal, empty_terminal, type_text}
use cat.Screen.Terminal.Shown.{IsTerminal, Shown, rows_of, cols_of, has_glyph}
use cat.Screen.Terminal.Refine.{write_str-clear-Shown}

abbrev typed : Terminal
typed = type_text 2 2 (has_glyph font) (65 ∷ 65 ∷ 65 ∷ 10 ∷ 65 ∷ []) empty_terminal

-- The first row has scrolled away, the second is the first.
text_typed :
    typed.cells 0 0 ∷ typed.cells 0 1 ∷ typed.cells 1 0 ∷ some typed.row ∷ some typed.col ∷ []
    ≡ some 65 ∷ none ∷ some 65 ∷ some 1 ∷ some 1 ∷ []
unfolding type_text
text_typed = refl

writer-IsTerminal : IsTerminal writer
writer-IsTerminal = record {
  screen = writer-IsVisible.screen;
  scaled = omega arith;
  tall = omega arith;
  broad = omega arith;
}

abbrev size_of : Option (List ℕ) → ℕ
size_of none = 8
size_of (some g) = length g

glyph_size : (c : ℕ) (g : List ℕ) → font c ≡ some g → length g ≡ 8
glyph_size c g e =
    sym (ap size_of e)
    ∙ elim (Bool-cases (c == 65)) [ inl here ↦ rw here refl | inr other ↦ rw other refl ]

write_str-clear-Shown_example :
    Ends (clear writer 65536 >>= λ v. write_str font v (65 ∷ 65 ∷ 65 ∷ 10 ∷ 65 ∷ [])) (
      Shown font writer (
        type_text
          (rows_of writer)
          (cols_of writer)
          (has_glyph font)
          (65 ∷ 65 ∷ 65 ∷ 10 ∷ 65 ∷ [])
          empty_terminal))
unfolding convert_color
write_str-clear-Shown_example =
    write_str-clear-Shown font writer writer-IsTerminal 65536 (65 ∷ 65 ∷ 65 ∷ 10 ∷ 65 ∷ []) refl
      glyph_size
