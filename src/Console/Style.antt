-- ===== src/Console/Style.antt =====
-- kernel/src/screen.rs: the functions that take the lock of the writer; and what `_start` of
-- kernel/src/main.rs shows first.
pub mod Locked
pub mod Welcome
mod Tests
use cat.Common.{ℕ, Option, none, some, List, [], ◌∷◌, done, u8}
use cat.Screen
use cat.Screen.{FrameBufferInfo, FrameBufferWriter, Pixels, write_byte}
use cat.Console.{Crates, Console, Code, Attempt, ended, spins, chain, with_writer, print}

-- "WELCOME TO MY OS\n"
abbrev pub welcome_text : List ℕ
welcome_text =
    87 ∷ 69 ∷ 76 ∷ 67 ∷ 79 ∷ 77 ∷ 69 ∷ 32 ∷ 84 ∷ 79 ∷ 32 ∷ 77 ∷ 89 ∷ 32 ∷ 79 ∷ 83 ∷ 10 ∷ []

module _ (crates : Crates) where
  abbrev pub init_locked :
      FrameBufferInfo → Pixels → Console crates → Option crates.Mutex → Attempt (Console crates)
  init_locked info px c none = spins
  init_locked info px c (some lock) =
      ended (record c { writer_lock = crates.release lock; writer = some (Screen.init info px) })

  -- `px` is what the frame buffer shows.
  pub init : FrameBufferInfo → Pixels → Code crates
  init info px c = init_locked info px c (crates.lock c.writer_lock)

  pub set_text_color : ℕ → Code crates
  set_text_color color = with_writer crates (λ w. done (Screen.set_text_color w color))

  pub set_background_color : ℕ → Code crates
  set_background_color color = with_writer crates (λ w. done (Screen.set_background_color w color))

  pub set_scale : ℕ → Code crates
  set_scale scale = with_writer crates (λ w. done (Screen.set_scale w scale))

  pub clear_screen : ℕ → Code crates
  clear_screen color = with_writer crates (λ w. Screen.clear w color)

  pub reset_style : Code crates
  reset_style = with_writer crates (λ w. done (Screen.reset_style w))

  module _ (font : ℕ → Option (List ℕ)) where
    pub print_char : ℕ → Code crates
    print_char c = with_writer crates (λ w. write_byte font w (u8 c))

    -- The start of `_start`, up to `reset_style`.
    pub welcome : (Code crates → Code crates) → FrameBufferInfo → Pixels → Code crates
    welcome without_interrupts info px c =
        let cleared = chain (init info px c) (clear_screen 0x0000FF) in
        let styled = chain (chain cleared (set_scale 3)) (set_text_color 0xFF0000) in
        let printed = chain styled (print crates font without_interrupts welcome_text) in
        chain printed reset_style
