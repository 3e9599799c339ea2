-- ===== src/Interrupts/Vectors.antt =====
-- kernel/src/interrupts.rs: the table of handlers and the set-up of the two interrupt controllers,
-- which the pic8259 crate drives, as a parameter.
mod Tests
use cat.Common.{
  Bool, true, false, ◌&&◌, ◌||◌, ==→eq, ℕ, zero, suc, ◌+◌, ◌-◌, ◌^◌, ◌<◌, ◌≡◌, ◌≢◌, refl, ◌∙◌, sym,
  ap, arith, ◌==◌, Option, none, some, bit,
}
use cat.Common.{Bool-cases, inl, inr, if◌then◌else◌, ltb}
use cat.Interrupts.Timer.{InterruptIndex, timer, keyboard, as_u8, pic_1_offset, pic_2_offset}
use cat.Interrupts.Exceptions.{Exception, breakpoint, double_fault, page_fault, general_protection}

pub data Handler : Type 0 where
  on_exception : Exception → Handler
  on_interrupt : InterruptIndex → Handler

pub record Gate : Type 0 where
  pub handler : Handler
  pub stack_index : Option ℕ

-- `InterruptDescriptorTable`: what it has for a vector.
abbrev pub Table : Type 0
Table = ℕ → Option Gate

abbrev pub double_fault_ist_index : ℕ
double_fault_ist_index = 0

pub set_handler : ℕ → Handler → Option ℕ → Table → Table
set_handler vector handler stack_index idt n =
    if n == vector then some (record { handler = handler; stack_index = stack_index }) else idt n

-- The processor's vectors of the four exceptions are 3, 8, 14 and 13.
pub interrupt_table : Table
interrupt_table = set_handler (as_u8 keyboard) (on_interrupt keyboard) none (
    set_handler (as_u8 timer) (on_interrupt timer) none (
      set_handler 13 (on_exception general_protection) none (
        set_handler 14 (on_exception page_fault) none (
          set_handler 8 (on_exception double_fault) (some double_fault_ist_index)
            (set_handler 3 (on_exception breakpoint) none (λ n. none))))))

-- `ChainedPics`: `new` with the two offsets, `initialize` and `write_masks`.
pub record Pics : Type 1 where
  pub Chained : Type 0
  pub new : ℕ → ℕ → Chained
  pub initialize : Chained → Chained
  pub write_masks : ℕ → ℕ → Chained → Chained

module _ (pics : Pics) where
  -- `PICS`, and what `LockedPics::initialize` makes of it.
  pub locked_pics : pics.Chained
  locked_pics = pics.new pic_1_offset pic_2_offset

  pub initialize_pics : pics.Chained → pics.Chained
  initialize_pics inner = pics.write_masks 0xFC 0xFF (pics.initialize inner)

  -- What the crate documents: `initialize` programs the controllers with the offsets given to `new`,
  -- which only keeps them. From then on a line, by its number, comes as the offset of its controller
  -- with its place there. It is let through when its bit of the mask is clear.
  pub record IsDriver : Type 0 where
    pub vector : pics.Chained → ℕ → ℕ
    pub is_masked : pics.Chained → ℕ → ℕ
    pub offsets :
        (a b line : ℕ)
        → vector (pics.initialize (pics.new a b)) line
          ≡ (if ltb line 8 then a + line else b + (line - 8))
    pub stays :
        (a b : ℕ) (c : pics.Chained) (line : ℕ)
        → vector (pics.write_masks a b c) line ≡ vector c line
    pub masks :
        (a b : ℕ) (c : pics.Chained) (line : ℕ)
        → is_masked (pics.write_masks a b c) line
          ≡ (if ltb line 8 then bit a line else bit b (line - 8))

-- The handler of a vector is the one of a device, and acknowledges this vector.
pub record Answers (vector : ℕ) : Type 0 where
  pub device : InterruptIndex
  pub gate :
      interrupt_table vector ≡ some (record { handler = on_interrupt device; stack_index = none })
  pub acknowledges : as_u8 device ≡ vector

-- The mask of a line, and the vector of a line.
abbrev mask_of : ℕ → ℕ
mask_of line = if ltb line 8 then bit 0xFC line else bit 0xFF (line - 8)

abbrev vector_of : ℕ → ℕ
vector_of line = if ltb line 8 then pic_1_offset + line else pic_2_offset + (line - 8)

abbrev all_below : ℕ → (ℕ → Bool) → Bool
all_below zero p = true
all_below (suc n) p = p n && all_below n p

all_below-true : (n : ℕ) (p : ℕ → Bool) → all_below n p ≡ true → (i : ℕ) → i < n → p i ≡ true
all_below-true zero p e i h = absurd (omega arith)
all_below-true (suc n) p e i h = elim (Bool-cases (i == n)) [
  | inl here ↦ ap p (==→eq i n here) ∙ first (p n) (all_below n p) e
  | inr before ↦ all_below-true n p (second (p n) (all_below n p) e) i (ground arith)
]
  where
    first : (b c : Bool) → (b && c) ≡ true → b ≡ true
    first true c e = refl
    first false c e = e

    second : (b c : Bool) → (b && c) ≡ true → c ≡ true
    second true c e = e
    second false c e = absurd cc

-- A line but the first two has its bit of the mask set.
abbrev masked_or_used : ℕ → Bool
masked_or_used line = (mask_of line == 1) || ((line == 0) || (line == 1))

only_used :
    (m line : ℕ)
    → ((m == 1) || ((line == 0) || (line == 1))) ≡ true
    → (line == 0) ≡ false
    → (line == 1) ≡ false
    → m ≢ 0
only_used m line e k l = ground arith

line-Answers : (line : ℕ) → line < 16 → mask_of line ≡ 0 → Answers (vector_of line)
unfolding interrupt_table set_handler as_u8
line-Answers line h e = elim (Bool-cases (line == 0)) [
  | inl none_before ↦
      rw (==→eq line 0 none_before) (record { device = timer; gate = refl; acknowledges = refl })
  | inr later ↦ elim (Bool-cases (line == 1)) [
    | inl second ↦
        rw (==→eq line 1 second) (record { device = keyboard; gate = refl; acknowledges = refl })
    | inr other ↦
        absurd (
          only_used (mask_of line) line (all_below-true 16 masked_or_used refl line h) later other
            e)
  ]
]

module _ (pics : Pics) (driver : IsDriver pics) where
  -- With the controllers as the crate documents them, after LockedPics::initialize each of the 16
  -- lines that is let through has the handler of a device in the table, under the number with which
  -- that handler acknowledges it.
  pub initialize_pics-Answers :
      (line : ℕ)
      → line < 16
      → driver.is_masked (initialize_pics pics (locked_pics pics)) line ≡ 0
      → Answers (driver.vector (initialize_pics pics (locked_pics pics)) line)
  unfolding initialize_pics locked_pics
  initialize_pics-Answers line h is_open =
      let chip = pics.new pic_1_offset pic_2_offset in
      let place =
        driver.stays 0xFC 0xFF (pics.initialize chip) line
        ∙ driver.offsets pic_1_offset pic_2_offset line in
      let mask = sym (driver.masks 0xFC 0xFF (pics.initialize chip) line) ∙ is_open in
      rw place (line-Answers line h mask)
