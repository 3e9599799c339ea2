-- ===== src/Common/Words.antt =====
-- Machine words as native numbers, and the laws of their bits at every width.
use Prim.Native.Nat.{ℕ, zero, suc, ◌+◌, ◌-◌, ◌*◌, ◌/◌, ◌%◌, ◌^◌, ◌≤◌, ◌<◌, min, max}
use Prim.Native.Nat.{bit_and, bit_or, digits, bit_and-bitwise, bit_or-bitwise}
use mathlib.Core.Path.{◌≡◌, refl, ap, ◌∙◌}
use mathlib.Core.Logic.{◌≢◌, inl, inr}
use native.Mathlib.Omega.{arith}
use native.Mathlib.Nat.{le_refl, pow-succ', div-div-eq-div-mul, zero-div, one-le-pow}
use cat.Common.Tests.{◌==◌, if◌then◌else◌, Bool-cases, ==→eq}

abbrev pub u8 : ℕ → ℕ
u8 n = n % 2 ^ 8

abbrev pub u64 : ℕ → ℕ
u64 n = n % 2 ^ 64

-- `!x` on `u64`.
abbrev pub not64 : ℕ → ℕ
not64 x = 2 ^ 64 - 1 - x

-- `div_ceil` of the unsigned integers.
abbrev pub div_ceil : ℕ → ℕ → ℕ
div_ceil a b = (a + b - 1) / b

-- Bit `i` of a word, 0 or 1.
abbrev pub bit : ℕ → ℕ → ℕ
bit x i = x / 2 ^ i % 2

-- The native operations are recursions on digits with fuel. More fuel than is used changes nothing.
abbrev grow : ℕ → ℕ → ℕ
grow zero fuel = fuel
grow (suc d) fuel = suc (grow d fuel)

grow_sum : (d fuel : ℕ) → grow d fuel ≡ d + fuel
grow_sum zero fuel = omega arith
grow_sum (suc d) fuel = omega (arith, grow_sum d fuel)

module _ (end : ℕ → ℕ) (gate : ℕ → ℕ → ℕ) where
  one_more : (fuel x y : ℕ) → x ≤ fuel → digits end gate (suc fuel) x y ≡ digits end gate fuel x y
  one_more zero zero y h = refl
  one_more (suc fuel) zero y h = refl
  one_more zero (suc x) y h = elim h [ ]
  one_more (suc fuel) (suc x) y h =
      ap (λ (t : ℕ). t * 2 + gate (suc x % 2) (y % 2))
        (one_more fuel (suc x / 2) (y / 2) (omega arith))

  many_more :
      (d fuel x y : ℕ) → x ≤ fuel → digits end gate (grow d fuel) x y ≡ digits end gate fuel x y
  many_more zero fuel x y h = refl
  many_more (suc d) fuel x y h =
      one_more (grow d fuel) x y (omega (arith, grow_sum d fuel)) ∙ many_more d fuel x y h

  halved :
      (x y : ℕ)
      → digits end gate x (suc x / 2) (y / 2) ≡ digits end gate (suc x / 2) (suc x / 2) (y / 2)
  halved x y =
      let spare : x ≡ grow (x - suc x / 2) (suc x / 2) =
        omega (arith, grow_sum (x - suc x / 2) (suc x / 2)) in
      let same = many_more (x - suc x / 2) (suc x / 2) (suc x / 2) (y / 2) (le_refl (suc x / 2)) in
      ap (λ (t : ℕ). digits end gate t (suc x / 2) (y / 2)) spare ∙ same

-- The lowest digit of a conjunction and of a disjunction.
pub bit_and_step : (x y : ℕ) → bit_and x y ≡ bit_and (x / 2) (y / 2) * 2 + min (x % 2) (y % 2)
bit_and_step zero y = simp bit_and-bitwise (omega arith)
bit_and_step (suc x) y =
    simp bit_and-bitwise (ap (λ (t : ℕ). t * 2 + min (suc x % 2) (y % 2)) (halved (λ _. 0) min x y))

pub bit_or_step : (x y : ℕ) → bit_or x y ≡ bit_or (x / 2) (y / 2) * 2 + max (x % 2) (y % 2)
bit_or_step zero y = simp bit_or-bitwise (omega arith)
bit_or_step (suc x) y =
    simp bit_or-bitwise (ap (λ (t : ℕ). t * 2 + max (suc x % 2) (y % 2)) (halved (λ t. t) max x y))

pub bit-suc : (x i : ℕ) → bit x (suc i) ≡ bit (x / 2) i
bit-suc x i = rw (pow-succ' 2 i, ← div-div-eq-div-mul x 2 (2 ^ i))

pub zero-bit : (i : ℕ) → bit 0 i ≡ 0
zero-bit i = rw zero-div

pub bit-lt : (x i : ℕ) → bit x i < 2
bit-lt x i = omega arith

pub bit-bit_and : (i a b : ℕ) → bit (bit_and a b) i ≡ min (bit a i) (bit b i)
bit-bit_and zero a b = omega (arith, bit_and_step a b)
bit-bit_and (suc i) a b =
    let halves : bit_and a b / 2 ≡ bit_and (a / 2) (b / 2) = omega (arith, bit_and_step a b) in
    rw (bit-suc (bit_and a b) i, bit-suc a i, bit-suc b i, halves) (bit-bit_and i (a / 2) (b / 2))

pub bit-bit_or : (i a b : ℕ) → bit (bit_or a b) i ≡ max (bit a i) (bit b i)
bit-bit_or zero a b = omega (arith, bit_or_step a b)
bit-bit_or (suc i) a b =
    let halves : bit_or a b / 2 ≡ bit_or (a / 2) (b / 2) = omega (arith, bit_or_step a b) in
    rw (bit-suc (bit_or a b) i, bit-suc a i, bit-suc b i, halves) (bit-bit_or i (a / 2) (b / 2))

pub bit-two_pow : (j i : ℕ) → bit (2 ^ j) i ≡ (if i == j then 1 else 0)
bit-two_pow zero zero = refl
bit-two_pow zero (suc i) = rw (bit-suc 1 i, zero-bit i) (ground arith)
bit-two_pow (suc j) zero = ground (arith, pow-succ' 2 j)
bit-two_pow (suc j) (suc i) =
    let half : 2 ^ suc j / 2 ≡ 2 ^ j = omega (arith, pow-succ' 2 j) in
    rw (bit-suc (2 ^ suc j) i, half) (bit-two_pow j i ∙ ground arith)

pub two_pow-lt : (i w : ℕ) → i < w → 2 ^ i < 2 ^ w
two_pow-lt i zero h = absurd (omega arith)
two_pow-lt zero (suc w) h = omega (arith, pow-succ' 2 w, one-le-pow w 2 (omega arith))
two_pow-lt (suc i) (suc w) h =
    omega (arith, pow-succ' 2 w, pow-succ' 2 i, two_pow-lt i w (omega arith))

-- The bits of the complement at width `w`.
pub bit-complement : (w i x : ℕ) → x < 2 ^ w → i < w → bit (2 ^ w - 1 - x) i + bit x i ≡ 1
bit-complement zero i x fits h = absurd (omega arith)
bit-complement (suc w) zero x fits h = omega (arith, pow-succ' 2 w)
bit-complement (suc w) (suc i) x fits h =
    let half : (2 ^ suc w - 1 - x) / 2 ≡ 2 ^ w - 1 - x / 2 = omega (arith, pow-succ' 2 w) in
    rw (bit-suc (2 ^ suc w - 1 - x) i, bit-suc x i, half)
      (bit-complement w i (x / 2) (omega (arith, pow-succ' 2 w)) (omega arith))

pub bit_or-lt : (w a b : ℕ) → a < 2 ^ w → b < 2 ^ w → bit_or a b < 2 ^ w
bit_or-lt zero a b p q =
    let a0 : a ≡ 0 = omega arith in let b0 : b ≡ 0 = omega arith in rw (a0, b0) (omega arith)
bit_or-lt (suc w) a b p q = omega (
  arith,
  pow-succ' 2 w,
  bit_or_step a b,
  bit_or-lt w (a / 2) (b / 2) (omega (arith, pow-succ' 2 w)) (omega (arith, pow-succ' 2 w)),
)

pub bit_and-lt : (w a b : ℕ) → a < 2 ^ w → bit_and a b < 2 ^ w
bit_and-lt zero a b p = let a0 : a ≡ 0 = omega arith in rw (a0, bit_and-bitwise 0 b) (omega arith)
bit_and-lt (suc w) a b p = omega (
  arith,
  pow-succ' 2 w,
  bit_and_step a b,
  bit_and-lt w (a / 2) (b / 2) (omega (arith, pow-succ' 2 w)),
)

-- `trailing_zeros` of a word of `w` bits: the index of its lowest set bit, or `w`.
unfoldable pub trailing_zeros : ℕ → ℕ → ℕ
trailing_zeros zero x = 0
trailing_zeros (suc w) x = if x % 2 == 1 then 0 else 1 + trailing_zeros w (x / 2)

pub trailing_zeros-lt : (w x : ℕ) → x ≢ 0 → x < 2 ^ w → trailing_zeros w x < w
unfolding trailing_zeros
trailing_zeros-lt zero x ne h = absurd (ne (omega arith))
trailing_zeros-lt (suc w) x ne h = ground (arith, pow-succ' 2 w, trailing_zeros-lt w (x / 2))

pub bit-trailing_zeros : (w x : ℕ) → x ≢ 0 → x < 2 ^ w → bit x (trailing_zeros w x) ≡ 1
unfolding trailing_zeros
bit-trailing_zeros zero x ne h = absurd (ne (omega arith))
bit-trailing_zeros (suc w) x ne h = elim (Bool-cases (x % 2 == 1)) [
  | inl odd ↦ rw odd (omega (arith, ==→eq _ _ odd))
  | inr even ↦
      let next : trailing_zeros (suc w) x ≡ suc (trailing_zeros w (x / 2)) = ground arith in
      rw (next, bit-suc x (trailing_zeros w (x / 2)))
        (bit-trailing_zeros w (x / 2) (λ e. ne (ground arith)) (omega (arith, pow-succ' 2 w)))
]

pub bit-below-trailing_zeros : (w x j : ℕ) → j < trailing_zeros w x → bit x j ≡ 0
unfolding trailing_zeros
bit-below-trailing_zeros zero x j h = absurd (omega arith)
bit-below-trailing_zeros (suc w) x zero h = ground arith
bit-below-trailing_zeros (suc w) x (suc j) h =
    rw (bit-suc x j) (bit-below-trailing_zeros w (x / 2) j (ground arith))
