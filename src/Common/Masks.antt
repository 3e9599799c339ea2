-- ===== src/Common/Masks.antt =====
-- Masks of low and of high bits as arithmetic, at every width.
use Prim.Native.Nat.{ℕ, zero, suc, ◌+◌, ◌-◌, ◌*◌, ◌/◌, ◌%◌, ◌^◌, ◌≤◌, ◌<◌, bit_and}
use mathlib.Core.Path.{◌≡◌, refl, ap, ◌∙◌, sym}
use native.Mathlib.Omega.{arith}
use native.Mathlib.Nat.{
  pow-succ', one-le-pow, div-add-mod', mod-lt, div-div-eq-div-mul, mod-eq_of_lt, div-lt_iff_lt-mul,
}
use cat.Common.Words.{bit_and_step, not64}

pub bit_and-zero : (n a : ℕ) → a ≤ n → bit_and a 0 ≡ 0
bit_and-zero n zero h = refl
bit_and-zero zero (suc a) h = absurd (omega arith)
bit_and-zero (suc n) (suc a) h =
    omega (arith, bit_and_step (suc a) 0, bit_and-zero n (suc a / 2) (omega arith))

twice : (q k : ℕ) → q * 2 ^ suc k ≡ 2 * (q * 2 ^ k)
twice q k = omega (arith, ap (λ (t : ℕ). q * t) (pow-succ' 2 k))

bit_and-low_digits : (k q r : ℕ) → r < 2 ^ k → bit_and (q * 2 ^ k + r) (2 ^ k - 1) ≡ r
bit_and-low_digits zero q r h =
    omega (arith, bit_and-zero (q * 2 ^ 0 + r) (q * 2 ^ 0 + r) (omega arith))
bit_and-low_digits (suc k) q r h =
    let half : (2 ^ suc k - 1) / 2 ≡ 2 ^ k - 1 = omega (arith, pow-succ' 2 k, one-le-pow k 2) in
    let digits : (q * 2 ^ suc k + r) / 2 ≡ q * 2 ^ k + r / 2 = omega (arith, twice q k) in
    let rest : bit_and ((q * 2 ^ suc k + r) / 2) ((2 ^ suc k - 1) / 2) ≡ r / 2 =
      rw (half, digits) (bit_and-low_digits k q (r / 2) (omega (arith, pow-succ' 2 k))) in
    omega (
      arith,
      bit_and_step (q * 2 ^ suc k + r) (2 ^ suc k - 1),
      rest,
      twice q k,
      pow-succ' 2 k,
      one-le-pow k 2 (omega arith),
    )

-- `a & (2^k - 1)` is a remainder.
pub bit_and-low : (k a : ℕ) → bit_and a (2 ^ k - 1) ≡ a % 2 ^ k
bit_and-low k a =
    let pos = one-le-pow k 2 (omega arith) in
    let split : a / 2 ^ k * 2 ^ k + a % 2 ^ k ≡ a = div-add-mod' a (2 ^ k) in
    rw split at (bit_and-low_digits k (a / 2 ^ k) (a % 2 ^ k) (mod-lt a pos))

-- A mask with `k` zeros below is applied to what lies above them.
pub bit_and-shifted : (k a m : ℕ) → bit_and a (m * 2 ^ k) ≡ bit_and (a / 2 ^ k) m * 2 ^ k
bit_and-shifted zero a m =
    let e : m * 2 ^ 0 ≡ m = omega arith in
    let d : a / 2 ^ 0 ≡ a = omega arith in rw (e, d) (omega arith)
bit_and-shifted (suc k) a m =
    let half : m * 2 ^ suc k / 2 ≡ m * 2 ^ k = omega (arith, twice m k) in
    let deeper : a / 2 / 2 ^ k ≡ a / 2 ^ suc k =
      div-div-eq-div-mul a 2 (2 ^ k) ∙ ap (λ (t : ℕ). a / t) (sym (pow-succ' 2 k)) in
    let rest : bit_and (a / 2) (m * 2 ^ suc k / 2) ≡ bit_and (a / 2 ^ suc k) m * 2 ^ k =
      rw (half, ← deeper) (bit_and-shifted k (a / 2) m) in
    omega
      (arith, bit_and_step a (m * 2 ^ suc k), rest, twice m k, twice (bit_and (a / 2 ^ suc k) m) k)

pub two_pow-add : (i j : ℕ) → 2 ^ (i + j) ≡ 2 ^ i * 2 ^ j
two_pow-add zero j = let e : 0 + j ≡ j = omega arith in rw e (omega arith)
two_pow-add (suc i) j =
    let e : suc i + j ≡ suc (i + j) = omega arith in
    rw e (
      omega
        (arith, pow-succ' 2 (i + j), ap (λ (t : ℕ). t * 2 ^ j) (pow-succ' 2 i), two_pow-add i j))

pred-mul : (a b : ℕ) → 1 ≤ a → (a - 1) * b + b ≡ a * b
pred-mul zero b h = absurd (omega arith)
pred-mul (suc a) b h = let e : suc a - 1 ≡ a = omega arith in rw e (omega arith)

-- `x & !(2^k - 1)` clears the low bits of a 64-bit word.
pub bit_and-high :
    (k x : ℕ) → k ≤ 64 → x < 2 ^ 64 → bit_and x (not64 (2 ^ k - 1)) ≡ x / 2 ^ k * 2 ^ k
bit_and-high k x hk hx =
    let pos = one-le-pow k 2 (omega arith) in
    let all : 64 ≡ 64 - k + k = omega arith in
    let width : 2 ^ 64 ≡ 2 ^ (64 - k) * 2 ^ k =
      ap (λ (t : ℕ). 2 ^ t) all ∙ two_pow-add (64 - k) k in
    let mask : not64 (2 ^ k - 1) ≡ (2 ^ (64 - k) - 1) * 2 ^ k =
      omega (arith, width, pred-mul (2 ^ (64 - k)) (2 ^ k) (one-le-pow (64 - k) 2 (omega arith))) in
    let small : x / 2 ^ k < 2 ^ (64 - k) = (div-lt_iff_lt-mul pos).1 (omega (arith, width)) in
    rw
      (
        mask,
        bit_and-shifted k x (2 ^ (64 - k) - 1),
        bit_and-low (64 - k) (x / 2 ^ k),
        mod-eq_of_lt small,
      )
      refl
