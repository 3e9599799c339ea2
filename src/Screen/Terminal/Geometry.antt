-- ===== src/Screen/Terminal/Geometry.antt =====
-- kernel/src/screen.rs: which pixels belong to a cell of the terminal.
use cat.Common.{ℕ, suc, ◌+◌, ◌*◌, ◌/◌, ◌≤◌, ◌<◌, ◌≡◌, arith, ◌&&◌}
use cat.Common.{Bool-cases, inl, inr, ltb, leb, ◌==◌}
use native.Mathlib.Nat.{mul-le-mul_right, div-mul-le_self, lt-div-mul-add}

module _ (side : ℕ) where
  -- Cells from the first, in one direction: those before a cell, and those behind it.
  pub before_cell : (a b x : ℕ) → x < side → leb (b * side) (a * side + x) ≡ leb b a
  before_cell a b x h = elim (Bool-cases (leb b a)) [
    | inl first ↦
        let m : b * side ≤ a * side = mul-le-mul_right side (ground arith) in
        rw first (ground (arith, m))
    | inr later ↦
        let m : suc a * side ≤ b * side = mul-le-mul_right side (ground arith) in
        rw later (ground (arith, m))
  ]

  pub in_cell :
      (a b x : ℕ)
      → x < side
      → (leb (b * side) (a * side + x) && ltb (a * side + x) (b * side + side)) ≡ (a == b)
  in_cell a b x h =
      let low = before_cell a b x h in
      let high = before_cell a (suc b) x h in ground (arith, low, high)

  pub last_cell :
      (n size : ℕ) → n ≡ size / side → 1 ≤ side → (n * side ≤ size) × (size < n * side + side)
  last_cell n size e h = rw e (div-mul-le_self size side, lt-div-mul-add h)
