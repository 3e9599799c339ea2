-- ===== src/Helpers/Laws.antt =====
-- shared/src/helpers.rs: what `align_up` and `is_canonical` compute.
use cat.Common.{ℕ, ◌+◌, ◌-◌, ◌*◌, ◌/◌, ◌%◌, ◌^◌, ◌≤◌, ◌<◌, ◌≡◌, u64}
use cat.Common.{ltb, leb, bit_and-high, bit_and-low, arith, ◌||◌, two_pow-lt}
use native.Mathlib.Nat.{one-le-pow, mod-add-div, mod-lt, mul-mod_left}
use cat.Helpers.{is_canonical, align_up}

-- The least multiple of `align` that is not below `x`.
abbrev pub IsNextMultiple : ℕ → ℕ → ℕ → Type 0
IsNextMultiple align x y = (y % align ≡ 0) × (x ≤ y) × (y < x + align)

-- For an alignment 2^k, with k below 64, and an address that lies 2^k below 2^64 at least, align_up
-- gives the least multiple of the alignment that is not below the address.
pub align_up-IsNextMultiple :
    (k x : ℕ) → k < 64 → x + 2 ^ k ≤ 2 ^ 64 → IsNextMultiple (2 ^ k) x (align_up x (2 ^ k))
unfolding align_up
align_up-IsNextMultiple k x hk hx =
    let wide = two_pow-lt k 64 hk in
    let pos = one-le-pow k 2 (omega arith) in
    let last : u64 (u64 (x + 2 ^ k) + 2 ^ 64 - 1) ≡ x + 2 ^ k - 1 = omega arith in
    let mask : u64 (2 ^ k + 2 ^ 64 - 1) ≡ 2 ^ k - 1 = omega arith in
    let down = bit_and-high k (x + 2 ^ k - 1) (omega arith) (omega arith) in
    let value : align_up x (2 ^ k) ≡ (x + 2 ^ k - 1) / 2 ^ k * 2 ^ k = rw (last, mask) down in
    let split = mod-add-div (x + 2 ^ k - 1) (2 ^ k) in
    let small = mod-lt (x + 2 ^ k - 1) pos in
    rw value (mul-mod_left ((x + 2 ^ k - 1) / 2 ^ k) (2 ^ k), omega arith, omega arith)

-- On an address of 64 bits, is_canonical tells whether it lies in the lower or the upper 2^47 bytes.
pub is_canonical_lem :
    (addr : ℕ)
    → addr < 2 ^ 64
    → is_canonical addr ≡ (ltb addr (2 ^ 47) || leb (2 ^ 64 - 2 ^ 47) addr)
unfolding is_canonical
is_canonical_lem addr h = rw (bit_and-low 1 (addr / 2 ^ 47)) (ground arith)
