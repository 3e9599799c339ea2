-- ===== src/Helpers.antt =====
-- shared/src/helpers.rs: `is_canonical` and `align_up`.
pub mod Laws
mod Tests
use cat.Common.{ℕ, ◌+◌, ◌-◌, ◌/◌, ◌^◌, bit_and, Bool, u64, not64, ◌==◌, if◌then◌else◌}

pub is_canonical : ℕ → Bool
is_canonical addr =
    let sign = bit_and (addr / 2 ^ 47) 1 in
    if sign == 0 then addr / 2 ^ 48 == 0 else addr / 2 ^ 48 == 65535

pub align_up : ℕ → ℕ → ℕ
align_up x align = bit_and (u64 (u64 (x + align) + 2 ^ 64 - 1)) (not64 (u64 (align + 2 ^ 64 - 1)))
