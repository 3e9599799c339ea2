-- ===== src/Pmm/Allocator/Count.antt =====
-- How many frames below a bound are free.
use cat.Common.{ℕ, zero, suc, ◌+◌, ◌≤◌, ◌<◌, ◌≡◌, refl, ap, arith, Bool, true, false, not, ◌&&◌}
use cat.Common.{◌==◌, ==→eq, if◌then◌else◌, Bool-cases, inl, inr}

abbrev pub count_free : (ℕ → Bool) → ℕ → ℕ
count_free free zero = 0
count_free free (suc n) = (if free n then 1 else 0) + count_free free n

pub count_free-none :
    (free : ℕ → Bool) (n : ℕ) → ((g : ℕ) → g < n → free g ≡ false) → count_free free n ≡ 0
count_free-none free zero h = refl
count_free-none free (suc n) h =
    let rest = count_free-none free n (λ g k. h g (omega arith)) in
    ground (arith, h n (omega arith), rest)

pub count_free-same :
    (free other : ℕ → Bool) (n : ℕ)
    → ((g : ℕ) → g < n → other g ≡ free g)
    → count_free other n ≡ count_free free n
count_free-same free other zero h = refl
count_free-same free other (suc n) h = rw (h n (omega arith)) (
    ap (λ (c : ℕ). (if free n then 1 else 0) + c)
      (count_free-same free other n (λ g k. h g (omega arith))))

-- One frame is one less, at most.
pub count_free-without :
    (free : ℕ → Bool) (f n : ℕ)
    → count_free free n ≤ suc (count_free (λ g. free g && not (g == f)) n)
count_free-without free f zero = omega arith
count_free-without free f (suc n) = elim (Bool-cases (n == f)) [
  | inl here ↦
      let rest =
        count_free-same free (λ g. free g && not (g == f)) n
          (λ g k. kept (free g) (g == f) (ground (arith, ==→eq n f here))) in
      ground (arith, rest)
  | inr other ↦ ground (arith, count_free-without free f n)
]
  where
    kept : (b c : Bool) → c ≡ false → (b && not c) ≡ b
    kept true c e = rw e refl
    kept false c e = refl
