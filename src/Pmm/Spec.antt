-- ===== src/Pmm/Spec.antt =====
-- What `KernelFrameAllocator` promises, with no bitmap: a set of free frames below a bound, from
-- which the lowest is taken.
use cat.Common.{ℕ, zero, suc, ◌+◌, ◌*◌, ◌≤◌, ◌<◌, ◌≡◌, refl, arith, Bool, true, false, not}
use cat.Common.{◌&&◌, ◌==◌, if◌then◌else◌, Option, none, some, Bool-cases, ◌⊎◌, ==→eq, inl, inr}
use cat.Pmm.{page_size}

unfoldable pub first_free : (ℕ → Bool) → ℕ → ℕ → Option ℕ
first_free free zero i = none
first_free free (suc rounds) i = if free i then some i else first_free free rounds (i + 1)

abbrev pub take_frame : (ℕ → Bool) → Option ℕ → Option ℕ × (ℕ → Bool)
take_frame free none = (none, free)
take_frame free (some f) = (some (f * page_size), λ g. free g && not (g == f))

unfoldable pub allocate : ℕ → (ℕ → Bool) → Option ℕ × (ℕ → Bool)
unfolding first_free
allocate total free = take_frame free (first_free free total 0)

pub first_free-none :
    (free : ℕ → Bool) (n i : ℕ)
    → ((g : ℕ) → i ≤ g → g < i + n → free g ≡ false)
    → first_free free n i ≡ none
unfolding first_free
first_free-none free zero i h = refl
first_free-none free (suc n) i h =
    rw (h i (omega arith) (omega arith))
      (first_free-none free n (i + 1) (λ g p q. h g (omega arith) (omega arith)))

pub first_free-some :
    (free : ℕ → Bool) (n i f : ℕ)
    → i ≤ f
    → f < i + n
    → free f ≡ true
    → ((g : ℕ) → i ≤ g → g < f → free g ≡ false)
    → first_free free n i ≡ some f
unfolding first_free
first_free-some free zero i f p q e h = absurd (omega arith)
first_free-some free (suc n) i f p q e h = elim (Bool-cases (f == i)) [
  | inl same ↦ rw (← ==→eq f i same, e) refl
  | inr other ↦ rw (h i (omega arith) (ground arith)) (
      first_free-some free n (i + 1) f (ground arith) (omega arith) e
        (λ g a b. h g (omega arith) b))
]

from_next :
    (free : ℕ → Bool) (i : ℕ)
    → free i ≡ false
    → (g : ℕ) → i ≤ g
    → (i + 1 ≤ g → free g ≡ false)
    → free g ≡ false
from_next free i taken g p later = elim (Bool-cases (g == i)) [
  | inl same ↦ rw (==→eq g i same) taken
  | inr other ↦ later (ground arith)
]

-- Both outcomes of the search, each with what it says of the frames passed over.
pub first_free-cases :
    (free : ℕ → Bool) (n i : ℕ)
    → ((first_free free n i ≡ none) × ((g : ℕ) → i ≤ g → g < i + n → free g ≡ false))
      ⊎ ((f : ℕ) × (first_free free n i ≡ some f)
          × (i ≤ f)
          × (f < i + n)
          × (free f ≡ true)
          × ((g : ℕ) → i ≤ g → g < f → free g ≡ false))
unfolding first_free
first_free-cases free zero i = inl (refl, λ g p q. absurd (omega arith))
first_free-cases free (suc n) i = elim (Bool-cases (free i)) [
  | inl here ↦ inr (i, rw here refl, omega arith, omega arith, here, λ g p q. absurd (omega arith))
  | inr taken ↦ elim (first_free-cases free n (i + 1)) [
    | inl (e, h) ↦ inl (rw taken e, λ g p q. from_next free i taken g p (λ r. h g r (omega arith)))
    | inr (f, e, lo, hi, fr, h) ↦ inr (
      f,
      rw taken e,
      omega arith,
      omega arith,
      fr,
      λ g p q. from_next free i taken g p (λ r. h g r q),
    )
  ]
]
