-- ===== src/Pmm/Sequence.antt =====
-- kernel/src/pmm.rs: many calls of `allocate_frame_internal`, one after the other.
use cat.Common.{ℕ, zero, suc, ◌+◌, ◌*◌, ◌≤◌, ◌<◌, ◌≡◌, refl, ap, arith, Bool, true, false}
use cat.Common.{Option, none, some, List, [], ◌∷◌, Run, done, ◌>>=◌}
use cat.Common.{inl, inr, ◌∙◌}
use native.Mathlib.Decide.{dec_lt}
use cat.Pmm.{BitmapPmm, page_size, allocate_frame_internal}
use cat.Pmm.Bits.{is_free}
use cat.Pmm.Spec
use cat.Pmm.Alloc.{IsValid, Allocates, allocate_frame_internal-Allocates}

-- What `n` calls return, in order.
unfoldable pub allocate_frames : ℕ → BitmapPmm → Run (List (Option ℕ))
unfolding allocate_frame_internal
allocate_frames zero p = done []
allocate_frames (suc n) p =
    allocate_frame_internal p >>= λ (r, p'). (allocate_frames n p' >>= λ rs. done (r ∷ rs))

abbrev pub AllNone : List (Option ℕ) → Type 0
AllNone [] = Unit
AllNone (none ∷ rs) = AllNone rs
AllNone (some a ∷ rs) = ⊥

-- Page-sized steps upwards from `low`, all of them below `bound`, until memory runs out for good.
abbrev pub Ascends : ℕ → ℕ → List (Option ℕ) → Type 0
Ascends bound low [] = Unit
Ascends bound low (none ∷ rs) = AllNone rs
Ascends bound low (some a ∷ rs) =
    (low ≤ a) × (a + page_size ≤ bound) × Ascends bound (a + page_size) rs

-- One call, read from its specification.
data Call (p q : BitmapPmm) : Type 0 where
  out_of_memory :
      allocate_frame_internal p ≡ done (none, q)
      → ((g : ℕ) → g < p.total_frames → is_free p g ≡ false)
      → ((g : ℕ) → is_free q g ≡ is_free p g)
      → Call p q
  took :
      (f : ℕ)
      → allocate_frame_internal p ≡ done (some (f * page_size), q)
      → f < p.total_frames
      → is_free p f ≡ true
      → ((g : ℕ) → g ≤ f → is_free q g ≡ false)
      → Call p q

one_step : (p : BitmapPmm) (a : Allocates p (allocate_frame_internal p)) → Call p a.after
unfolding Spec.allocate
one_step p a = elim (Spec.first_free-cases (is_free p) p.total_frames 0) [
  | inl (e, h) ↦
      out_of_memory (a.returns ∙ rw e refl) (λ g q. h g (omega arith) (omega arith))
        (λ g. a.frames g ∙ rw e refl)
  | inr (f, e, lo, hi, fr, h) ↦
      took f (a.returns ∙ rw e refl) (omega arith) fr
        (λ g q. a.frames g ∙ rw e (ground (arith, h g (omega arith))))
]

free_and_used : {b : Bool} → b ≡ false → b ≡ true → ⊥
free_and_used e f = cc

exhausted :
    (n : ℕ) (p : BitmapPmm)
    → IsValid p
    → ((g : ℕ) → g < p.total_frames → is_free p g ≡ false)
    → (rs : List (Option ℕ)) × (allocate_frames n p ≡ done rs) × AllNone rs
unfolding allocate_frames
exhausted zero p v h = ([], refl, tt)
exhausted (suc n) p v h =
    let a = allocate_frame_internal-Allocates p v in
    elim (one_step p a) [
      | out_of_memory e none_free same ↦
          let rest =
            exhausted n a.after a.valid (λ g q. same g ∙ h g (omega (arith, a.same_total))) in
          (none ∷ rest.0, rw (e, rest.1) refl, rest.2)
      | took f e inside fr gone ↦ absurd (free_and_used (h f inside) fr)
    ]

not_below :
    (p : BitmapPmm) (k f : ℕ) → ((g : ℕ) → g < k → is_free p g ≡ false) → is_free p f ≡ true → k ≤ f
not_below p k f h fr = elim (dec_lt f k) [
  | yes below ↦ absurd (free_and_used (h f below) fr)
  | no above ↦ omega arith
]

-- From a valid bitmap, any number of calls end without a fault. Each frame is page-aligned memory
-- of its own: every address lies at least a page above the one before and its page lies below
-- `total_frames * PAGE_SIZE`. After the first `None` every later call returns `None`.
pub allocate_frames-Ascends :
    (n k : ℕ) (p : BitmapPmm)
    → IsValid p
    → ((g : ℕ) → g < k → is_free p g ≡ false)
    → (rs : List (Option ℕ)) × (allocate_frames n p ≡ done rs)
      × Ascends (p.total_frames * page_size) (k * page_size) rs
unfolding allocate_frames
allocate_frames-Ascends zero k p v h = ([], refl, tt)
allocate_frames-Ascends (suc n) k p v h =
    let a = allocate_frame_internal-Allocates p v in
    elim (one_step p a) [
      | out_of_memory e none_free same ↦
          let rest =
            exhausted n a.after a.valid
              (λ g q. same g ∙ none_free g (omega (arith, a.same_total))) in
          (none ∷ rest.0, rw (e, rest.1) refl, rest.2)
      | took f e inside fr gone ↦
          let rest =
            allocate_frames-Ascends n (f + 1) a.after a.valid (λ g q. gone g (omega arith)) in
          let bound : a.after.total_frames * page_size ≡ p.total_frames * page_size =
            ap (λ (t : ℕ). t * page_size) a.same_total in
          let low : (f + 1) * page_size ≡ f * page_size + page_size = omega arith in
          (
            some (f * page_size) ∷ rest.0,
            rw (e, rest.1) refl,
            (omega (arith, not_below p k f h fr), omega arith, rw (bound, low) at rest.2),
          )
    ]
