-- ===== src/Pmm/Regions.antt =====
-- kernel/src/pmm.rs: `mark_region_used` and `mark_region_free` over a range of frames.
use cat.Common.{ℕ, zero, suc, ◌+◌, ◌*◌, ◌/◌, ◌^◌, ◌≤◌, ◌≡◌, refl, arith, Bool, not, ◌&&◌}
use cat.Common.{◌||◌, ltb, leb, ◌==◌, Bool-cases, inl, inr, length, u64, done, ◌∙◌}
use cat.Common.{ltb→lt, bind-done, ap}
use cat.Pmm.{BitmapPmm, page_size, mark_used_loop, mark_free_loop, mark_free_if_managed, mark_used}
use cat.Pmm.{mark_region_used, mark_region_free}
use cat.Pmm.Bits.{is_free, Marks, mark_used-Marks, mark_free-Marks}

-- Frame `g` is one of the `n` frames from `lo` on.
abbrev pub in_range : ℕ → ℕ → ℕ → Bool
in_range lo n g = leb lo g && ltb g (lo + n)

pub Marks-trans :
    {p q r : BitmapPmm} {first second : ℕ → Bool} (both : ℕ → Bool)
    → Marks p q first
    → Marks q r second
    → ((g : ℕ) → is_free q g ≡ first g → second g ≡ both g)
    → Marks p r both
Marks-trans both m n e = record {
  frees = λ g. n.frees g ∙ e g (m.frees g);
  same_length = n.same_length ∙ m.same_length;
  same_total = n.same_total ∙ m.same_total;
  same_size = n.same_size ∙ m.same_size;
  fits = λ h. n.fits (m.fits h);
}

pub Marks-none :
    (p : BitmapPmm) (free : ℕ → Bool) → ((g : ℕ) → is_free p g ≡ free g) → Marks p p free
Marks-none p free e = record {
  frees = e;
  same_length = refl;
  same_total = refl;
  same_size = refl;
  fits = λ h. h;
}

mark_used_loop-Marks :
    (start rounds i : ℕ) (p : BitmapPmm)
    → start + i + rounds ≤ length p.bitmap * 64
    → start + i + rounds ≤ 2 ^ 64
    → (q : BitmapPmm) × (mark_used_loop start rounds i p ≡ done q)
      × Marks p q (λ g. is_free p g && not (in_range (start + i) rounds g))
unfolding mark_used_loop
mark_used_loop-Marks start zero i p h w = (p, refl, Marks-none p _ (λ g. ground arith))
mark_used_loop-Marks start (suc rounds) i p h w =
    let here : u64 (start + i) ≡ start + i = omega arith in
    let m = mark_used-Marks p (start + i) (omega arith) in
    let rest =
      mark_used_loop-Marks start rounds (i + 1) m.0 (omega (arith, m.2.same_length))
        (omega arith) in
    (
      rest.0,
      bind-done _ _ (ap (mark_used p) here ∙ m.1) rest.1,
      Marks-trans _ m.2 rest.2 (λ g e. rw e (ground arith)),
    )

mark_free_if_managed-Marks :
    (p : BitmapPmm) (f : ℕ)
    → p.total_frames ≤ length p.bitmap * 64
    → (q : BitmapPmm) × (mark_free_if_managed p f ≡ done q)
      × Marks p q (λ g. is_free p g || g == f && ltb g p.total_frames)
unfolding mark_free_if_managed
mark_free_if_managed-Marks p f h = elim (Bool-cases (ltb f p.total_frames)) [
  | inl managed ↦
      let m = mark_free-Marks p f (omega (arith, ltb→lt _ _ managed)) in
      (
        m.0,
        rw managed m.1,
        Marks-trans _ m.2 (Marks-none m.0 _ (λ g. refl)) (λ g e. e ∙ ground arith),
      )
  | inr beyond ↦ (p, rw beyond refl, Marks-none p _ (λ g. ground arith))
]

mark_free_loop-Marks :
    (start rounds i : ℕ) (p : BitmapPmm)
    → p.total_frames ≤ length p.bitmap * 64
    → start + i + rounds ≤ 2 ^ 64
    → (q : BitmapPmm) × (mark_free_loop start rounds i p ≡ done q)
      × Marks p q (λ g. is_free p g || in_range (start + i) rounds g && ltb g p.total_frames)
unfolding mark_free_loop
mark_free_loop-Marks start zero i p h w = (p, refl, Marks-none p _ (λ g. ground arith))
mark_free_loop-Marks start (suc rounds) i p h w =
    let here : u64 (start + i) ≡ start + i = omega arith in
    let m = mark_free_if_managed-Marks p (start + i) h in
    let rest =
      mark_free_loop-Marks start rounds (i + 1) m.0 (omega (arith, m.2.same_length, m.2.same_total))
        (omega arith) in
    (
      rest.0,
      bind-done _ _ (ap (mark_free_if_managed p) here ∙ m.1) rest.1,
      Marks-trans _ m.2 rest.2 (λ g e. rw (e, m.2.same_total) (ground arith)),
    )

-- `mark_region_used` takes the frames of the region out of the free ones, and changes no other.
-- The region lies inside the bitmap.
pub mark_region_used-Marks :
    (p : BitmapPmm) (addr count : ℕ)
    → addr / page_size + count ≤ length p.bitmap * 64
    → addr / page_size + count ≤ 2 ^ 64
    → (q : BitmapPmm) × (mark_region_used p addr count ≡ done q)
      × Marks p q (λ g. is_free p g && not (in_range (addr / page_size) count g))
unfolding mark_region_used
mark_region_used-Marks p addr count h w =
    let m = mark_used_loop-Marks (addr / page_size) count 0 p (omega arith) (omega arith) in
    (m.0, m.1, Marks-trans _ m.2 (Marks-none m.0 _ (λ g. refl)) (λ g e. e ∙ ground arith))

-- `mark_region_free` gives back the frames of the region that are below `total_frames`, and
-- changes no other. The region may go past the end of the managed memory.
pub mark_region_free-Marks :
    (p : BitmapPmm) (addr count : ℕ)
    → p.total_frames ≤ length p.bitmap * 64
    → addr / page_size + count ≤ 2 ^ 64
    → (q : BitmapPmm) × (mark_region_free p addr count ≡ done q)
      × Marks p q (λ g. is_free p g || in_range (addr / page_size) count g && ltb g p.total_frames)
unfolding mark_region_free
mark_region_free-Marks p addr count h w =
    let m = mark_free_loop-Marks (addr / page_size) count 0 p h (omega arith) in
    (m.0, m.1, Marks-trans _ m.2 (Marks-none m.0 _ (λ g. refl)) (λ g e. e ∙ ground arith))
