-- ===== src/Pmm/Alloc.antt =====
-- kernel/src/pmm.rs: `allocate_frame_internal` takes the lowest free frame.
use cat.Common.{ℕ, zero, suc, ◌+◌, ◌*◌, ◌/◌, ◌%◌, ◌^◌, ◌≤◌, ◌<◌, ◌≡◌, refl, arith}
use cat.Common.{Bool, true, false, Option, none, some, leb, ◌==◌, Bool-cases, inl}
use cat.Common.{inr, length, get_or, Run, done, ◌>>=◌, not64, u64, bit, zero-bit}
use cat.Common.{bit-complement, trailing_zeros, trailing_zeros-lt, bit-trailing_zeros, ◌≢◌}
use cat.Common.{bit-below-trailing_zeros}
use native.Mathlib.Decide.{dec_lt}
use cat.Common.{leb→le, ==→eq, sym, ◌∙◌}
use cat.Pmm.Spec
use cat.Pmm.{BitmapPmm, page_size, take_from, allocate_loop, allocate_frame_internal, mark_used}
use cat.Pmm.Bits.{is_free, word_of, FitsWords, Marks, load-done, mark_used-Marks}

pub record IsValid (p : BitmapPmm) : Type 0 where
  pub all_mapped : length p.bitmap ≡ p.bitmap_size_u64
  pub covers : p.total_frames ≤ p.bitmap_size_u64 * 64
  pub addressable : p.total_frames ≤ 2 ^ 52
  pub fits : FitsWords p

-- Frame `f` is free and none below it is.
pub record IsLowest (p : BitmapPmm) (f : ℕ) : Type 0 where
  pub free : is_free p f ≡ true
  pub below : (g : ℕ) → g < f → is_free p g ≡ false

-- A word of ones has no free frame.
full_word : (p : BitmapPmm) (g : ℕ) → word_of p g ≡ not64 0 → is_free p g ≡ false
unfolding is_free
full_word p g e =
    let ones = bit-complement 64 (g % 64) 0 (omega arith) (omega arith) in
    rw e (ground (arith, ones, zero-bit (g % 64)))

free_by_bit :
    (p : BitmapPmm) (f idx z : ℕ)
    → f / 64 ≡ idx
    → f % 64 ≡ z
    → bit (get_or p.bitmap idx 0) z ≡ 0
    → is_free p f ≡ true
unfolding is_free
free_by_bit p f idx z e r h = rw (e, r, h) refl

used_by_bit :
    (p : BitmapPmm) (g idx : ℕ)
    → g / 64 ≡ idx
    → bit (get_or p.bitmap idx 0) (g % 64) ≡ 1
    → is_free p g ≡ false
unfolding is_free
used_by_bit p g idx e h = rw (e, h) refl

-- In any other word the trailing ones are passed over.
passes_over_ones :
    (p : BitmapPmm) (idx : ℕ)
    → FitsWords p
    → get_or p.bitmap idx 0 ≢ not64 0
    → ((g : ℕ) → g < idx * 64 → is_free p g ≡ false)
    → let f = idx * 64 + trailing_zeros 64 (not64 (get_or p.bitmap idx 0)) in
      IsLowest p f × (f / 64 ≡ idx)
passes_over_ones p idx fits ne before =
    let word = get_or p.bitmap idx 0 in
    let z = trailing_zeros 64 (not64 word) in
    let differs : not64 word ≢ 0 = λ e. ne (omega (arith, fits idx)) in
    let narrow : not64 word < 2 ^ 64 = omega arith in
    let small : z < 64 = trailing_zeros-lt 64 (not64 word) differs narrow in
    let clear : bit word z ≡ 0 = omega (
      arith,
      bit-complement 64 z word (fits idx) small,
      bit-trailing_zeros 64 (not64 word) differs narrow,
    ) in
    let where_word : (idx * 64 + z) / 64 ≡ idx = omega arith in
    (
      record {
        free = free_by_bit p (idx * 64 + z) idx z where_word (omega arith) clear;
        below = λ g h. elim (dec_lt g (idx * 64)) [
          | yes early ↦ before g early
          | no late ↦ used_by_bit p g idx (omega arith) (
              omega (
                arith,
                bit-complement 64 (g % 64) word (fits idx) (omega arith),
                bit-below-trailing_zeros 64 (not64 word) (g % 64) (omega arith),
              ))
        ];
      },
      where_word,
    )

-- `r` is a call that ends with the result of the specification and leaves its set of free frames.
pub record Allocates (p : BitmapPmm) (r : Run (Option ℕ × BitmapPmm)) : Type 0 where
  pub after : BitmapPmm
  pub returns : r ≡ done ((Spec.allocate p.total_frames (is_free p)).0, after)
  pub frames : (f : ℕ) → is_free after f ≡ (Spec.allocate p.total_frames (is_free p)).1 f
  pub valid : IsValid after
  pub same_total : after.total_frames ≡ p.total_frames

none_left :
    (p : BitmapPmm)
    → IsValid p
    → ((g : ℕ) → g < p.total_frames → is_free p g ≡ false)
    → Allocates p (done (none, p))
unfolding Spec.allocate
none_left p v h =
    let none_free =
      Spec.first_free-none (is_free p) p.total_frames 0 (λ g a b. h g (omega arith)) in
    record {
      after = p;
      returns = rw none_free refl;
      frames = λ f. rw none_free refl;
      valid = v;
      same_total = refl;
    }

pub Marks-IsValid : {p q : BitmapPmm} {free : ℕ → Bool} → Marks p q free → IsValid p → IsValid q
Marks-IsValid m v = record {
  all_mapped = m.same_length ∙ v.all_mapped ∙ sym m.same_size;
  covers = omega (arith, m.same_total, m.same_size, v.covers);
  addressable = omega (arith, m.same_total, v.addressable);
  fits = m.fits v.fits;
}

takes_first :
    (p : BitmapPmm) (f : ℕ)
    → IsValid p
    → IsLowest p f
    → f < p.total_frames
    → Allocates p (mark_used p f >>= λ p'. done (some (u64 (f * page_size)), p'))
unfolding Spec.allocate
takes_first p f v low h =
    let found =
      Spec.first_free-some (is_free p) p.total_frames 0 f (omega arith) (omega arith) low.free
        (λ g a b. low.below g b) in
    let marked = mark_used-Marks p f (omega (arith, v.all_mapped, v.covers)) in
    let no_wrap : u64 (f * page_size) ≡ f * page_size = omega (arith, v.addressable) in
    record {
      after = marked.0;
      returns = rw (marked.1, found, no_wrap) refl;
      frames = λ g. rw found (marked.2.frees g);
      valid = Marks-IsValid marked.2 v;
      same_total = marked.2.same_total;
    }

take_from-Allocates :
    (p : BitmapPmm) (idx : ℕ)
    → IsValid p
    → get_or p.bitmap idx 0 ≢ not64 0
    → ((g : ℕ) → g < idx * 64 → is_free p g ≡ false)
    → Allocates p (take_from p idx (get_or p.bitmap idx 0))
unfolding take_from
take_from-Allocates p idx v ne before =
    let low = passes_over_ones p idx v.fits ne before in
    let f = idx * 64 + trailing_zeros 64 (not64 (get_or p.bitmap idx 0)) in
    elim (Bool-cases (leb p.total_frames f)) [
      | inl past ↦ rw past (none_left p v (λ g h. low.0.below g (omega (arith, leb→le _ _ past))))
      | inr inside ↦ rw inside (takes_first p f v low.0 (ground arith))
    ]

used_through :
    (p : BitmapPmm) (idx : ℕ)
    → get_or p.bitmap idx 0 ≡ not64 0
    → ((g : ℕ) → g < idx * 64 → is_free p g ≡ false)
    → (g : ℕ) → g < (idx + 1) * 64
    → is_free p g ≡ false
used_through p idx full before g h = elim (dec_lt g (idx * 64)) [
  | yes early ↦ before g early
  | no late ↦ let here : g / 64 ≡ idx = omega arith in full_word p g (rw here full)
]

allocate_loop-Allocates :
    (rounds idx : ℕ) (p : BitmapPmm)
    → IsValid p
    → idx + rounds ≡ p.bitmap_size_u64
    → ((g : ℕ) → g < idx * 64 → is_free p g ≡ false)
    → Allocates p (allocate_loop rounds idx p)
unfolding allocate_loop
allocate_loop-Allocates zero idx p v e before =
    none_left p v (λ g h. before g (omega (arith, v.covers)))
allocate_loop-Allocates (suc rounds) idx p v e before =
    let mapped : idx < length p.bitmap = omega (arith, v.all_mapped) in
    rw (load-done p idx mapped) (elim (Bool-cases (get_or p.bitmap idx 0 == not64 0)) [
      | inl full ↦ rw full (
          allocate_loop-Allocates rounds (idx + 1) p v (omega arith)
            (used_through p idx (==→eq _ _ full) before))
      | inr other ↦ rw other (take_from-Allocates p idx v (ground arith) before)
    ])

-- `allocate_frame_internal` on a valid bitmap never faults. It returns the address of the lowest
-- free frame below `total_frames`, or `None` when there is none, takes that frame and no other
-- out of the free ones, and keeps the bitmap valid.
pub allocate_frame_internal-Allocates :
    (p : BitmapPmm) → IsValid p → Allocates p (allocate_frame_internal p)
unfolding allocate_frame_internal
allocate_frame_internal-Allocates p v =
    allocate_loop-Allocates p.bitmap_size_u64 0 p v (omega arith) (λ g h. absurd (omega arith))
