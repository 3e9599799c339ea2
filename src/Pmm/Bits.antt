-- ===== src/Pmm/Bits.antt =====
-- kernel/src/pmm.rs: what `mark_used` and `mark_free` do to the frames of a bitmap.
use cat.Common.{ℕ, ◌/◌, ◌%◌, ◌^◌, ◌<◌, bit_and, bit_or, ◌≡◌, refl}
use cat.Common.{Bool, not, ◌&&◌, ◌||◌, arith, ◌==◌}
use cat.Common.{if◌then◌else◌, length, get_or, length-set, done}
use cat.Common.{get_elem?-eq-get_or, get_or-set_self, get_or-set_ne, not64, bit, bit-bit_or}
use cat.Common.{
  bit-bit_and, bit-two_pow, bit-complement, bit-lt, two_pow-lt, bit_or-lt, bit_and-lt, ◌≢◌,
}
use cat.Pmm.{BitmapPmm, store, load, mark_used, mark_free}

-- A frame is free when its bit is 0.
abbrev pub word_of : BitmapPmm → ℕ → ℕ
word_of p f = get_or p.bitmap (f / 64) 0

unfoldable pub is_free : BitmapPmm → ℕ → Bool
is_free p f = bit (word_of p f) (f % 64) == 0

-- The words of the bitmap are 64 bits wide.
abbrev pub FitsWords : BitmapPmm → Type 0
FitsWords p = (i : ℕ) → get_or p.bitmap i 0 < 2 ^ 64

-- `q` manages as many frames as `p`, and `f` is free in it exactly when `free f`.
pub record Marks (p q : BitmapPmm) (free : ℕ → Bool) : Type 0 where
  pub frees : (f : ℕ) → is_free q f ≡ free f
  pub same_length : length q.bitmap ≡ length p.bitmap
  pub same_total : q.total_frames ≡ p.total_frames
  pub same_size : q.bitmap_size_u64 ≡ p.bitmap_size_u64
  pub fits : FitsWords p → FitsWords q

pub load-done :
    (p : BitmapPmm) (i : ℕ) → i < length p.bitmap → load p i ≡ done (get_or p.bitmap i 0)
unfolding load
load-done p i h = ground (arith, get_elem?-eq-get_or p.bitmap i 0 h)

set_bit_lem : (w i j : ℕ) → bit (bit_or w (2 ^ i)) j == 0 ≡ (bit w j == 0 && not (j == i))
set_bit_lem w i j = ground (arith, bit-bit_or j w (2 ^ i), bit-two_pow i j, bit-lt w j)

clear_bit_lem :
    (w i j : ℕ)
    → i < 64
    → j < 64
    → bit (bit_and w (not64 (2 ^ i))) j == 0 ≡ (bit w j == 0 || j == i)
clear_bit_lem w i j hi hj = ground (
  arith,
  bit-bit_and j w (not64 (2 ^ i)),
  bit-complement 64 j (2 ^ i) (two_pow-lt i 64 hi) hj,
  bit-two_pow i j,
  bit-lt w j,
)

pub is_free-store :
    (p : BitmapPmm) (f g word : ℕ)
    → f / 64 < length p.bitmap
    → is_free (store p (f / 64) word) g
      ≡ (if g / 64 == f / 64 then bit word (g % 64) == 0 else is_free p g)
unfolding is_free
is_free-store p f g word h = ground (
  arith,
  get_or-set_self p.bitmap (f / 64) word 0 h,
  get_or-set_ne p.bitmap (f / 64) (g / 64) word 0,
)

same_frame : (f g : ℕ) → (g / 64 == f / 64 && g % 64 == f % 64) ≡ (g == f)
same_frame f g = ground arith

FitsWords-store :
    (p : BitmapPmm) (i word : ℕ)
    → i < length p.bitmap
    → word < 2 ^ 64
    → FitsWords p
    → FitsWords (store p i word)
FitsWords-store p i word h hw hp j =
    ground (arith, hp j, get_or-set_self p.bitmap i word 0 h, get_or-set_ne p.bitmap i j word 0)

-- Writing a word whose bits are those of the old one but for frame `f`.
store-Marks :
    (p : BitmapPmm) (f word : ℕ) (free : ℕ → Bool)
    → f / 64 < length p.bitmap
    → ((g : ℕ) → g / 64 ≡ f / 64 → (bit word (g % 64) == 0) ≡ free g)
    → ((g : ℕ) → (g / 64) ≢ (f / 64) → free g ≡ is_free p g)
    → (FitsWords p → word < 2 ^ 64)
    → Marks p (store p (f / 64) word) free
store-Marks p f word free h inside outside narrow = record {
  frees = λ g. ground (arith, is_free-store p f g word h, inside g, outside g);
  same_length = length-set p.bitmap (f / 64) word;
  same_total = refl;
  same_size = refl;
  fits = λ hp. FitsWords-store p (f / 64) word h (narrow hp) hp;
}

is_free_in :
    (p : BitmapPmm) (f g : ℕ) → g / 64 ≡ f / 64 → is_free p g ≡ (bit (word_of p f) (g % 64) == 0)
unfolding is_free
is_free_in p f g e = rw e refl

-- `mark_used` takes one frame, inside the bitmap, and no other.
pub mark_used-Marks :
    (p : BitmapPmm) (f : ℕ)
    → f / 64 < length p.bitmap
    → (q : BitmapPmm) × (mark_used p f ≡ done q) × Marks p q (λ g. is_free p g && not (g == f))
unfolding mark_used
mark_used-Marks p f h =
    let word = bit_or (word_of p f) (2 ^ (f % 64)) in
    (
      store p (f / 64) word,
      rw (load-done p (f / 64) h),
      store-Marks p f word _ h
          (λ g e. ground (arith, set_bit_lem (word_of p f) (f % 64) (g % 64), is_free_in p f g e))
          (λ g e. ground arith)
          (λ hp.
            bit_or-lt 64 (word_of p f) (2 ^ (f % 64)) (hp (f / 64))
              (two_pow-lt (f % 64) 64 (omega arith))),
    )

-- `mark_free` gives back one frame, inside the bitmap, and no other.
pub mark_free-Marks :
    (p : BitmapPmm) (f : ℕ)
    → f / 64 < length p.bitmap
    → (q : BitmapPmm) × (mark_free p f ≡ done q) × Marks p q (λ g. is_free p g || g == f)
unfolding mark_free
mark_free-Marks p f h =
    let word = bit_and (word_of p f) (not64 (2 ^ (f % 64))) in
    (
      store p (f / 64) word,
      rw (load-done p (f / 64) h),
      store-Marks p f word _ h
          (λ g e. ground (
            arith,
            clear_bit_lem (word_of p f) (f % 64) (g % 64) (omega arith) (omega arith),
            is_free_in p f g e,
          ))
          (λ g e. ground arith)
          (λ hp. bit_and-lt 64 (word_of p f) (not64 (2 ^ (f % 64))) (hp (f / 64))),
    )
