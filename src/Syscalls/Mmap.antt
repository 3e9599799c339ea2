-- ===== src/Syscalls/Mmap.antt =====
-- kernel/src/syscalls.rs: `sys_mmap` hands out its pool from the bottom up, and `sys_brk` accepts
-- every address.
use cat.Common.{ℕ, ◌+◌, ◌-◌, ◌*◌, ◌/◌, ◌%◌, ◌^◌, ◌≤◌, ◌<◌, ◌≡◌, refl, ap, arith, ◌⊎◌}
use cat.Common.{
  inl, inr, List, [], ◌∷◌, Bool-cases, ltb, leb, ◌==◌, not, ◌&&◌, false, if◌then◌else◌, u64,
}
use cat.Common.{bit_and-high}
use mathlib.Core.Path.{subst}
use cat.Common.{sym}
use cat.Syscalls.State.{Kernel, errno}
use cat.Syscalls.Handlers.{sys_brk, sys_mmap, aligned_len, mmap_start, mmap_end}

-- The allocator's variable lies on a page boundary of the pool.
pub record IsPool (k : Kernel) : Type 0 where
  pub aligned : k.mmap_next % 4096 ≡ 0
  pub above : mmap_start ≤ k.mmap_next
  pub below : k.mmap_next ≤ mmap_end

pub aligned_len_lem : (length : ℕ) → aligned_len length ≡ u64 (length + 0xfff) / 4096 * 4096
unfolding aligned_len
aligned_len_lem length = bit_and-high 12 (u64 (length + 0xfff)) (omega arith) (omega arith)

-- `r` and `k'` are what a request of `len` bytes that the kernel may place gets: `-ENOMEM` and no
-- change when the pool is short, or else pages of its own from the bottom of the pool.
pub data Mapped (k : Kernel) (len : ℕ) (r : ℕ × Kernel) : Type 0 where
  no_memory : r ≡ (errno 12, k) → mmap_end < k.mmap_next + len → Mapped k len r
  region :
      r.0 ≡ k.mmap_next
      → k.mmap_next + len ≤ r.1.mmap_next
      → r.1.mmap_next < k.mmap_next + len + 4096
      → IsPool r.1
      → r.1.memory ≡ k.memory
      → Mapped k len r

-- A request with no address of its own, whose length does not reach the top of the address space,
-- gets `-ENOMEM` and changes nothing exactly when the pool is short of that many whole pages. Else
-- it gets the start of the free part of the pool, which then begins at the end of the new region.
pub sys_mmap-Mapped :
    (k : Kernel) (addr length prot flags : ℕ)
    → IsPool k
    → addr < 0x1000
    → length < 2 ^ 63
    → Mapped k length (sys_mmap k addr length prot flags)
unfolding sys_mmap
sys_mmap-Mapped k addr length prot flags pool low small =
    let len = aligned_len_lem length in
    let no_wrap : u64 (k.mmap_next + aligned_len length) ≡ k.mmap_next + aligned_len length =
      omega (arith, len, pool.below) in
    let own : (not (addr == 0) && leb 0x1000 addr) ≡ false = ground arith in
    let next = k.mmap_next + aligned_len length in
    elim (Bool-cases (ltb mmap_end (u64 next))) [
      | inl short ↦ no_memory (rw (own, short) refl) (ground (arith, no_wrap, len, pool.aligned))
      | inr fits ↦
          rw (own, fits)
            (region refl (omega (arith, no_wrap, len)) (omega (arith, no_wrap, len))
              (record {
                aligned = omega (arith, no_wrap, len, pool.aligned);
                above = omega (arith, no_wrap, pool.above);
                below = ground arith;
              })
              refl)
    ]

-- Many requests, one after the other, with what each returned.
unfoldable pub map_all : List ℕ → Kernel → List (ℕ × ℕ)
map_all [] k = []
map_all (len ∷ lens) k = let (r, k') = sys_mmap k 0 len 0 0x20 in (len, r) ∷ map_all lens k'

-- Every region that was given out lies from `low` up, inside the pool and behind the one before.
abbrev pub Apart : ℕ → List (ℕ × ℕ) → Type 0
Apart low [] = Unit
Apart low ((len, r) ∷ rs) =
    ((r ≡ errno 12) × Apart low rs) ⊎ ((low ≤ r) × (r + len ≤ mmap_end) × Apart (r + len) rs)

abbrev pub AreSmall : List ℕ → Type 0
AreSmall [] = Unit
AreSmall (len ∷ lens) = (len < 2 ^ 63) × AreSmall lens

Apart-mono : (rs : List (ℕ × ℕ)) (low high : ℕ) → low ≤ high → Apart high rs → Apart low rs
Apart-mono [] low high h a = tt
Apart-mono ((len, r) ∷ rs) low high h (inl (e, a)) = inl (e, Apart-mono rs low high h a)
Apart-mono ((len, r) ∷ rs) low high h (inr (p, q, a)) = inr (omega arith, q, a)

-- However often the pool is asked, with lengths below 2^63, the regions that it gives out lie
-- inside it, are as long as asked for, and do not overlap.
pub map_all-Apart :
    (lens : List ℕ) (k : Kernel) → IsPool k → AreSmall lens → Apart k.mmap_next (map_all lens k)
unfolding map_all
map_all-Apart [] k pool small = tt
map_all-Apart (len ∷ lens) k pool small =
    elim (sys_mmap-Mapped k 0 len 0 0x20 pool (omega arith) small.0) [
      | no_memory e short ↦ inl (
        ap (λ p. p.0) e,
        subst (λ s. Apart k.mmap_next (map_all lens s)) (sym (ap (λ p. p.1) e))
            (map_all-Apart lens k pool small.1),
      )
      | region start end near pool' same ↦
          let rest = map_all-Apart lens (sys_mmap k 0 len 0 0x20).1 pool' small.1 in
          inr (
            omega (arith, start),
            omega (arith, start, pool'.below),
            Apart-mono (map_all lens (sys_mmap k 0 len 0 0x20).1) _ _ (omega (arith, start)) rest,
          )
    ]

-- A request within the last two pages below 2^64 makes the sum wrap: it is granted, and moves the
-- free part of the pool a page down.
pub sys_mmap-wraps :
    (k : Kernel) (length prot flags : ℕ)
    → IsPool k
    → 2 ^ 64 - 8192 < length
    → length ≤ 2 ^ 64 - 4096
    → sys_mmap k 0 length prot flags ≡ (k.mmap_next, record k { mmap_next = k.mmap_next - 4096 })
unfolding sys_mmap
sys_mmap-wraps k length prot flags pool above below =
    let top : aligned_len length ≡ 2 ^ 64 - 4096 = omega (arith, aligned_len_lem length) in
    let wrapped : u64 (k.mmap_next + (2 ^ 64 - 4096)) ≡ k.mmap_next - 4096 =
      omega (arith, pool.above, pool.below) in
    let fits : ltb mmap_end (k.mmap_next - 4096) ≡ false = ground (arith, pool.below) in
    rw (top, wrapped, fits) refl

-- `sys_brk` reports the break at 0 and moves it to any other address, within the heap or not.
pub sys_brk_lem :
    (k : Kernel) (addr : ℕ)
    → sys_brk k addr
      ≡ (if addr == 0 then (k.current_brk, k) else (addr, record k { current_brk = addr }))
unfolding sys_brk
sys_brk_lem k addr = ground arith
