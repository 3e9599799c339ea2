-- ===== src/Common/Bytes.antt =====
-- Memory as a byte at each address, and the loads and stores of words in it.
use Prim.Native.Nat.{ℕ, zero, suc, ◌+◌, ◌-◌, ◌*◌, ◌/◌, ◌%◌, ◌^◌, ◌≤◌, ◌<◌}
use mathlib.Core.Path.{◌≡◌, refl, ap, sym, ◌∙◌}
use mathlib.Core.Logic.{◌⊎◌, inl, inr}
use mathlib.Core.Bool.{Bool, true, ◌&&◌}
use mathlib.Core.List.{List, [], ◌∷◌}
use native.Mathlib.Omega.{arith}
use native.Mathlib.Nat.{
  pow-succ', div-one, div-div-eq-div-mul, mod-lt, one-le-pow, mod-add-div, mul_assoc, mul_comm,
  mod-eq_of_lt, add-mul-mod_self_left,
}
use cat.Common.Tests.{ltb, leb, if◌then◌else◌}

abbrev pub Memory : Type 0
Memory = ℕ → ℕ

abbrev pub within : ℕ → ℕ → ℕ → Bool
within addr len a = leb addr a && ltb a (addr + len)

-- `write_bytes(addr, byte, len)`.
abbrev pub fill : ℕ → ℕ → ℕ → Memory → Memory
fill addr byte len mem a = if within addr len a then byte else mem a

-- A store of `len` bytes, the least significant first.
abbrev pub store : ℕ → ℕ → ℕ → Memory → Memory
store addr len value mem a = if within addr len a then value / 256 ^ (a - addr) % 256 else mem a

unfoldable pub load_bytes : Memory → ℕ → ℕ → ℕ
load_bytes mem zero a = 0
load_bytes mem (suc n) a = mem a + 256 * load_bytes mem n (a + 1)

unfoldable pub load_u64 : Memory → ℕ → ℕ
unfolding load_bytes
load_u64 mem addr = load_bytes mem 8 addr

-- `from_raw_parts(addr, count)`.
abbrev pub slice : Memory → ℕ → ℕ → List ℕ
slice mem addr zero = []
slice mem addr (suc count) = mem addr ∷ slice mem (addr + 1) count

-- A load sees only the bytes that it reads.
pub load_bytes-eq :
    (m m' : Memory) (n a : ℕ)
    → ((b : ℕ) → a ≤ b → b < a + n → m b ≡ m' b)
    → load_bytes m n a ≡ load_bytes m' n a
unfolding load_bytes
load_bytes-eq m m' zero a h = refl
load_bytes-eq m m' (suc n) a h =
    ground (arith, h a, load_bytes-eq m m' n (a + 1) (λ b p q. h b (omega arith) (omega arith)))

pub load_bytes-store_apart :
    (m : Memory) (addr len v n a : ℕ)
    → (a + n ≤ addr) ⊎ (addr + len ≤ a)
    → load_bytes (store addr len v m) n a ≡ load_bytes m n a
load_bytes-store_apart m addr len v n a apart =
    load_bytes-eq (store addr len v m) m n a (λ b p q. away b p q apart)
  where
    away :
        (b : ℕ) → a ≤ b → b < a + n → (a + n ≤ addr) ⊎ (addr + len ≤ a) → store addr len v m b ≡ m b
    away b p q (inl before) = ground arith
    away b p q (inr after) = ground arith

-- The lowest byte of a word, and the rest of it.
mod-split : (w n : ℕ) → w % 256 + 256 * (w / 256 % 256 ^ n) ≡ w % 256 ^ suc n
mod-split w n =
    let p = 256 ^ n in
    let q = w / 256 in
    let small = mod-lt q (one-le-pow n 256 (omega arith)) in
    let split = mod-add-div q p in
    let low = w % 256 + 256 * (q % p) in
    let whole : w ≡ low + 256 * p * (q / p) =
      omega (arith, ap (λ (t : ℕ). 256 * t) split, mul_assoc 256 p (q / p)) in
    rw (pow-succ' 256 n) (
      sym (mod-eq_of_lt (omega arith))
      ∙ sym (add-mul-mod_self_left low (256 * p) (q / p))
      ∙ ap (λ (t : ℕ). t % (256 * p)) (sym whole))

-- The bytes from offset `k` of a word that has just been stored.
load_bytes-store_from :
    (m : Memory) (addr len v n k : ℕ)
    → k + n ≤ len
    → load_bytes (store addr len v m) n (addr + k) ≡ v / 256 ^ k % 256 ^ n
unfolding load_bytes
load_bytes-store_from m addr len v zero k h = omega arith
load_bytes-store_from m addr len v (suc n) k h =
    let inside : within addr len (addr + k) ≡ true = ground arith in
    let offset : addr + k - addr ≡ k = omega arith in
    let next : addr + k + 1 ≡ addr + suc k = omega arith in
    let rest = load_bytes-store_from m addr len v n (suc k) (omega arith) in
    let deeper : v / 256 ^ suc k ≡ v / 256 ^ k / 256 =
      ap (λ (t : ℕ). v / t) (pow-succ' 256 k ∙ mul_comm 256 (256 ^ k))
      ∙ sym (div-div-eq-div-mul v (256 ^ k) 256) in
    rw (inside, offset, next, rest, deeper) (mod-split (v / 256 ^ k) n)

pub load_bytes-store :
    (m : Memory) (addr n v : ℕ) → load_bytes (store addr n v m) n addr ≡ v % 256 ^ n
load_bytes-store m addr n v =
    let start : addr + 0 ≡ addr = omega arith in
    ap (λ (a : ℕ). load_bytes (store addr n v m) n a) (sym start)
    ∙ load_bytes-store_from m addr n v n 0 (omega arith)
    ∙ ap (λ (t : ℕ). t % 256 ^ n) (div-one v)
