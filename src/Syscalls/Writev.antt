-- ===== src/Syscalls/Writev.antt =====
-- kernel/src/syscalls.rs: `sys_write` and `sys_writev` on good and on bad descriptors.
use cat.Common.{ℕ, zero, suc, ◌+◌, ◌^◌, ◌<◌, ◌≡◌, refl, arith, ◌∙◌, ◌⊎◌, u64}
use cat.Common.{true, false, not, ◌&&◌, ◌||◌, Bool-cases, List, [], ◌++◌, ◌==◌, if◌then◌else◌}
use native.Mathlib.Nat.{add_assoc}
use cat.Common.{inl, inr}
use mathlib.Core.List.{append-nil, append_assoc}
use cat.Syscalls.State.{Kernel, Memory, Output, errno, is_negative, emit, slice}
use cat.Syscalls.State.{screen_char, serial_text, load_u64, load_bytes}
use cat.Syscalls.Utf8.{from_utf8}
use cat.Common.{ap, map, Option, none, some, ◌∷◌, ◌*◌, ◌≤◌, ◌-◌}
use cat.Syscalls.Write.{sys_write, sys_writev, write_entry, writev_loop, entry_base, entry_len}
use cat.Syscalls.Write.{printed, stdout, stderr}

abbrev pub IsTerminal : ℕ → Type 0
IsTerminal fd = (fd ≡ stdout) ⊎ (fd ≡ stderr)

-- The text and the length of the `rounds` entries from entry `i` on.
abbrev pub printed_entries : Memory → ℕ → ℕ → ℕ → List Output
printed_entries mem iov zero i = []
printed_entries mem iov (suc rounds) i =
    printed (slice mem (entry_base mem iov i) (entry_len mem iov i))
    ++ printed_entries mem iov rounds (i + 1)

abbrev pub total_len : Memory → ℕ → ℕ → ℕ → ℕ
total_len mem iov zero i = 0
total_len mem iov (suc rounds) i = entry_len mem iov i + total_len mem iov rounds (i + 1)

write_entry-terminal :
    (k : Kernel) (fd iov i : ℕ)
    → IsTerminal fd
    → write_entry k fd iov i ≡ (
      entry_len k.memory iov i,
      emit k (printed (slice k.memory (entry_base k.memory iov i) (entry_len k.memory iov i))),
    )
unfolding write_entry sys_write
write_entry-terminal k fd iov i h =
    let terminal : (not (fd == stdout) && not (fd == stderr)) ≡ false = ground arith in
    rw terminal refl

writev_loop-terminal :
    (fd iov rounds i total : ℕ) (k : Kernel)
    → IsTerminal fd
    → total + total_len k.memory iov rounds i < 2 ^ 63
    → writev_loop fd iov rounds i total k
      ≡ (total + total_len k.memory iov rounds i, emit k (printed_entries k.memory iov rounds i))
unfolding writev_loop
writev_loop-terminal fd iov zero i total k h fits =
    let same : total + 0 ≡ total = omega arith in rw (same, append-nil)
writev_loop-terminal fd iov (suc rounds) i total k h fits =
    let text = printed (slice k.memory (entry_base k.memory iov i) (entry_len k.memory iov i)) in
    let fine : is_negative (entry_len k.memory iov i) ≡ false = ground arith in
    let sum : u64 (total + entry_len k.memory iov i) ≡ total + entry_len k.memory iov i =
      omega arith in
    rw (write_entry-terminal k fd iov i h, fine, sum)
      (writev_loop-terminal fd iov rounds (i + 1) (total + entry_len k.memory iov i) (emit k text) h
          (omega arith)
        ∙ rw (add_assoc, append_assoc) refl)

-- To standard output or error, `sys_writev` prints the texts of all entries in their order and
-- returns their total length, if that is less than 2^63.
pub sys_writev-terminal :
    (k : Kernel) (fd iov iovcnt : ℕ)
    → IsTerminal fd
    → total_len k.memory iov iovcnt 0 < 2 ^ 63
    → sys_writev k fd iov iovcnt
      ≡ (total_len k.memory iov iovcnt 0, emit k (printed_entries k.memory iov iovcnt 0))
unfolding sys_writev
sys_writev-terminal k fd iov iovcnt h fits =
    let zero_first : 0 + total_len k.memory iov iovcnt 0 ≡ total_len k.memory iov iovcnt 0 =
      omega arith in
    writev_loop-terminal fd iov iovcnt 0 0 k h (omega arith) ∙ rw zero_first refl

-- On any other descriptor `sys_writev` prints nothing, and fails with `EBADF` unless there is no
-- entry to write.
pub sys_writev-bad_descriptor :
    (k : Kernel) (fd iov iovcnt : ℕ)
    → ¬ IsTerminal fd
    → sys_writev k fd iov iovcnt ≡ (if iovcnt == 0 then 0 else errno 9, k)
unfolding sys_writev writev_loop write_entry sys_write
sys_writev-bad_descriptor k fd iov zero h = refl
sys_writev-bad_descriptor k fd iov (suc n) h =
    let bad : (not (fd == stdout) && not (fd == stderr)) ≡ true =
      ground (arith, λ (e : fd ≡ stdout). h (inl e), λ (e : fd ≡ stderr). h (inr e)) in
    rw bad (ground arith)

-- An `Iovec` in memory: two words of eight bytes, the lowest first, a pointer and then a length.
abbrev pub word_at : Memory → ℕ → ℕ
word_at mem a =
    mem a
    + 2 ^ 8 * mem (a + 1)
    + 2 ^ 16 * mem (a + 2)
    + 2 ^ 24 * mem (a + 3)
    + 2 ^ 32 * mem (a + 4)
    + 2 ^ 40 * mem (a + 5)
    + 2 ^ 48 * mem (a + 6)
    + 2 ^ 56 * mem (a + 7)

abbrev pub iov_base : Memory → ℕ → ℕ
iov_base mem a = word_at mem a

abbrev pub iov_len : Memory → ℕ → ℕ
iov_len mem a = word_at mem (a + 8)

-- The bytes from an address on.
abbrev pub text_at : Memory → ℕ → ℕ → List ℕ
text_at mem a zero = []
text_at mem a (suc n) = mem a ∷ text_at mem (a + 1) n

-- A text is characters on the screen and a text on the serial port; what is not UTF-8 is shown byte
-- by byte, on the screen only.
abbrev pub on_screen : List ℕ → List Output
on_screen [] = []
on_screen (c ∷ cs) = screen_char c ∷ on_screen cs

abbrev pub shown_as : List ℕ → Option (List ℕ) → List Output
shown_as bytes (some chars) = on_screen chars ++ (serial_text chars ∷ [])
shown_as bytes none = on_screen bytes

-- The entries lie 16 bytes apart.
abbrev pub texts : Memory → ℕ → ℕ → List Output
texts mem a zero = []
texts mem a (suc n) =
    let text = text_at mem (iov_base mem a) (iov_len mem a) in
    shown_as text (from_utf8 text) ++ texts mem (a + 16) n

abbrev pub lengths : Memory → ℕ → ℕ → ℕ
lengths mem a zero = 0
lengths mem a (suc n) = iov_len mem a + lengths mem (a + 16) n

load-word_at : (mem : Memory) (a : ℕ) → load_u64 mem a ≡ word_at mem a
unfolding load_u64 load_bytes
load-word_at mem a =
    let m2 : mem (a + 1 + 1) ≡ mem (a + 2) = ap mem (omega arith) in
    let m3 : mem (a + 1 + 1 + 1) ≡ mem (a + 3) = ap mem (omega arith) in
    let m4 : mem (a + 1 + 1 + 1 + 1) ≡ mem (a + 4) = ap mem (omega arith) in
    let m5 : mem (a + 1 + 1 + 1 + 1 + 1) ≡ mem (a + 5) = ap mem (omega arith) in
    let m6 : mem (a + 1 + 1 + 1 + 1 + 1 + 1) ≡ mem (a + 6) = ap mem (omega arith) in
    let m7 : mem (a + 1 + 1 + 1 + 1 + 1 + 1 + 1) ≡ mem (a + 7) = ap mem (omega arith) in
    omega (arith, m2, m3, m4, m5, m6, m7)

slice-text_at : (mem : Memory) (a n : ℕ) → slice mem a n ≡ text_at mem a n
slice-text_at mem a zero = refl
slice-text_at mem a (suc n) = ap (λ bs. mem a ∷ bs) (slice-text_at mem (a + 1) n)

map-on_screen : (cs : List ℕ) → map screen_char cs ≡ on_screen cs
map-on_screen [] = refl
map-on_screen (c ∷ cs) = ap (λ os. screen_char c ∷ os) (map-on_screen cs)

printed-shown_as : (bytes : List ℕ) → printed bytes ≡ shown_as bytes (from_utf8 bytes)
unfolding printed
printed-shown_as bytes = by_decoding (from_utf8 bytes)
  where
    by_decoding :
        (o : Option (List ℕ))
        → elim o [
          | some chars ↦ map screen_char chars ++ (serial_text chars ∷ [])
          | none ↦ map screen_char bytes
        ]
          ≡ shown_as bytes o
    by_decoding none = map-on_screen bytes
    by_decoding (some chars) = rw (map-on_screen chars) refl

module _ (mem : Memory) (iov : ℕ) where
  no_wrap : (i : ℕ) → iov + (i + 1) * 16 ≤ 2 ^ 64 → u64 (iov + u64 (i * 16)) ≡ iov + i * 16
  no_wrap i h = omega arith

  entry_base-iov_base :
      (i : ℕ) → iov + (i + 1) * 16 ≤ 2 ^ 64 → entry_base mem iov i ≡ iov_base mem (iov + i * 16)
  entry_base-iov_base i h = ap (load_u64 mem) (no_wrap i h) ∙ load-word_at mem (iov + i * 16)

  entry_len-iov_len :
      (i : ℕ) → iov + (i + 1) * 16 ≤ 2 ^ 64 → entry_len mem iov i ≡ iov_len mem (iov + i * 16)
  entry_len-iov_len i h =
      ap (λ a. load_u64 mem (a + 8)) (no_wrap i h) ∙ load-word_at mem (iov + i * 16 + 8)

  printed_entries-texts :
      (rounds i : ℕ)
      → iov + (i + rounds) * 16 ≤ 2 ^ 64
      → printed_entries mem iov rounds i ≡ texts mem (iov + i * 16) rounds
  printed_entries-texts zero i h = refl
  printed_entries-texts (suc rounds) i h =
      let base = entry_base-iov_base i (omega arith) in
      let len = entry_len-iov_len i (omega arith) in
      let rest = printed_entries-texts rounds (i + 1) (omega arith) in
      let next : iov + (i + 1) * 16 ≡ iov + i * 16 + 16 = omega arith in
      rw (base, len, slice-text_at, printed-shown_as, rest, next) refl

  total_len-lengths :
      (rounds i : ℕ)
      → iov + (i + rounds) * 16 ≤ 2 ^ 64
      → total_len mem iov rounds i ≡ lengths mem (iov + i * 16) rounds
  total_len-lengths zero i h = refl
  total_len-lengths (suc rounds) i h =
      let len = entry_len-iov_len i (omega arith) in
      let rest = total_len-lengths rounds (i + 1) (omega arith) in
      let next : iov + (i + 1) * 16 ≡ iov + i * 16 + 16 = omega arith in rw (len, rest, next) refl

-- What `sys_writev` is to do with a vector of `iovcnt` entries at `iov`.
abbrev pub written : Kernel → ℕ → ℕ → ℕ → ℕ × Kernel
written k fd iov iovcnt =
    if fd == 1 || fd == 2
    then (lengths k.memory iov iovcnt, emit k (texts k.memory iov iovcnt))
    else (if iovcnt == 0 then 0 else 2 ^ 64 - 9, k)

-- For a vector that ends within the addresses, whose entries are a pointer and a length each, with
-- lengths that add up to less than 2^63: to standard output and error sys_writev shows the texts at
-- the pointers in their order, each on the screen and, when it is UTF-8, on the serial port, and
-- returns the total length. On any other descriptor it shows nothing, and fails with EBADF unless
-- there is no entry to write.
pub sys_writev_lem :
    (k : Kernel) (fd iov iovcnt : ℕ)
    → iov + iovcnt * 16 ≤ 2 ^ 64
    → lengths k.memory iov iovcnt < 2 ^ 63
    → sys_writev k fd iov iovcnt ≡ written k fd iov iovcnt
sys_writev_lem k fd iov iovcnt inside fits =
    let start : iov + 0 * 16 ≡ iov = omega arith in
    let len =
      total_len-lengths k.memory iov iovcnt 0 (omega arith)
      ∙ ap (λ a. lengths k.memory a iovcnt) start in
    let shown =
      printed_entries-texts k.memory iov iovcnt 0 (omega arith)
      ∙ ap (λ a. texts k.memory a iovcnt) start in
    elim (Bool-cases (fd == 1 || fd == 2)) [
      | inl e ↦ rw e (
          sys_writev-terminal k fd iov iovcnt (ground arith) (omega (arith, len))
          ∙ rw (len, shown) refl)
      | inr e ↦ rw e (sys_writev-bad_descriptor k fd iov iovcnt (λ h. ground arith) ∙ refl)
    ]
