-- ===== src/Syscalls/Utf8.antt =====
-- `core::str::from_utf8` and `chars`, as `sys_write` of kernel/src/syscalls.rs uses them: the code
-- points of a byte string, or nothing where it is not well-formed UTF-8.
use cat.Common.{ℕ, zero, suc, ◌+◌, ◌-◌, ◌*◌, Bool, ◌&&◌, Option, none, some, List}
use cat.Common.{[], ◌∷◌, leb, ltb, if◌then◌else◌, length}
use mathlib.Core.Option

abbrev between : ℕ → ℕ → ℕ → Bool
between lo hi b = leb lo b && leb b hi

-- The second byte that may follow a lead byte of three or four bytes.
second_byte : ℕ → ℕ → Bool
second_byte lead b =
    if leb lead 0xe0
    then between 0xa0 0xbf b
    else if leb 0xed lead && leb lead 0xed
    then between 0x80 0x9f b
    else if leb 0xf0 lead && leb lead 0xf0
    then between 0x90 0xbf b
    else if leb 0xf4 lead
    then between 0x80 0x8f b
    else between 0x80 0xbf b

-- The first code point and the bytes after it.
next_char : List ℕ → Option (ℕ × List ℕ)
unfolding second_byte
next_char [] = none
next_char (a ∷ []) = if ltb a 0x80 then some (a, []) else none
next_char (a ∷ b ∷ []) =
    if ltb a 0x80
    then some (a, b ∷ [])
    else if between 0xc2 0xdf a && between 0x80 0xbf b
    then some ((a - 0xc0) * 64 + (b - 0x80), [])
    else none
next_char (a ∷ b ∷ c ∷ []) =
    if ltb a 0x80
    then some (a, b ∷ c ∷ [])
    else if between 0xc2 0xdf a && between 0x80 0xbf b
    then some ((a - 0xc0) * 64 + (b - 0x80), c ∷ [])
    else if between 0xe0 0xef a && second_byte a b && between 0x80 0xbf c
    then some ((a - 0xe0) * 4096 + (b - 0x80) * 64 + (c - 0x80), [])
    else none
next_char (a ∷ b ∷ c ∷ d ∷ rest) =
    if ltb a 0x80
    then some (a, b ∷ c ∷ d ∷ rest)
    else if between 0xc2 0xdf a && between 0x80 0xbf b
    then some ((a - 0xc0) * 64 + (b - 0x80), c ∷ d ∷ rest)
    else if between 0xe0 0xef a && second_byte a b && between 0x80 0xbf c
    then some ((a - 0xe0) * 4096 + (b - 0x80) * 64 + (c - 0x80), d ∷ rest)
    else if between 0xf0 0xf4 a && second_byte a b && between 0x80 0xbf c && between 0x80 0xbf d
    then some ((a - 0xf0) * 262144 + (b - 0x80) * 4096 + (c - 0x80) * 64 + (d - 0x80), rest)
    else none

-- Every round takes a byte at least, so as many rounds as bytes are enough.
decode : ℕ → List ℕ → Option (List ℕ)
unfolding next_char
decode fuel [] = some []
decode zero (b ∷ bytes) = none
decode (suc fuel) (b ∷ bytes) = elim (next_char (b ∷ bytes)) [
  | none ↦ none
  | some (c, rest) ↦ Option.map (λ cs. c ∷ cs) (decode fuel rest)
]

unfoldable pub from_utf8 : List ℕ → Option (List ℕ)
unfolding decode
from_utf8 bytes = decode (length bytes) bytes
