-- ===== src/Text/Utf8.antt =====
-- isUtf8 of prod/native/libcommon/code/CommonUtils.cpp: the table-driven validator.
pub mod Bits
pub mod Scalar
pub mod Sequences
pub mod Correct
use Prim.Native.Nat.{bit_and}
use opentelemetry_php_distro.Prelude.{
  ℕ, zero, suc, Bool, true, false, not, ◌&&◌, ◌||◌, List, [], ◌∷◌, ltb, leb, ◌==◌, length, drop,
  if◌then◌else◌,
}

-- Reading a byte that the length test has shown to be there; 0 stands for a read past the end.
abbrev byte_at : List ℕ → ℕ → ℕ
byte_at [] i = 0
byte_at (b ∷ s) zero = b
byte_at (b ∷ s) (suc i) = byte_at s i

-- The table of the bytes that follow, by the lower six bits of the first byte.
abbrev utf8_table : List ℕ
utf8_table =
    1 ∷ 1 ∷ 1 ∷ 1 ∷ 1 ∷ 1 ∷ 1 ∷ 1 ∷ 1 ∷ 1 ∷ 1 ∷ 1 ∷ 1 ∷ 1 ∷ 1 ∷ 1 ∷ 1 ∷ 1 ∷ 1 ∷ 1 ∷ 1 ∷ 1 ∷ 1 ∷ 1
    ∷ 1 ∷ 1 ∷ 1 ∷ 1 ∷ 1 ∷ 1 ∷ 1 ∷ 1 ∷ 2 ∷ 2 ∷ 2 ∷ 2 ∷ 2 ∷ 2 ∷ 2 ∷ 2 ∷ 2 ∷ 2 ∷ 2 ∷ 2 ∷ 2 ∷ 2 ∷ 2 ∷ 2
    ∷ 3 ∷ 3 ∷ 3 ∷ 3 ∷ 3 ∷ 3 ∷ 3 ∷ 3 ∷ []

pub following : ℕ → ℕ
following c = byte_at utf8_table (bit_and c 0x3F)

pub not_continuation : ℕ → Bool
not_continuation d = not (bit_and d 0xC0 == 0x80)

-- The switch on the number of following bytes: true where the source returns false.
switch_rejects : ℕ → ℕ → ℕ → List ℕ → Bool
switch_rejects ab c d rest =
    if ab == 1
    then bit_and c 0x3E == 0
    else if ab == 2
    then not_continuation (byte_at rest 1)
      || ((c == 0xE0 && bit_and d 0x20 == 0) || (c == 0xED && leb 0xA0 d))
    else if ab == 3
    then not_continuation (byte_at rest 1)
      || (not_continuation (byte_at rest 2)
          || ((c == 0xF0 && bit_and d 0x30 == 0) || (ltb 0xF4 c || (c == 0xF4 && ltb 0x8F d))))
    else false

-- The part of an iteration for a first byte from 0x80 on: false where it returns false.
pub multibyte : ℕ → List ℕ → Bool
unfolding switch_rejects
multibyte c rest =
    if ltb c 0xC0 || leb 0xF5 c
    then false
    else if ltb (length rest) (following c)
    then false
    else if not_continuation (byte_at rest 0)
    then false
    else not (switch_rejects (following c) c (byte_at rest 0) rest)

-- The loop. Each iteration takes a byte at least, so the length of the input is fuel enough.
utf8_loop : ℕ → List ℕ → Bool
utf8_loop fuel [] = true
utf8_loop zero (c ∷ rest) = false
utf8_loop (suc fuel) (c ∷ rest) = elim (ltb c 0x80) [
  | true ↦ utf8_loop fuel rest
  | false ↦ elim (multibyte c rest) [
    | true ↦ utf8_loop fuel (drop (following c) rest)
    | false ↦ false
  ]
]

unfoldable pub is_utf8 : List ℕ → Bool
unfolding utf8_loop multibyte switch_rejects following not_continuation
is_utf8 input = utf8_loop (length input) input
