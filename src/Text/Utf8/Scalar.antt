-- ===== src/Text/Utf8/Scalar.antt =====
-- An independent description of UTF-8: the encoding of Unicode scalar values, by division.
use opentelemetry_php_distro.Prelude.{
  ℕ, ◌+◌, ◌/◌, ◌%◌, ◌≤◌, ◌<◌, ◌⊎◌, List, [], ◌∷◌, ◌++◌, ltb, if◌then◌else◌,
}

-- A code point that is no surrogate.
abbrev pub IsScalar : ℕ → Type 0
IsScalar u = (u < 0xD800) ⊎ ((0xE000 ≤ u) × (u < 0x110000))

abbrev pub encode : ℕ → List ℕ
encode u =
    if ltb u 0x80
    then u ∷ []
    else if ltb u 0x800
    then (0xC0 + u / 0x40) ∷ (0x80 + u % 0x40) ∷ []
    else if ltb u 0x10000
    then (0xE0 + u / 0x1000) ∷ (0x80 + u / 0x40 % 0x40) ∷ (0x80 + u % 0x40) ∷ []
    else (0xF0 + u / 0x40000)
      ∷ (0x80 + u / 0x1000 % 0x40)
      ∷ (0x80 + u / 0x40 % 0x40)
      ∷ (0x80 + u % 0x40)
      ∷ []

abbrev pub encode_all : List ℕ → List ℕ
encode_all [] = []
encode_all (u ∷ us) = encode u ++ encode_all us
