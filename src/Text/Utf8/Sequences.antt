-- ===== src/Text/Utf8/Sequences.antt =====
-- The multi-byte sequences that isUtf8 accepts, and the scalar values they encode.
use opentelemetry_php_distro.Prelude.{
  ℕ, ◌+◌, ◌-◌, ◌*◌, ◌≤◌, ◌<◌, ◌≡◌, inl, true, List, [], ◌∷◌, arith, IsByte,
}
use opentelemetry_php_distro.Text.Utf8.{multibyte}
use opentelemetry_php_distro.Text.Utf8.Bits.{
  not_continuation_order, following_order, overlong_two, overlong_three, overlong_four,
}
use opentelemetry_php_distro.Text.Utf8.Scalar.{IsScalar, encode}

-- The bytes of one multi-byte sequence, by its length.
abbrev pub Two : ℕ → ℕ → Type 0
Two c d = (0xC2 ≤ c) × (c < 0xE0) × (0x80 ≤ d) × (d < 0xC0)

pub two :
    (c d : ℕ) (rest : List ℕ)
    → 0xC0 ≤ c
    → c < 0xE0
    → IsByte d
    → multibyte c (d ∷ rest) ≡ true
    → Two c d
unfolding multibyte
two c d rest h k b m =
    ground (arith, following_order c, not_continuation_order d b, overlong_two c h k)

pub Two-multibyte : (c d : ℕ) (rest : List ℕ) → Two c d → multibyte c (d ∷ rest) ≡ true
unfolding multibyte
Two-multibyte c d rest h =
    ground (arith, following_order c, not_continuation_order d, overlong_two c)

abbrev pub Three : ℕ → ℕ → ℕ → Type 0
Three c d e =
    (0xE0 ≤ c)
    × (c < 0xF0)
    × (0x80 ≤ d)
    × (d < 0xC0)
    × (0x80 ≤ e)
    × (e < 0xC0)
    × (c ≡ 0xE0 → 0xA0 ≤ d)
    × (c ≡ 0xED → d < 0xA0)

pub three :
    (c d e : ℕ) (rest : List ℕ)
    → 0xE0 ≤ c
    → c < 0xF0
    → IsByte d
    → IsByte e
    → multibyte c (d ∷ e ∷ rest) ≡ true
    → Three c d e
unfolding multibyte
three c d e rest h k b b' m = ground (
  arith,
  following_order c,
  not_continuation_order d b,
  not_continuation_order e b',
  overlong_three d,
)

pub Three-multibyte : (c d e : ℕ) (rest : List ℕ) → Three c d e → multibyte c (d ∷ e ∷ rest) ≡ true
unfolding multibyte
Three-multibyte c d e rest h =
    ground (
      arith,
      following_order c,
      not_continuation_order d,
      not_continuation_order e,
      overlong_three d,
    )

abbrev pub Four : ℕ → ℕ → ℕ → ℕ → Type 0
Four c d e f =
    (0xF0 ≤ c)
    × (c < 0xF5)
    × (0x80 ≤ d)
    × (d < 0xC0)
    × (0x80 ≤ e)
    × (e < 0xC0)
    × (0x80 ≤ f)
    × (f < 0xC0)
    × (c ≡ 0xF0 → 0x90 ≤ d)
    × (c ≡ 0xF4 → d < 0x90)

pub four :
    (c d e f : ℕ) (rest : List ℕ)
    → 0xF0 ≤ c
    → c < 0xF5
    → IsByte d
    → IsByte e
    → IsByte f
    → multibyte c (d ∷ e ∷ f ∷ rest) ≡ true
    → Four c d e f
unfolding multibyte
four c d e f rest h k b b' b'' m = ground (
  arith,
  following_order c,
  not_continuation_order d b,
  not_continuation_order e b',
  not_continuation_order f b'',
  overlong_four d,
)

pub Four-multibyte :
    (c d e f : ℕ) (rest : List ℕ) → Four c d e f → multibyte c (d ∷ e ∷ f ∷ rest) ≡ true
unfolding multibyte
Four-multibyte c d e f rest h = ground (
  arith,
  following_order c,
  not_continuation_order d,
  not_continuation_order e,
  not_continuation_order f,
  overlong_four d,
)

-- An accepted sequence is the encoding of a scalar value, and the converse.
pub Two-encode : (c d : ℕ) → Two c d → (u : ℕ) × IsScalar u × (encode u ≡ c ∷ d ∷ [])
Two-encode c d h = ((c - 0xC0) * 0x40 + (d - 0x80), inl (omega arith), ground arith)

pub Three-encode : (c d e : ℕ) → Three c d e → (u : ℕ) × IsScalar u × (encode u ≡ c ∷ d ∷ e ∷ [])
Three-encode c d e h =
    ((c - 0xE0) * 0x1000 + (d - 0x80) * 0x40 + (e - 0x80), ground arith, ground arith)

pub Four-encode :
    (c d e f : ℕ) → Four c d e f → (u : ℕ) × IsScalar u × (encode u ≡ c ∷ d ∷ e ∷ f ∷ [])
Four-encode c d e f h = (
  (c - 0xF0) * 0x40000 + (d - 0x80) * 0x1000 + (e - 0x80) * 0x40 + (f - 0x80),
  ground arith,
  ground arith,
)
