-- ===== src/Text/Percent/Laws.antt =====
-- Decoding undoes every percent encoding.
use opentelemetry_php_distro.Prelude.{
  ℕ, ◌+◌, ◌-◌, ◌*◌, ◌/◌, ◌%◌, ◌<◌, ◌≡◌, refl, ap, ◌∙◌, true, false, ◌⊎◌, List, [], ◌∷◌, ltb, ◌==◌,
  arith, IsByte, inl, inr, if◌then◌else◌,
}
use opentelemetry_php_distro.Text.Percent.{is_xdigit, hex_value, percent_decode}

-- The hexadecimal digits of a number below 16, upper case and lower case.
abbrev pub upper_digit : ℕ → ℕ
upper_digit n = if ltb n 10 then b'0' + n else b'A' + (n - 10)

abbrev pub lower_digit : ℕ → ℕ
lower_digit n = if ltb n 10 then b'0' + n else b'a' + (n - 10)

abbrev pub IsDigit : ℕ → ℕ → Type 0
IsDigit n d = (d ≡ upper_digit n) ⊎ (d ≡ lower_digit n)

-- The encodings of a text: each byte stands for itself, unless it is the percent sign, or as an
-- escape with two digits.
pub data Encodes : List ℕ → List ℕ → Type 0 where
  done : Encodes [] []
  plain : (c : ℕ) {e s : List ℕ} → (c == b'%') ≡ false → Encodes e s → Encodes (c ∷ e) (c ∷ s)
  escaped :
      (c high low : ℕ) {e s : List ℕ}
      → IsByte c
      → IsDigit (c / 16) high
      → IsDigit (c % 16) low
      → Encodes e s
      → Encodes (b'%' ∷ high ∷ low ∷ e) (c ∷ s)

digit_lem : (n d : ℕ) → n < 16 → IsDigit n d → (is_xdigit d ≡ true) × (hex_value d ≡ n)
digit_lem n d h (inl upper) = ground arith
digit_lem n d h (inr lower) = ground arith

decode_plain :
    (c : ℕ) (s : List ℕ) → (c == b'%') ≡ false → percent_decode (c ∷ s) ≡ c ∷ percent_decode s
unfolding percent_decode
decode_plain c [] h = refl
decode_plain c (a ∷ []) h = refl
decode_plain c (a ∷ b ∷ s) h = rw h refl

decode_escape :
    (c high low : ℕ) (s : List ℕ)
    → IsByte c
    → IsDigit (c / 16) high
    → IsDigit (c % 16) low
    → percent_decode (b'%' ∷ high ∷ low ∷ s) ≡ c ∷ percent_decode s
unfolding percent_decode
decode_escape c high low s h i j =
    let (x, v) = digit_lem (c / 16) high (omega arith) i in
    let (y, w) = digit_lem (c % 16) low (omega arith) j in
    let z : c / 16 * 16 + c % 16 ≡ c = omega arith in rw (x, y, v, w, z) refl

-- percentDecode gives back the text of any encoding of it, in which each byte but the percent sign
-- may stand for itself or be escaped, with digits of either case.
pub percent_decode-Encodes : {e s : List ℕ} → Encodes e s → percent_decode e ≡ s
unfolding percent_decode
percent_decode-Encodes done = refl
percent_decode-Encodes (plain c {e} {s} h r) =
    decode_plain c e h ∙ ap (◌∷◌ c) (percent_decode-Encodes r)
percent_decode-Encodes (escaped c high low {e} {s} h i j r) =
    decode_escape c high low e h i j ∙ ap (◌∷◌ c) (percent_decode-Encodes r)
