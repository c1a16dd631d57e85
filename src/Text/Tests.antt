-- ===== src/Text/Tests.antt =====
-- Runs of the text routines, and their theorems at concrete texts.
use opentelemetry_php_distro.Prelude.{
  ℕ, ◌≡◌, refl, ◌↔◌, inl, inr, true, false, List, [], ◌∷◌, arith, codes, All,
}
use opentelemetry_php_distro.Text.Utf8.{is_utf8}
use opentelemetry_php_distro.Text.Utf8.Scalar.{IsScalar, encode_all}
use opentelemetry_php_distro.Text.Utf8.Correct.{is_utf8_correct}
use opentelemetry_php_distro.Text.Chars.{to_upper, ci_starts_with}
use opentelemetry_php_distro.Text.Percent.{percent_decode, parse_url_encoded_key_value_string}
use opentelemetry_php_distro.Text.Percent.Laws.{
  Encodes, done, plain, escaped, percent_decode-Encodes,
}

-- The euro sign, a surrogate, and an overlong slash.
euro : is_utf8 (0xE2 ∷ 0x82 ∷ 0xAC ∷ b'.' ∷ []) ≡ true
unfolding is_utf8
euro = refl

surrogate : is_utf8 (0xED ∷ 0xA0 ∷ 0x80 ∷ []) ≡ false
unfolding is_utf8
surrogate = refl

overlong : is_utf8 (0xC0 ∷ 0xAF ∷ []) ≡ false
unfolding is_utf8
overlong = refl

truncated : is_utf8 (0xF0 ∷ 0x9F ∷ 0x98 ∷ []) ≡ false
unfolding is_utf8
truncated = refl

is_utf8_correct_example :
    (is_utf8 (0xC3 ∷ 0xA9 ∷ []) ≡ true)
    ↔ ((us : List ℕ) × All IsScalar us × ((0xC3 ∷ 0xA9 ∷ []) ≡ encode_all us))
is_utf8_correct_example = is_utf8_correct (0xC3 ∷ 0xA9 ∷ []) (omega arith)

retry_header : ci_starts_with (codes "retry-after: 12") (codes "Retry-After: ") ≡ true
unfolding ci_starts_with to_upper
retry_header = refl

-- A pair without '=' is skipped, and so is one whose key is there already.
pairs : parse_url_encoded_key_value_string (codes "a=x%20y,b,a=z") ≡ (codes "a", codes "x y") ∷ []
unfolding parse_url_encoded_key_value_string
pairs = refl

-- "J/%" with one escape of each case.
encoded : Encodes (codes "J%2f%25") (codes "J/%")
encoded = plain b'J' refl (
    escaped b'/' b'2' b'f' (omega arith) (inr refl) (inr refl)
      (escaped b'%' b'2' b'5' (omega arith) (inl refl) (inl refl) done))

percent_decode-Encodes_example : percent_decode (codes "J%2f%25") ≡ codes "J/%"
percent_decode-Encodes_example = percent_decode-Encodes encoded
