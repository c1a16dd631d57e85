-- ===== src/Text/RetryAfter/Laws.antt =====
-- A decimal number of seconds is read back exactly; everything else is left to the date.
use opentelemetry_php_distro.Prelude.{
  ℕ, suc, ◌+◌, ◌-◌, ◌*◌, ◌^◌, ◌<◌, ◌≡◌, true, List, [], ◌∷◌, Option, some, length, All, arith,
}
use opentelemetry_php_distro.Text.Chars.{is_space}
use opentelemetry_php_distro.Text.RetryAfter.{digit, scan_digits, parse_retry_after}

abbrev pub AreDigits : List ℕ → Type 0
AreDigits s = All (λ c. digit c ≡ true) s

-- The value of a text of digits.
abbrev pub decimal : ℕ → List ℕ → ℕ
decimal acc [] = acc
decimal acc (c ∷ s) = decimal (acc * 10 + (c - b'0')) s

pub scan_all :
    (acc n : ℕ) (s : List ℕ) → AreDigits s → scan_digits acc n s ≡ (decimal acc s, n + length s)
unfolding scan_digits
scan_all acc n [] a = ground arith
scan_all acc n (c ∷ s) a = rw (a.0, scan_all (acc * 10 + (c - b'0')) (suc n) s a.1) (ground arith)

-- Digits that fit an int are taken as seconds, whatever the date parser makes of them.
pub parse_retry_after_digits :
    (parse_date : List ℕ → Option ℕ) (now c : ℕ) (s : List ℕ)
    → AreDigits (c ∷ s)
    → decimal 0 (c ∷ s) < 2 ^ 31
    → parse_retry_after parse_date now (c ∷ s) ≡ some (decimal 0 (c ∷ s) * 1000)
unfolding parse_retry_after is_space
parse_retry_after_digits parse_date now c s a h = ground (arith, scan_all 0 0 (c ∷ s) a)
