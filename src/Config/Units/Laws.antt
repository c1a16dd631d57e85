-- ===== src/Config/Units/Laws.antt =====
-- Which texts are numbers of bytes, and how a printed number is read back.
use opentelemetry_php_distro.Prelude.{
  ℕ, zero, suc, ◌+◌, ◌-◌, ◌*◌, ◌/◌, ◌%◌, ◌≤◌, ◌<◌, ◌≡◌, refl, ap, ◌∙◌, true, false, List, [], ◌∷◌,
  ◌++◌, map, some, ltb, length, codes, word_mod, arith, ◌⊎◌, inl, inr, Bool-cases, if◌then◌else◌,
}
use opentelemetry_php_distro.Text.Chars.{to_upper}
use opentelemetry_php_distro.Text.Chars.Laws.{ci_eq_iff}
use opentelemetry_php_distro.Text.RetryAfter.{digit, scan_digits}
use opentelemetry_php_distro.Text.RetryAfter.Laws.{AreDigits, decimal}
use opentelemetry_php_distro.Config.Units.{
  parsed, out_of_range, remove_spaces, find_first_not_of, unsigned, stoul, byte_unit, with_unit,
  parse_byte_units, decimal_digits, to_string,
}

-- A unit starts with something that is no digit.
abbrev pub NoDigit : List ℕ → Type 0
NoDigit [] = Unit {0}
NoDigit (c ∷ s) = digit c ≡ false

scan_prefix :
    (acc n : ℕ) (ds unit : List ℕ)
    → AreDigits ds
    → NoDigit unit
    → scan_digits acc n (ds ++ unit) ≡ (decimal acc ds, n + length ds)
unfolding scan_digits
scan_prefix acc n [] [] a h = ground arith
scan_prefix acc n [] (c ∷ s) a h = rw h (ground arith)
scan_prefix acc n (d ∷ ds) unit a h =
    rw (a.0, scan_prefix (acc * 10 + (d - b'0')) (suc n) ds unit a.1 h) (ground arith)

pub skip_digits :
    (ds unit : List ℕ) → AreDigits ds → NoDigit unit → find_first_not_of digit (ds ++ unit) ≡ unit
unfolding find_first_not_of
skip_digits [] [] a h = refl
skip_digits [] (c ∷ s) a h = rw h
skip_digits (d ∷ ds) unit a h = rw (a.0, skip_digits ds unit a.1 h)

stoul_prefix :
    (d : ℕ) (ds unit : List ℕ)
    → AreDigits (d ∷ ds)
    → NoDigit unit
    → stoul ((d ∷ ds) ++ unit)
      ≡ (if ltb (decimal 0 (d ∷ ds)) word_mod then parsed (decimal 0 (d ∷ ds)) else out_of_range)
unfolding stoul unsigned
stoul_prefix d ds unit a h = ground (arith, scan_prefix 0 0 (d ∷ ds) unit a h)

-- The units and their factors; case is ignored.
abbrev pub IsFactor : List ℕ → ℕ → Type 0
IsFactor unit k =
    ((unit ≡ []) × (k ≡ 1))
    ⊎ ((map to_upper unit ≡ codes "B") × (k ≡ 1))
    ⊎ ((map to_upper unit ≡ codes "KB") × (k ≡ 1024))
    ⊎ ((map to_upper unit ≡ codes "MB") × (k ≡ 1024 * 1024))
    ⊎ ((map to_upper unit ≡ codes "GB") × (k ≡ 1024 * 1024 * 1024))

unit_factor : (c k : ℕ) (s : List ℕ) → IsFactor (c ∷ s) k → byte_unit (c ∷ s) ≡ some k
unfolding byte_unit to_upper
unit_factor c k s f = ground (
  arith,
  ci_eq_iff (c ∷ s) (codes "b"),
  ci_eq_iff (c ∷ s) (codes "kb"),
  ci_eq_iff (c ∷ s) (codes "mb"),
  ci_eq_iff (c ∷ s) (codes "gb"),
)

with_unit_lem :
    (value k : ℕ) (unit : List ℕ)
    → value < word_mod
    → IsFactor unit k
    → with_unit value unit ≡ parsed ((value * k) % word_mod)
unfolding with_unit
with_unit_lem value k [] h (inl (e, one)) = ap parsed (rw one (omega arith))
with_unit_lem value k [] h (inr f) = absurd (ground arith)
with_unit_lem value k (c ∷ s) h f = rw (unit_factor c k s f, with_unit)

-- A text that is, without its spaces, digits and a unit: the number times the factor of the unit,
-- modulo 2 ^ 64, if the number fits 64 bits; out of range if it does not, whatever the unit.
pub parse_byte_units_lem :
    (text : List ℕ) (d : ℕ) (ds unit : List ℕ) (k : ℕ)
    → remove_spaces text ≡ (d ∷ ds) ++ unit
    → AreDigits (d ∷ ds)
    → NoDigit unit
    → IsFactor unit k
    → parse_byte_units text ≡ (
        if ltb (decimal 0 (d ∷ ds)) word_mod
        then parsed ((decimal 0 (d ∷ ds) * k) % word_mod)
        else out_of_range)
unfolding parse_byte_units
parse_byte_units_lem text d ds unit k e a n f = ground (
  arith,
  e,
  stoul_prefix d ds unit a n,
  skip_digits (d ∷ ds) unit a n,
  λ (h : decimal 0 (d ∷ ds) < word_mod). with_unit_lem (decimal 0 (d ∷ ds)) k unit h f,
)

decimal-snoc :
    (acc c : ℕ) (s : List ℕ) → decimal acc (s ++ c ∷ []) ≡ decimal acc s * 10 + (c - b'0')
decimal-snoc acc c [] = refl
decimal-snoc acc c (d ∷ s) = decimal-snoc (acc * 10 + (d - b'0')) c s

snoc-AreDigits : (c : ℕ) (s : List ℕ) → AreDigits s → digit c ≡ true → AreDigits (s ++ c ∷ [])
snoc-AreDigits c [] a h = (h, tt)
snoc-AreDigits c (d ∷ s) a h = (a.0, snoc-AreDigits c s a.1 h)

decimal_digits_lem :
    (fuel n : ℕ)
    → n ≤ fuel
    → (decimal 0 (decimal_digits fuel n) ≡ n) × AreDigits (decimal_digits fuel n)
unfolding decimal_digits
decimal_digits_lem zero n h = ground arith
decimal_digits_lem (suc fuel) n h = elim (Bool-cases (ltb n 10)) [
  | inl small ↦ rw small (ground arith, (ground arith, tt))
  | inr large ↦
      let (v, a) = decimal_digits_lem fuel (n / 10) (ground arith) in
      rw large (
        decimal-snoc 0 (b'0' + n % 10) (decimal_digits fuel (n / 10)) ∙ rw v (omega arith),
        snoc-AreDigits (b'0' + n % 10) (decimal_digits fuel (n / 10)) a (ground arith),
      )
]

-- std::to_string prints digits whose value is the number.
pub to_string_lem : (n : ℕ) → (decimal 0 (to_string n) ≡ n) × AreDigits (to_string n)
to_string_lem n = decimal_digits_lem n n (omega arith)
