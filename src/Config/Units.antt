-- ===== src/Config/Units.antt =====
-- parseByteUnits, convertDurationWithUnit and parseBoolean of
-- prod/native/libcommon/code/CommonUtils.cpp. Texts are byte strings without a null byte. The
-- floating-point arithmetic of durations (std::stod and duration_cast) is a parameter.
pub mod Laws
use opentelemetry_php_distro.Prelude.{
  ℕ, zero, suc, ◌+◌, ◌-◌, ◌*◌, ◌/◌, ◌%◌, Bool, true, false, ◌&&◌, ◌||◌, List, [], ◌∷◌, ◌++◌, Option,
  none, some, ltb, ◌==◌, bytes_beq, codes, word_mod, sub_word, if◌then◌else◌,
}
use opentelemetry_php_distro.Text.Chars.{ci_eq, trim, is_space}
use opentelemetry_php_distro.Text.RetryAfter.{Parsed, scan_digits, finish, digit}

-- A value, or the exception that left the function.
pub data Parse {ℓ} (A : Type ℓ) : Type ℓ where
  parsed : A → Parse A
  invalid_argument out_of_range : Parse A

unfoldable pub remove_spaces : List ℕ → List ℕ
unfolding is_space
remove_spaces [] = []
remove_spaces (c ∷ s) = let rest = remove_spaces s in if is_space c then rest else c ∷ rest

-- s.substr(s.find_first_not_of(accepted))
unfoldable pub find_first_not_of : (ℕ → Bool) → List ℕ → List ℕ
find_first_not_of accepted [] = []
find_first_not_of accepted (c ∷ s) = if accepted c then find_first_not_of accepted s else c ∷ s

-- std::stoul of a text without spaces: no digits, or a magnitude that does not fit.
unfoldable pub unsigned : Bool → List ℕ → Parse ℕ
unfolding scan_digits
unsigned negative s =
    let (v, n) = scan_digits 0 0 s in
    if n == 0
    then invalid_argument
    else if ltb v word_mod
    then parsed (if negative then sub_word 0 v else v)
    else out_of_range

unfoldable pub stoul : List ℕ → Parse ℕ
unfolding unsigned
stoul [] = invalid_argument
stoul (c ∷ s) =
    if c == b'-'
    then unsigned true s
    else if c == b'+'
    then unsigned false s
    else unsigned false (c ∷ s)

unfoldable pub byte_unit : List ℕ → Option ℕ
byte_unit unit =
    if ci_eq unit (codes "b")
    then some 1
    else if ci_eq unit (codes "kb")
    then some 1024
    else if ci_eq unit (codes "mb")
    then some (1024 * 1024)
    else if ci_eq unit (codes "gb")
    then some (1024 * 1024 * 1024)
    else none

-- The unit, none if the text ends with its number; the product is a std::size_t.
unfoldable pub with_unit : ℕ → List ℕ → Parse ℕ
unfolding byte_unit
with_unit value [] = parsed value
with_unit value (c ∷ s) = elim (byte_unit (c ∷ s)) [
  | none ↦ invalid_argument
  | some factor ↦ parsed ((value * factor) % word_mod)
]

unfoldable pub parse_byte_units : List ℕ → Parse ℕ
parse_byte_units text =
    let s = remove_spaces text in
    elim (stoul s) [
      | parsed value ↦ with_unit value (find_first_not_of digit s)
      | invalid_argument ↦ invalid_argument
      | out_of_range ↦ out_of_range
    ]

-- std::stod, and duration_cast to milliseconds from milliseconds, seconds and minutes.
pub record Float : Type 1 where
  pub Double : Type 0
  pub stod : List ℕ → Parse Double
  pub from_millis : Double → ℕ
  pub from_seconds : Double → ℕ
  pub from_minutes : Double → ℕ

abbrev pub digit_or_dot : ℕ → Bool
digit_or_dot c = digit c || c == b'.'

unfoldable pub in_unit : (f : Float) → f.Double → List ℕ → Parse ℕ
in_unit f value [] = parsed (f.from_millis value)
in_unit f value (c ∷ s) =
    if bytes_beq (c ∷ s) (codes "ms")
    then parsed (f.from_millis value)
    else if bytes_beq (c ∷ s) (codes "s")
    then parsed (f.from_seconds value)
    else if bytes_beq (c ∷ s) (codes "m")
    then parsed (f.from_minutes value)
    else invalid_argument

unfoldable pub convert_duration_with_unit : Float → List ℕ → Parse ℕ
unfolding in_unit
convert_duration_with_unit f text =
    let s = remove_spaces text in
    elim (f.stod s) [
      | parsed value ↦ in_unit f value (find_first_not_of digit_or_dot s)
      | invalid_argument ↦ invalid_argument
      | out_of_range ↦ out_of_range
    ]

-- std::from_chars into an int, which reads a minus but neither spaces nor a plus.
abbrev from_chars : List ℕ → Option Parsed
from_chars [] = none
from_chars (c ∷ s) = if c == b'-' then finish true 1 s else finish false 0 (c ∷ s)

abbrev is_true_word : List ℕ → Bool
is_true_word value =
    ci_eq (codes "true") value || (ci_eq (codes "yes") value || ci_eq (codes "on") value)

unfoldable pub parse_number : List ℕ → Bool
unfolding finish
parse_number value = elim (from_chars value) [
  | none ↦ false
  | some p ↦ if p.magnitude == 0 then false else true
]

unfoldable pub parse_boolean : List ℕ → Bool
unfolding parse_number
parse_boolean val = elim (trim val) [
  | [] ↦ false
  | c ∷ s ↦ if is_true_word (c ∷ s) then true else parse_number (c ∷ s)
]

-- std::to_string of an unsigned number; the fuel is the number itself.
unfoldable pub decimal_digits : ℕ → ℕ → List ℕ
decimal_digits zero n = (b'0' + n) ∷ []
decimal_digits (suc fuel) n =
    let rest = decimal_digits fuel (n / 10) in
    if ltb n 10 then (b'0' + n) ∷ [] else rest ++ ((b'0' + n % 10) ∷ [])

abbrev pub to_string : ℕ → List ℕ
to_string n = decimal_digits n n
