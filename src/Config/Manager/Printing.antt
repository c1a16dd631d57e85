-- ===== src/Config/Manager/Printing.antt =====
-- The text of an option's value is read back as that value.
use opentelemetry_php_distro.Prelude.{
  ℕ, ◌≡◌, ◌∙◌, inl, ◌≤◌, ◌<◌, ◌+◌, ◌/◌, ◌%◌, zero, suc, length, length-append, refl, sym, Bool,
  true, false, List, [], ◌∷◌, some, word_mod, arith, append-nil,
}
use opentelemetry_php_distro.Text.Chars.{is_space, trim, to_upper, ci_eq}
use opentelemetry_php_distro.Text.RetryAfter.{finish}
use opentelemetry_php_distro.Text.RetryAfter.Laws.{AreDigits, decimal}
use opentelemetry_php_distro.Config.Level.{
  LogLevel, off, critical, error, warning, info, debug, trace, get_log_level_name, parse_log_level,
}
use opentelemetry_php_distro.Config.Units.{
  parsed, Float, remove_spaces, find_first_not_of, convert_duration_with_unit, parse_boolean,
  parse_number, to_string, parse_byte_units, decimal_digits, digit_or_dot,
}
use opentelemetry_php_distro.Config.Units.Laws.{to_string_lem, parse_byte_units_lem}
use opentelemetry_php_distro.Config.Options.{
  OptionType, boolean, string, duration, loglevel, bytes, Value, boolean_value, string_value,
  duration_value, loglevel_value, bytes_value,
}
use opentelemetry_php_distro.Config.Manager.{convert, access_option_string_value}

abbrev pub type_of : Value → OptionType
type_of (boolean_value b) = boolean
type_of (string_value s) = string
type_of (duration_value ms) = duration
type_of (loglevel_value level) = loglevel
type_of (bytes_value n) = bytes

-- Of a size: it fits 64 bits. Of a duration: the floating-point routines read its digits as that
-- number of milliseconds.
abbrev pub IsReadable : Float → Value → Type 0
IsReadable f (boolean_value b) = Unit {0}
IsReadable f (string_value s) = Unit {0}
IsReadable f (duration_value ms) =
    (x : f.Double) × (f.stod (to_string ms) ≡ parsed x) × (f.from_millis x ≡ ms)
IsReadable f (loglevel_value level) = Unit {0}
IsReadable f (bytes_value n) = n < word_mod

digits-remove_spaces : (ds : List ℕ) → AreDigits ds → remove_spaces ds ≡ ds
unfolding remove_spaces is_space
digits-remove_spaces [] a = refl
digits-remove_spaces (d ∷ ds) a = ground (arith, a.0, digits-remove_spaces ds a.1)

digits_are_number : (ds : List ℕ) → AreDigits ds → find_first_not_of digit_or_dot ds ≡ []
unfolding find_first_not_of
digits_are_number [] a = refl
digits_are_number (d ∷ ds) a = ground (arith, a.0, digits_are_number ds a.1)

some_digit : (fuel n : ℕ) → 1 ≤ length (decimal_digits fuel n)
unfolding decimal_digits
some_digit zero n = omega arith
some_digit (suc fuel) n =
    ground (arith, length-append (decimal_digits fuel (n / 10)) ((b'0' + n % 10) ∷ []))

bytes-to_string :
    (n : ℕ) (text : List ℕ)
    → AreDigits text
    → decimal 0 text ≡ n
    → n < word_mod
    → 1 ≤ length text
    → parse_byte_units text ≡ parsed n
bytes-to_string n [] a d h l = absurd (omega arith)
bytes-to_string n (c ∷ s) a d h l =
    parse_byte_units_lem (c ∷ s) c s [] 1
      (digits-remove_spaces (c ∷ s) a ∙ sym (append-nil (c ∷ s))) a tt (inl (refl, refl))
    ∙ ground arith

booleans_read : (b : Bool) → parse_boolean (access_option_string_value (boolean_value b)) ≡ b
unfolding access_option_string_value parse_boolean trim is_space to_upper ci_eq parse_number finish
booleans_read true = refl
booleans_read false = refl

duration-to_string :
    (f : Float) (ms : ℕ)
    → IsReadable f (duration_value ms)
    → convert_duration_with_unit f (to_string ms) ≡ parsed ms
unfolding convert_duration_with_unit
duration-to_string f ms (x, e, v) =
    let a = (to_string_lem ms).1 in
    rw
      (
        digits-remove_spaces (to_string ms) a,
        convert_duration_with_unit,
        e,
        digits-remove_spaces (to_string ms) a,
        digits_are_number (to_string ms) a,
        v,
      )
      refl

levels_read : (level : LogLevel) → parse_log_level (trim (get_log_level_name level)) ≡ some level
unfolding parse_log_level trim get_log_level_name to_upper is_space ci_eq
levels_read off = refl
levels_read critical = refl
levels_read error = refl
levels_read warning = refl
levels_read info = refl
levels_read debug = refl
levels_read trace = refl

-- What accessOptionStringValueByMetadata prints of a readable value is converted to that value.
pub convert-access_option_string_value :
    (f : Float) (v : Value)
    → IsReadable f v
    → convert f (type_of v) (access_option_string_value v) ≡ parsed v
unfolding convert access_option_string_value
convert-access_option_string_value f (boolean_value b) r = rw (booleans_read b, convert) refl
convert-access_option_string_value f (string_value s) r = refl
convert-access_option_string_value f (duration_value ms) r =
    rw (duration-to_string f ms r, convert) refl
convert-access_option_string_value f (loglevel_value level) r = rw (levels_read level, convert) refl
convert-access_option_string_value f (bytes_value n) r =
    rw
      (
        bytes-to_string n (to_string n) (to_string_lem n).1 (to_string_lem n).0 r (some_digit n n),
        convert,
      )
      refl
