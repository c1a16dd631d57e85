-- ===== src/Text/RetryAfter.antt =====
-- parseRetryAfter of prod/native/libcommon/code/CommonUtils.cpp. std::get_time and the calendar
-- arithmetic after it are the parameter `parse_date`: the seconds since the epoch of an HTTP date.
pub mod Laws
use opentelemetry_php_distro.Prelude.{
  ℕ, zero, suc, ◌+◌, ◌-◌, ◌*◌, ◌^◌, Bool, true, false, ◌&&◌, List, [], ◌∷◌, Option, none, some, ltb,
  leb, ◌==◌, length, if◌then◌else◌,
}
use opentelemetry_php_distro.Text.Chars.{is_space}

abbrev pub digit : ℕ → Bool
digit c = leb b'0' c && leb c b'9'

-- The digits at the front of a text: their value after `acc`, and how many there are.
unfoldable pub scan_digits : ℕ → ℕ → List ℕ → ℕ × ℕ
scan_digits acc n [] = (acc, n)
scan_digits acc n (c ∷ s) =
    let rest = scan_digits (acc * 10 + (c - b'0')) (suc n) s in if digit c then rest else (acc, n)

-- What std::stoi returns: the magnitude and sign, and the index behind the number. `none` is an
-- exception: no digits, or a value out of the range of int.
pub record Parsed : Type 0 where
  pub negative : Bool
  pub magnitude : ℕ
  pub index : ℕ

abbrev int_limit : Bool → ℕ
int_limit false = 2 ^ 31 - 1
int_limit true = 2 ^ 31

unfoldable pub finish : Bool → ℕ → List ℕ → Option Parsed
unfolding scan_digits
finish negative start s =
    let (v, n) = scan_digits 0 0 s in
    if n == 0
    then none
    else if ltb (int_limit negative) v
    then none
    else some (record { negative = negative; magnitude = v; index = start + n })

after_spaces : ℕ → List ℕ → Option Parsed
unfolding finish
after_spaces start [] = none
after_spaces start (c ∷ s) =
    if c == b'-'
    then finish true (suc start) s
    else if c == b'+'
    then finish false (suc start) s
    else finish false start (c ∷ s)

pub stoi_from : ℕ → List ℕ → Option Parsed
unfolding after_spaces
stoi_from start [] = none
stoi_from start (c ∷ s) =
    let rest = stoi_from (suc start) s in if is_space c then rest else after_spaces start (c ∷ s)

abbrev is_delta : List ℕ → Parsed → Bool
is_delta value p =
    if p.index == length value then (if p.negative then p.magnitude == 0 else true) else false

-- The value in milliseconds; `now` is the clock in whole seconds.
pub parse_retry_after : (List ℕ → Option ℕ) → ℕ → List ℕ → Option ℕ
unfolding stoi_from
parse_retry_after parse_date now value =
    let date = elim (parse_date value) as (λ _. Option ℕ) [
      | none ↦ none
      | some target ↦ if leb target now then some 0 else some ((target - now) * 1000)
    ] in
    elim (stoi_from 0 value) [
      | none ↦ date
      | some p ↦ if is_delta value p then some (p.magnitude * 1000) else date
    ]
