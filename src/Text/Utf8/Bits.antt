-- ===== src/Text/Utf8/Bits.antt =====
-- What the bit tests of isUtf8 say of a byte, in terms of order.
use Prim.Native.Nat.{bit_and}
use opentelemetry_php_distro.Prelude.{
  ℕ, ◌≤◌, ◌<◌, ◌≡◌, refl, Bool, true, not, ◌||◌, ltb, leb, ◌==◌, arith, passes_below,
  passes_below_lem, if◌then◌else◌, IsByte,
}
use opentelemetry_php_distro.Text.Utf8.{following, not_continuation}

bool_eq : Bool → Bool → Bool
bool_eq a b = if a then b else not b

bool_eq_sound : (a b : Bool) → bool_eq a b ≡ true → a ≡ b
unfolding bool_eq
bool_eq_sound a b h = ground arith

continuation_table :
    passes_below (λ d. bool_eq (not_continuation d) (ltb d 0x80 || leb 0xC0 d)) 256 ≡ true
unfolding passes_below not_continuation bool_eq
continuation_table = refl

pub not_continuation_order : (d : ℕ) → IsByte d → not_continuation d ≡ (ltb d 0x80 || leb 0xC0 d)
not_continuation_order d h = bool_eq_sound _ _ (passes_below_lem _ 256 d h continuation_table)

following_table :
    passes_below
      (λ c. ltb c 0xC0 || (following c == (if ltb c 0xE0 then 1 else if ltb c 0xF0 then 2 else 3)))
      0xF5
    ≡ true
unfolding passes_below following
following_table = refl

pub following_order :
    (c : ℕ)
    → 0xC0 ≤ c
    → c < 0xF5
    → following c ≡ (if ltb c 0xE0 then 1 else if ltb c 0xF0 then 2 else 3)
following_order c h k = ground (arith, passes_below_lem _ 0xF5 c k following_table)

overlong_two_table :
    passes_below (λ c. ltb c 0xC0 || bool_eq (bit_and c 0x3E == 0) (ltb c 0xC2)) 0xE0 ≡ true
unfolding passes_below bool_eq
overlong_two_table = refl

pub overlong_two : (c : ℕ) → 0xC0 ≤ c → c < 0xE0 → (bit_and c 0x3E == 0) ≡ ltb c 0xC2
overlong_two c h k = ground (
  arith,
  passes_below_lem _ 0xE0 c k overlong_two_table,
  bool_eq_sound (bit_and c 0x3E == 0) (ltb c 0xC2),
)

overlong_three_table :
    passes_below (λ d. ltb d 0x80 || bool_eq (bit_and d 0x20 == 0) (ltb d 0xA0)) 0xC0 ≡ true
unfolding passes_below bool_eq
overlong_three_table = refl

pub overlong_three : (d : ℕ) → 0x80 ≤ d → d < 0xC0 → (bit_and d 0x20 == 0) ≡ ltb d 0xA0
overlong_three d h k = ground (
  arith,
  passes_below_lem _ 0xC0 d k overlong_three_table,
  bool_eq_sound (bit_and d 0x20 == 0) (ltb d 0xA0),
)

overlong_four_table :
    passes_below (λ d. ltb d 0x80 || bool_eq (bit_and d 0x30 == 0) (ltb d 0x90)) 0xC0 ≡ true
unfolding passes_below bool_eq
overlong_four_table = refl

pub overlong_four : (d : ℕ) → 0x80 ≤ d → d < 0xC0 → (bit_and d 0x30 == 0) ≡ ltb d 0x90
overlong_four d h k = ground (
  arith,
  passes_below_lem _ 0xC0 d k overlong_four_table,
  bool_eq_sound (bit_and d 0x30 == 0) (ltb d 0x90),
)
