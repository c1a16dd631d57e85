-- ===== src/Prelude/Words.antt =====
-- std::size_t and uint64_t: arithmetic modulo 2 ^ 64. An int64_t is its 64 bits.
use Prim.Native.Nat.{ℕ, ◌+◌, ◌-◌, ◌*◌, ◌/◌, ◌^◌, ◌%◌}
use mathlib.Core.Bool.{Bool}
use opentelemetry_php_distro.Prelude.Tests.{leb, ltb, if◌then◌else◌}

abbrev pub word_mod : ℕ
word_mod = 2 ^ 64

abbrev pub add_word : ℕ → ℕ → ℕ
add_word a b = (a + b) % word_mod

abbrev pub sub_word : ℕ → ℕ → ℕ
sub_word a b = (a + word_mod - b) % word_mod

abbrev pub mul_word : ℕ → ℕ → ℕ
mul_word a b = a * b % word_mod

-- int64_t: the numbers from here on are negative.
abbrev pub sign : ℕ
sign = 2 ^ 63

-- a <= b of int64_t
unfoldable pub signed_leb : ℕ → ℕ → Bool
signed_leb a b = leb ((a + sign) % word_mod) ((b + sign) % word_mod)

-- Division of an int64_t, towards zero.
abbrev pub signed_div : ℕ → ℕ → ℕ
signed_div a b = if ltb a sign then a / b else (word_mod - (word_mod - a) / b) % word_mod
