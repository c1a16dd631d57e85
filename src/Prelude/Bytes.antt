-- ===== src/Prelude/Bytes.antt =====
-- Bytes: numbers below 256. A fact about one byte is checked at every value.
use Prim.Native.Nat.{ℕ, zero, suc, ◌<◌}
use mathlib.Core.Path.{◌≡◌}
use mathlib.Core.Bool.{Bool, true, ◌&&◌}
use mathlib.Core.List.{List}
use native.Mathlib.Omega.{arith}
use opentelemetry_php_distro.Prelude.Lists.{All}

abbrev pub IsByte : ℕ → Type 0
IsByte b = b < 256

abbrev pub AreBytes : List ℕ → Type 0
AreBytes s = All IsByte s

-- A test of the numbers from 0 up to a bound, the bound left out.
unfoldable pub passes_below : (ℕ → Bool) → ℕ → Bool
passes_below test zero = true
passes_below test (suc bound) = passes_below test bound && test bound

pub passes_below_lem :
    (test : ℕ → Bool) (bound b : ℕ) → b < bound → passes_below test bound ≡ true → test b ≡ true
unfolding passes_below
passes_below_lem test zero b small h = absurd (omega arith)
passes_below_lem test (suc bound) b small h = ground (arith, passes_below_lem test bound b)
