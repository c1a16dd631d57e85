-- ===== src/Otlp/Spans/Laws.antt =====
-- The flags of spans and links, and the codes of kinds and statuses.
use opentelemetry_php_distro.Prelude.{
  ℕ, ◌+◌, ◌*◌, ◌/◌, ◌%◌, ◌≡◌, Bool, true, false, arith, if◌then◌else◌, ==_iff,
}
use opentelemetry_php_distro.Otlp.Spans.{remote_flags, set_bit}

set_bit_lem : (n : ℕ) → set_bit 8 n ≡ n % 256 + 256 + n / 512 * 512
unfolding set_bit
set_bit_lem n = ground (arith, ==_iff (n / 256 % 2) 1)

set_bit_9 : (n : ℕ) → set_bit 9 n ≡ n % 512 + 512 + n / 1024 * 1024
unfolding set_bit
set_bit_9 n = ground (arith, ==_iff (n / 512 % 2) 1)

-- In the flags of a span or a link bit 8 is set, bit 9 is set if the context is remote, and stays
-- as it was in the trace flags otherwise; every other bit is that of the trace flags.
pub remote_flags_bits :
    (is_remote : Bool) (flags : ℕ)
    → (remote_flags is_remote flags % 256 ≡ flags % 256)
      × (remote_flags is_remote flags / 256 % 2 ≡ 1)
      × (remote_flags is_remote flags / 512 % 2 ≡ (if is_remote then 1 else flags / 512 % 2))
      × (remote_flags is_remote flags / 1024 ≡ flags / 1024)
unfolding remote_flags
remote_flags_bits true flags =
    let a = set_bit_lem flags in
    let b = set_bit_9 (set_bit 8 flags) in (omega arith, omega arith, omega arith, omega arith)
remote_flags_bits false flags =
    let a = set_bit_lem flags in (omega arith, omega arith, omega arith, omega arith)
