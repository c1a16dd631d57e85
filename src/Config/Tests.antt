-- ===== src/Config/Tests.antt =====
-- Runs of the configuration, and its theorems at concrete options.
use opentelemetry_php_distro.Prelude.{
  ℕ, ◌≡◌, ◌*◌, Bool, refl, true, false, List, [], ◌∷◌, map, Option, none, some, codes, arith, ◌⊎◌,
  bytes_beq, bytes_eq, nat_eq, if◌then◌else◌,
}
use opentelemetry_php_distro.Text.Chars.{to_upper}
use opentelemetry_php_distro.Text.RetryAfter.Laws.{decimal}
use opentelemetry_php_distro.Config.Units.{parsed, Float, decimal_digits}
use opentelemetry_php_distro.Config.Options.{options, duration_value, new_snapshot}
use opentelemetry_php_distro.Config.Provider.{
  Files, Provider, option_value_provider, fetch_string_value, get_ini_name, get_env_name,
}
use opentelemetry_php_distro.Config.Manager.{
  Manager, new_manager, update_options, update_option, update, convert, access_option_string_value,
  Storage, storage_update, next_revision,
}
use opentelemetry_php_distro.Config.Manager.Laws.{update_lem, SomeOutOfRange, AreExpected}
use opentelemetry_php_distro.Config.Manager.Revisions.{update-storage_update, IsOrdered}
use opentelemetry_php_distro.Config.Manager.Types.{update-typed, typed, declared}
use opentelemetry_php_distro.Config.Manager.Printing.{convert-access_option_string_value, type_of}

-- A stand-in for the floating-point routines: whole numbers only.
abbrev whole : Float
whole = record {
  Double = ℕ;
  stod = λ s. parsed (decimal 0 s);
  from_millis = λ n. n;
  from_seconds = λ n. n * 1000;
  from_minutes = λ n. n * 60000;
}

abbrev silent : Provider
silent = option_value_provider (λ name. none) (λ name. none)

abbrev getenv : List ℕ → Option (List ℕ)
getenv name = if bytes_beq name (codes "OTEL_PHP_ENABLED") then some (codes "no") else none

abbrev from_env : Provider
from_env = option_value_provider getenv (λ name. none)

abbrev providers : List (ℕ × Provider)
providers = (10, silent) ∷ (0, from_env) ∷ []

abbrev env_of : Provider → List ℕ → Option (List ℕ)
env_of p = p.get_environment_option_value

abbrev refresh : Files → Provider → Provider
refresh files p = p

update_lem_example :
    let r = update whole refresh [] (new_manager from_env) in
    ((r.0 ≡ false)
      × (r.1.current ≡ (new_manager from_env).current)
      × SomeOutOfRange whole from_env options)
    ⊎ ((r.0 ≡ true)
        × (r.1.current.revision ≡ next_revision (new_manager from_env))
        × (r.1.current.remote_config_files ≡ [])
        × AreExpected whole from_env new_snapshot.members r.1.current.members options)
update_lem_example = update_lem whole refresh [] (new_manager from_env)

abbrev storage : Storage
storage = record { config = new_snapshot; watchers = 4 ∷ [] }

update_succeeds : (update whole refresh [] (new_manager silent)).0 ≡ true
unfolding update update_options update_option options fetch_string_value get_ini_name get_env_name
update_succeeds = refl

update-storage_update_example :
    let m' = (update whole refresh [] (new_manager silent)).1 in
    let after = storage_update m' storage in
    IsOrdered m'
    × (after.1.config ≡ m'.current)
    × (after.0 ≡ map (λ (watcher : ℕ). (watcher, m'.current)) (4 ∷ []))
    × (storage_update m' after.1 ≡ ([], after.1))
update-storage_update_example =
    update-storage_update whole refresh [] (new_manager silent) storage (omega arith) (omega arith)
      update_succeeds

convert-access_option_string_value_example :
    convert whole (type_of (duration_value 250)) (access_option_string_value (duration_value 250))
    ≡ parsed (duration_value 250)
unfolding decimal_digits
convert-access_option_string_value_example =
    convert-access_option_string_value whole (duration_value 250) (250, refl, refl)

abbrev from_env_update : Bool × Manager
from_env_update = update whole refresh [] (new_manager from_env)

from_env_update_succeeds : from_env_update ≡ (true, from_env_update.1)
unfolding update update_options update_option options fetch_string_value get_ini_name get_env_name
    to_upper convert
from_env_update_succeeds = refl

update-typed_example : typed from_env_update.1.current.members 1 ≡ declared 1
update-typed_example =
    update-typed whole refresh [] (new_manager from_env) from_env_update.1 from_env_update_succeeds
      1
