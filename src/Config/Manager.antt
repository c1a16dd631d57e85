-- ===== src/Config/Manager.antt =====
-- ConfigurationManager of prod/native/libcommon/code/ConfigurationManager.{h,cpp}, and
-- ConfigurationStorage.h. The offset of a member selects it as the pointer arithmetic of the source
-- does.
pub mod Laws
pub mod Revisions
pub mod Printing
pub mod Types
use opentelemetry_php_distro.Prelude.{
  ℕ, ◌≡◌, Bool, true, false, List, [], ◌∷◌, Option, none, some, ◌==◌, lookup, assign, nat_eq,
  bytes_eq, codes, add_word, map, if◌then◌else◌,
}
use opentelemetry_php_distro.Text.Chars.{trim}
use opentelemetry_php_distro.Config.Level.{LogLevel, get_log_level_name, parse_log_level}
use opentelemetry_php_distro.Config.Units.{
  Parse, parsed, invalid_argument, out_of_range, Float, parse_byte_units,
  convert_duration_with_unit, parse_boolean, to_string,
}
use opentelemetry_php_distro.Config.Options.{
  OptionType, boolean, string, duration, loglevel, bytes, OptionMetadata, Value, boolean_value,
  string_value, duration_value, loglevel_value, bytes_value, ConfigurationSnapshot, options,
  new_snapshot,
}
use opentelemetry_php_distro.Config.Provider.{Files, Provider, fetch_string_value}

pub record Manager : Type 0 where
  pub upcoming_config_revision : ℕ
  pub current : ConfigurationSnapshot
  pub option_value_provider : Provider

-- The text of an option as a value of its type.
unfoldable pub convert : Float → OptionType → List ℕ → Parse Value
convert f string text = parsed (string_value text)
convert f boolean text = parsed (boolean_value (parse_boolean text))
convert f duration text = elim (convert_duration_with_unit f text) [
  | parsed ms ↦ parsed (duration_value ms)
  | invalid_argument ↦ invalid_argument
  | out_of_range ↦ out_of_range
]
convert f loglevel text = elim (parse_log_level text) [
  | some level ↦ parsed (loglevel_value level)
  | none ↦ invalid_argument
]
convert f bytes text = elim (parse_byte_units text) [
  | parsed n ↦ parsed (bytes_value n)
  | invalid_argument ↦ invalid_argument
  | out_of_range ↦ out_of_range
]

-- One iteration of the loop of `update`; std::out_of_range is not caught.
unfoldable pub update_option :
    Float → Provider → List ℕ → OptionMetadata → List (ℕ × Value) → Option (List (ℕ × Value))
update_option f p name md members = elim (fetch_string_value p name md.otel_native_option) [
  | none ↦ some members
  | some text ↦ elim (convert f md.type text) [
    | parsed value ↦ some (assign md.offset value members)
    | invalid_argument ↦ some members
    | out_of_range ↦ none
  ]
]

unfoldable pub update_options :
    Float → Provider → List (List ℕ × OptionMetadata) → List (ℕ × Value) → Option (List (ℕ × Value))
update_options f p [] members = some members
update_options f p ((name, md) ∷ rest) members = elim (update_option f p name md members) [
  | none ↦ none
  | some members' ↦ update_options f p rest members'
]

abbrev pub next_revision : Manager → ℕ
next_revision m = add_word m.upcoming_config_revision 1

-- update; the Boolean is false when an exception leaves it.
unfoldable pub update : Float → (Files → Provider → Provider) → Files → Manager → Bool × Manager
update f refresh config_files m =
    let p = refresh config_files m.option_value_provider in
    elim (update_options f p options new_snapshot.members) [
      | none ↦ (
        false,
        record m { upcoming_config_revision = next_revision m; option_value_provider = p },
      )
      | some members ↦ (
        true,
        record {
          upcoming_config_revision = next_revision m;
          current = record {
            members = members;
            revision = next_revision m;
            remote_config_files = config_files;
          };
          option_value_provider = p;
        },
      )
    ]

-- The constructor
abbrev pub new_manager : Provider → Manager
new_manager p = record {
  upcoming_config_revision = 1;
  current = record new_snapshot { revision = 1 };
  option_value_provider = p;
}

unfoldable pub update_if_changed : Manager → ConfigurationSnapshot → Bool × ConfigurationSnapshot
update_if_changed m snapshot =
    if snapshot.revision == m.current.revision then (false, snapshot) else (true, m.current)

unfoldable pub get_option_value : List ℕ → ConfigurationSnapshot → Option Value
get_option_value option_name snapshot = elim (lookup option_name options) [
  | none ↦ none
  | some md ↦ lookup md.offset snapshot.members
]

-- accessOptionStringValueByMetadata, of the value at the option's offset
unfoldable pub access_option_string_value : Value → List ℕ
access_option_string_value (string_value s) = s
access_option_string_value (boolean_value b) = if b then codes "true" else codes "false"
access_option_string_value (duration_value ms) = to_string ms
access_option_string_value (loglevel_value level) = trim (get_log_level_name level)
access_option_string_value (bytes_value n) = to_string n

-- ConfigurationStorage: its copy of the snapshot and the watchers that are connected.
pub record Storage : Type 0 where
  pub config : ConfigurationSnapshot
  pub watchers : List ℕ

-- ConfigurationStorage::update, with the calls of watchers that it makes.
unfoldable pub storage_update : Manager → Storage → List (ℕ × ConfigurationSnapshot) × Storage
storage_update m s =
    let (changed, config) = update_if_changed m s.config in
    let calls = elim changed as (λ _. List (ℕ × ConfigurationSnapshot)) [
      | true ↦ map (λ (watcher : ℕ). (watcher, config)) s.watchers
      | false ↦ []
    ] in
    (calls, record s { config = config })
