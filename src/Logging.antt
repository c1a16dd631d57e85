-- ===== src/Logging.antt =====
-- The logger of prod/native/libcommon/code/Logger.{h,cpp}, with the gate of the macros of
-- LoggerInterface.h. A sink is its level; a log feature is the number of its enumerator, and the
-- number of LogFeature::ALL, which the build generates, is a parameter.
pub mod Laws
pub mod Tests
use opentelemetry_php_distro.Prelude.{
  ℕ, suc, Bool, true, false, not, List, [], ◌∷◌, Option, none, some, leb, ltb, max, lookup, nat_eq,
  bytes_beq, if◌then◌else◌,
}
use opentelemetry_php_distro.Config.Level.{LogLevel, level_value}

pub record Logger : Type 0 where
  pub sinks : List LogLevel
  pub features : List (ℕ × LogLevel)

-- setLogFeatures
abbrev pub set_log_features : List (ℕ × LogLevel) → Logger → Logger
set_log_features features l = record l { features = features }

-- The value of getMaxLogLevel
unfoldable pub max_level : List LogLevel → ℕ
max_level [] = 0
max_level (s ∷ ss) = max (level_value s) (max_level ss)

unfoldable pub does_meets_level_condition : LogLevel → Logger → Bool
does_meets_level_condition level l = leb (level_value level) (max_level l.sinks)

unfoldable pub does_feature_meets_level_condition : ℕ → LogLevel → ℕ → Logger → Bool
does_feature_meets_level_condition all_feature level feature l = elim l.features [
  | [] ↦ does_meets_level_condition level l
  | f ∷ fs ↦ elim (lookup feature l.features) [
    | some bound ↦ leb (level_value level) (level_value bound)
    | none ↦ elim (lookup all_feature l.features) [
      | some bound ↦ leb (level_value level) (level_value bound)
      | none ↦ false
    ]
  ]
]

-- The sinks to which printf and log write, by their position.
unfoldable pub written : ℕ → LogLevel → List LogLevel → List ℕ
written i level [] = []
written i level (s ∷ ss) =
    let rest = written (suc i) level ss in
    if ltb (level_value s) (level_value level) then rest else i ∷ rest

unfoldable pub log : LogLevel → Logger → List ℕ
log level l = written 0 level l.sinks

-- ELOG and ELOGF
unfoldable pub elog : ℕ → LogLevel → ℕ → Logger → List ℕ
elog all_feature level feature l =
    if does_feature_meets_level_condition all_feature level feature l then log level l else []

-- LoggerSinkFile: its descriptor and the path that it opened.
pub record FileSink : Type 0 where
  pub fd : Option ℕ
  pub opened_file_path : List ℕ

abbrev pub closed : Option ℕ → List ℕ
closed none = []
closed (some fd) = fd ∷ []

-- reopen: its result, the descriptors it closes, and the new state.
unfoldable pub reopen : (List ℕ → Option ℕ) → List ℕ → FileSink → Bool × List ℕ × FileSink
reopen open_file file_name s =
    if bytes_beq s.opened_file_path file_name then (true, [], s) else elim (open_file file_name) [
      | some fd ↦ (true, closed s.fd, record { fd = some fd; opened_file_path = file_name })
      | none ↦ (
        false,
        closed s.fd,
        record {
          fd = none;
          opened_file_path = elim s.fd as (λ _. List ℕ) [
            | none ↦ s.opened_file_path
            | some fd ↦ []
          ];
        },
      )
    ]
