-- ===== src/Config/Level.antt =====
-- LogLevel of prod/native/libcommon/code/LogLevel.{h,cpp}, and parseLogLevel of CommonUtils.cpp.
use opentelemetry_php_distro.Prelude.{ℕ, List, [], ◌∷◌, Option, none, some, codes, if◌then◌else◌}
use opentelemetry_php_distro.Text.Chars.{ci_eq, trim}

pub data LogLevel : Type 0 where
  off critical error warning info debug trace : LogLevel

-- The value of the enumerator.
abbrev pub level_value : LogLevel → ℕ
level_value off = 0
level_value critical = 1
level_value error = 2
level_value warning = 3
level_value info = 4
level_value debug = 5
level_value trace = 6

-- getLogLevelName of a level that is one
unfoldable pub get_log_level_name : LogLevel → List ℕ
get_log_level_name off = codes "OFF     "
get_log_level_name critical = codes "CRITICAL"
get_log_level_name error = codes "ERROR   "
get_log_level_name warning = codes "WARNING "
get_log_level_name info = codes "INFO    "
get_log_level_name debug = codes "DEBUG   "
get_log_level_name trace = codes "TRACE   "

abbrev levels : List (List ℕ × LogLevel)
levels =
    (codes "OFF", off)
    ∷ (codes "CRITICAL", critical)
    ∷ (codes "ERROR", error)
    ∷ (codes "WARNING", warning)
    ∷ (codes "INFO", info)
    ∷ (codes "DEBUG", debug)
    ∷ (codes "TRACE", trace)
    ∷ []

abbrev find_level : List ℕ → List (List ℕ × LogLevel) → Option LogLevel
find_level value [] = none
find_level value ((name, level) ∷ rest) =
    if ci_eq name value then some level else find_level value rest

-- `none` is std::invalid_argument.
unfoldable pub parse_log_level : List ℕ → Option LogLevel
parse_log_level val = find_level (trim val) levels
