-- ===== src/Logging/Tests.antt =====
-- Runs of the logger, and its theorems at concrete states.
use opentelemetry_php_distro.Prelude.{◌≡◌, refl, List, [], ◌∷◌, none}
use opentelemetry_php_distro.Config.Level.{LogLevel, error, debug, info}
use opentelemetry_php_distro.Logging.{log, written, FileSink}

abbrev sinks : List LogLevel
sinks = error ∷ debug ∷ []

one_sink : log info (record { sinks = sinks; features = [] }) ≡ 1 ∷ []
unfolding log written
one_sink = refl

abbrev no_file : FileSink
no_file = record { fd = none; opened_file_path = [] }
