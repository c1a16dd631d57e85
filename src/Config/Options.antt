-- ===== src/Config/Options.antt =====
-- OptionMetadata and the options of prod/native/libcommon/code/ConfigurationManager.h, and
-- ConfigurationSnapshot of ConfigurationSnapshot.h. The offset of a member is its position among
-- the members that hold options; the macros of the two files are expanded.
use opentelemetry_php_distro.Prelude.{ℕ, ◌*◌, Bool, true, false, List, [], ◌∷◌, codes}
use opentelemetry_php_distro.Config.Level.{LogLevel, off, info}

pub data OptionType : Type 0 where
  boolean string duration loglevel bytes : OptionType

pub record OptionMetadata : Type 0 where
  pub type : OptionType
  pub offset : ℕ
  pub secret : Bool
  pub otel_native_option : Bool

-- What a member of the snapshot holds.
pub data Value : Type 0 where
  boolean_value : Bool → Value
  string_value : List ℕ → Value
  duration_value : ℕ → Value
  loglevel_value : LogLevel → Value
  bytes_value : ℕ → Value

pub record ConfigurationSnapshot : Type 0 where
  pub members : List (ℕ × Value)
  pub revision : ℕ
  pub remote_config_files : List (List ℕ × List ℕ)

abbrev metadata : OptionType → ℕ → Bool → Bool → OptionMetadata
metadata type offset secret native = record {
  type = type;
  offset = offset;
  secret = secret;
  otel_native_option = native;
}

-- The snapshot as its declaration initialises it.
unfoldable pub default_members : List (ℕ × Value)
default_members =
    (0, string_value [])
    ∷ (1, boolean_value true)
    ∷ (2, string_value [])
    ∷ (3, loglevel_value off)
    ∷ (4, loglevel_value off)
    ∷ (5, loglevel_value off)
    ∷ (6, loglevel_value info)
    ∷ (7, string_value [])
    ∷ (8, string_value [])
    ∷ (9, bytes_value (2 * 1024 * 1204))
    ∷ (10, boolean_value true)
    ∷ (11, duration_value 30000)
    ∷ (12, boolean_value false)
    ∷ (13, boolean_value false)
    ∷ (14, boolean_value false)
    ∷ (15, boolean_value true)
    ∷ (16, boolean_value false)
    ∷ (17, boolean_value true)
    ∷ (18, boolean_value true)
    ∷ (19, duration_value 50)
    ∷ (20, duration_value 0)
    ∷ (21, boolean_value false)
    ∷ (22, boolean_value true)
    ∷ (23, boolean_value true)
    ∷ (24, string_value [])
    ∷ (25, string_value [])
    ∷ (26, string_value [])
    ∷ (27, duration_value 30000)
    ∷ (28, duration_value 30000)
    ∷ (29, duration_value 10000)
    ∷ (30, bytes_value 3)
    ∷ (31, duration_value 10000)
    ∷ (32, boolean_value false)
    ∷ (33, string_value [])
    ∷ (34, string_value [])
    ∷ (35, string_value [])
    ∷ (36, string_value [])
    ∷ (37, boolean_value false)
    ∷ (38, string_value [])
    ∷ (39, string_value [])
    ∷ (40, string_value [])
    ∷ (41, string_value [])
    ∷ (42, boolean_value false)
    ∷ (43, string_value [])
    ∷ (44, string_value [])
    ∷ (45, string_value [])
    ∷ (46, string_value [])
    ∷ (47, boolean_value false)
    ∷ (48, string_value [])
    ∷ (49, string_value [])
    ∷ (50, string_value [])
    ∷ (51, string_value [])
    ∷ (52, boolean_value false)
    ∷ (53, string_value [])
    ∷ (54, string_value [])
    ∷ (55, string_value [])
    ∷ (56, string_value [])
    ∷ (57, string_value [])
    ∷ (58, string_value [])
    ∷ (59, string_value [])
    ∷ (60, string_value [])
    ∷ []

abbrev pub new_snapshot : ConfigurationSnapshot
new_snapshot = record { members = default_members; revision = 0; remote_config_files = [] }

unfoldable pub options : List (List ℕ × OptionMetadata)
options =
    (codes "bootstrap_php_part_file", metadata string 0 false false)
    ∷ (codes "enabled", metadata boolean 1 false false)
    ∷ (codes "log_file", metadata string 2 false false)
    ∷ (codes "log_level", metadata loglevel 3 false false)
    ∷ (codes "log_level_file", metadata loglevel 4 false false)
    ∷ (codes "log_level_stderr", metadata loglevel 5 false false)
    ∷ (codes "log_level_syslog", metadata loglevel 6 false false)
    ∷ (codes "log_features", metadata string 7 false false)
    ∷ (codes "debug_diagnostic_file", metadata string 8 false false)
    ∷ (codes "max_send_queue_size", metadata bytes 9 false false)
    ∷ (codes "async_transport", metadata boolean 10 false false)
    ∷ (codes "async_transport_shutdown_timeout", metadata duration 11 false false)
    ∷ (codes "debug_instrument_all", metadata boolean 12 false false)
    ∷ (codes "debug_php_hooks_enabled", metadata boolean 13 false false)
    ∷ (codes "attr_hooks_enabled", metadata boolean 14 false false)
    ∷ (codes "scoped_deps_enabled", metadata boolean 15 false false)
    ∷ (codes "inferred_spans_enabled", metadata boolean 16 false false)
    ∷ (codes "inferred_spans_reduction_enabled", metadata boolean 17 false false)
    ∷ (codes "inferred_spans_stacktrace_enabled", metadata boolean 18 false false)
    ∷ (codes "inferred_spans_sampling_interval", metadata duration 19 false false)
    ∷ (codes "inferred_spans_min_duration", metadata duration 20 false false)
    ∷ (codes "dependency_autoloader_guard_enabled", metadata boolean 21 false false)
    ∷ (codes "user_bootstrap_php_file", metadata string 24 false false)
    ∷ (codes "opentelemetry_extension_emulation_enabled", metadata boolean 22 false false)
    ∷ (codes "native_otlp_serializer_enabled", metadata boolean 23 false false)
    ∷ (codes "opamp_headers", metadata string 25 false false)
    ∷ (codes "opamp_endpoint", metadata string 26 false false)
    ∷ (codes "opamp_heartbeat_interval", metadata duration 27 false false)
    ∷ (codes "opamp_polling_interval", metadata duration 28 false false)
    ∷ (codes "opamp_send_timeout", metadata duration 29 false false)
    ∷ (codes "opamp_send_max_retries", metadata bytes 30 false false)
    ∷ (codes "opamp_send_retry_delay", metadata duration 31 false false)
    ∷ (codes "opamp_insecure", metadata boolean 32 false false)
    ∷ (codes "opamp_certificate", metadata string 33 false false)
    ∷ (codes "opamp_client_certificate", metadata string 34 false false)
    ∷ (codes "opamp_client_key", metadata string 36 false false)
    ∷ (codes "opamp_client_keypass", metadata string 35 true false)
    ∷ (codes "OTEL_EXPORTER_OTLP_INSECURE", metadata boolean 37 false true)
    ∷ (codes "OTEL_EXPORTER_OTLP_CERTIFICATE", metadata string 38 false true)
    ∷ (codes "OTEL_EXPORTER_OTLP_CLIENT_CERTIFICATE", metadata string 39 false true)
    ∷ (codes "OTEL_EXPORTER_OTLP_CLIENT_KEY", metadata string 40 false true)
    ∷ (codes "OTEL_EXPORTER_OTLP_CLIENT_KEYPASS", metadata string 41 true true)
    ∷ (codes "OTEL_EXPORTER_OTLP_TRACES_INSECURE", metadata boolean 42 false true)
    ∷ (codes "OTEL_EXPORTER_OTLP_TRACES_CERTIFICATE", metadata string 43 false true)
    ∷ (codes "OTEL_EXPORTER_OTLP_TRACES_CLIENT_CERTIFICATE", metadata string 44 false true)
    ∷ (codes "OTEL_EXPORTER_OTLP_TRACES_CLIENT_KEY", metadata string 45 false true)
    ∷ (codes "OTEL_EXPORTER_OTLP_TRACES_CLIENT_KEYPASS", metadata string 46 true true)
    ∷ (codes "OTEL_EXPORTER_OTLP_METRICS_INSECURE", metadata boolean 47 false true)
    ∷ (codes "OTEL_EXPORTER_OTLP_METRICS_CERTIFICATE", metadata string 48 false true)
    ∷ (codes "OTEL_EXPORTER_OTLP_METRICS_CLIENT_CERTIFICATE", metadata string 49 false true)
    ∷ (codes "OTEL_EXPORTER_OTLP_METRICS_CLIENT_KEY", metadata string 50 false true)
    ∷ (codes "OTEL_EXPORTER_OTLP_METRICS_CLIENT_KEYPASS", metadata string 51 true true)
    ∷ (codes "OTEL_EXPORTER_OTLP_LOGS_INSECURE", metadata boolean 52 false true)
    ∷ (codes "OTEL_EXPORTER_OTLP_LOGS_CERTIFICATE", metadata string 53 false true)
    ∷ (codes "OTEL_EXPORTER_OTLP_LOGS_CLIENT_CERTIFICATE", metadata string 54 false true)
    ∷ (codes "OTEL_EXPORTER_OTLP_LOGS_CLIENT_KEY", metadata string 55 false true)
    ∷ (codes "OTEL_EXPORTER_OTLP_LOGS_CLIENT_KEYPASS", metadata string 56 true true)
    ∷ (codes "OTEL_EXPORTER_OTLP_ENDPOINT", metadata string 57 false true)
    ∷ (codes "OTEL_EXPORTER_OTLP_TRACES_ENDPOINT", metadata string 58 false true)
    ∷ (codes "OTEL_EXPORTER_OTLP_METRICS_ENDPOINT", metadata string 59 false true)
    ∷ (codes "OTEL_EXPORTER_OTLP_LOGS_ENDPOINT", metadata string 60 false true)
    ∷ []
