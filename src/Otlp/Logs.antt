-- ===== src/Otlp/Logs.antt =====
-- prod/native/libphpbridge/code/OtlpExporter/LogsConverter.h
use opentelemetry_php_distro.Prelude.{
  ℕ, Bool, true, false, not, ◌&&◌, List, [], Option, none, some, if◌then◌else◌,
}
use opentelemetry_php_distro.Otlp.Zval.{
  Zval, null, Result, ok, ◌>>=◌, Php, call_method, get_string_view, get_opt_long, get_long,
  get_boolean, is_undef,
}
use opentelemetry_php_distro.Otlp.Attributes.{AnyValue, convert_any_value}
use opentelemetry_php_distro.Otlp.Grouping.{Located, ResourceGroup, Converter, convert_batch}
use opentelemetry_php_distro.Otlp.Messages.{
  to_uint32, get_resource_id, get_scope_id, string_or_empty, Attributes, InstrumentationScope,
  attributes_of, convert_instrumentation_scope,
}

-- The ids and flags of a span context
pub record SpanContext : Type 0 where
  pub trace_id : List ℕ
  pub span_id : List ℕ
  pub flags : ℕ

pub record LogRecord : Type 0 where
  pub body : Option AnyValue
  pub time_unix_nano : ℕ
  pub observed_time_unix_nano : ℕ
  pub span_context : SpanContext
  pub severity_number : ℕ
  pub severity_text : List ℕ
  pub event_name : List ℕ
  pub attributes : Attributes

abbrev pub is_null : Zval → Bool
is_null null = true
is_null _ = false

-- getOptLong().value_or(0)
abbrev pub long_or_zero : Zval → ℕ
long_or_zero v = elim (get_opt_long v) [ none ↦ 0 | some n ↦ n ]

abbrev pub no_span_context : SpanContext
no_span_context = record { trace_id = []; span_id = []; flags = 0 }

unfoldable pub convert_span_context : Php → Zval → Result SpanContext
unfolding call_method get_boolean get_string_view get_long
convert_span_context php null = ok no_span_context
convert_span_context php span_context = do
  is_valid ← call_method php span_context "isValid"
  valid ← get_boolean is_valid
  let no_context = ok no_span_context
  let context = do
    trace_id ← call_method php span_context "getTraceIdBinary"
    trace_id_text ← get_string_view trace_id
    span_id ← call_method php span_context "getSpanIdBinary"
    span_id_text ← get_string_view span_id
    flags ← call_method php span_context "getTraceFlags"
    flags_long ← get_long flags
    ok (record { trace_id = trace_id_text; span_id = span_id_text; flags = to_uint32 flags_long })
  if valid then context else no_context

unfoldable pub convert_log_record : Php → Zval → Result LogRecord
unfolding call_method convert_any_value get_opt_long is_undef convert_span_context attributes_of
convert_log_record php log = do
  body ← call_method php log "getBody"
  timestamp ← call_method php log "getTimestamp"
  observed ← call_method php log "getObservedTimestamp"
  span_context ← call_method php log "getSpanContext"
  context ← convert_span_context php span_context
  severity_number ← call_method php log "getSeverityNumber"
  severity_text ← call_method php log "getSeverityText"
  event_name ← call_method php log "getEventName"
  attributes ← attributes_of php log
  ok (record {
    body =
        if not (is_null body) && not (is_undef body) then some (convert_any_value body) else none;
    time_unix_nano = long_or_zero timestamp;
    observed_time_unix_nano = long_or_zero observed;
    span_context = context;
    severity_number = to_uint32 (long_or_zero severity_number);
    severity_text = string_or_empty severity_text;
    event_name = string_or_empty event_name;
    attributes = attributes;
  })

unfoldable pub convert_resource_logs : Php → Zval → Result Attributes
unfolding attributes_of
convert_resource_logs php resource_info = attributes_of php resource_info

unfoldable pub locate_log : Php → Zval → Result Located
unfolding call_method get_resource_id get_scope_id
locate_log php log = do
  resource_info ← call_method php log "getResource"
  scope ← call_method php log "getInstrumentationScope"
  resource_id ← get_resource_id php resource_info
  scope_id ← get_scope_id php scope
  ok (record {
    resource = resource_info;
    scope = scope;
    resource_id = resource_id;
    scope_id = scope_id;
  })

abbrev pub log_converter : Php → Converter Attributes InstrumentationScope LogRecord
log_converter php = record {
  locate = locate_log php;
  convert_resource = convert_resource_logs php;
  convert_scope = convert_instrumentation_scope php;
  convert_item = convert_log_record php;
}

unfoldable pub convert_logs :
    Php → Zval → Result (List (ResourceGroup Attributes InstrumentationScope LogRecord))
unfolding convert_batch locate_log convert_resource_logs convert_instrumentation_scope
    convert_log_record
convert_logs php logs = convert_batch (log_converter php) logs
