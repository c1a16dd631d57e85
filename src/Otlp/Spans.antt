-- ===== src/Otlp/Spans.antt =====
-- prod/native/libphpbridge/code/OtlpExporter/SpanConverter.h
pub mod Laws
use Prim.Native.String.{String}
use opentelemetry_php_distro.Prelude.{
  ℕ, zero, suc, ◌+◌, ◌-◌, ◌*◌, ◌/◌, ◌%◌, ◌^◌, Bool, true, false, List, [], ◌∷◌, ◌++◌, Option, none,
  some, ◌==◌, codes, if◌then◌else◌,
}
use opentelemetry_php_distro.Text.Chars.{ci_eq}
use opentelemetry_php_distro.Otlp.Zval.{
  Zval, Result, ok, error, ◌>>=◌, map_results, Php, call_method, assert_object_type, is_object,
  get_string_view, get_long, get_boolean, iterate,
}
use opentelemetry_php_distro.Otlp.Attributes.{AnyValue, convert_attributes}
use opentelemetry_php_distro.Otlp.Grouping.{Located, ResourceGroup, Converter, convert_batch}
use opentelemetry_php_distro.Otlp.Messages.{
  to_uint32, get_resource_id, get_scope_id, string_or_empty, Attributes, Resource,
  InstrumentationScope, dropped_attributes, attributes_of, convert_instrumentation_scope,
}

-- Span_SpanKind
pub data SpanKind : Type 0 where
  unspecified internal server client producer consumer : SpanKind

-- Of the int that getKind gives.
unfoldable pub convert_span_kind : ℕ → SpanKind
convert_span_kind kind =
    if kind == 0
    then internal
    else if kind == 1
    then client
    else if kind == 2
    then server
    else if kind == 3
    then producer
    else if kind == 4
    then consumer
    else unspecified

-- Status_StatusCode
pub data StatusCode : Type 0 where
  unset ok_code error_code : StatusCode

unfoldable pub convert_status_code : List ℕ → StatusCode
unfolding ci_eq
convert_status_code status =
    if ci_eq status (codes "Unset")
    then unset
    else if ci_eq status (codes "Ok")
    then ok_code
    else if ci_eq status (codes "Error")
    then error_code
    else unset

-- flags |= 2 ^ bit
unfoldable pub set_bit : ℕ → ℕ → ℕ
set_bit bit flags = if flags / 2 ^ bit % 2 == 1 then flags else flags + 2 ^ bit

-- SPAN_FLAGS_CONTEXT_HAS_IS_REMOTE_MASK and SPAN_FLAGS_CONTEXT_IS_REMOTE_MASK of the OTLP protocol
-- are the bits 8 and 9.
unfoldable pub remote_flags : Bool → ℕ → ℕ
unfolding set_bit
remote_flags is_remote base = if is_remote then set_bit 9 (set_bit 8 base) else set_bit 8 base

unfoldable pub add_remote_flags : Php → Zval → ℕ → Result ℕ
unfolding call_method get_boolean remote_flags
add_remote_flags php span_context base = do
  is_remote ← call_method php span_context "isRemote"
  b ← get_boolean is_remote
  ok (remote_flags b base)

-- The flags are an int, the lower half of a zend_long.
unfoldable pub build_flags_for_span : Php → Zval → Zval → Result ℕ
unfolding call_method get_long add_remote_flags
build_flags_for_span php span_context parent_span_context = do
  trace_flags ← call_method php span_context "getTraceFlags"
  flags ← get_long trace_flags
  add_remote_flags php parent_span_context (to_uint32 flags)

unfoldable pub build_flags_for_link : Php → Zval → Result ℕ
unfolding call_method get_long add_remote_flags
build_flags_for_link php link_span_context = do
  trace_flags ← call_method php link_span_context "getTraceFlags"
  flags ← get_long trace_flags
  add_remote_flags php link_span_context (to_uint32 flags)

pub record Event : Type 0 where
  pub time_unix_nano : ℕ
  pub name : List ℕ
  pub attributes : Attributes

pub record Link : Type 0 where
  pub trace_id : List ℕ
  pub span_id : List ℕ
  pub flags : ℕ
  pub trace_state : List ℕ
  pub attributes : Attributes

pub record Span : Type 0 where
  pub trace_id : List ℕ
  pub span_id : List ℕ
  pub flags : ℕ
  pub trace_state : List ℕ
  pub parent_span_id : List ℕ
  pub name : List ℕ
  pub kind : SpanKind
  pub start_time_unix_nano : ℕ
  pub end_time_unix_nano : ℕ
  pub attributes : Attributes
  pub events : List Event
  pub dropped_events_count : ℕ
  pub links : List Link
  pub dropped_links_count : ℕ
  pub status_message : List ℕ
  pub status_code : StatusCode

-- A method whose answer has to be a text, a number or a Boolean.
unfoldable pub call_for_string : Php → Zval → String → Result (List ℕ)
unfolding call_method get_string_view
call_for_string php v name = do r ← call_method php v name; get_string_view r

unfoldable pub call_for_long : Php → Zval → String → Result ℕ
unfolding call_method get_long
call_for_long php v name = do r ← call_method php v name; get_long r

unfoldable pub call_for_boolean : Php → Zval → String → Result Bool
unfolding call_method get_boolean
call_for_boolean php v name = do r ← call_method php v name; get_boolean r

-- The trace state of a context, if it is an object.
unfoldable pub trace_state_of : Php → Zval → Result (List ℕ)
unfolding is_object call_for_string
trace_state_of php trace_state =
    if is_object trace_state then call_for_string php trace_state "__toString" else ok []

unfoldable pub convert_event : Php → Zval → Result Event
unfolding call_for_long call_for_string attributes_of
convert_event php event = do
  time ← call_for_long php event "getEpochNanos"
  name ← call_for_string php event "getName"
  attributes ← attributes_of php event
  ok (record { time_unix_nano = time; name = name; attributes = attributes })

unfoldable pub convert_link : Php → Zval → Result Link
unfolding call_method call_for_string build_flags_for_link trace_state_of attributes_of
convert_link php link = do
  context ← call_method php link "getSpanContext"
  trace_id ← call_for_string php context "getTraceIdBinary"
  span_id ← call_for_string php context "getSpanIdBinary"
  flags ← build_flags_for_link php context
  trace_state ← call_method php context "getTraceState"
  trace_state_text ← trace_state_of php trace_state
  attributes ← attributes_of php link
  ok (record {
    trace_id = trace_id;
    span_id = span_id;
    flags = flags;
    trace_state = trace_state_text;
    attributes = attributes;
  })

-- The parent's id, if its context is valid.
unfoldable pub parent_span_id_of : Php → Zval → Bool → Result (List ℕ)
unfolding call_for_string
parent_span_id_of php parent_span_context true =
    call_for_string php parent_span_context "getSpanIdBinary"
parent_span_id_of php parent_span_context false = ok []

unfoldable pub convert_span : Php → Zval → Result Span
unfolding call_method call_for_string call_for_long call_for_boolean build_flags_for_span
    trace_state_of parent_span_id_of convert_span_kind dropped_attributes convert_attributes iterate
    map_results convert_event convert_link convert_status_code
convert_span php span = do
  context ← call_method php span "getContext"
  trace_id ← call_for_string php context "getTraceIdBinary"
  span_id ← call_for_string php context "getSpanIdBinary"
  parent_context ← call_method php span "getParentContext"
  flags ← build_flags_for_span php context parent_context
  trace_state ← call_method php context "getTraceState"
  trace_state_text ← trace_state_of php trace_state
  has_parent ← call_for_boolean php parent_context "isValid"
  parent_span_id ← parent_span_id_of php parent_context has_parent
  name ← call_for_string php span "getName"
  kind ← call_for_long php span "getKind"
  start ← call_for_long php span "getStartEpochNanos"
  end ← call_for_long php span "getEndEpochNanos"
  attributes ← call_method php span "getAttributes"
  dropped ← dropped_attributes php attributes
  entries ← convert_attributes php attributes
  events ← call_method php span "getEvents"
  event_values ← iterate events
  out_events ← map_results (convert_event php) event_values
  dropped_events ← call_for_long php span "getTotalDroppedEvents"
  links ← call_method php span "getLinks"
  link_values ← iterate links
  out_links ← map_results (convert_link php) link_values
  dropped_links ← call_for_long php span "getTotalDroppedLinks"
  status ← call_method php span "getStatus"
  description ← call_for_string php status "getDescription"
  code ← call_for_string php status "getCode"
  ok (record {
    trace_id = trace_id;
    span_id = span_id;
    flags = flags;
    trace_state = trace_state_text;
    parent_span_id = parent_span_id;
    name = name;
    kind = convert_span_kind (to_uint32 kind);
    start_time_unix_nano = start;
    end_time_unix_nano = end;
    attributes = record { attributes = entries; dropped_attributes_count = dropped };
    events = out_events;
    dropped_events_count = to_uint32 dropped_events;
    links = out_links;
    dropped_links_count = to_uint32 dropped_links;
    status_message = description;
    status_code = convert_status_code code;
  })

-- convertResourceSpans: the schema's URL is asked first.
unfoldable pub convert_resource_spans : Php → Zval → Result Resource
unfolding call_method attributes_of
convert_resource_spans php resource_info = do
  schema_url ← call_method php resource_info "getSchemaUrl"
  attributes ← attributes_of php resource_info
  ok (record { attributes = attributes; schema_url = string_or_empty schema_url })

-- The class of a span, in the namespace of the scoper if that is used.
abbrev pub span_class : List ℕ → Bool → List ℕ
span_class scoper_prefix scoped =
    if scoped
    then scoper_prefix ++ codes "OpenTelemetry\\SDK\\Trace\\ImmutableSpan"
    else codes "OpenTelemetry\\SDK\\Trace\\ImmutableSpan"

unfoldable pub locate_span : Php → List ℕ → Bool → Zval → Result Located
unfolding assert_object_type call_method get_resource_id get_scope_id
locate_span php scoper_prefix scoped span = do
  object ← assert_object_type php span (span_class scoper_prefix scoped)
  resource_info ← call_method php object "getResource"
  scope ← call_method php span "getInstrumentationScope"
  resource_id ← get_resource_id php resource_info
  scope_id ← get_scope_id php scope
  ok (record {
    resource = resource_info;
    scope = scope;
    resource_id = resource_id;
    scope_id = scope_id;
  })

abbrev pub span_converter : Php → List ℕ → Bool → Converter Resource InstrumentationScope Span
span_converter php scoper_prefix scoped = record {
  locate = locate_span php scoper_prefix scoped;
  convert_resource = convert_resource_spans php;
  convert_scope = convert_instrumentation_scope php;
  convert_item = convert_span php;
}

unfoldable pub convert_spans :
    Php → List ℕ → Bool → Zval → Result (List (ResourceGroup Resource InstrumentationScope Span))
unfolding convert_batch locate_span convert_resource_spans convert_instrumentation_scope
    convert_span
convert_spans php scoper_prefix scoped spans =
    convert_batch (span_converter php scoper_prefix scoped) spans
