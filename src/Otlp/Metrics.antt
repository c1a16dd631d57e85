-- ===== src/Otlp/Metrics.antt =====
-- prod/native/libphpbridge/code/OtlpExporter/MetricConverter.h
use Prim.Native.String.{String}
use opentelemetry_php_distro.Prelude.{
  ℕ, ◌%◌, Bool, List, [], ◌++◌, none, some, ◌==◌, length, codes, if◌then◌else◌,
}
use opentelemetry_php_distro.Text.Chars.{ci_eq}
use opentelemetry_php_distro.Otlp.Zval.{
  Zval, long, double, text, Result, ok, error, invalid_temporality, invalid_hex, ◌>>=◌, map_results,
  Php, call_method, read_property, instance_of, get_string_view, get_opt_string_view,
  get_number_as_double, get_long, get_boolean, iterate,
}
use opentelemetry_php_distro.Otlp.Attributes.{AnyValue, convert_attributes}
use opentelemetry_php_distro.Otlp.Grouping.{Located, ResourceGroup, Converter, convert_batch}
use opentelemetry_php_distro.Otlp.Messages.{
  get_resource_id, get_scope_id, string_or_empty, Resource, InstrumentationScope, attributes_of,
  convert_instrumentation_scope,
}

-- The value of a data point or an exemplar
pub data Number : Type 0 where
  no_number : Number
  as_int : ℕ → Number
  as_double : ℕ → Number

pub data Temporality : Type 0 where
  unspecified delta cumulative : Temporality

pub record Exemplar : Type 0 where
  pub filtered_attributes : List (List ℕ × AnyValue)
  pub time_unix_nano : ℕ
  pub span_id : List ℕ
  pub trace_id : List ℕ
  pub value : Number

pub record NumberDataPoint : Type 0 where
  pub attributes : List (List ℕ × AnyValue)
  pub start_time_unix_nano : ℕ
  pub time_unix_nano : ℕ
  pub value : Number
  pub exemplars : List Exemplar

pub record HistogramDataPoint : Type 0 where
  pub attributes : List (List ℕ × AnyValue)
  pub start_time_unix_nano : ℕ
  pub time_unix_nano : ℕ
  pub count : ℕ
  pub sum : ℕ
  pub min_value : ℕ
  pub max_value : ℕ
  pub bucket_counts : List ℕ
  pub explicit_bounds : List ℕ
  pub exemplars : List Exemplar

pub data MetricData : Type 0 where
  no_data : MetricData
  gauge : List NumberDataPoint → MetricData
  sum : List NumberDataPoint → Bool → Temporality → MetricData
  histogram : List HistogramDataPoint → Temporality → MetricData

pub record Metric : Type 0 where
  pub name : List ℕ
  pub description : List ℕ
  pub unit : List ℕ
  pub data_points : MetricData

unfoldable pub convert_number : Zval → Number
convert_number (long n) = as_int n
convert_number (double d) = as_double d
convert_number _ = no_number

unfoldable pub hex2bin : Php → List ℕ → Result (List ℕ)
hex2bin php input =
    if length input % 2 == 0
    then elim (php.unhex input) as (λ _. Result (List ℕ)) [
      | none ↦ error invalid_hex
      | some output ↦ ok output
    ]
    else error invalid_hex

-- An id of an exemplar, if there is one.
unfoldable pub convert_id : Php → Zval → Result (List ℕ)
unfolding hex2bin
convert_id php (text flag s) = hex2bin php s
convert_id php _ = ok []

unfoldable pub convert_temporality : Zval → Result Temporality
unfolding ci_eq
convert_temporality (long n) =
    if n == 1 then ok delta else if n == 2 then ok cumulative else ok unspecified
convert_temporality (text flag s) =
    if ci_eq s (codes "Delta")
    then ok delta
    else if ci_eq s (codes "Cumulative")
    then ok cumulative
    else ok unspecified
convert_temporality _ = error invalid_temporality

-- A property that has to be a number.
unfoldable pub read_long : Php → Zval → String → Result ℕ
unfolding read_property get_long
read_long php v name = do p ← read_property php v name; get_long p

unfoldable pub read_double : Php → Zval → String → Result ℕ
unfolding read_property get_number_as_double
read_double php v name = do p ← read_property php v name; get_number_as_double php p

-- The loop over a property that has to be an array.
unfoldable pub read_each : {A : Type 0} → Php → (Zval → Result A) → Zval → String → Result (List A)
unfolding read_property iterate map_results
read_each php convert v name = do
  p ← read_property php v name
  vs ← iterate p
  map_results convert vs

unfoldable pub read_attributes : Php → Zval → Result (List (List ℕ × AnyValue))
unfolding read_property convert_attributes
read_attributes php v = do p ← read_property php v "attributes"; convert_attributes php p

unfoldable pub convert_exemplar : Php → Zval → Result Exemplar
unfolding read_property read_attributes read_long convert_id convert_number
convert_exemplar php ex = do
  attributes ← read_attributes php ex
  time ← read_long php ex "timestamp"
  span_id ← read_property php ex "spanId"
  span_id_bytes ← convert_id php span_id
  trace_id ← read_property php ex "traceId"
  trace_id_bytes ← convert_id php trace_id
  v ← read_property php ex "value"
  ok (record {
    filtered_attributes = attributes;
    time_unix_nano = time;
    span_id = span_id_bytes;
    trace_id = trace_id_bytes;
    value = convert_number v;
  })

unfoldable pub convert_number_data_point : Php → Zval → Result NumberDataPoint
unfolding read_property read_attributes read_long read_each convert_number convert_exemplar
convert_number_data_point php point = do
  attributes ← read_attributes php point
  start ← read_long php point "startTimestamp"
  time ← read_long php point "timestamp"
  v ← read_property php point "value"
  exemplars ← read_each php (convert_exemplar php) point "exemplars"
  ok (record {
    attributes = attributes;
    start_time_unix_nano = start;
    time_unix_nano = time;
    value = convert_number v;
    exemplars = exemplars;
  })

unfoldable pub convert_histogram_data_point : Php → Zval → Result HistogramDataPoint
unfolding read_attributes read_long read_double read_each get_long get_number_as_double
    convert_exemplar
convert_histogram_data_point php point = do
  attributes ← read_attributes php point
  start ← read_long php point "startTimestamp"
  time ← read_long php point "timestamp"
  count ← read_long php point "count"
  total ← read_double php point "sum"
  least ← read_double php point "min"
  greatest ← read_double php point "max"
  bucket_counts ← read_each php get_long point "bucketCounts"
  explicit_bounds ← read_each php (get_number_as_double php) point "explicitBounds"
  exemplars ← read_each php (convert_exemplar php) point "exemplars"
  ok (record {
    attributes = attributes;
    start_time_unix_nano = start;
    time_unix_nano = time;
    count = count;
    sum = total;
    min_value = least;
    max_value = greatest;
    bucket_counts = bucket_counts;
    explicit_bounds = explicit_bounds;
    exemplars = exemplars;
  })

unfoldable pub convert_gauge : Php → Zval → Result MetricData
unfolding read_each convert_number_data_point
convert_gauge php v = do
  points ← read_each php (convert_number_data_point php) v "dataPoints"
  ok (gauge points)

unfoldable pub convert_sum : Php → Zval → Result MetricData
unfolding read_each convert_number_data_point read_property get_boolean convert_temporality
convert_sum php v = do
  points ← read_each php (convert_number_data_point php) v "dataPoints"
  monotonic ← read_property php v "monotonic"
  is_monotonic ← get_boolean monotonic
  temporality ← read_property php v "temporality"
  aggregation ← convert_temporality temporality
  ok (sum points is_monotonic aggregation)

unfoldable pub convert_histogram : Php → Zval → Result MetricData
unfolding read_each convert_histogram_data_point read_property convert_temporality
convert_histogram php v = do
  points ← read_each php (convert_histogram_data_point php) v "dataPoints"
  temporality ← read_property php v "temporality"
  aggregation ← convert_temporality temporality
  ok (histogram points aggregation)

-- A class of the SDK, in the namespace of the scoper if that is used.
abbrev pub metric_class : List ℕ → Bool → String → List ℕ
metric_class scoper_prefix scoped name = if scoped then scoper_prefix ++ codes name else codes name

unfoldable pub convert_metric_data : Php → List ℕ → Bool → Zval → Result MetricData
unfolding instance_of convert_gauge convert_sum convert_histogram
convert_metric_data php scoper_prefix scoped v = do
  is_gauge ←
      instance_of php v
        (metric_class scoper_prefix scoped "OpenTelemetry\\SDK\\Metrics\\Data\\Gauge")
  is_sum ←
      instance_of php v (metric_class scoper_prefix scoped "OpenTelemetry\\SDK\\Metrics\\Data\\Sum")
  is_histogram ←
      instance_of php v
        (metric_class scoper_prefix scoped "OpenTelemetry\\SDK\\Metrics\\Data\\Histogram")
  if is_gauge
      then convert_gauge php v
      else if is_sum
      then convert_sum php v
      else if is_histogram
      then convert_histogram php v
      else ok no_data

unfoldable pub convert_metric : Php → List ℕ → Bool → Zval → Result Metric
unfolding read_property get_string_view get_opt_string_view convert_metric_data
convert_metric php scoper_prefix scoped metric = do
  name ← read_property php metric "name"
  name_text ← get_string_view name
  description ← read_property php metric "description"
  unit ← read_property php metric "unit"
  v ← read_property php metric "data"
  points ← convert_metric_data php scoper_prefix scoped v
  ok (record {
    name = name_text;
    description = string_or_empty description;
    unit = string_or_empty unit;
    data_points = points;
  })

-- convertResourceMetrics: the schema's URL is asked last.
unfoldable pub convert_resource_metrics : Php → Zval → Result Resource
unfolding call_method attributes_of get_opt_string_view
convert_resource_metrics php resource = do
  attributes ← attributes_of php resource
  schema_url ← call_method php resource "getSchemaUrl"
  ok (record { attributes = attributes; schema_url = string_or_empty schema_url })

unfoldable pub locate_metric : Php → Zval → Result Located
unfolding read_property get_resource_id get_scope_id
locate_metric php metric = do
  resource ← read_property php metric "resource"
  scope ← read_property php metric "instrumentationScope"
  resource_id ← get_resource_id php resource
  scope_id ← get_scope_id php scope
  ok (record { resource = resource; scope = scope; resource_id = resource_id; scope_id = scope_id })

abbrev pub metric_converter : Php → List ℕ → Bool → Converter Resource InstrumentationScope Metric
metric_converter php scoper_prefix scoped = record {
  locate = locate_metric php;
  convert_resource = convert_resource_metrics php;
  convert_scope = convert_instrumentation_scope php;
  convert_item = convert_metric php scoper_prefix scoped;
}

unfoldable pub convert_metrics :
    Php → List ℕ → Bool → Zval → Result (List (ResourceGroup Resource InstrumentationScope Metric))
unfolding convert_batch locate_metric convert_resource_metrics convert_instrumentation_scope
    convert_metric
convert_metrics php scoper_prefix scoped metrics =
    convert_batch (metric_converter php scoper_prefix scoped) metrics
