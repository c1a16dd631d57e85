-- ===== src/Otlp/Messages.antt =====
-- What the three converters of prod/native/libphpbridge/code/OtlpExporter share: ConverterHelpers.h,
-- and the fields of resources and instrumentation scopes. A field that is not set is empty or 0.
use opentelemetry_php_distro.Prelude.{ℕ, suc, ◌%◌, ◌^◌, List, [], ◌∷◌, none, some}
use opentelemetry_php_distro.Otlp.Zval.{
  index_key, Zval, array, Elements, end, element, Result, ok, ◌>>=◌, Php, call_method,
  get_opt_string_view, get_string_view, get_long,
}
use opentelemetry_php_distro.Otlp.Attributes.{AnyValue, convert_attributes}

-- A zend_long as uint32_t
abbrev pub to_uint32 : ℕ → ℕ
to_uint32 n = n % 2 ^ 32

-- A new array with the given elements: arrayInit and arrayAddNextWithRef
abbrev pub elements_from : ℕ → List Zval → Elements
elements_from i [] = end
elements_from i (v ∷ vs) = element (index_key i) v (elements_from (suc i) vs)

abbrev pub add_all : List Zval → Zval
add_all vs = array (elements_length vs) (elements_from 0 vs)
  where
    elements_length : List Zval → ℕ
    elements_length [] = 0
    elements_length (v ∷ vs) = suc (elements_length vs)

-- php_serialize_zval: the empty text if the call fails or gives no text.
unfoldable pub php_serialize_zval : Php → Zval → List ℕ
unfolding get_opt_string_view
php_serialize_zval php v = elim (php.serialize v) [
  | none ↦ []
  | some r ↦ elim (get_opt_string_view r) [ none ↦ [] | some s ↦ s ]
]

unfoldable pub get_resource_id : Php → Zval → Result (List ℕ)
unfolding call_method php_serialize_zval
get_resource_id php resource_info = do
  schema_url ← call_method php resource_info "getSchemaUrl"
  attributes ← call_method php resource_info "getAttributes"
  dropped ← call_method php attributes "getDroppedAttributesCount"
  attributes_array ← call_method php attributes "toArray"
  ok (php_serialize_zval php (add_all (schema_url ∷ attributes_array ∷ dropped ∷ [])))

unfoldable pub get_scope_id : Php → Zval → Result (List ℕ)
unfolding call_method php_serialize_zval
get_scope_id php scope_info = do
  name ← call_method php scope_info "getName"
  version ← call_method php scope_info "getVersion"
  schema_url ← call_method php scope_info "getSchemaUrl"
  attributes ← call_method php scope_info "getAttributes"
  dropped ← call_method php attributes "getDroppedAttributesCount"
  attributes_array ← call_method php attributes "toArray"
  ok (
      php_serialize_zval php
        (add_all (name ∷ version ∷ schema_url ∷ attributes_array ∷ dropped ∷ [])))

-- A field that is set if the value is a text.
abbrev pub string_or_empty : Zval → List ℕ
string_or_empty v = elim (get_opt_string_view v) [ none ↦ [] | some s ↦ s ]

-- Attributes with the number of those dropped.
pub record Attributes : Type 0 where
  pub attributes : List (List ℕ × AnyValue)
  pub dropped_attributes_count : ℕ

pub record Resource : Type 0 where
  pub attributes : Attributes
  pub schema_url : List ℕ

pub record InstrumentationScope : Type 0 where
  pub name : List ℕ
  pub version : List ℕ
  pub attributes : Attributes
  pub schema_url : List ℕ

-- getDroppedAttributesCount of an attributes object
unfoldable pub dropped_attributes : Php → Zval → Result ℕ
unfolding call_method get_long
dropped_attributes php attributes = do
  count ← call_method php attributes "getDroppedAttributesCount"
  n ← get_long count
  ok (to_uint32 n)

-- The attributes of an object: the entries first, then the count.
unfoldable pub attributes_of : Php → Zval → Result Attributes
unfolding call_method convert_attributes dropped_attributes
attributes_of php v = do
  attributes ← call_method php v "getAttributes"
  entries ← convert_attributes php attributes
  count ← dropped_attributes php attributes
  ok (record { attributes = entries; dropped_attributes_count = count })

unfoldable pub convert_instrumentation_scope : Php → Zval → Result InstrumentationScope
unfolding call_method get_string_view get_opt_string_view attributes_of
convert_instrumentation_scope php scope_info = do
  name ← call_method php scope_info "getName"
  name_text ← get_string_view name
  version ← call_method php scope_info "getVersion"
  attributes ← attributes_of php scope_info
  schema_url ← call_method php scope_info "getSchemaUrl"
  ok (record {
    name = name_text;
    version = string_or_empty version;
    attributes = attributes;
    schema_url = string_or_empty schema_url;
  })
