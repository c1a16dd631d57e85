-- ===== src/Instrumentation/WithSpan.antt =====
-- prod/native/libphpbridge/code/WithSpanAttributes.{h,cpp} and AttrHooksStorage.h: the metadata of
-- functions with the attribute WithSpan. The attributes of the engine are given with the values that
-- zend_get_attribute_value resolves, or none where it fails.
use opentelemetry_php_distro.Prelude.{
  ℕ, suc, Bool, false, List, [], ◌∷◌, Option, none, some, ◌==◌, bytes_beq, codes, assign, nat_eq,
  if◌then◌else◌,
}
use opentelemetry_php_distro.Otlp.Zval.{Zval, get_opt_string_view, get_opt_long}

-- The arguments of a zend_attribute: their names, if they have one, and their values.
abbrev pub Attribute : Type 0
Attribute = List (Option (List ℕ) × Option Zval)

-- What the code reads of a zend_function.
pub record FunctionInfo : Type 0 where
  pub is_user_function : Bool
  pub with_span : Option Attribute
  pub parameters : List (List ℕ × Option Attribute)
  pub properties : Option (List (List ℕ × Option Attribute))

pub record WithSpanMetadata : Type 0 where
  pub span_name : Option (List ℕ)
  pub span_kind : Option ℕ
  pub param_attributes : List (ℕ × List ℕ)
  pub prop_attributes : List (List ℕ × List ℕ)

-- Whether the i-th argument is the one that is looked for.
unfoldable pub is_argument : ℕ → List ℕ → ℕ → Option (List ℕ) → Bool
is_argument positional arg_name i none = i == positional
is_argument positional arg_name i (some name) = bytes_beq name arg_name

-- findAttrArgIndex with zend_get_attribute_value: the value of the first argument that fits.
unfoldable pub find_attr_arg : ℕ → List ℕ → ℕ → Attribute → Option Zval
unfolding is_argument
find_attr_arg positional arg_name i [] = none
find_attr_arg positional arg_name i ((name, v) ∷ args) =
    let rest = find_attr_arg positional arg_name (suc i) args in
    if is_argument positional arg_name i name then v else rest

unfoldable pub string_argument : ℕ → List ℕ → Attribute → Option (List ℕ)
unfolding find_attr_arg get_opt_string_view
string_argument positional arg_name attr = elim (find_attr_arg positional arg_name 0 attr) [
  | none ↦ none
  | some v ↦ get_opt_string_view v
]

unfoldable pub long_argument : ℕ → List ℕ → Attribute → Option ℕ
unfolding find_attr_arg get_opt_long
long_argument positional arg_name attr = elim (find_attr_arg positional arg_name 0 attr) [
  | none ↦ none
  | some v ↦ get_opt_long v
]

unfoldable pub has_with_span_attribute : FunctionInfo → Bool
has_with_span_attribute func = elim func.with_span [
  | none ↦ false
  | some attr ↦ func.is_user_function
]

-- The key of an attribute: its argument 'name', or what it stands at where that is missing or empty.
unfoldable pub attr_key : List ℕ → Attribute → List ℕ
unfolding string_argument
attr_key default attr = elim (string_argument 0 (codes "name") attr) [
  | none ↦ default
  | some [] ↦ default
  | some (c ∷ s) ↦ c ∷ s
]

unfoldable pub read_params : ℕ → List (List ℕ × Option Attribute) → List (ℕ × List ℕ)
unfolding attr_key
read_params i [] = []
read_params i ((name, none) ∷ params) = read_params (suc i) params
read_params i ((name, some attr) ∷ params) = (i, attr_key name attr) ∷ read_params (suc i) params

unfoldable pub read_props : List (List ℕ × Option Attribute) → List (List ℕ × List ℕ)
unfolding attr_key
read_props [] = []
read_props ((name, none) ∷ props) = read_props props
read_props ((name, some attr) ∷ props) = (name, attr_key name attr) ∷ read_props props

abbrev pub props_or_none : Option (List (List ℕ × Option Attribute)) → List (List ℕ × List ℕ)
props_or_none none = []
props_or_none (some props) = read_props props

unfoldable pub read_with_span_metadata : FunctionInfo → Option WithSpanMetadata
unfolding string_argument long_argument read_params read_props
read_with_span_metadata func = elim func.with_span [
  | none ↦ none
  | some attr ↦
      if func.is_user_function
      then some (record {
        span_name = string_argument 0 (codes "span_name") attr;
        span_kind = long_argument 1 (codes "span_kind") attr;
        param_attributes = read_params 0 func.parameters;
        prop_attributes = props_or_none func.properties;
      })
      else none
]

-- AttrHooksStorage::store replaces an entry that is there.
unfoldable pub store_metadata :
    ℕ → WithSpanMetadata → List (ℕ × WithSpanMetadata) → List (ℕ × WithSpanMetadata)
store_metadata hash metadata storage = assign hash metadata storage
