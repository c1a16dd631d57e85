-- ===== src/Otlp/Attributes.antt =====
-- prod/native/libphpbridge/code/OtlpExporter/AttributesConverter.h: PHP values as the OTLP type
-- AnyValue.
pub mod Arrays
pub mod Laws
use opentelemetry_php_distro.Prelude.{
  ℕ, Bool, true, false, ◌||◌, List, [], ◌∷◌, ◌==◌, if◌then◌else◌,
}
use opentelemetry_php_distro.Text.Utf8.{is_utf8}
use opentelemetry_php_distro.Otlp.Zval.{
  Key, text_key, index_key, Zval, undef, null, boolean, long, double, text, array, object, other,
  Elements, end, element, Result, ok, error, ◌>>=◌, Php, call_method, num_of_elements, is_undef,
  iterate_entries,
}

-- AnyValue of OTLP; a number is its 64 bits.
mutual
  pub data AnyValue : Type 0 where
    not_set : AnyValue
    string_value : List ℕ → AnyValue
    bytes_value : List ℕ → AnyValue
    bool_value : Bool → AnyValue
    int_value : ℕ → AnyValue
    double_value : ℕ → AnyValue
    array_value : AnyValues → AnyValue
    kvlist_value : KeyValues → AnyValue

  pub data AnyValues : Type 0 where
    no_values : AnyValues
    add_value : AnyValue → AnyValues → AnyValues

  pub data KeyValues : Type 0 where
    no_entries : KeyValues
    add_entry : List ℕ → AnyValue → KeyValues → KeyValues

-- isSimpleArray, of the fields of an array. The comparison is one of 64-bit numbers.
unfoldable pub is_simple_array : ℕ → Elements → Bool
unfolding num_of_elements
is_simple_array next es = num_of_elements es == next

-- A text of which the engine knows that it is UTF-8, or that is, and any other.
unfoldable pub convert_text : Bool → List ℕ → AnyValue
unfolding is_utf8
convert_text flag s = if flag || is_utf8 s then string_value s else bytes_value s

unfoldable mutual
  unfolding is_simple_array is_undef convert_text

  pub convert_any_value : Zval → AnyValue
  convert_any_value (array next es) =
      let list = array_value (convert_values es) in
      let kvlist = kvlist_value (convert_entries es) in
      if is_simple_array next es then list else kvlist
  convert_any_value (long n) = int_value n
  convert_any_value (double d) = double_value d
  convert_any_value (boolean b) = bool_value b
  convert_any_value (text flag s) = convert_text flag s
  convert_any_value undef = not_set
  convert_any_value null = not_set
  convert_any_value (object o) = not_set
  convert_any_value (other t) = not_set

  -- The loop over the values of a simple array.
  pub convert_values : Elements → AnyValues
  convert_values end = no_values
  convert_values (element k v es) =
      let rest = convert_values es in
      let added = add_value (convert_any_value v) rest in if is_undef v then rest else added

  -- The loop over the entries of any other array, which passes over the keys that are numbers.
  pub convert_entries : Elements → KeyValues
  convert_entries end = no_entries
  convert_entries (element (index_key i) v es) = convert_entries es
  convert_entries (element (text_key k) v es) =
      let rest = convert_entries es in
      let added = add_entry k (convert_any_value v) rest in if is_undef v then rest else added

-- The loop of convertAttributes.
unfoldable pub convert_pairs : List (Key × Zval) → List (List ℕ × AnyValue)
unfolding convert_any_value
convert_pairs [] = []
convert_pairs ((index_key i, v) ∷ es) = convert_pairs es
convert_pairs ((text_key k, v) ∷ es) = (k, convert_any_value v) ∷ convert_pairs es

unfoldable pub convert_attributes : Php → Zval → Result (List (List ℕ × AnyValue))
unfolding convert_pairs call_method iterate_entries
convert_attributes php attributes = do
  attributes_array ← call_method php attributes "toArray"
  es ← iterate_entries attributes_array
  ok (convert_pairs es)
