-- ===== src/Otlp/Attributes/Laws.antt =====
-- The conversion of PHP values to AnyValue: what it reaches, and what does not matter to it.
use opentelemetry_php_distro.Prelude.{ℕ, suc, ◌≡◌, refl, arith}
use opentelemetry_php_distro.Otlp.Attributes.Arrays.{
  IsPhp, count_values, count_entries, to_php, to_list, to_map, IsEncodable, AreEncodable,
  HasEncodable, to_php_defined, to_php-IsPhp,
}
use opentelemetry_php_distro.Otlp.Zval.{Key, array, Elements, end, element, num_of_elements}
use opentelemetry_php_distro.Otlp.Attributes.{
  AnyValue, not_set, string_value, bytes_value, bool_value, int_value, double_value, array_value,
  kvlist_value, AnyValues, no_values, add_value, KeyValues, no_entries, add_entry, convert_text,
  is_simple_array, convert_any_value, convert_values, convert_entries,
}

num-to_list :
    (start i : ℕ) (xs : AnyValues) → num_of_elements (to_list start i xs) ≡ count_values xs
unfolding num_of_elements to_list
num-to_list start i no_values = refl
num-to_list start i (add_value a rest) =
    ground (arith, to_php_defined start a, num-to_list start (suc i) rest)

num-to_map : (start : ℕ) (kvs : KeyValues) → num_of_elements (to_map start kvs) ≡ count_entries kvs
unfolding num_of_elements to_map
num-to_map start no_entries = refl
num-to_map start (add_entry k a rest) =
    ground (arith, to_php_defined start a, num-to_map start rest)

mutual
  unfolding convert_any_value to_php is_simple_array convert_text

  convert-to_php :
      (start : ℕ) (a : AnyValue) → IsEncodable start a → convert_any_value (to_php start a) ≡ a
  convert-to_php start not_set h = refl
  convert-to_php start (string_value s) h = rw h.1
  convert-to_php start (bytes_value s) h = rw h.1
  convert-to_php start (bool_value b) h = refl
  convert-to_php start (int_value n) h = refl
  convert-to_php start (double_value d) h = refl
  convert-to_php start (array_value xs) h =
      ground (arith, num-to_list start 0 xs, convert_values-to_list start 0 xs h.2)
  convert-to_php start (kvlist_value kvs) h =
      ground (arith, num-to_map start kvs, convert_entries-to_map start kvs h.1)

  convert_values-to_list :
      (start i : ℕ) (xs : AnyValues)
      → AreEncodable start xs
      → convert_values (to_list start i xs) ≡ xs
  convert_values-to_list start i no_values h = refl
  convert_values-to_list start i (add_value a rest) h = ground (
    arith,
    to_php_defined start a,
    convert-to_php start a h.0,
    convert_values-to_list start (suc i) rest h.1,
  )

  convert_entries-to_map :
      (start : ℕ) (kvs : KeyValues)
      → HasEncodable start kvs
      → convert_entries (to_map start kvs) ≡ kvs
  convert_entries-to_map start no_entries h = refl
  convert_entries-to_map start (add_entry k a rest) h = ground (
    arith,
    to_php_defined start a,
    convert-to_php start a h.2,
    convert_entries-to_map start rest h.3,
  )

-- An AnyValue is what convertAnyValue makes of a value that PHP can hold, in which lists are counted
-- arrays and maps are arrays with texts as keys: nothing is lost, reordered or mixed up. Its strings
-- have to be UTF-8 and its bytes not, its lists not empty, its numbers of 64 bits, and the keys of a
-- map different, none of them a decimal number, and not as many as the next free key of an array
-- without number keys.
pub convert_any_value-to_php :
    (start : ℕ) (a : AnyValue)
    → IsEncodable start a
    → IsPhp start (to_php start a) × (convert_any_value (to_php start a) ≡ a)
convert_any_value-to_php start a h = (to_php-IsPhp start a h, convert-to_php start a h)

-- An array with other keys.
abbrev pub rekey : (Key → Key) → Elements → Elements
rekey f end = end
rekey f (element k v es) = element (f k) v (rekey f es)

num-rekey : (f : Key → Key) (es : Elements) → num_of_elements (rekey f es) ≡ num_of_elements es
unfolding num_of_elements
num-rekey f end = refl
num-rekey f (element k v es) = ground (arith, num-rekey f es)

convert_values-rekey :
    (f : Key → Key) (es : Elements) → convert_values (rekey f es) ≡ convert_values es
unfolding convert_any_value
convert_values-rekey f end = refl
convert_values-rekey f (element k v es) = ground (arith, convert_values-rekey f es)

-- The keys of an array that has as many elements as its next free key do not reach the message:
-- with any other keys, texts among them, it is converted to the same list.
pub convert_any_value-rekey :
    (f : Key → Key) (next : ℕ) (es : Elements)
    → num_of_elements es ≡ next
    → convert_any_value (array next (rekey f es)) ≡ convert_any_value (array next es)
unfolding convert_any_value is_simple_array
convert_any_value-rekey f next es h = ground (arith, num-rekey f es, convert_values-rekey f es)
