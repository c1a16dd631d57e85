-- ===== src/Otlp/Tests.antt =====
-- A small PHP world with log records of two resources, and the converters on it.
use opentelemetry_php_distro.Prelude.{
  ℕ, ◌+◌, ◌%◌, ◌/◌, ◌≡◌, refl, ap, sym, ◌∙◌, true, false, List, [], ◌∷◌, Option, none, some, length,
  codes, bytes_beq, All, map, if◌then◌else◌, arith,
}
use opentelemetry_php_distro.Otlp.Zval.{
  text_key, index_key, Zval, null, long, text, array, object, Elements, end, element, Error,
  not_a_string, Result, ok, error, ◌>>=◌, Php, values, num_of_elements,
}
use opentelemetry_php_distro.Text.Utf8.{is_utf8}
use opentelemetry_php_distro.Otlp.Attributes.{
  AnyValue, string_value, bytes_value, int_value, array_value, kvlist_value, no_values, add_value,
  no_entries, add_entry, convert_any_value,
}
use opentelemetry_php_distro.Otlp.Attributes.Arrays.{IsEncodable, IsPhp, to_php}
use opentelemetry_php_distro.Otlp.Attributes.Laws.{
  rekey, convert_any_value-to_php, convert_any_value-rekey,
}
use opentelemetry_php_distro.Otlp.Grouping.{Located, ResourceGroup, convert_batch, composite_key}
use opentelemetry_php_distro.Otlp.Grouping.Dictionaries.{map_values}
use opentelemetry_php_distro.Otlp.Grouping.Nested.{Groups, resource_group, group_items}
use opentelemetry_php_distro.Otlp.Grouping.Refinement.{convert_batch-group_items}
use opentelemetry_php_distro.Otlp.Grouping.Errors.{SomeRaises, convert_batch_error}
use opentelemetry_php_distro.Otlp.Grouping.Laws.{
  AreGroups, items_under, items_with, convert_batch-AreGroups,
}
use opentelemetry_php_distro.Otlp.Messages.{InstrumentationScope, Attributes}
use opentelemetry_php_distro.Otlp.Spans.{remote_flags}
use opentelemetry_php_distro.Otlp.Spans.Laws.{remote_flags_bits}
use opentelemetry_php_distro.Otlp.Logs.{LogRecord, log_converter, convert_logs, locate_log}

-- Log records are the objects below 10; their resources are 10 and 11.
abbrev call : ℕ → List ℕ → Option Zval
call o name =
    if bytes_beq name (codes "getResource")
    then some (object (10 + o % 2))
    else if bytes_beq name (codes "getInstrumentationScope")
    then some (object 20)
    else if bytes_beq name (codes "getAttributes")
    then some (object 30)
    else if bytes_beq name (codes "toArray")
    then some (array 0 end)
    else if bytes_beq name (codes "getDroppedAttributesCount")
    then some (long 0)
    else if bytes_beq name (codes "getName")
    then some (text true (codes "scope"))
    else if bytes_beq name (codes "getSchemaUrl")
    then some (text true (o ∷ []))
    else if bytes_beq name (codes "getTimestamp")
    then some (long o)
    else some null

-- The first text of an array, in the place of `serialize`.
abbrev first_text : Zval → Option Zval
first_text (array next (element k (text flag s) es)) = some (text false (b'a' ∷ s))
first_text v = none

abbrev php : Php
php = record {
  call_user_function = call;
  zend_read_property = λ o name. null;
  class_name = λ o. [];
  serialize = first_text;
  to_double = λ n. n;
  unhex = λ s. none;
}

abbrev batch : Elements
batch =
    element (index_key 0) (object 0)
      (element (index_key 1) (object 1) (element (index_key 2) (object 2) end))

-- The time stamps of the records in their groups.
abbrev times : List (ResourceGroup Attributes InstrumentationScope LogRecord) → List (List (List ℕ))
times = map λ group. map (λ scope. map (λ log. log.time_unix_nano) scope.items) group.scopes

convert_logs_runs :
    (convert_logs php (array 3 batch) >>= λ request. ok (times request))
    ≡ ok (((0 ∷ 2 ∷ []) ∷ []) ∷ ((1 ∷ []) ∷ []) ∷ [])
unfolding convert_logs
convert_logs_runs = refl

-- The ids of the resources have two bytes, so none begins another.
abbrev IsTwo : List ℕ → Type 0
IsTwo s = length s ≡ 2

same_prefix :
    (a b s t : List ℕ) → length a ≡ length b → composite_key a s ≡ composite_key b t → a ≡ b
same_prefix [] [] s t l h = refl
same_prefix [] (y ∷ b) s t l h = absurd (omega arith)
same_prefix (x ∷ a) [] s t l h = absurd (omega arith)
same_prefix (x ∷ a) (y ∷ b) s t l h = let rest = same_prefix a b s t (omega arith) (cc) in cc

two_prefix_free :
    (a b s t : List ℕ) → IsTwo a → IsTwo b → composite_key a s ≡ composite_key b t → a ≡ b
two_prefix_free a b s t i j h = same_prefix a b s t (i ∙ sym j) h

id_of : Result Located → List ℕ
id_of (ok at) = at.resource_id
id_of (error e) = []

locate_log-IsTwo : (o : ℕ) (at : Located) → locate_log php (object o) ≡ ok at → IsTwo at.resource_id
unfolding locate_log id_of
locate_log-IsTwo o at h = ap (λ m. length (id_of m)) (sym h)

batch_ids :
    All (λ item. (at : Located) → locate_log php item ≡ ok at → IsTwo at.resource_id) (values batch)
unfolding values
batch_ids = (locate_log-IsTwo 0, (locate_log-IsTwo 1, (locate_log-IsTwo 2, tt)))

abbrev logs : Result (List (ResourceGroup Attributes InstrumentationScope LogRecord))
logs = convert_logs php (array 3 batch)

abbrev or_empty : {A : Type 0} → Result (List A) → List A
or_empty (ok a) = a
or_empty (error e) = []

convert_batch-group_items_example : convert_batch (log_converter php) (array 3 batch) ≡ (
    group_items (log_converter php) (values batch) [] >>= λ groups.
    ok (map_values resource_group groups))
convert_batch-group_items_example =
    convert_batch-group_items IsTwo two_prefix_free (log_converter php) 3 batch batch_ids

logs_ok : convert_batch (log_converter php) (array 3 batch) ≡ ok (or_empty logs)
unfolding convert_logs
logs_ok = refl

convert_batch-AreGroups_example :
    (groups : Groups Attributes InstrumentationScope LogRecord) × (or_empty logs
      ≡ map_values resource_group groups)
    × AreGroups groups
    × ((r s : List ℕ) → items_under r s groups ≡ items_with (log_converter php) r s (values batch))
convert_batch-AreGroups_example =
    convert_batch-AreGroups (log_converter php) IsTwo two_prefix_free 3 batch (or_empty logs)
      batch_ids logs_ok

-- A batch with a record that is no object.
abbrev broken_batch : Elements
broken_batch = element (index_key 0) (object 0) (element (index_key 1) (long 7) end)

abbrev error_or : {A : Type 0} → Result A → Error
error_or (ok a) = not_a_string
error_or (error e) = e

broken_batch_error :
    convert_batch (log_converter php) (array 2 broken_batch)
    ≡ error (error_or (convert_logs php (array 2 broken_batch)))
unfolding convert_logs
broken_batch_error = refl

convert_batch_error_example :
    SomeRaises
      (log_converter php)
      (error_or (convert_logs php (array 2 broken_batch)))
      (values broken_batch)
convert_batch_error_example =
    convert_batch_error (log_converter php) 2 broken_batch
      (error_or (convert_logs php (array 2 broken_batch))) broken_batch_error

-- A list of a text and of bytes, and a map with a number.
abbrev any_value : AnyValue
any_value = kvlist_value (
    add_entry (codes "list")
      (array_value
        (add_value (string_value (codes "text")) (add_value (bytes_value (0xFF ∷ [])) no_values)))
      (add_entry (codes "number") (int_value 7) no_entries))

any_value-IsEncodable : IsEncodable 0 any_value
unfolding is_utf8
any_value-IsEncodable = ground arith

convert_any_value-to_php_example :
    IsPhp 0 (to_php 0 any_value) × (convert_any_value (to_php 0 any_value) ≡ any_value)
convert_any_value-to_php_example = convert_any_value-to_php 0 any_value any_value-IsEncodable

-- ["x" => 1, 1 => 2] has two elements, and 2 as its next free key.
abbrev mixed : Elements
mixed = element (text_key (codes "x")) (long 1) (element (index_key 1) (long 2) end)

convert_any_value-rekey_example :
    convert_any_value (array 2 (rekey (λ k. index_key 0) mixed)) ≡ convert_any_value (array 2 mixed)
unfolding num_of_elements
convert_any_value-rekey_example = convert_any_value-rekey (λ k. index_key 0) 2 mixed refl

mixed_runs :
    convert_any_value (array 2 mixed)
    ≡ array_value (add_value (int_value 1) (add_value (int_value 2) no_values))
unfolding convert_any_value
mixed_runs = refl

remote_flags_bits_example :
    (remote_flags true 1 % 256 ≡ 1 % 256)
    × (remote_flags true 1 / 256 % 2 ≡ 1)
    × (remote_flags true 1 / 512 % 2 ≡ 1)
    × (remote_flags true 1 / 1024 ≡ 1 / 1024)
remote_flags_bits_example = remote_flags_bits true 1
