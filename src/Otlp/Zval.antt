-- ===== src/Otlp/Zval.antt =====
-- PHP values as AutoZval of prod/native/libphpbridge/code/AutoZval.h reads them. The Zend engine is a
-- parameter: what an object's methods and properties give, its class, and the functions `serialize`
-- and `unhex`. The methods called here are getters of the telemetry objects.
use opentelemetry_php_distro.Prelude.{
  ℕ, suc, Bool, true, false, List, [], ◌∷◌, Option, none, some, codes, bytes_beq, if◌then◌else◌,
}
use Prim.Native.String.{String}

-- A key of a PHP array: a text, or a number (zend_ulong).
pub data Key : Type 0 where
  text_key : List ℕ → Key
  index_key : ℕ → Key

-- A zend_long is its 64 bits, as is a double; a text has the flag IS_STR_VALID_UTF8; an array has
-- nNextFreeElement; an object is its handle; `other` is a type that has no test here, by number.
mutual
  pub data Zval : Type 0 where
    undef : Zval
    null : Zval
    boolean : Bool → Zval
    long : ℕ → Zval
    double : ℕ → Zval
    text : Bool → List ℕ → Zval
    array : ℕ → Elements → Zval
    object : ℕ → Zval
    other : ℕ → Zval

  pub data Elements : Type 0 where
    end : Elements
    element : Key → Zval → Elements → Elements

-- The exceptions that leave the conversion, by their messages.
pub data Error : Type 0 where
  method_on_non_object : Error
  unable_to_call_method : Error
  property_of_non_object : Error
  non_object : Error
  invalid_object_type : Error
  not_a_string : Error
  not_a_number : Error
  not_a_long : Error
  not_a_boolean : Error
  not_an_array : Error
  invalid_iterable : Error
  invalid_temporality : Error
  invalid_hex : Error

pub data Result {ℓ} (A : Type ℓ) : Type ℓ where
  ok : A → Result A
  error : Error → Result A

infixl 5 ◌>>=◌
-- What follows a call that may throw.
abbrev pub ◌>>=◌ : {A B : Type 0} → Result A → (A → Result B) → Result B
◌>>=◌ (error e) next = error e
◌>>=◌ (ok value) next = next value

-- A range-based for loop whose body may throw.
unfoldable pub map_results : {A B : Type 0} → (A → Result B) → List A → Result (List B)
map_results f [] = ok []
map_results f (x ∷ xs) = do y ← f x; ys ← map_results f xs; ok (y ∷ ys)

-- What the code uses of the Zend engine and of boost: `none` is a call that fails.
pub record Php : Type 0 where
  pub call_user_function : ℕ → List ℕ → Option Zval
  pub zend_read_property : ℕ → List ℕ → Zval
  pub class_name : ℕ → List ℕ
  pub serialize : Zval → Option Zval
  pub to_double : ℕ → ℕ
  pub unhex : List ℕ → Option (List ℕ)

unfoldable pub call_method : Php → Zval → String → Result Zval
call_method php (object o) name = elim (php.call_user_function o (codes name)) [
  | none ↦ error unable_to_call_method
  | some v ↦ ok v
]
call_method php _ name = error method_on_non_object

unfoldable pub read_property : Php → Zval → String → Result Zval
read_property php (object o) name = ok (php.zend_read_property o (codes name))
read_property php _ name = error property_of_non_object

unfoldable pub instance_of : Php → Zval → List ℕ → Result Bool
instance_of php (object o) type = ok (bytes_beq type (php.class_name o))
instance_of php _ type = error non_object

unfoldable pub assert_object_type : Php → Zval → List ℕ → Result Zval
unfolding instance_of
assert_object_type php v type = do
  same ← instance_of php v type
  if same then ok v else error invalid_object_type

unfoldable pub is_object : Zval → Bool
is_object (object o) = true
is_object _ = false

unfoldable pub get_opt_string_view : Zval → Option (List ℕ)
get_opt_string_view (text flag s) = some s
get_opt_string_view _ = none

unfoldable pub get_string_view : Zval → Result (List ℕ)
get_string_view (text flag s) = ok s
get_string_view _ = error not_a_string

unfoldable pub get_opt_long : Zval → Option ℕ
get_opt_long (long n) = some n
get_opt_long _ = none

unfoldable pub get_number_as_double : Php → Zval → Result ℕ
get_number_as_double php (double d) = ok d
get_number_as_double php (long n) = ok (php.to_double n)
get_number_as_double php _ = error not_a_number

unfoldable pub get_long : Zval → Result ℕ
get_long (long n) = ok n
get_long _ = error not_a_long

unfoldable pub get_boolean : Zval → Result Bool
get_boolean (boolean b) = ok b
get_boolean _ = error not_a_boolean

unfoldable pub is_undef : Zval → Bool
is_undef undef = true
is_undef _ = false

-- nNumOfElements counts the elements whose value is not IS_UNDEF.
unfoldable pub num_of_elements : Elements → ℕ
unfolding is_undef
num_of_elements end = 0
num_of_elements (element k v es) =
    let rest = num_of_elements es in if is_undef v then rest else suc rest

-- IteratorImpl and KeyValueIterator, from begin to end; both pass over IS_UNDEF.
unfoldable pub values : Elements → List Zval
unfolding is_undef
values end = []
values (element k v es) = let rest = values es in if is_undef v then rest else v ∷ rest

unfoldable pub entries : Elements → List (Key × Zval)
unfolding is_undef
entries end = []
entries (element k v es) = let rest = entries es in if is_undef v then rest else (k, v) ∷ rest

unfoldable pub iterate : Zval → Result (List Zval)
unfolding values
iterate (array next es) = ok (values es)
iterate _ = error not_an_array

unfoldable pub iterate_entries : Zval → Result (List (Key × Zval))
unfolding entries
iterate_entries (array next es) = ok (entries es)
iterate_entries _ = error not_an_array
