-- ===== src/Otlp/Attributes/Arrays.antt =====
-- Which values PHP can hold, and a PHP value for an AnyValue.
use opentelemetry_php_distro.Prelude.{
  ℕ, suc, ◌+◌, ◌<◌, ◌≤◌, ◌≡◌, refl, ap, sym, ◌∙◌, Bool, true, false, ◌&&◌, ◌||◌, List, [], ◌∷◌,
  Option, none, some, ◌==◌, leb, max, bytes_beq, word_mod, sign, AreBytes, arith, if◌then◌else◌,
}
use opentelemetry_php_distro.Text.Utf8.{is_utf8}
use opentelemetry_php_distro.Otlp.Zval.{
  Key, text_key, index_key, Zval, undef, null, boolean, long, double, text, array, object, other,
  Elements, end, element, is_undef,
}
use opentelemetry_php_distro.Otlp.Attributes.{
  AnyValue, not_set, string_value, bytes_value, bool_value, int_value, double_value, array_value,
  kvlist_value, AnyValues, no_values, add_value, KeyValues, no_entries, add_entry,
}

-- The keys: a text that is a decimal number would be a number.
abbrev pub is_digit : ℕ → Bool
is_digit c = leb b'0' c && leb c b'9'

abbrev pub is_decimal : List ℕ → Bool
is_decimal [] = false
is_decimal (c ∷ []) = is_digit c
is_decimal (c ∷ d ∷ s) = is_digit c && is_decimal (d ∷ s)

abbrev pub is_number_text : List ℕ → Bool
is_number_text [] = false
is_number_text (c ∷ s) = is_decimal (c ∷ s) || (c == b'-' && is_decimal s)

abbrev pub IsKey : Key → Type 0
IsKey (text_key s) = (is_number_text s ≡ false) × AreBytes s
IsKey (index_key n) = n < sign

abbrev pub same_key : Key → Key → Bool
same_key (text_key s) (text_key t) = bytes_beq s t
same_key (index_key m) (index_key n) = m == n
same_key (text_key s) (index_key n) = false
same_key (index_key m) (text_key t) = false

abbrev pub has_key : Key → Elements → Bool
has_key k end = false
has_key k (element j v es) = same_key j k || has_key k es

-- nNextFreeElement of an array that is built by insertions: one more than the highest number, or
-- what an array has at the start, which depends on the version of PHP.
abbrev pub raised : ℕ → Option ℕ → ℕ
raised i none = i
raised i (some j) = max i j

abbrev pub highest : Elements → Option ℕ
highest end = none
highest (element (text_key s) v es) = highest es
highest (element (index_key i) v es) = some (raised i (highest es))

abbrev pub after : ℕ → Option ℕ → ℕ
after start none = start
after start (some i) = suc i

abbrev pub next_free : ℕ → Elements → ℕ
next_free start es = after start (highest es)

-- A value that PHP can hold: numbers of 64 bits, texts of bytes, with the flag only if they are
-- UTF-8, and arrays with different keys, built by insertions.
abbrev mutual
  pub IsPhp : ℕ → Zval → Type 0
  IsPhp start undef = Unit
  IsPhp start null = Unit
  IsPhp start (boolean b) = Unit
  IsPhp start (long n) = n < word_mod
  IsPhp start (double d) = d < word_mod
  IsPhp start (text flag s) = AreBytes s × ((if flag then is_utf8 s else true) ≡ true)
  IsPhp start (array next es) = (next ≡ next_free start es) × AreElements start es
  IsPhp start (object o) = Unit
  IsPhp start (other t) = Unit

  pub AreElements : ℕ → Elements → Type 0
  AreElements start end = Unit
  AreElements start (element k v es) =
      IsKey k × (has_key k es ≡ false) × (is_undef v ≡ false) × IsPhp start v × AreElements start es

-- The lengths of the lists.
abbrev pub count_values : AnyValues → ℕ
count_values no_values = 0
count_values (add_value a rest) = suc (count_values rest)

abbrev pub count_entries : KeyValues → ℕ
count_entries no_entries = 0
count_entries (add_entry k a rest) = suc (count_entries rest)

abbrev pub has_entry : List ℕ → KeyValues → Bool
has_entry k no_entries = false
has_entry k (add_entry j a rest) = bytes_beq j k || has_entry k rest

-- PHP values in which the engine knows nothing of the texts, with counted lists.
unfoldable mutual
  pub to_php : ℕ → AnyValue → Zval
  to_php start not_set = null
  to_php start (string_value s) = text false s
  to_php start (bytes_value s) = text false s
  to_php start (bool_value b) = boolean b
  to_php start (int_value n) = long n
  to_php start (double_value d) = double d
  to_php start (array_value xs) = array (count_values xs) (to_list start 0 xs)
  to_php start (kvlist_value kvs) = array start (to_map start kvs)

  pub to_list : ℕ → ℕ → AnyValues → Elements
  to_list start i no_values = end
  to_list start i (add_value a rest) =
      element (index_key i) (to_php start a) (to_list start (suc i) rest)

  pub to_map : ℕ → KeyValues → Elements
  to_map start no_entries = end
  to_map start (add_entry k a rest) = element (text_key k) (to_php start a) (to_map start rest)

-- Texts are UTF-8, and what stands as bytes is not; numbers have 64 bits; a list is not empty; a map
-- has different keys that are no numbers, and not as many as the next free key at the start.
abbrev mutual
  pub IsEncodable : ℕ → AnyValue → Type 0
  IsEncodable start not_set = Unit
  IsEncodable start (string_value s) = AreBytes s × (is_utf8 s ≡ true)
  IsEncodable start (bytes_value s) = AreBytes s × (is_utf8 s ≡ false)
  IsEncodable start (bool_value b) = Unit
  IsEncodable start (int_value n) = n < word_mod
  IsEncodable start (double_value d) = d < word_mod
  IsEncodable start (array_value xs) =
      (1 ≤ count_values xs) × (count_values xs < sign) × AreEncodable start xs
  IsEncodable start (kvlist_value kvs) =
      ((count_entries kvs == start) ≡ false) × HasEncodable start kvs

  pub AreEncodable : ℕ → AnyValues → Type 0
  AreEncodable start no_values = Unit
  AreEncodable start (add_value a rest) = IsEncodable start a × AreEncodable start rest

  pub HasEncodable : ℕ → KeyValues → Type 0
  HasEncodable start no_entries = Unit
  HasEncodable start (add_entry k a rest) =
      IsKey (text_key k)
      × (has_entry k rest ≡ false)
      × IsEncodable start a
      × HasEncodable start rest

pub to_php_defined : (start : ℕ) (a : AnyValue) → is_undef (to_php start a) ≡ false
unfolding to_php is_undef
to_php_defined start not_set = refl
to_php_defined start (string_value s) = refl
to_php_defined start (bytes_value s) = refl
to_php_defined start (bool_value b) = refl
to_php_defined start (int_value n) = refl
to_php_defined start (double_value d) = refl
to_php_defined start (array_value xs) = refl
to_php_defined start (kvlist_value kvs) = refl

highest-to_list :
    (start i : ℕ) (a : AnyValue) (rest : AnyValues)
    → highest (to_list start i (add_value a rest)) ≡ some (i + count_values rest)
unfolding to_list
highest-to_list start i a no_values = ground arith
highest-to_list start i a (add_value b rest) =
    ap (λ o. some (raised i o)) (highest-to_list start (suc i) b rest) ∙ ap some (ground arith)

highest-to_map : (start : ℕ) (kvs : KeyValues) → highest (to_map start kvs) ≡ none
unfolding to_map
highest-to_map start no_entries = refl
highest-to_map start (add_entry k a rest) = highest-to_map start rest

list_next_free :
    (start : ℕ) (xs : AnyValues)
    → 1 ≤ count_values xs
    → count_values xs ≡ next_free start (to_list start 0 xs)
list_next_free start no_values h = absurd (omega arith)
list_next_free start (add_value a rest) h =
    let same : suc (count_values rest) ≡ after start (some (0 + count_values rest)) = omega arith in
    same ∙ ap (after start) (sym (highest-to_list start 0 a rest))

map_next_free : (start : ℕ) (kvs : KeyValues) → start ≡ next_free start (to_map start kvs)
map_next_free start kvs = ap (after start) (sym (highest-to_map start kvs))

has_key-to_list :
    (start i j : ℕ) (xs : AnyValues) → i < j → has_key (index_key i) (to_list start j xs) ≡ false
unfolding to_list
has_key-to_list start i j no_values h = refl
has_key-to_list start i j (add_value a rest) h =
    ground (arith, has_key-to_list start i (suc j) rest (omega arith))

has_key-to_map :
    (start : ℕ) (k : List ℕ) (kvs : KeyValues)
    → has_key (text_key k) (to_map start kvs) ≡ has_entry k kvs
unfolding to_map
has_key-to_map start k no_entries = refl
has_key-to_map start k (add_entry j a rest) =
    ap (λ b. bytes_beq j k || b) (has_key-to_map start k rest)

mutual
  unfolding to_php

  pub to_php-IsPhp : (start : ℕ) (a : AnyValue) → IsEncodable start a → IsPhp start (to_php start a)
  to_php-IsPhp start not_set h = tt
  to_php-IsPhp start (string_value s) h = (h.0, refl)
  to_php-IsPhp start (bytes_value s) h = (h.0, refl)
  to_php-IsPhp start (bool_value b) h = tt
  to_php-IsPhp start (int_value n) h = h
  to_php-IsPhp start (double_value d) h = h
  to_php-IsPhp start (array_value xs) h =
      (list_next_free start xs h.0, to_list-AreElements start 0 xs (omega arith) h.2)
  to_php-IsPhp start (kvlist_value kvs) h =
      (map_next_free start kvs, to_map-AreElements start kvs h.1)

  to_list-AreElements :
      (start i : ℕ) (xs : AnyValues)
      → i + count_values xs < sign
      → AreEncodable start xs
      → AreElements start (to_list start i xs)
  to_list-AreElements start i no_values n h = tt
  to_list-AreElements start i (add_value a rest) n h = (
    omega arith,
    has_key-to_list start i (suc i) rest (omega arith),
    to_php_defined start a,
    to_php-IsPhp start a h.0,
    to_list-AreElements start (suc i) rest (omega arith) h.1,
  )

  to_map-AreElements :
      (start : ℕ) (kvs : KeyValues) → HasEncodable start kvs → AreElements start (to_map start kvs)
  to_map-AreElements start no_entries h = tt
  to_map-AreElements start (add_entry k a rest) h = (
    h.0,
    has_key-to_map start k rest ∙ h.1,
    to_php_defined start a,
    to_php-IsPhp start a h.2,
    to_map-AreElements start rest h.3,
  )
