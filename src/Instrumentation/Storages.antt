-- ===== src/Instrumentation/Storages.antt =====
-- InstrumentedFunctionHooksStorage.h and InternalFunctionInstrumentationStorage.h of
-- prod/native/libcommon/code, and instrumentFunction of
-- prod/native/extension/code/InternalFunctionInstrumentation.cpp. The hash of a class and a function
-- and the tables of the engine are parameters.
pub mod Laws
use opentelemetry_php_distro.Prelude.{
  ℕ, ◌+◌, Bool, true, false, ◌&&◌, List, [], ◌∷◌, ◌++◌, Option, none, some, leb, lookup, assign,
  emplace, nat_eq, map, if◌then◌else◌,
}
use opentelemetry_php_distro.Otlp.Zval.{Zval}

-- A hook on entry and a hook on exit.
abbrev pub Callbacks : Type 0
Callbacks = List (Zval × Zval)

abbrev pub found_or_empty : Option Callbacks → Callbacks
found_or_empty none = []
found_or_empty (some callbacks) = callbacks

-- InstrumentedFunctionHooksStorage
unfoldable pub store_hooks : ℕ → Zval → Zval → List (ℕ × Callbacks) → List (ℕ × Callbacks)
store_hooks key on_entry on_exit callbacks =
    assign key (found_or_empty (lookup key callbacks) ++ ((on_entry, on_exit) ∷ [])) callbacks

unfoldable pub store_front : ℕ → Zval → Zval → List (ℕ × Callbacks) → List (ℕ × Callbacks)
store_front key on_entry on_exit callbacks =
    assign key ((on_entry, on_exit) ∷ found_or_empty (lookup key callbacks)) callbacks

-- The zif_handler of a function: that of the extension, or another.
pub data Handler : Type 0 where
  internal_function_handler : Handler
  native : ℕ → Handler

-- InternalFunctionInstrumentationStorage::store keeps an entry that is there.
unfoldable pub store_original : ℕ → Handler → List (ℕ × Handler) → List (ℕ × Handler)
store_original key original_handler storage = emplace key original_handler storage

pub record Function : Type 0 where
  pub is_internal : Bool
  pub handler : Handler

-- The engine's functions, found by their lower-case names, and the two storages.
pub record Storages : Type 0 where
  pub functions : List (ℕ × Function)
  pub hooks : List (ℕ × Callbacks)
  pub originals : List (ℕ × Handler)

-- What the code uses of the engine: the hash of two lower-case names, and the place of a function in
-- the table of functions, or in that of its class.
pub record Tables : Type 0 where
  pub hash : List ℕ → List ℕ → ℕ
  pub find : List ℕ → List ℕ → Option ℕ

-- std::tolower
unfoldable pub to_lower : ℕ → ℕ
to_lower c = if leb b'A' c && leb c b'Z' then c + 32 else c

unfoldable pub lowercase : List ℕ → List ℕ
unfolding to_lower
lowercase s = map to_lower s

-- The handler of an internal function is replaced once, and the one that it had is kept.
unfoldable pub patch : ℕ → ℕ → Bool → Handler → Storages → Storages
unfolding store_original
patch key place false h s = s
patch key place true internal_function_handler s = s
patch key place true (native n) s = record s {
  functions =
      assign place (record { is_internal = true; handler = internal_function_handler }) s.functions;
  originals = store_original key (native n) s.originals;
}

unfoldable pub patch_found : ℕ → Option ℕ → Storages → Storages
unfolding patch
patch_found key none s = s
patch_found key (some place) s = elim (lookup place s.functions) [
  | none ↦ s
  | some func ↦ patch key place func.is_internal func.handler s
]

unfoldable pub instrument_function : Tables → List ℕ → List ℕ → Zval → Zval → Storages → Storages
unfolding lowercase store_hooks patch_found
instrument_function t c_name f_name on_entry on_exit s =
    let class_name = lowercase c_name in
    let function_name = lowercase f_name in
    let key = t.hash class_name function_name in
    patch_found key (t.find class_name function_name)
      (record s { hooks = store_hooks key on_entry on_exit s.hooks })
