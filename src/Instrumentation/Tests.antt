-- ===== src/Instrumentation/Tests.antt =====
-- Functions with hooks on a small engine.
use opentelemetry_php_distro.Prelude.{
  ℕ, ◌+◌, max, ◌≡◌, refl, Bool, true, false, ◌&&◌, ◌||◌, List, [], ◌∷◌, ◌++◌, Option, none, some,
  ◌==◌, ltb, leb, codes, lookup, nat_eq, bytes_beq, All, arith, if◌then◌else◌,
}
use opentelemetry_php_distro.Otlp.Zval.{
  text_key, index_key, Zval, undef, null, long, text, array, Elements, end, element, entries,
}
use opentelemetry_php_distro.Instrumentation.Arguments.{
  Frame, args_post_processing, highest_arg_idx,
}
use opentelemetry_php_distro.Instrumentation.Arguments.Laws.{
  IsIndex, IsBelow, last_value, args_post_processing-internal,
}
use opentelemetry_php_distro.Instrumentation.Storages.{
  found_or_empty, native, Function, Storages, Tables,
}
use opentelemetry_php_distro.Instrumentation.Storages.Laws.{
  Call, instrument_functions, registered, IsKept, instrument_functions_lem,
}
use opentelemetry_php_distro.Instrumentation.Handlers.{
  ExceptionState, Event, World, Engine, internal_function_handler as run_handler,
}
use opentelemetry_php_distro.Instrumentation.Handlers.Order.{
  calls, hook_calls, entry_hooks, exit_hooks, active, original, Adds,
  internal_function_handler-calls,
}
use opentelemetry_php_distro.Instrumentation.WithSpan.{FunctionInfo, WithSpanMetadata}
use opentelemetry_php_distro.Instrumentation.Observers.{
  Observed, observer_fcall_begin_handler, observer_fcall_end_handler,
}
use opentelemetry_php_distro.Instrumentation.Observers.Laws.{
  accepted_calls, attribute_call, observer_fcall_handlers-Adds,
}
use opentelemetry_php_distro.Instrumentation.Observers.Registration.{
  Candidate, Settings, Registry, register_observer_handlers, any_pre, any_post, add_attribute,
}
use opentelemetry_php_distro.Instrumentation.Observers.Registration.Laws.{
  all_hooks, register_observer_handlers_lem,
}

-- An internal function that is called with one argument of two.
abbrev frame : Frame
frame = record {
  is_internal = true;
  num_args = 1;
  last_var = 0;
  temporaries = 0;
  parameter_names = codes "a" ∷ codes "b" ∷ [];
  slots = (0, long 5) ∷ [];
}

-- A hook returns [2 => 7, "a" => 8].
abbrev returned : Elements
returned = element (index_key 2) (long 7) (element (text_key (codes "a")) (long 8) end)

returned_indices : All IsIndex (entries returned)
unfolding entries
returned_indices = (omega arith, (tt, tt))

args_post_processing_runs :
    (args_post_processing (λ v w. false) null (array 3 returned) frame).slots
    ≡ (0, long 8) ∷ (1, undef) ∷ (2, long 7) ∷ []
unfolding args_post_processing
args_post_processing_runs = refl

args_post_processing-internal_example :
    let f' = args_post_processing (λ v w. false) null (array 3 returned) frame in
    (f'.num_args ≡ max 1 (highest_arg_idx (entries returned) 0 + 1))
    × All (IsBelow f'.num_args) (entries returned)
    × ((i : ℕ)
        → lookup i f'.slots
          ≡ last_value frame i
              (entries returned)
              (if leb 1 i && ltb i f'.num_args then some undef else lookup i frame.slots))
args_post_processing-internal_example =
    args_post_processing-internal (λ v w. false) null 3 returned frame refl refl returned_indices

-- One function, "f", at place 3 with the key 3; other names are not found and have the key 0.
abbrev tables : Tables
tables = record {
  hash = λ c f. if bytes_beq f (codes "f") then 3 else 0;
  find = λ c f. if bytes_beq f (codes "f") then some 3 else none;
}

one_key : (c f : List ℕ) (p : ℕ) → tables.find c f ≡ some p → tables.hash c f ≡ p
one_key c f p h = ground arith

abbrev two_calls : List Call
two_calls =
    record { class_name = []; function_name = codes "F"; on_entry = long 1; on_exit = null }
    ∷ record { class_name = []; function_name = codes "f"; on_entry = long 2; on_exit = long 3 }
    ∷ []

abbrev functions : List (ℕ × Function)
functions = (3, record { is_internal = true; handler = native 9 }) ∷ []

instrument_functions_lem_example :
    let s =
      instrument_functions tables two_calls
        (record { functions = functions; hooks = []; originals = [] }) in
    ((p : ℕ) → IsKept (lookup p functions) (lookup p s.functions) (lookup p s.originals))
    × ((key : ℕ) → found_or_empty (lookup key s.hooks) ≡ registered tables key two_calls)
instrument_functions_lem_example =
    instrument_functions_lem tables (λ p. p) two_calls functions (λ p q h. h) one_key

abbrev no_exception : ExceptionState
no_exception = record {
  exception = none;
  prev_exception = none;
  opline_before_exception = 0;
  opline = 0;
}

-- Every number is a hook; hook 2 throws.
abbrev is_long : Zval → Bool
is_long (long n) = true
is_long v = false

abbrev thrown : Zval → Option ℕ
thrown (long n) = if n == 2 then some 1 else none
thrown v = none

abbrev engine : Engine
engine = record {
  fcall_info_init = is_long;
  call_function = λ es h params. record {
    success = true;
    result = null;
    after = record no_exception { exception = thrown h };
  };
  original = λ es h f. record { bailout = false; result = some (long 4); after = no_exception };
  has_return_type = λ h. false;
  is_throwable = λ e. true;
  is_identical = λ v w. false;
  scope_name_or_this = λ f. null;
  call_arguments = λ f. null;
  declaring_scope = λ f. null;
  function_name = λ f. null;
  declaration_file_name = λ f. null;
  declaration_line_no = λ f. null;
  function_return_value = λ v. null;
  current_exception = λ e. null;
}

abbrev world : World
world = record { eg = no_exception; frame = frame; return_value = none; events = [] }

abbrev stored : Storages
stored = record {
  functions = [];
  hooks = (3, (long 1, null) ∷ (long 2, long 3) ∷ []) ∷ [];
  originals = (3, native 9) ∷ [];
}

internal_function_handler-calls_example :
    let callbacks = active stored true 3 in
    let w' = run_handler engine stored true 3 world in
    (calls w'.events
      ≡ hook_calls engine (entry_hooks callbacks)
        ++ (original (native 9) ∷ hook_calls engine (exit_hooks callbacks)))
    × ((es : List Event) × (f : Frame) × (w'.eg ≡ (engine.original es (native 9) f).after))
internal_function_handler-calls_example =
    internal_function_handler-calls engine stored true 3 (native 9) world refl (λ es f. refl)

abbrev info : FunctionInfo
info = record {
  is_user_function = true;
  with_span = some ((none, some (text true (codes "span"))) ∷ []);
  parameters = (codes "a", some []) ∷ [];
  properties = none;
}

abbrev observed : Observed
observed = record {
  is_functional = true;
  prefix = [];
  info = info;
  this = null;
  property = λ name. none;
}

abbrev metadata : List (ℕ × WithSpanMetadata)
metadata =
    (
      3,
      record {
        span_name = some (codes "span");
        span_kind = none;
        param_attributes = (0, codes "a") ∷ [];
        prop_attributes = [];
      },
    )
    ∷ []

observer_fcall_handlers-Adds_example :
    let callbacks = found_or_empty (lookup 3 stored.hooks) in
    let meta = lookup 3 metadata in
    Adds
      (accepted_calls engine (entry_hooks callbacks) ++ attribute_call observed (codes "pre") meta)
      world
      (observer_fcall_begin_handler engine observed stored.hooks metadata 3 world)
    × Adds
        (accepted_calls engine (exit_hooks callbacks)
          ++ attribute_call observed (codes "post") meta)
        world
        (observer_fcall_end_handler engine observed stored.hooks metadata 3 world)
observer_fcall_handlers-Adds_example =
    observer_fcall_handlers-Adds engine observed stored.hooks metadata 3 world

-- A method whose interface, with the key 3, has hooks.
abbrev candidate : Candidate
candidate = record {
  is_internal = false;
  hash = 5;
  interface_hashes = 4 ∷ 3 ∷ [];
  is_closure = false;
  filename = codes "/app/index.php";
  info = info;
}

abbrev settings : Settings
settings = record {
  debug_instrument_all = false;
  is_functional = true;
  attr_hooks_enabled = true;
  prefix = [];
}

abbrev registry : Registry
registry = record { hooks = stored.hooks; metadata = [] }

register_observer_handlers_lem_example :
    let result = register_observer_handlers settings candidate registry in
    let callbacks = all_hooks settings candidate registry.hooks in
    let attribute = (add_attribute settings candidate []).0 in
    (result.0.begins ≡ (if false then false else attribute || any_pre callbacks))
    × (result.0.ends ≡ (if false then false else attribute || any_post callbacks))
    × ((if false then callbacks else found_or_empty (lookup 5 result.1.hooks)) ≡ callbacks)
    × ((if false then registry else result.1) ≡ result.1)
register_observer_handlers_lem_example = register_observer_handlers_lem settings candidate registry
