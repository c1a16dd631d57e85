-- ===== src/Instrumentation/Observers/Registration.antt =====
-- registerObserverHandlers of prod/native/extension/code/InternalFunctionInstrumentation.cpp: which
-- of the two handlers observe a function, when it is called first in a request.
pub mod Laws
use opentelemetry_php_distro.Prelude.{
  ℕ, Bool, true, false, not, ◌&&◌, ◌||◌, List, [], ◌∷◌, ◌++◌, Option, none, some, ◌==◌, codes,
  bytes_beq, lookup, nat_eq, length, take, if◌then◌else◌,
}
use opentelemetry_php_distro.Otlp.Zval.{Zval, null, text}
use opentelemetry_php_distro.Instrumentation.Storages.{
  Callbacks, store_hooks, store_front, found_or_empty,
}
use opentelemetry_php_distro.Instrumentation.WithSpan.{
  FunctionInfo, WithSpanMetadata, has_with_span_attribute, read_with_span_metadata, store_metadata,
}

-- What is read of the function and of the configuration. The hashes are those of the function in its
-- class and in each interface of the class.
pub record Candidate : Type 0 where
  pub is_internal : Bool
  pub hash : ℕ
  pub interface_hashes : List ℕ
  pub is_closure : Bool
  pub filename : List ℕ
  pub info : FunctionInfo

pub record Settings : Type 0 where
  pub debug_instrument_all : Bool
  pub is_functional : Bool
  pub attr_hooks_enabled : Bool
  pub prefix : List ℕ

pub record Registry : Type 0 where
  pub hooks : List (ℕ × Callbacks)
  pub metadata : List (ℕ × WithSpanMetadata)

-- Whether the handlers of the begin and of the end observe the function.
pub record Observing : Type 0 where
  pub begins : Bool
  pub ends : Bool

abbrev pub nothing : Observing
nothing = record { begins = false; ends = false }

-- std::string_view::find, as whether it finds something
unfoldable pub contains : List ℕ → List ℕ → Bool
contains needle [] = bytes_beq needle []
contains needle (c ∷ s) =
    let rest = contains needle s in
    if bytes_beq (take (length needle) (c ∷ s)) needle then true else rest

-- The hooks of an interface are stored for the function, too.
unfoldable pub store_all : ℕ → Callbacks → List (ℕ × Callbacks) → List (ℕ × Callbacks)
unfolding store_hooks
store_all hash [] hooks = hooks
store_all hash ((pre, post) ∷ callbacks) hooks =
    store_all hash callbacks (store_hooks hash pre post hooks)

-- The hooks for the function: its own, or those of the first interface that has some.
unfoldable pub find_in_interfaces :
    ℕ → List ℕ → List (ℕ × Callbacks) → Option Callbacks × List (ℕ × Callbacks)
unfolding store_all
find_in_interfaces hash [] hooks = (none, hooks)
find_in_interfaces hash (i ∷ interfaces) hooks = elim (lookup i hooks) [
  | some callbacks ↦ (some callbacks, store_all hash callbacks hooks)
  | none ↦ find_in_interfaces hash interfaces hooks
]

unfoldable pub find_callbacks :
    Candidate → List (ℕ × Callbacks) → Option Callbacks × List (ℕ × Callbacks)
unfolding find_in_interfaces
find_callbacks c hooks = elim (lookup c.hash hooks) [
  | some callbacks ↦ (some callbacks, hooks)
  | none ↦ find_in_interfaces c.hash c.interface_hashes hooks
]

-- The hook by which everything is instrumented, in front of the others.
unfoldable pub debug_applies : Settings → Candidate → Bool
unfolding contains
debug_applies set c =
    (set.debug_instrument_all && set.is_functional)
    && (not c.is_closure
        && (not (contains (codes "/opentelemetry/php/distro/") c.filename)
            && not (contains (codes "/open-telemetry/") c.filename)))

abbrev pub debug_hook : Settings → List ℕ → Zval
debug_hook set method =
    text false (set.prefix ++ (codes "OpenTelemetry\\Distro\\PhpPartFacade::" ++ method))

unfoldable pub add_debug_hook :
    Settings
    → Candidate
    → Option Callbacks × List (ℕ × Callbacks)
    → Option Callbacks × List (ℕ × Callbacks)
unfolding debug_applies store_front
add_debug_hook set c found =
    let hooks =
      store_front c.hash (debug_hook set (codes "debugPreHook"))
        (debug_hook set (codes "debugPostHook")) found.1 in
    if debug_applies set c then (lookup c.hash hooks, hooks) else found

unfoldable pub add_attribute :
    Settings → Candidate → List (ℕ × WithSpanMetadata) → Bool × List (ℕ × WithSpanMetadata)
unfolding has_with_span_attribute read_with_span_metadata store_metadata
add_attribute set c metadata =
    if set.attr_hooks_enabled && has_with_span_attribute c.info
    then elim (read_with_span_metadata c.info) as (λ _. Bool × List (ℕ × WithSpanMetadata)) [
      | none ↦ (false, metadata)
      | some meta ↦ (true, store_metadata c.hash meta metadata)
    ]
    else (false, metadata)

unfoldable pub is_null : Zval → Bool
is_null null = true
is_null _ = false

unfoldable pub any_pre : Callbacks → Bool
unfolding is_null
any_pre [] = false
any_pre ((pre, post) ∷ callbacks) = not (is_null pre) || any_pre callbacks

unfoldable pub any_post : Callbacks → Bool
unfolding is_null
any_post [] = false
any_post ((pre, post) ∷ callbacks) = not (is_null post) || any_post callbacks

unfoldable pub register_observer_handlers : Settings → Candidate → Registry → Observing × Registry
unfolding find_callbacks add_debug_hook add_attribute any_pre any_post
register_observer_handlers set c r =
    let found = add_debug_hook set c (find_callbacks c r.hooks) in
    let attribute = add_attribute set c r.metadata in
    let callbacks = found_or_empty found.0 in
    if c.is_internal || c.hash == 0 then (nothing, r) else (
      record {
        begins = attribute.0 || any_pre callbacks;
        ends = attribute.0 || any_post callbacks;
      },
      record { hooks = found.1; metadata = attribute.1 },
    )
