-- ===== src/Instrumentation/Observers.antt =====
-- The observers of user functions in
-- prod/native/extension/code/InternalFunctionInstrumentation.cpp: the handlers that run when a
-- function begins and ends, and which of them are registered for it.
pub mod Laws
pub mod Registration
use opentelemetry_php_distro.Prelude.{
  ℕ, zero, suc, Bool, true, false, not, ◌&&◌, ◌||◌, List, [], ◌∷◌, ◌++◌, Option, none, some, ◌==◌,
  ltb, codes, bytes_beq, lookup, assign, nat_eq, bytes_eq, leb, length, take, drop, if◌then◌else◌,
}
use opentelemetry_php_distro.Otlp.Zval.{
  Key, text_key, index_key, Zval, undef, null, long, text, array, object, is_object, is_undef,
  entries,
}
use opentelemetry_php_distro.Instrumentation.Storages.{
  Callbacks, store_hooks, store_front, found_or_empty,
}
use opentelemetry_php_distro.Instrumentation.Handlers.{
  Event, with_span_pre, with_span_post, critical, World, Engine, happens, call_pre_hook,
  call_post_hook, guarded, pre_parameters, save_exception_state,
}
use opentelemetry_php_distro.Instrumentation.WithSpan.{
  Attribute, FunctionInfo, WithSpanMetadata, find_attr_arg, has_with_span_attribute,
  read_with_span_metadata, store_metadata,
}

-- What the observers find: whether the request is functional, the scoper's prefix if dependencies
-- are scoped, the function, `this`, and the properties of its class.
pub record Observed : Type 0 where
  pub is_functional : Bool
  pub prefix : List ℕ
  pub info : FunctionInfo
  pub this : Zval
  pub property : List ℕ → Option Zval

abbrev pub Attributes : Type 0
Attributes = List (List ℕ × Zval)

-- The static attributes of WithSpan: those of an array whose keys are texts.
unfoldable pub add_entries : List (Key × Zval) → Attributes → Attributes
add_entries [] attributes = attributes
add_entries ((index_key i, v) ∷ es) attributes = add_entries es attributes
add_entries ((text_key k, v) ∷ es) attributes = add_entries es (assign k v attributes)

unfoldable pub static_attributes : Option Attribute → Attributes
unfolding find_attr_arg add_entries entries
static_attributes none = []
static_attributes (some attr) = elim (find_attr_arg 2 (codes "attributes") 0 attr) [
  | some (array next es) ↦ add_entries (entries es) []
  | some _ ↦ []
  | none ↦ []
]

-- A value that is there and is not undefined.
abbrev pub add_value : List ℕ → Option Zval → Attributes → Attributes
add_value key none attributes = attributes
add_value key (some v) attributes = if is_undef v then attributes else assign key v attributes

-- The arguments that the call has, and the properties of `this`.
unfoldable pub add_params : World → List (ℕ × List ℕ) → Attributes → Attributes
unfolding is_undef
add_params w [] attributes = attributes
add_params w ((i, key) ∷ ps) attributes =
    let value = if ltb i w.frame.num_args then lookup i w.frame.slots else none in
    add_params w ps (add_value key value attributes)

unfoldable pub add_props : Observed → List (List ℕ × List ℕ) → Attributes → Attributes
unfolding is_undef
add_props o [] attributes = attributes
add_props o ((name, key) ∷ ps) attributes =
    add_props o ps (add_value key (o.property name) attributes)

abbrev pub this_props : Observed → List (List ℕ × List ℕ) → Attributes → Attributes
this_props o ps attributes = if is_object o.this then add_props o ps attributes else attributes

abbrev pub span_args : WithSpanMetadata → Attributes
span_args meta =
    elim meta.span_name as (λ _. Attributes) [
      | none ↦ []
      | some s ↦ (codes "name", text false s) ∷ []
    ]
    ++ elim meta.span_kind as (λ _. Attributes) [
      | none ↦ []
      | some n ↦ (codes "span_kind", long n) ∷ []
    ]

abbrev pub handler_name : Observed → List ℕ → List ℕ
handler_name o method =
    o.prefix ++ (codes "OpenTelemetry\\API\\Instrumentation\\WithSpanHandler::" ++ method)

-- callMethod of PhpBridge.cpp restores the exception state itself, whatever the method throws.
unfoldable pub call_with_span_handler_pre : Engine → Observed → WithSpanMetadata → World → World
unfolding guarded pre_parameters static_attributes add_params add_props is_object
call_with_span_handler_pre z o meta w =
    let attributes =
      this_props o meta.prop_attributes
        (add_params w meta.param_attributes (static_attributes o.info.with_span)) in
    let event =
      with_span_pre (handler_name o (codes "pre")) (pre_parameters z w) (span_args meta)
        attributes in
    if o.is_functional then guarded z (λ v. (true, happens event v)) w else w

unfoldable pub call_with_span_handler_post : Engine → Observed → Option ℕ → World → World
unfolding guarded
call_with_span_handler_post z o exception w =
    let event = with_span_post (handler_name o (codes "post")) (
      z.scope_name_or_this w.frame
      ∷ z.call_arguments w.frame
      ∷ z.function_return_value w.return_value
      ∷ z.current_exception exception
      ∷ []) in
    if o.is_functional then guarded z (λ v. (true, happens event v)) w else w

-- The loops over the hooks; here a hook that is not there is called too, and fails.
unfoldable pub begin_hooks : Engine → Callbacks → World → World
unfolding guarded call_pre_hook
begin_hooks z [] w = w
begin_hooks z ((pre, post) ∷ callbacks) w =
    begin_hooks z callbacks (guarded z (call_pre_hook z pre) w)

unfoldable pub end_hooks : Engine → Callbacks → World → World
unfolding guarded call_post_hook
end_hooks z [] w = w
end_hooks z ((pre, post) ∷ callbacks) w =
    end_hooks z callbacks (guarded z (call_post_hook z post w.eg.exception) w)

-- A function that neither storage knows is an error in the log.
abbrev pub not_found : Option Callbacks → World → World
not_found none w = happens critical w
not_found (some callbacks) w = w

unfoldable pub observer_fcall_begin_handler :
    Engine → Observed → List (ℕ × Callbacks) → List (ℕ × WithSpanMetadata) → ℕ → World → World
unfolding begin_hooks call_with_span_handler_pre
observer_fcall_begin_handler z o hooks metadata hash w =
    let w' = begin_hooks z (found_or_empty (lookup hash hooks)) w in
    elim (lookup hash metadata) [
      | none ↦ not_found (lookup hash hooks) w'
      | some meta ↦ call_with_span_handler_pre z o meta w'
    ]

-- The exception state is saved once more around the handler of the attribute.
unfoldable pub with_span_end : Engine → Observed → World → World
unfolding save_exception_state call_with_span_handler_post
with_span_end z o w =
    let cleared = record w { eg = save_exception_state w.eg } in
    record (call_with_span_handler_post z o w.eg.exception cleared) { eg = w.eg }

unfoldable pub observer_fcall_end_handler :
    Engine → Observed → List (ℕ × Callbacks) → List (ℕ × WithSpanMetadata) → ℕ → World → World
unfolding end_hooks with_span_end
observer_fcall_end_handler z o hooks metadata hash w =
    let w' = end_hooks z (found_or_empty (lookup hash hooks)) w in
    elim (lookup hash metadata) [
      | none ↦ not_found (lookup hash hooks) w'
      | some meta ↦ with_span_end z o w'
    ]
