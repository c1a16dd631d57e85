-- ===== src/Instrumentation/Handlers.antt =====
-- The handlers of prod/native/extension/code/InternalFunctionInstrumentation.cpp that run around an
-- instrumented function, with Exceptions.{h,cpp} of prod/native/libphpbridge/code. The engine is a
-- parameter: what it answers may depend on all that happened before.
pub mod Order
use opentelemetry_php_distro.Prelude.{
  ℕ, Bool, true, false, not, ◌&&◌, ◌||◌, List, [], ◌∷◌, ◌++◌, Option, none, some, lookup, nat_eq,
  if◌then◌else◌,
}
use opentelemetry_php_distro.Otlp.Zval.{Zval, undef, null, is_undef}
use opentelemetry_php_distro.Instrumentation.Storages.{Callbacks, Handler, Storages}
use opentelemetry_php_distro.Instrumentation.Arguments.{Frame, args_post_processing}

-- EG(exception), EG(prev_exception), EG(opline_before_exception) and the opline of the frame
pub record ExceptionState : Type 0 where
  pub exception : Option ℕ
  pub prev_exception : Option ℕ
  pub opline_before_exception : ℕ
  pub opline : ℕ

-- What happens: a call of a hook with its parameters, of the original handler, or of a method of
-- WithSpanHandler, by its name, with its parameters, of which two are arrays; and log entries.
pub data Event : Type 0 where
  hook_called : Zval → List Zval → Event
  original_called : Handler → Event
  with_span_pre : List ℕ → List Zval → List (List ℕ × Zval) → List (List ℕ × Zval) → Event
  with_span_post : List ℕ → List Zval → Event
  hook_error : ℕ → Event
  critical : Event
  warning : Event

-- The call that is instrumented; there is no return value after an exception.
pub record World : Type 0 where
  pub eg : ExceptionState
  pub frame : Frame
  pub return_value : Option Zval
  pub events : List Event

-- What zend_call_function does, and what the original handler does.
pub record Called : Type 0 where
  pub success : Bool
  pub result : Zval
  pub after : ExceptionState

pub record Ran : Type 0 where
  pub bailout : Bool
  pub result : Option Zval
  pub after : ExceptionState

pub record Engine : Type 0 where
  pub fcall_info_init : Zval → Bool
  pub call_function : List Event → Zval → List Zval → Called
  pub original : List Event → Handler → Frame → Ran
  pub has_return_type : Zval → Bool
  pub is_throwable : ℕ → Bool
  pub is_identical : Zval → Zval → Bool
  pub scope_name_or_this : Frame → Zval
  pub call_arguments : Frame → Zval
  pub declaring_scope : Frame → Zval
  pub function_name : Frame → Zval
  pub declaration_file_name : Frame → Zval
  pub declaration_line_no : Frame → Zval
  pub function_return_value : Option Zval → Zval
  pub current_exception : Option ℕ → Zval

abbrev pub happens : Event → World → World
happens e w = record w { events = w.events ++ (e ∷ []) }

-- zend_call_function, with the Boolean of its success.
unfoldable pub call_function : Engine → Zval → List Zval → World → Called × World
call_function z hook params w =
    let r = z.call_function w.events hook params in
    (r, record (happens (hook_called hook params) w) { eg = r.after })

-- A hook that the engine does not accept, or whose call fails, is a std::exception: the Boolean is
-- false then.
unfoldable pub attempt : Bool → Bool → World → World → World → Bool × World
attempt true true processed called untouched = (true, processed)
attempt true false processed called untouched = (false, called)
attempt false success processed called untouched = (false, untouched)

unfoldable pub pre_parameters : Engine → World → List Zval
pre_parameters z w =
    z.scope_name_or_this w.frame
    ∷ z.call_arguments w.frame
    ∷ z.declaring_scope w.frame
    ∷ z.function_name w.frame
    ∷ z.declaration_file_name w.frame
    ∷ z.declaration_line_no w.frame
    ∷ []

unfoldable pub call_pre_hook : Engine → Zval → World → Bool × World
unfolding attempt call_function pre_parameters args_post_processing
call_pre_hook z prehook w =
    let r = call_function z prehook (pre_parameters z w) w in
    attempt (z.fcall_info_init prehook) r.0.success
      (record r.1 {
        frame = args_post_processing z.is_identical (z.call_arguments w.frame) r.0.result r.1.frame;
      })
      r.1 w

-- The result of a hook on exit replaces the return value, if there is one and the hook has a return
-- type other than void.
unfoldable pub overwrite : Engine → Zval → Zval → World → World
unfolding is_undef
overwrite z hook result w = elim w.return_value [
  | none ↦ w
  | some v ↦
      if not (is_undef result) && z.has_return_type hook
      then record w { return_value = some result }
      else w
]

unfoldable pub post_parameters : Engine → Option ℕ → World → List Zval
post_parameters z exception w =
    z.scope_name_or_this w.frame
    ∷ z.call_arguments w.frame
    ∷ z.function_return_value w.return_value
    ∷ z.current_exception exception
    ∷ z.declaring_scope w.frame
    ∷ z.function_name w.frame
    ∷ z.declaration_file_name w.frame
    ∷ z.declaration_line_no w.frame
    ∷ []

unfoldable pub call_post_hook : Engine → Zval → Option ℕ → World → Bool × World
unfolding attempt call_function post_parameters overwrite
call_post_hook z hook exception w =
    let r = call_function z hook (post_parameters z exception w) w in
    attempt (z.fcall_info_init hook) r.0.success (overwrite z hook r.0.result r.1) r.1 w

unfoldable pub save_exception_state : ExceptionState → ExceptionState
save_exception_state s = record s {
  exception = none;
  prev_exception = none;
  opline_before_exception = 0;
}

unfoldable pub handle_and_release : Engine → Option ℕ → World → World
handle_and_release z none w = w
handle_and_release z (some e) w = if z.is_throwable e then happens (hook_error e) w else w

-- A try block with an AutomaticExceptionStateRestorer around a call.
unfoldable pub guarded : Engine → (World → Bool × World) → World → World
unfolding save_exception_state handle_and_release
guarded z body w =
    let (fine, w') = body (record w { eg = save_exception_state w.eg }) in
    let handled = record (handle_and_release z w'.eg.exception w') { eg = w.eg } in
    let failed = happens critical (record w' { eg = w.eg }) in if fine then handled else failed

unfoldable pub is_no_hook : Zval → Bool
is_no_hook null = true
is_no_hook undef = true
is_no_hook _ = false

-- The two loops of internal_function_handler
unfoldable pub run_pre_hooks : Engine → Callbacks → World → World
unfolding guarded call_pre_hook is_no_hook
run_pre_hooks z [] w = w
run_pre_hooks z ((pre, post) ∷ callbacks) w =
    let called = run_pre_hooks z callbacks (guarded z (call_pre_hook z pre) w) in
    let passed = run_pre_hooks z callbacks w in if is_no_hook pre then passed else called

unfoldable pub run_post_hooks : Engine → Callbacks → World → World
unfolding guarded call_post_hook is_no_hook
run_post_hooks z [] w = w
run_post_hooks z ((pre, post) ∷ callbacks) w =
    let called = run_post_hooks z callbacks (guarded z (call_post_hook z post w.eg.exception) w) in
    let passed = run_post_hooks z callbacks w in if is_no_hook post then passed else called

-- callOriginalHandler; the Boolean is false when a bailout leaves the handler.
unfoldable pub call_original_handler : Engine → Handler → World → Bool × World
call_original_handler z handler w =
    let r = z.original w.events handler w.frame in
    (
      not r.bailout,
      record (happens (original_called handler) w) { eg = r.after; return_value = r.result },
    )

abbrev pub go_on : Bool × World → (World → World) → World
go_on (true, w) rest = rest w
go_on (false, w) rest = w

unfoldable pub internal_function_handler : Engine → Storages → Bool → ℕ → World → World
unfolding call_original_handler run_pre_hooks run_post_hooks
internal_function_handler z s functional hash w = elim (lookup hash s.originals) as (λ _. World) [
  | none ↦ happens critical w
  | some handler ↦
      if functional
      then elim (lookup hash s.hooks) as (λ _. World) [
        | none ↦ go_on (call_original_handler z handler w) (happens warning)
        | some callbacks ↦
            go_on (call_original_handler z handler (run_pre_hooks z callbacks w))
              (run_post_hooks z callbacks)
      ]
      else go_on (call_original_handler z handler w) (λ v. v)
]
