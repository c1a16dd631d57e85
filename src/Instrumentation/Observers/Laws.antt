-- ===== src/Instrumentation/Observers/Laws.antt =====
-- What the observers call, and what they leave behind.
use opentelemetry_php_distro.Prelude.{
  ℕ, refl, ap, sym, ◌∙◌, Bool, true, false, List, [], ◌∷◌, ◌++◌, Option, none, some, lookup, nat_eq,
  codes, append-nil, if◌then◌else◌,
}
use opentelemetry_php_distro.Otlp.Zval.{Zval}
use opentelemetry_php_distro.Instrumentation.Storages.{Callbacks, found_or_empty}
use opentelemetry_php_distro.Instrumentation.Handlers.{
  Event, critical, World, Engine, happens, call_pre_hook, call_post_hook, guarded,
  save_exception_state,
}
use opentelemetry_php_distro.Instrumentation.Handlers.Order.{
  Call, with_span, calls, calls-append, entry_hooks, exit_hooks, Adds, Adds-trans, happens_silent,
  guarded-Adds, one_call, call_pre_hook-calls, call_post_hook-calls,
}
use opentelemetry_php_distro.Instrumentation.WithSpan.{WithSpanMetadata}
use opentelemetry_php_distro.Instrumentation.Observers.{
  Observed, handler_name, call_with_span_handler_pre, call_with_span_handler_post, begin_hooks,
  end_hooks, not_found, observer_fcall_begin_handler, with_span_end, observer_fcall_end_handler,
}

-- The hooks that the engine accepts.
abbrev pub accepted_calls : Engine → List Zval → List Call
accepted_calls z [] = []
accepted_calls z (h ∷ hs) = one_call z h ++ accepted_calls z hs

-- The method of the attribute's handler, for a function with metadata in a functional request.
abbrev pub attribute_call : Observed → List ℕ → Option WithSpanMetadata → List Call
attribute_call o method none = []
attribute_call o method (some meta) =
    if o.is_functional then with_span (handler_name o method) ∷ [] else []

begin_hooks-Adds :
    (z : Engine) (callbacks : Callbacks) (w : World)
    → Adds (accepted_calls z (entry_hooks callbacks)) w (begin_hooks z callbacks w)
unfolding begin_hooks
begin_hooks-Adds z [] w = (refl, sym (append-nil (calls w.events)))
begin_hooks-Adds z ((pre, post) ∷ callbacks) w =
    let w' = guarded z (call_pre_hook z pre) w in
    Adds-trans (one_call z pre) (accepted_calls z (entry_hooks callbacks)) w w'
      (begin_hooks z callbacks w')
      (guarded-Adds z (call_pre_hook z pre) w (one_call z pre) (call_pre_hook-calls z pre w))
      (begin_hooks-Adds z callbacks w')

end_hooks-Adds :
    (z : Engine) (callbacks : Callbacks) (w : World)
    → Adds (accepted_calls z (exit_hooks callbacks)) w (end_hooks z callbacks w)
unfolding end_hooks
end_hooks-Adds z [] w = (refl, sym (append-nil (calls w.events)))
end_hooks-Adds z ((pre, post) ∷ callbacks) w =
    let w' = guarded z (call_post_hook z post w.eg.exception) w in
    Adds-trans (one_call z post) (accepted_calls z (exit_hooks callbacks)) w w'
      (end_hooks z callbacks w')
      (guarded-Adds z (call_post_hook z post w.eg.exception) w (one_call z post)
        (call_post_hook-calls z post w.eg.exception w))
      (end_hooks-Adds z callbacks w')

not_found-Adds : (o : Option Callbacks) (w : World) → Adds [] w (not_found o w)
not_found-Adds none w = (refl, happens_silent critical w refl ∙ sym (append-nil (calls w.events)))
not_found-Adds (some callbacks) w = (refl, sym (append-nil (calls w.events)))

-- A method of the attribute's handler that is called in a guarded block.
guarded_event-Adds :
    (z : Engine) (e : Event) (functional : Bool) (w : World)
    → Adds
        (if functional then calls (e ∷ []) else [])
        w
        (if functional then guarded z (λ v. (true, happens e v)) w else w)
guarded_event-Adds z e true w =
    guarded-Adds z (λ v. (true, happens e v)) w (calls (e ∷ []))
      (λ v h. calls-append v.events (e ∷ []) ∙ ap (λ es. calls es ++ calls (e ∷ [])) h)
guarded_event-Adds z e false w = (refl, sym (append-nil (calls w.events)))

call_with_span_handler_pre-Adds :
    (z : Engine) (o : Observed) (meta : WithSpanMetadata) (w : World)
    → Adds (attribute_call o (codes "pre") (some meta)) w (call_with_span_handler_pre z o meta w)
unfolding call_with_span_handler_pre
call_with_span_handler_pre-Adds z o meta w = guarded_event-Adds z _ o.is_functional w

with_span_end-Adds :
    (z : Engine) (o : Observed) (meta : WithSpanMetadata) (w : World)
    → Adds (attribute_call o (codes "post") (some meta)) w (with_span_end z o w)
unfolding with_span_end call_with_span_handler_post
with_span_end-Adds z o meta w =
    (refl, (guarded_event-Adds z _ o.is_functional (record w { eg = save_exception_state w.eg })).1)

-- When an observed function begins, the hooks on entry that the engine accepts are called in their
-- order, then the method pre of the attribute's handler if the function has the attribute and the
-- request is functional; when it ends, the hooks on exit and the method post alike. Either leaves the
-- exception state as it was, whatever a hook throws and whether its call fails.
pub observer_fcall_handlers-Adds :
    (z : Engine) (o : Observed) (hooks : List (ℕ × Callbacks))
    (metadata : List (ℕ × WithSpanMetadata)) (hash : ℕ) (w : World)
    → (let callbacks = found_or_empty (lookup hash hooks) in
        let meta = lookup hash metadata in
        Adds
          (accepted_calls z (entry_hooks callbacks) ++ attribute_call o (codes "pre") meta)
          w
          (observer_fcall_begin_handler z o hooks metadata hash w)
        × Adds
            (accepted_calls z (exit_hooks callbacks) ++ attribute_call o (codes "post") meta)
            w
            (observer_fcall_end_handler z o hooks metadata hash w))
unfolding observer_fcall_begin_handler observer_fcall_end_handler
observer_fcall_handlers-Adds z o hooks metadata hash w =
    let callbacks = found_or_empty (lookup hash hooks) in
    (
      Adds-trans (accepted_calls z (entry_hooks callbacks))
          (attribute_call o (codes "pre") (lookup hash metadata)) w (begin_hooks z callbacks w)
          (observer_fcall_begin_handler z o hooks metadata hash w) (begin_hooks-Adds z callbacks w)
          (at_begin (lookup hash metadata) (begin_hooks z callbacks w)),
      Adds-trans (accepted_calls z (exit_hooks callbacks))
          (attribute_call o (codes "post") (lookup hash metadata)) w (end_hooks z callbacks w)
          (observer_fcall_end_handler z o hooks metadata hash w) (end_hooks-Adds z callbacks w)
          (at_end (lookup hash metadata) (end_hooks z callbacks w)),
    )
  where
    at_begin :
        (m : Option WithSpanMetadata) (v : World)
        → Adds (attribute_call o (codes "pre") m) v (elim m as (λ _. World) [
          | none ↦ not_found (lookup hash hooks) v
          | some meta ↦ call_with_span_handler_pre z o meta v
        ])
    at_begin none v = not_found-Adds (lookup hash hooks) v
    at_begin (some meta) v = call_with_span_handler_pre-Adds z o meta v

    at_end :
        (m : Option WithSpanMetadata) (v : World)
        → Adds (attribute_call o (codes "post") m) v (elim m as (λ _. World) [
          | none ↦ not_found (lookup hash hooks) v
          | some meta ↦ with_span_end z o v
        ])
    at_end none v = not_found-Adds (lookup hash hooks) v
    at_end (some meta) v = with_span_end-Adds z o meta v
