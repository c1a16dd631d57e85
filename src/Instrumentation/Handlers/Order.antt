-- ===== src/Instrumentation/Handlers/Order.antt =====
-- In which order hooks and the original handler are called, and what the hooks leave behind.
use opentelemetry_php_distro.Prelude.{
  ℕ, ◌≡◌, refl, ap, sym, ◌∙◌, Bool, true, false, not, ◌&&◌, List, [], ◌∷◌, ◌++◌, Option, none, some,
  lookup, nat_eq, append-nil, append_assoc, arith, if◌then◌else◌, Bool-cases, Option-cases, inl,
  inr,
}
use opentelemetry_php_distro.Otlp.Zval.{Zval, is_undef}
use opentelemetry_php_distro.Instrumentation.Storages.{Callbacks, Handler, Storages, found_or_empty}
use opentelemetry_php_distro.Instrumentation.Arguments.{Frame}
use opentelemetry_php_distro.Instrumentation.Handlers.{
  Event, hook_called, original_called, with_span_pre, with_span_post, hook_error, critical, warning,
  World, Engine, happens, call_function, call_pre_hook, attempt, pre_parameters, post_parameters,
  overwrite, call_post_hook, save_exception_state, handle_and_release, guarded, is_no_hook,
  run_pre_hooks, run_post_hooks, call_original_handler, go_on, internal_function_handler,
}

-- The calls among what happened.
pub data Call : Type 0 where
  hook : Zval → Call
  original : Handler → Call
  with_span : List ℕ → Call

abbrev pub calls : List Event → List Call
calls [] = []
calls (hook_called h params ∷ es) = hook h ∷ calls es
calls (original_called handler ∷ es) = original handler ∷ calls es
calls (with_span_pre name params span_args attributes ∷ es) = with_span name ∷ calls es
calls (with_span_post name params ∷ es) = with_span name ∷ calls es
calls (hook_error e ∷ es) = calls es
calls (critical ∷ es) = calls es
calls (warning ∷ es) = calls es

pub calls-append : (es fs : List Event) → calls (es ++ fs) ≡ calls es ++ calls fs
calls-append [] fs = refl
calls-append (hook_called h params ∷ es) fs = ap (◌∷◌ (hook h)) (calls-append es fs)
calls-append (original_called handler ∷ es) fs = ap (◌∷◌ (original handler)) (calls-append es fs)
calls-append (with_span_pre name params span_args attributes ∷ es) fs =
    ap (◌∷◌ (with_span name)) (calls-append es fs)
calls-append (with_span_post name params ∷ es) fs = ap (◌∷◌ (with_span name)) (calls-append es fs)
calls-append (hook_error e ∷ es) fs = calls-append es fs
calls-append (critical ∷ es) fs = calls-append es fs
calls-append (warning ∷ es) fs = calls-append es fs

-- The hooks that are there and can be called.
abbrev pub hook_calls : Engine → List Zval → List Call
hook_calls z [] = []
hook_calls z (h ∷ hs) =
    let rest = hook_calls z hs in
    if not (is_no_hook h) && z.fcall_info_init h then hook h ∷ rest else rest

abbrev pub entry_hooks : Callbacks → List Zval
entry_hooks [] = []
entry_hooks ((pre, post) ∷ callbacks) = pre ∷ entry_hooks callbacks

abbrev pub exit_hooks : Callbacks → List Zval
exit_hooks [] = []
exit_hooks ((pre, post) ∷ callbacks) = post ∷ exit_hooks callbacks

-- What a step adds to the calls, and that it keeps the exception.
abbrev pub Adds : List Call → World → World → Type 0
Adds cs w w' = (w'.eg ≡ w.eg) × (calls w'.events ≡ calls w.events ++ cs)

pub Adds-trans :
    (cs ds : List Call) (w w' w'' : World) → Adds cs w w' → Adds ds w' w'' → Adds (cs ++ ds) w w''
Adds-trans cs ds w w' w'' a b =
    (b.0 ∙ a.0, b.1 ∙ (ap (λ es. es ++ ds) a.1 ∙ append_assoc (calls w.events) cs ds))

pub happens_silent :
    (e : Event) (w : World) → calls (e ∷ []) ≡ [] → calls (happens e w).events ≡ calls w.events
happens_silent e w h = calls-append w.events (e ∷ []) ∙ (rw h (append-nil (calls w.events)))

handle_and_release-calls :
    (z : Engine) (e : Option ℕ) (w : World)
    → calls (handle_and_release z e w).events ≡ calls w.events
unfolding handle_and_release
handle_and_release-calls z none w = refl
handle_and_release-calls z (some e) w = elim (Bool-cases (z.is_throwable e)) [
  | inl thrown ↦ rw thrown (happens_silent (hook_error e) w refl)
  | inr other ↦ rw other
]

-- A guarded body adds the calls that the body adds, whatever becomes of it.
pub guarded-Adds :
    (z : Engine) (body : World → Bool × World) (w : World) (cs : List Call)
    → ((w' : World) → w'.events ≡ w.events → calls (body w').1.events ≡ calls w.events ++ cs)
    → Adds cs w (guarded z body w)
unfolding guarded
guarded-Adds z body w cs h =
    go (body (record w { eg = save_exception_state w.eg }))
      (h (record w { eg = save_exception_state w.eg }) refl)
  where
    go :
        (r : Bool × World)
        → calls r.1.events ≡ calls w.events ++ cs
        → Adds cs w (
            if r.0
            then record (handle_and_release z r.1.eg.exception r.1) { eg = w.eg }
            else happens critical (record r.1 { eg = w.eg }))
    go (true, w') e = (refl, handle_and_release-calls z w'.eg.exception w' ∙ e)
    go (false, w') e = (refl, happens_silent critical w' refl ∙ e)

-- The call of a hook that the engine accepts.
abbrev pub one_call : Engine → Zval → List Call
one_call z h = if z.fcall_info_init h then hook h ∷ [] else []

attempt-calls :
    (accepted success : Bool) (processed called untouched : World) (before added : List Call)
    → calls processed.events ≡ before ++ added
    → calls called.events ≡ before ++ added
    → calls untouched.events ≡ before
    → calls (attempt accepted success processed called untouched).1.events
      ≡ before ++ (if accepted then added else [])
unfolding attempt
attempt-calls true true p q r before added hp hq hr = hp
attempt-calls true false p q r before added hp hq hr = hq
attempt-calls false success p q r before added hp hq hr = hr ∙ sym (append-nil before)

called-calls :
    (h : Zval) (params : List Zval) (w w' : World)
    → w'.events ≡ w.events
    → calls (w'.events ++ (hook_called h params ∷ [])) ≡ calls w.events ++ (hook h ∷ [])
called-calls h params w w' e =
    calls-append w'.events (hook_called h params ∷ []) ∙ ap (λ es. calls es ++ (hook h ∷ [])) e

pub call_pre_hook-calls :
    (z : Engine) (pre : Zval) (w w' : World)
    → w'.events ≡ w.events
    → calls (call_pre_hook z pre w').1.events ≡ calls w.events ++ one_call z pre
unfolding call_pre_hook call_function
call_pre_hook-calls z pre w w' e =
    let called = called-calls pre (pre_parameters z w') w w' e in
    attempt-calls _ _ _ _ _ (calls w.events) (hook pre ∷ []) called called (ap calls e)

overwrite-events :
    (z : Engine) (h result : Zval) (w : World) → (overwrite z h result w).events ≡ w.events
unfolding overwrite
overwrite-events z h result w = go w.return_value
  where
    go :
        (o : Option Zval)
        → (elim o as (λ _. World) [
          | none ↦ w
          | some v ↦
              if not (is_undef result) && z.has_return_type h
              then record w { return_value = some result }
              else w
        ]).events
          ≡ w.events
    go none = refl
    go (some v) = ground arith

pub call_post_hook-calls :
    (z : Engine) (post : Zval) (exception : Option ℕ) (w w' : World)
    → w'.events ≡ w.events
    → calls (call_post_hook z post exception w').1.events ≡ calls w.events ++ one_call z post
unfolding call_post_hook call_function
call_post_hook-calls z post exception w w' e =
    let params = post_parameters z exception w' in
    let called = called-calls post params w w' e in
    let r = call_function z post params w' in
    attempt-calls _ _ _ _ _ (calls w.events) (hook post ∷ [])
      (ap calls (overwrite-events z post r.0.result r.1) ∙ called) called (ap calls e)

-- The calls of the first hook, and those of the others.
hook_calls-cons :
    (z : Engine) (h : Zval) (hs : List Zval)
    → is_no_hook h ≡ false
    → hook_calls z (h ∷ hs) ≡ one_call z h ++ hook_calls z hs
hook_calls-cons z h hs e = elim (Bool-cases (z.fcall_info_init h)) [
  | inl accepted ↦ rw (e, accepted)
  | inr refused ↦ rw (e, refused)
]

run_pre_hooks-Adds :
    (z : Engine) (callbacks : Callbacks) (w : World)
    → Adds (hook_calls z (entry_hooks callbacks)) w (run_pre_hooks z callbacks w)
unfolding run_pre_hooks
run_pre_hooks-Adds z [] w = (refl, sym (append-nil (calls w.events)))
run_pre_hooks-Adds z ((pre, post) ∷ callbacks) w = elim (Bool-cases (is_no_hook pre)) [
  | inl absent ↦ rw (run_pre_hooks, absent) (run_pre_hooks-Adds z callbacks w)
  | inr present ↦
      let w' = guarded z (call_pre_hook z pre) w in
      rw (run_pre_hooks, hook_calls-cons z pre (entry_hooks callbacks) present, present)
        (Adds-trans (one_call z pre) (hook_calls z (entry_hooks callbacks)) w w'
          (run_pre_hooks z callbacks w')
          (guarded-Adds z (call_pre_hook z pre) w (one_call z pre)
            (λ v e. call_pre_hook-calls z pre w v e))
          (run_pre_hooks-Adds z callbacks w'))
]

run_post_hooks-Adds :
    (z : Engine) (callbacks : Callbacks) (w : World)
    → Adds (hook_calls z (exit_hooks callbacks)) w (run_post_hooks z callbacks w)
unfolding run_post_hooks
run_post_hooks-Adds z [] w = (refl, sym (append-nil (calls w.events)))
run_post_hooks-Adds z ((pre, post) ∷ callbacks) w = elim (Bool-cases (is_no_hook post)) [
  | inl absent ↦ rw (run_post_hooks, absent) (run_post_hooks-Adds z callbacks w)
  | inr present ↦
      let w' = guarded z (call_post_hook z post w.eg.exception) w in
      rw (run_post_hooks, hook_calls-cons z post (exit_hooks callbacks) present, present)
        (Adds-trans (one_call z post) (hook_calls z (exit_hooks callbacks)) w w'
          (run_post_hooks z callbacks w')
          (guarded-Adds z (call_post_hook z post w.eg.exception) w (one_call z post)
            (λ v e. call_post_hook-calls z post w.eg.exception w v e))
          (run_post_hooks-Adds z callbacks w'))
]

-- The hooks of a function, if the request is functional.
abbrev pub active : Storages → Bool → ℕ → Callbacks
active s functional hash = if functional then found_or_empty (lookup hash s.hooks) else []

run_original-Adds :
    (z : Engine) (handler : Handler) (w : World) (rest : World → World) (after : List Call)
    → ((es : List Event) (f : Frame) → (z.original es handler f).bailout ≡ false)
    → ((v : World) → Adds after v (rest v))
    → (calls (go_on (call_original_handler z handler w) rest).events
        ≡ calls w.events ++ (original handler ∷ after))
      × ((go_on (call_original_handler z handler w) rest).eg
          ≡ (z.original w.events handler w.frame).after)
unfolding call_original_handler
run_original-Adds z handler w rest after stays adds =
    let r = z.original w.events handler w.frame in
    let ran : World = record (happens (original_called handler) w) {
      eg = r.after;
      return_value = r.result;
    } in
    let a = adds ran in
    rw (stays w.events w.frame) (
      a.1
          ∙ (ap (λ es. es ++ after) (calls-append w.events (original_called handler ∷ []))
              ∙ append_assoc (calls w.events) (original handler ∷ []) after),
      a.0,
    )

-- The handler of an instrumented function calls, if the request is functional, the hooks on entry
-- that are there and that the engine accepts, in their order; then the original handler, once; and
-- then the hooks on exit alike, whatever a hook returns or throws and whether its call fails. The
-- exception state afterwards is what the original handler left. The original handler has to be
-- stored and not to bail out.
pub internal_function_handler-calls :
    (z : Engine) (s : Storages) (functional : Bool) (hash : ℕ) (handler : Handler) (w : World)
    → lookup hash s.originals ≡ some handler
    → ((es : List Event) (f : Frame) → (z.original es handler f).bailout ≡ false)
    → (let callbacks = active s functional hash in
        let w' = internal_function_handler z s functional hash w in
        (calls w'.events
          ≡ calls w.events
            ++ (hook_calls z (entry_hooks callbacks)
                ++ (original handler ∷ hook_calls z (exit_hooks callbacks))))
        × ((es : List Event) × (f : Frame) × (w'.eg ≡ (z.original es handler f).after)))
unfolding internal_function_handler
internal_function_handler-calls z s false hash handler w stored stays =
    let r =
      run_original-Adds z handler w (λ v. v) [] stays
        (λ v. (refl, sym (append-nil (calls v.events)))) in
    rw (internal_function_handler, stored) (r.0, (w.events, w.frame, r.1))
internal_function_handler-calls z s true hash handler w stored stays =
    elim (Option-cases (lookup hash s.hooks)) [
      | inl missing ↦
          let r =
            run_original-Adds z handler w (happens warning) [] stays
              (λ v. (refl, happens_silent warning v refl ∙ sym (append-nil (calls v.events)))) in
          rw (internal_function_handler, stored, missing) (r.0, (w.events, w.frame, r.1))
      | inr (callbacks, present) ↦
          let v = run_pre_hooks z callbacks w in
          let before = run_pre_hooks-Adds z callbacks w in
          let exit = hook_calls z (exit_hooks callbacks) in
          let r =
            run_original-Adds z handler v (run_post_hooks z callbacks) exit stays
              (run_post_hooks-Adds z callbacks) in
          rw (internal_function_handler, stored, present)
            (
              r.0
                  ∙ (ap (λ es. es ++ (original handler ∷ exit)) before.1
                      ∙ append_assoc (calls w.events) (hook_calls z (entry_hooks callbacks))
                          (original handler ∷ exit)),
              (v.events, v.frame, r.1),
            )
    ]
