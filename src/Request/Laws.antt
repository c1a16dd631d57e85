-- ===== src/Request/Laws.antt =====
-- What a request calls, and what it leaves behind.
use opentelemetry_php_distro.Prelude.{
  ℕ, ◌+◌, ◌≡◌, refl, Bool, true, false, not, ◌&&◌, List, [], ◌∷◌, ◌++◌, ◌==◌, add_word, arith,
  if◌then◌else◌,
}
use opentelemetry_php_distro.Request.Scope.{
  SapiType, is_supported, Answers, Call, resume_periodic_tasks, suspend_periodic_tasks,
  php_side_exit_point, Scope, bootstrap_php_side, is_successful, resume_inferred_spans,
  bootstrap_request, counted_request, on_request_init, on_request_shutdown,
  on_request_post_deactivate, request,
}

abbrev runs : Bool → Call → Bool
runs running resume_periodic_tasks = true
runs running suspend_periodic_tasks = false
runs running call = running

-- Whether the thread of periodic tasks runs after some calls.
abbrev pub runs_after : Bool → List Call → Bool
runs_after running [] = running
runs_after running (call ∷ calls) = runs_after (runs running call) calls

-- The conditions under which a request bootstraps the PHP side successfully.
abbrev pub bootstraps : SapiType → Answers → Scope → Bool
bootstraps sapi a s =
    is_supported sapi
    && (a.config_update.enabled
        && (not ((add_word s.request_counter 1 == 1) && a.opcache_preload)
            && (not (not a.script_restricted_by_opcache_api && a.opcache_restart_pending)
                && is_successful a)))

init-bootstrap_successful :
    (sapi : SapiType) (a : Answers) (s : Scope)
    → (on_request_init sapi a s).1.bootstrap_successful ≡ bootstraps sapi a s
unfolding on_request_init counted_request bootstrap_request
init-bootstrap_successful sapi a s = ground arith

runs-append :
    (r : Bool) (xs ys : List Call) → runs_after r (xs ++ ys) ≡ runs_after (runs_after r xs) ys
runs-append r [] ys = refl
runs-append r (call ∷ xs) ys = runs-append (runs r call) xs ys

abbrev is_exit : Call → ℕ
is_exit php_side_exit_point = 1
is_exit call = 0

-- How often the exit point of the PHP side is called.
abbrev pub exits : List Call → ℕ
exits [] = 0
exits (call ∷ calls) = is_exit call + exits calls

exits-append : (xs ys : List Call) → exits (xs ++ ys) ≡ exits xs + exits ys
exits-append [] ys = omega arith
exits-append (call ∷ xs) ys = omega (arith, exits-append xs ys)

-- After onRequestInit the periodic tasks run exactly if the request is bootstrapped and inferred
-- spans are enabled.
init-runs :
    (sapi : SapiType) (a : Answers) (s : Scope)
    → (runs_after false (on_request_init sapi a s).0
        ≡ (bootstraps sapi a s && a.config_update.inferred_spans_enabled))
      × (exits (on_request_init sapi a s).0 ≡ 0)
unfolding on_request_init counted_request bootstrap_request bootstrap_php_side resume_inferred_spans
init-runs sapi a s = ground arith

init-shutdown :
    (sapi : SapiType) (a : Answers) (s : Scope)
    → on_request_shutdown (on_request_init sapi a s).1 ≡ (
        if bootstraps sapi a s
        then (if a.config_update.inferred_spans_enabled
            then suspend_periodic_tasks ∷ php_side_exit_point ∷ []
            else php_side_exit_point ∷ [])
        else [])
unfolding on_request_init counted_request bootstrap_request on_request_shutdown
init-shutdown sapi a s = ground arith

-- Over a whole request that starts with the periodic tasks suspended: the tasks are suspended at
-- its end, the scope is not functional then, and the exit point of the PHP side is called once if
-- the request bootstraps the PHP side, and not at all otherwise.
pub request_lem :
    (sapi : SapiType) (a : Answers) (s : Scope)
    → let r = request sapi a s in
      (runs_after false r.0 ≡ false)
      × (r.1.bootstrap_successful ≡ false)
      × (exits r.0 ≡ (if bootstraps sapi a s then 1 else 0))
unfolding request on_request_post_deactivate
request_lem sapi a s =
    let i = on_request_init sapi a s in
    let tail = on_request_shutdown i.1 ++ (on_request_post_deactivate i.1).0 in
    let r = init-runs sapi a s in
    let e = init-shutdown sapi a s in
    (
      ground (arith, runs-append false i.0 tail, r, e),
      refl,
      ground (arith, exits-append i.0 tail, r, e),
    )
