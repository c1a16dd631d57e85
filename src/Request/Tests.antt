-- ===== src/Request/Tests.antt =====
-- Runs of requests, and the theorems at concrete ones.
use opentelemetry_php_distro.Request.Periodic.{
  Executor, new_executor, sleeping, starting, ended, prefork, postfork, fork_lem, Call, thread_step,
  add, suspend, run_calls, due, run_calls-suspended,
}
use opentelemetry_php_distro.Prelude.{◌+◌, ◌≡◌, refl, List, true, false, [], ◌∷◌, codes}
use opentelemetry_php_distro.Request.Scope.{
  fpm, is_supported, parse_sapi, Config, Answers, Scope, request,
}
use opentelemetry_php_distro.Request.Laws.{runs_after, exits, request_lem}
use opentelemetry_php_distro.Request.InferredSpans.{
  Run, Event, timer, php_call, php_return, run_event, run_events, try_request_interrupt,
  begin_attach, IsAnswered, run_events-IsAnswered,
}
use opentelemetry_php_distro.Request.OneTime.{
  fresh, start, step, enters, locks, enter, lock_exclusive, HasWinner, Runs-HasWinner,
}

abbrev config : Config
config = record {
  enabled = true;
  bootstrap_php_part_file = codes "/b.php";
  debug_diagnostic_file = [];
  inferred_spans_enabled = true;
  inferred_spans_sampling_interval = 0;
}

abbrev answers : Answers
answers = record {
  config_update = config;
  opcache_preload = false;
  should_execute_one_time_task = false;
  script_restricted_by_opcache_api = false;
  opcache_restart_pending = false;
  compile_throws = false;
  entry_point_result = true;
}

abbrev scope : Scope
scope = record {
  config = config;
  request_counter = 0;
  bootstrap_successful = false;
  preload_detected = false;
}

sapi_names : is_supported (parse_sapi (codes "fpm-fcgi")) ≡ true
unfolding parse_sapi
sapi_names = refl

request_lem_example :
    (runs_after false (request fpm answers scope).0 ≡ false)
    × ((request fpm answers scope).1.bootstrap_successful ≡ false)
    × (exits (request fpm answers scope).0 ≡ 1)
request_lem_example = request_lem fpm answers scope

-- Two workers pass the first test before one of them sets the flag.
Runs-HasWinner_example : HasWinner true (1 ∷ [])
unfolding enter lock_exclusive
Runs-HasWinner_example = Runs-HasWinner (
    step
      (step (step (step start (enters 1 fresh [])) (enters 2 (enter 1 fresh) []))
        (locks 1 (enter 2 (enter 1 fresh)) [] refl))
      (locks 2 (lock_exclusive 1 (enter 2 (enter 1 fresh))) (1 ∷ []) refl))

-- Two requests for an interrupt before the PHP thread answers: one backtrace.
abbrev idle_run : Run
idle_run = record {
  spans = record {
    interrupted_requested = false;
    sampling_interval = 20;
    last_interrupt_request_tick = 0;
    php_side_backtrace_pending = false;
  };
  requested = 0;
  begun = 0;
  ended = 0;
}

abbrev events : List Event
events = timer 30 ∷ timer 60 ∷ php_call ∷ php_call ∷ php_return ∷ []

one_backtrace : (run_events events idle_run).begun ≡ 1
unfolding run_events run_event try_request_interrupt begin_attach
one_backtrace = refl

run_events-IsAnswered_example : IsAnswered (run_events events idle_run)
run_events-IsAnswered_example =
    run_events-IsAnswered events idle_run (record { answered = refl; single = refl })

-- A thread in its sleep, with two tasks, suspended.
abbrev asleep : Executor
asleep = record (new_executor true (4 ∷ 7 ∷ [])) { position = sleeping }

fork_lem_example :
    ((prefork asleep).position ≡ ended)
    × ((prefork asleep).ran ≡ 4 ∷ 7 ∷ [])
    × ((postfork (prefork asleep)).position ≡ starting)
    × ((postfork (prefork asleep)).working ≡ true)
    × ((postfork (prefork asleep)).resumed ≡ false)
    × ((postfork (prefork asleep)).periodic_tasks ≡ 4 ∷ 7 ∷ [])
fork_lem_example = fork_lem asleep

abbrev calls : List Call
calls = thread_step ∷ add 9 ∷ thread_step ∷ suspend ∷ thread_step ∷ thread_step ∷ []

run_calls-suspended_example :
    (run_calls calls asleep).rounds + due (run_calls calls asleep).position ≡ 1
run_calls-suspended_example = run_calls-suspended calls asleep refl refl
