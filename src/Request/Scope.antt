-- ===== src/Request/Scope.antt =====
-- RequestScope of prod/native/libcommon/code/RequestScope.h, and PhpSapi.h. What PHP and the other
-- components answer during one request is the record `Answers`; the calls that the scope makes of
-- them come back as a list.
use opentelemetry_php_distro.Prelude.{
  ℕ, Bool, true, false, not, ◌&&◌, List, [], ◌∷◌, ◌++◌, ◌==◌, leb, add_word, bytes_beq, codes,
  if◌then◌else◌,
}

pub data SapiType : Type 0 where
  apache fpm cli cli_server cgi cgi_fcgi litespeed phpdbg embed fuzzer uwsgi frankenphp : SapiType
  unknown : SapiType

unfoldable pub parse_sapi : List ℕ → SapiType
parse_sapi name =
    if bytes_beq name (codes "cli")
    then cli
    else if bytes_beq name (codes "cli-server")
    then cli_server
    else if bytes_beq name (codes "cgi")
    then cgi
    else if bytes_beq name (codes "cgi-fcgi")
    then cgi_fcgi
    else if bytes_beq name (codes "fpm-fcgi")
    then fpm
    else if bytes_beq name (codes "apache2handler")
    then apache
    else if bytes_beq name (codes "litespeed")
    then litespeed
    else if bytes_beq name (codes "phpdbg")
    then phpdbg
    else if bytes_beq name (codes "embed")
    then embed
    else if bytes_beq name (codes "fuzzer")
    then fuzzer
    else if bytes_beq name (codes "uwsgi")
    then uwsgi
    else if bytes_beq name (codes "frankenphp")
    then frankenphp
    else unknown

abbrev pub is_supported : SapiType → Bool
is_supported unknown = false
is_supported phpdbg = false
is_supported embed = false
is_supported t = true

-- The members of the worker's configuration that the scope reads.
pub record Config : Type 0 where
  pub enabled : Bool
  pub bootstrap_php_part_file : List ℕ
  pub debug_diagnostic_file : List ℕ
  pub inferred_spans_enabled : Bool
  pub inferred_spans_sampling_interval : ℕ

-- The answers of a request: the configuration after its update, PHP's state, whether this worker is
-- chosen for the one-time task, and how the PHP side runs: whether compiling the bootstrap file
-- throws, and whether the entry point returns true, which an exception of it counts against.
pub record Answers : Type 0 where
  pub config_update : Config
  pub opcache_preload : Bool
  pub should_execute_one_time_task : Bool
  pub script_restricted_by_opcache_api : Bool
  pub opcache_restart_pending : Bool
  pub compile_throws : Bool
  pub entry_point_result : Bool

pub data Call : Type 0 where
  clear_hooks trigger_remote_config_updates enable_access_to_server_global : Call
  guard_set_bootstrap_path : List ℕ → Call
  guard_on_request_init guard_on_request_shutdown : Call
  store_diagnostic_information : List ℕ → Call
  compile_and_execute_file : List ℕ → Call
  php_side_entry_point php_side_exit_point php_side_error_handler : Call
  spans_set_interval : ℕ → Call
  spans_reset : Call
  executor_set_interval : ℕ → Call
  resume_periodic_tasks suspend_periodic_tasks : Call

pub record Scope : Type 0 where
  pub config : Config
  pub request_counter : ℕ
  pub bootstrap_successful : Bool
  pub preload_detected : Bool

abbrev reset_request : Scope → Scope
reset_request s = record s { bootstrap_successful = false }

abbrev pub is_successful : Answers → Bool
is_successful a = not a.compile_throws && a.entry_point_result

-- bootstrapPHPSideInstrumentation: the calls that it makes; it returns `is_successful`.
unfoldable pub bootstrap_php_side : Answers → List ℕ → List Call
bootstrap_php_side a file =
    if a.compile_throws
    then compile_and_execute_file file ∷ []
    else compile_and_execute_file file ∷ php_side_entry_point ∷ []

-- The default of ConfigurationSnapshot
abbrev default_sampling_interval : ℕ
default_sampling_interval = 50

abbrev pub sampling_interval : Config → ℕ
sampling_interval c =
    if c.inferred_spans_sampling_interval == 0
    then default_sampling_interval
    else c.inferred_spans_sampling_interval

unfoldable pub resume_inferred_spans : Config → List Call
resume_inferred_spans c =
    spans_set_interval (sampling_interval c)
    ∷ spans_reset
    ∷ executor_set_interval (sampling_interval c)
    ∷ resume_periodic_tasks
    ∷ []

-- The end of onRequestInit, from the bootstrap on.
unfoldable pub bootstrap_request : Answers → Scope → List Call × Scope
bootstrap_request a s =
    let calls = bootstrap_php_side a s.config.bootstrap_php_part_file in
    let s' = record s { bootstrap_successful = is_successful a } in
    if is_successful a && s.config.inferred_spans_enabled
    then (calls ++ resume_inferred_spans s.config, s')
    else (calls, s')

abbrev has_diagnostic_file : Config → Bool
has_diagnostic_file c = not (bytes_beq c.debug_diagnostic_file [])

abbrev diagnostics : Answers → Scope → List Call
diagnostics a s =
    if has_diagnostic_file s.config && a.should_execute_one_time_task
    then store_diagnostic_information s.config.debug_diagnostic_file ∷ []
    else []

-- onRequestInit once the counter has been incremented.
unfoldable pub counted_request : Answers → Scope → List Call × Scope
counted_request a s =
    let first = s.request_counter == 1 in
    let path_calls =
      if first then guard_set_bootstrap_path s.config.bootstrap_php_part_file ∷ [] else [] in
    let preload = if first then a.opcache_preload else false in
    let s' = record s { preload_detected = preload } in
    let calls = path_calls ++ enable_access_to_server_global ∷ guard_on_request_init ∷ [] in
    let diagnostic_calls =
      if not preload && leb s.request_counter 2 then diagnostics a s' else [] in
    let (rest, s'') = bootstrap_request a s' in
    if first && preload
    then (calls, s')
    else if not a.script_restricted_by_opcache_api && a.opcache_restart_pending
    then (calls ++ diagnostic_calls, s')
    else (calls ++ (diagnostic_calls ++ rest), s'')

unfoldable pub on_request_init : SapiType → Answers → Scope → List Call × Scope
on_request_init sapi a s =
    let s0 = reset_request s in
    let s1 = record s0 { config = a.config_update } in
    let (calls, s2) =
      counted_request a (record s1 { request_counter = add_word s1.request_counter 1 }) in
    if not (is_supported sapi)
    then (clear_hooks ∷ [], s0)
    else if not a.config_update.enabled
    then (clear_hooks ∷ trigger_remote_config_updates ∷ [], s1)
    else (clear_hooks ∷ trigger_remote_config_updates ∷ calls, s2)

-- onRequestShutdown does not change the scope.
unfoldable pub on_request_shutdown : Scope → List Call
on_request_shutdown s =
    if s.preload_detected
    then []
    else if not s.bootstrap_successful
    then []
    else if s.config.inferred_spans_enabled
    then suspend_periodic_tasks ∷ php_side_exit_point ∷ []
    else php_side_exit_point ∷ []

unfoldable pub on_request_post_deactivate : Scope → List Call × Scope
on_request_post_deactivate s = (guard_on_request_shutdown ∷ clear_hooks ∷ [], reset_request s)

abbrev pub handle_error : Bool → List Call
handle_error call_php_handler = if call_php_handler then php_side_error_handler ∷ [] else []

abbrev pub is_functional : Scope → Bool
is_functional s = s.bootstrap_successful

-- A request from its init to its end.
unfoldable pub request : SapiType → Answers → Scope → List Call × Scope
request sapi a s =
    let (init_calls, s1) = on_request_init sapi a s in
    let (end_calls, s2) = on_request_post_deactivate s1 in
    (init_calls ++ (on_request_shutdown s1 ++ end_calls), s2)

-- The requests of a worker, one after the other.
unfoldable pub requests : SapiType → List Answers → Scope → List Call × Scope
requests sapi [] s = ([], s)
requests sapi (a ∷ rest) s =
    let (calls, s') = request sapi a s in
    let (later, s'') = requests sapi rest s' in (calls ++ later, s'')
