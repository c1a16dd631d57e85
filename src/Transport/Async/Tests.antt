-- ===== src/Transport/Async/Tests.antt =====
-- Runs of the transport, and its theorems at concrete states.
use opentelemetry_php_distro.Prelude.{
  ℕ, zero, suc, ◌≡◌, refl, Bool, true, false, if◌then◌else◌, List, [], ◌∷◌, ◌++◌, none, arith,
  codes, nat_eq,
}
use opentelemetry_php_distro.Transport.Endpoints.{
  SslOptions, CurlSender, HttpEndpoint, Endpoints, Connection, ok, add, add_connection,
  get_connection,
}
use opentelemetry_php_distro.Transport.Endpoints.Laws.{AreConnected, add-AreConnected}
use opentelemetry_php_distro.Transport.Async.{
  Payload, Transport, World, Reply, reply, posted, slept, answered, enqueue, send_rounds, transmit,
  handle_headers, wake, sends, shutdown_thread, prefork, postfork, begin_destruction,
}
use opentelemetry_php_distro.Transport.Async.Counter.{IsCounted}
use opentelemetry_php_distro.Transport.Async.Usage.{
  here, next, enqueues, Steps-IsCounted, child_drops, Call, enqueue_call, pop_call, run_calls,
  taken, popped, run_calls_fifo,
}
use opentelemetry_php_distro.Transport.Async.Retry.{AllRetried, Ends, transmit_retries}
use opentelemetry_php_distro.Transport.Async.Flush.{
  all_effects, destruction_flushes, fork_keeps_queue,
}

abbrev no_ssl : SslOptions
no_ssl = record {
  insecure_skip_verify = false;
  ca_info = [];
  cert = [];
  cert_key = [];
  cert_key_password = [];
}

abbrev sender : CurlSender
sender = record { timeout = 10; ssl_options = no_ssl }

abbrev endpoint : HttpEndpoint
endpoint = record {
  endpoint = codes "http://a/v1";
  max_retries = 3;
  retry_delay = 50;
  connection_id = 77;
  curl_headers = [];
}

abbrev connected : Endpoints
connected = record { endpoints = (1, endpoint) ∷ []; connections = (77, sender) ∷ [] }

abbrev connection : Connection
connection = record {
  url = codes "http://a/v1";
  headers = [];
  id = 77;
  sender = sender;
  retries = 3;
  delay = 50;
}

connected-AreConnected : AreConnected connected
connected-AreConnected = ((λ e. cc), tt)

-- One payload, and a transport that has it queued.
abbrev payload : Payload
payload = record { endpoint_hash = 1; bytes = 7 ∷ 8 ∷ 9 ∷ []; has_callback = true }

abbrev loaded : Transport
loaded = record {
  payloads_to_send = payload ∷ [];
  payloads_byte_usage = 3;
  endpoints = connected;
  thread = true;
  working = true;
  force_flush_on_destruction = false;
  shutdown_start = 0;
}

-- A server that is unavailable once.
abbrev flaky : World
flaky = record {
  parse_date = λ s. none;
  now = 0;
  server = λ n. elim n as (λ _. Reply) [ zero ↦ reply 503 [] [] | suc m ↦ reply 200 [] [] ];
}

add-AreConnected_example :
    AreConnected (add true 2 (ok (record endpoint { connection_id = 5 })) sender connected).1
unfolding add add_connection
add-AreConnected_example =
    add-AreConnected true 2 (ok (record endpoint { connection_id = 5 })) sender connected
      connected-AreConnected (λ e. cc)

abbrev strict : CurlSender
strict = record sender { timeout = 99 }

loaded-IsCounted : IsCounted 10 0 loaded
loaded-IsCounted = record { counted = omega arith; bounded = omega arith }

Steps-IsCounted_example : IsCounted 10 0 (enqueue 10 payload loaded)
Steps-IsCounted_example =
    Steps-IsCounted 10 0 (omega arith) (next here (enqueues payload loaded (omega arith)))
      loaded-IsCounted

abbrev long_payload : Payload
long_payload = record payload { bytes = 1 ∷ 2 ∷ 3 ∷ 4 ∷ 5 ∷ 6 ∷ 7 ∷ 8 ∷ [] }

-- What a fork of `loaded` leaves, with a waiting thread.
abbrev forked : Transport
forked = (prefork false 0 (λ n. flaky) (λ n. 0) loaded).1

child_drops_example : enqueue 10 long_payload (postfork true forked) ≡ postfork true forked
unfolding shutdown_thread
child_drops_example =
    child_drops 10 false 0 (λ n. flaky) (λ n. 0) loaded long_payload (omega arith) (omega arith)
      loaded-IsCounted (omega arith) here

abbrev calls : List Call
calls = enqueue_call long_payload ∷ pop_call ∷ enqueue_call long_payload ∷ []

run_calls_fifo_example :
    loaded.payloads_to_send ++ taken 10 calls loaded
    ≡ popped 10 calls loaded ++ (run_calls 10 calls loaded).payloads_to_send
run_calls_fifo_example = run_calls_fifo 10 calls loaded

transmit_retries_example :
    (k : ℕ) × AllRetried flaky 0 k
    × Ends flaky payload (codes "http://a/v1") 50 3 0 k (transmit flaky payload connected).0
unfolding get_connection
transmit_retries_example = transmit_retries flaky payload connected connection refl

-- The run itself: one retry, then the answer.
flaky_run :
    (transmit flaky payload connected).0
    ≡ posted (codes "http://a/v1") payload.bytes
      ∷ slept 50
      ∷ posted (codes "http://a/v1") payload.bytes
      ∷ answered 200 []
      ∷ []
unfolding transmit get_connection send_rounds handle_headers
flaky_run = refl

destruction_flushes_example :
    (t' : Transport) × (wake 0 (λ n. flaky) (λ n. 0) (begin_destruction 4 loaded)
      ≡ sends (all_effects (λ n. flaky) 0 (payload ∷ []) connected) t')
    × (t'.payloads_to_send ≡ [])
destruction_flushes_example = destruction_flushes (λ n. flaky) (λ n. 0) 4 loaded

fork_keeps_queue_example :
    let idle = prefork false 0 (λ n. flaky) (λ n. 0) loaded in
    let busy = prefork true 0 (λ n. flaky) (λ n. 0) loaded in
    (idle.0 ≡ [])
    × ((postfork false idle.1).payloads_to_send ≡ loaded.payloads_to_send)
    × (busy.0 ≡ all_effects (λ n. flaky) 0 (payload ∷ []) connected)
    × ((postfork false busy.1).payloads_to_send ≡ [])
    × ((child transmitting : Bool)
        → let after = postfork child (prefork transmitting 0 (λ n. flaky) (λ n. 0) loaded).1 in
          ((if child then after.payloads_to_send else []) ≡ [])
          × (after.working ≡ true)
          × (after.thread ≡ true))
fork_keeps_queue_example = fork_keeps_queue 0 (λ n. flaky) (λ n. 0) loaded refl refl
