-- ===== src/Coordinator/Dispatch.antt =====
-- CoordinatorTelemetrySignalsSender and WorkerRegistrar on the side of a worker, and
-- CoordinatorMessagesDispatcher on the side of the coordinator, all of
-- prod/native/libcommon/code/coordinator. The Protocol Buffers encoding of a command is a parameter.
pub mod EndToEnd
use opentelemetry_php_distro.Prelude.{
  ℕ, ◌%◌, ◌^◌, ◌≡◌, Bool, true, false, List, [], ◌∷◌, ◌++◌, Option, none, some, assign, bytes_eq,
  if◌then◌else◌,
}
use opentelemetry_php_distro.Coordinator.Chunks.{Outcome, incomplete, delivered}
use opentelemetry_php_distro.Coordinator.Workers.{register_worker, unregister_worker}
use opentelemetry_php_distro.Transport.Endpoints.{SslOptions, CurlSender, new_endpoint}
use opentelemetry_php_distro.Transport.Async.{Payload, Transport, initialize_connection, enqueue}

pub record EstablishConnection : Type 0 where
  pub endpoint_url : List ℕ
  pub endpoint_hash : ℕ
  pub content_type : List ℕ
  pub endpoint_headers : List (List ℕ × List ℕ)
  pub timeout_ms : ℕ
  pub max_retries : ℕ
  pub retry_delay_ms : ℕ
  pub ssl_options : Option SslOptions

pub record SendEndpointPayload : Type 0 where
  pub endpoint_hash : ℕ
  pub payload : List ℕ

pub record WorkerProcess : Type 0 where
  pub process_id : ℕ
  pub parent_process_id : ℕ

-- CoordinatorCommand by its type; the first two can miss their message.
pub data Command : Type 0 where
  establish_connection : Option EstablishConnection → Command
  send_endpoint_payload : Option SendEndpointPayload → Command
  worker_started worker_is_going_to_shutdown : WorkerProcess → Command
  unknown_command : ℕ → Command

-- The headers of a connection as a map
abbrev set_headers : List (List ℕ × List ℕ) → List (List ℕ × List ℕ) → List (List ℕ × List ℕ)
set_headers [] m = m
set_headers ((key, value) ∷ rest) m = set_headers rest (assign key value m)

-- CoordinatorTelemetrySignalsSender::initializeConnection up to its serialization; the number of
-- retries is a field of 32 bits.
abbrev pub connection_command :
    List ℕ → ℕ → List ℕ → List (List ℕ × List ℕ) → ℕ → ℕ → ℕ → SslOptions → Command
connection_command url hash content_type headers timeout max_retries retry_delay ssl =
    establish_connection (
      some (record {
        endpoint_url = url;
        endpoint_hash = hash;
        content_type = content_type;
        endpoint_headers = set_headers headers [];
        timeout_ms = timeout;
        max_retries = max_retries % 2 ^ 32;
        retry_delay_ms = retry_delay;
        ssl_options = some ssl;
      }))

-- CoordinatorTelemetrySignalsSender::enqueue up to its serialization
abbrev pub payload_command : ℕ → List ℕ → Command
payload_command hash payload =
    send_endpoint_payload (some (record { endpoint_hash = hash; payload = payload }))

-- WorkerRegistrar
abbrev pub registration : ℕ → ℕ → Command
registration pid ppid = worker_started (record { process_id = pid; parent_process_id = ppid })

abbrev pub unregistration : ℕ → ℕ → Command
unregistration pid ppid =
    worker_is_going_to_shutdown (record { process_id = pid; parent_process_id = ppid })

-- A command that a worker sends: serialization can fail, and so can sendPayload.
unfoldable pub send_command {ℓ} :
    {Q : Type ℓ} → (Command → Option (List ℕ)) → (List ℕ → Q → Bool × Q) → Command → Q → Q
send_command serialize send_payload c q = elim (serialize c) [
  | none ↦ q
  | some text ↦ (send_payload text q).1
]

-- What the dispatcher works on.
pub record Receiver : Type 0 where
  pub transport : Transport
  pub workers : List ℕ

abbrev no_ssl_options : SslOptions
no_ssl_options = record {
  insecure_skip_verify = false;
  ca_info = [];
  cert = [];
  cert_key = [];
  cert_key_password = [];
}

abbrev ssl_or_default : Option SslOptions → SslOptions
ssl_or_default none = no_ssl_options
ssl_or_default (some o) = o

-- The dispatcher's services: std::hash, whether libcurl gives a handle, the limit of the queue, and
-- the parser.
pub record Services : Type 0 where
  pub hash : List ℕ → ℕ
  pub curl_ok : Bool
  pub max_send_queue_size : ℕ
  pub parse : List ℕ → Option Command

abbrev connect : Services → EstablishConnection → Transport → Transport
connect v c t =
    initialize_connection v.curl_ok c.endpoint_hash
      (new_endpoint v.hash c.endpoint_url c.content_type c.endpoint_headers c.max_retries
        c.retry_delay_ms)
      (record { timeout = c.timeout_ms; ssl_options = ssl_or_default c.ssl_options }) t

unfoldable pub dispatch_command : Services → Command → Receiver → Receiver
dispatch_command v (establish_connection none) r = r
dispatch_command v (establish_connection (some c)) r = record r {
  transport = connect v c r.transport;
}
dispatch_command v (send_endpoint_payload none) r = r
dispatch_command v (send_endpoint_payload (some p)) r = record r {
  transport =
      enqueue v.max_send_queue_size
        (record { endpoint_hash = p.endpoint_hash; bytes = p.payload; has_callback = false })
        r.transport;
}
dispatch_command v (worker_started w) r = record r {
  workers = register_worker w.process_id r.workers;
}
dispatch_command v (worker_is_going_to_shutdown w) r = record r {
  workers = unregister_worker w.process_id r.workers;
}
dispatch_command v (unknown_command type) r = r

-- processRecievedMessage
unfoldable pub process_received_message : Services → List ℕ → Receiver → Receiver
process_received_message v message r = elim (v.parse message) [
  | none ↦ r
  | some c ↦ dispatch_command v c r
]

-- What the outcomes of chunks lead to: a delivered message is dispatched, an exception is logged.
unfoldable pub dispatch_outcomes : Services → List Outcome → Receiver → Receiver
dispatch_outcomes v [] r = r
dispatch_outcomes v (delivered message ∷ os) r =
    dispatch_outcomes v os (process_received_message v message r)
dispatch_outcomes v (o ∷ os) r = dispatch_outcomes v os r
