-- ===== src/Transport/Async.antt =====
-- HttpTransportAsync of prod/native/libcommon/code/transport/HttpTransportAsync.h. The operations
-- under the mutex are functions on the state; the replies of the servers, the clock and the limits
-- of the configuration are arguments. Effects on the world come back as a list.
pub mod Counter
pub mod Usage
pub mod Retry
pub mod Flush
pub mod Tests
use opentelemetry_php_distro.Prelude.{
  ℕ, zero, suc, ◌+◌, ◌-◌, Bool, true, false, not, ◌&&◌, ◌||◌, List, [], ◌∷◌, ◌++◌, Option, none,
  some, ltb, leb, ◌==◌, length, drop, codes, add_word, sub_word, if◌then◌else◌,
}
use opentelemetry_php_distro.Text.Chars.{ci_starts_with}
use opentelemetry_php_distro.Text.RetryAfter.{parse_retry_after}
use opentelemetry_php_distro.Transport.Endpoints.{
  Endpoints, CurlSender, HttpEndpoint, Result, ok, err, add, get_connection, update_retry_delay,
}

pub record Payload : Type 0 where
  pub endpoint_hash : ℕ
  pub bytes : List ℕ
  pub has_callback : Bool

pub record Transport : Type 0 where
  pub payloads_to_send : List Payload
  pub payloads_byte_usage : ℕ
  pub endpoints : Endpoints
  pub thread : Bool
  pub working : Bool
  pub force_flush_on_destruction : Bool
  pub shutdown_start : ℕ

-- startThread
abbrev pub start_thread : Transport → Transport
start_thread t = record t { thread = true }

-- initializeConnection: an exception of `add` is logged, and no thread is started.
pub initialize_connection : Bool → ℕ → Result HttpEndpoint → CurlSender → Transport → Transport
initialize_connection curl_ok hash built sender t =
    let (r, es) = add curl_ok hash built sender t.endpoints in
    elim r [
      | ok fresh ↦ start_thread (record t { endpoints = es })
      | err e ↦ record t { endpoints = es }
    ]

-- enqueue, with max_send_queue_size
pub enqueue : ℕ → Payload → Transport → Transport
enqueue limit p t =
    if ltb limit (add_word t.payloads_byte_usage (length p.bytes)) then t else record t {
      payloads_to_send = t.payloads_to_send ++ p ∷ [];
      payloads_byte_usage = add_word t.payloads_byte_usage (length p.bytes);
    }

-- The front of the queue is taken under the mutex.
abbrev take_front : List Payload → Transport → Option (Payload × Transport)
take_front [] t = none
take_front (p ∷ ps) t = some (
  p,
  record t {
    payloads_to_send = ps;
    payloads_byte_usage = sub_word t.payloads_byte_usage (length p.bytes);
  },
)

pub pop : Transport → Option (Payload × Transport)
pop t = take_front t.payloads_to_send t

-- What one call of CurlSender::sendPayload leads to: an exception, or a status, a body, and the
-- header lines in order.
pub data Reply : Type 0 where
  curl_error : Reply
  reply : ℕ → List ℕ → List (List ℕ) → Reply

pub data Effect : Type 0 where
  posted : List ℕ → List ℕ → Effect
  answered : ℕ → List ℕ → Effect
  slept : ℕ → Effect

abbrev pub is_success : ℕ → Bool
is_success code = leb 200 code && ltb code 300

abbrev pub is_permanent : ℕ → Bool
is_permanent code = leb 400 code && (ltb code 500 && (not (code == 408) && not (code == 429)))

-- The services that the sender thread uses.
pub record World : Type 0 where
  pub parse_date : List ℕ → Option ℕ
  pub now : ℕ
  pub server : ℕ → Reply

-- The header callback for one line.
pub handle_header : World → ℕ → List ℕ → Endpoints → Endpoints
handle_header w hash header es =
    if ci_starts_with header (codes "Retry-After: ")
    then elim (parse_retry_after w.parse_date w.now (drop 13 header)) [
      | none ↦ es
      | some delay ↦ if ltb 0 delay then (update_retry_delay hash delay es).1 else es
    ]
    else es

pub handle_headers : World → ℕ → List (List ℕ) → Endpoints → Endpoints
unfolding handle_header
handle_headers w hash [] es = es
handle_headers w hash (h ∷ hs) es = handle_headers w hash hs (handle_header w hash h es)

abbrev answer : Bool → ℕ → List ℕ → List Effect
answer true code body = answered code body ∷ []
answer false code body = []

-- The retry loop, with the rounds that are left and the number of the round; the delay is the one
-- that was read before the loop.
pub send_rounds : World → Payload → List ℕ → ℕ → ℕ → ℕ → Endpoints → List Effect × Endpoints
send_rounds w p url delay zero n es = ([], es)
send_rounds w p url delay (suc left) n es = elim (w.server n) [
  | curl_error ↦ (posted url p.bytes ∷ [], es)
  | reply code body headers ↦
      let es' = if p.has_callback then handle_headers w p.endpoint_hash headers es else es in
      let rest = send_rounds w p url delay left (suc n) es' in
      if is_success code
      then (posted url p.bytes ∷ answer p.has_callback code body, es')
      else if is_permanent code
      then (posted url p.bytes ∷ answer p.has_callback code body, es')
      else (posted url p.bytes ∷ slept delay ∷ rest.0, rest.1)
]

-- The part of an iteration of `send` without the mutex; errors are logged.
pub transmit : World → Payload → Endpoints → List Effect × Endpoints
transmit w p es = elim (get_connection p.endpoint_hash es) [
  | err e ↦ ([], es)
  | ok c ↦ send_rounds w p c.url c.delay c.retries 0 es
]

-- The end of an iteration: the destructor's timeout.
abbrev pub times_out : ℕ → ℕ → Transport → Bool
times_out timeout clock t =
    t.force_flush_on_destruction
    && ((elim t.payloads_to_send as (λ _. Bool) [ [] ↦ false | p ∷ ps ↦ true ])
        && (ltb 0 timeout && leb timeout (clock - t.shutdown_start)))

-- The state once a payload has been popped and transmitted.
abbrev pub after_transmit : World → Payload → List Payload → Transport → Transport
after_transmit w p ps t = record t {
  payloads_to_send = ps;
  payloads_byte_usage = sub_word t.payloads_byte_usage (length p.bytes);
  endpoints = (transmit w p t.endpoints).1;
}

-- `send` over the queue as it stands, with the services and the clock of each payload.
pub send_queue : ℕ → (ℕ → World) → (ℕ → ℕ) → ℕ → List Payload → Transport → List Effect × Transport
send_queue timeout worlds clock n [] t = ([], t)
send_queue timeout worlds clock n (p ∷ ps) t =
    let fx = (transmit (worlds n) p t.endpoints).0 in
    let t' = after_transmit (worlds n) p ps t in
    let rest = send_queue timeout worlds clock (suc n) ps t' in
    if times_out timeout (clock n) t' then (fx, t') else (fx ++ rest.0, rest.1)

pub send : ℕ → (ℕ → World) → (ℕ → ℕ) → Transport → List Effect × Transport
unfolding send_queue transmit send_rounds handle_headers
send timeout worlds clock t = send_queue timeout worlds clock 0 t.payloads_to_send t

-- The sender thread when its wait is notified: it waits on, leaves its loop, or sends.
pub data Woken : Type 0 where
  waits : Woken
  leaves : Woken
  sends : List Effect → Transport → Woken

abbrev pub has_payloads : Transport → Bool
has_payloads t = elim t.payloads_to_send [ [] ↦ false | p ∷ ps ↦ true ]

pub wake : ℕ → (ℕ → World) → (ℕ → ℕ) → Transport → Woken
wake timeout worlds clock t =
    if not (has_payloads t || not t.working)
    then waits
    else if not t.working && not t.force_flush_on_destruction
    then leaves
    else (let (fx, t') = send timeout worlds clock t in sends fx t')

-- What the sender thread has done when it is joined, if it was waiting. One that waits on is none:
-- it is woken only to leave or to send.
abbrev pub joined : Woken → Transport → List Effect × Transport
joined waits t = ([], t)
joined leaves t = ([], t)
joined (sends fx t') t = (fx, t')

-- The join of a thread that waits, or that is transmitting a payload that it has taken: that one goes
-- on through the queue, because `send` does not look at working_, unless the destructor's timeout
-- has passed. What it does for the payload that it has taken already is left out.
unfoldable pub join_thread : Bool → ℕ → (ℕ → World) → (ℕ → ℕ) → Transport → List Effect × Transport
unfolding send wake
join_thread true timeout worlds clock t =
    if times_out timeout (clock 0) t then ([], t) else send timeout worlds (λ n. clock (suc n)) t
join_thread false timeout worlds clock t = joined (wake timeout worlds clock t) t

-- The thread is joined if there is one.
abbrev pub after_join : Bool → List Effect × Transport → Transport → List Effect × Transport
after_join true r t = (r.0, record r.1 { thread = false })
after_join false r t = ([], t)

-- shutdownThread, with whether the thread is transmitting
unfoldable pub shutdown_thread :
    Bool → ℕ → (ℕ → World) → (ℕ → ℕ) → Transport → List Effect × Transport
unfolding join_thread
shutdown_thread transmitting timeout worlds clock t =
    let stopped = record t { working = false } in
    after_join t.thread (join_thread transmitting timeout worlds clock stopped) stopped

abbrev pub prefork : Bool → ℕ → (ℕ → World) → (ℕ → ℕ) → Transport → List Effect × Transport
prefork transmitting timeout worlds clock t = shutdown_thread transmitting timeout worlds clock t

-- postfork: a child empties the queue, the parent keeps it.
unfoldable pub postfork : Bool → Transport → Transport
postfork child t =
    let q = if child && has_payloads t then [] else t.payloads_to_send in
    start_thread (record t { payloads_to_send = q; working = true })

-- The destructor up to the join of the thread.
pub begin_destruction : ℕ → Transport → Transport
begin_destruction now t = record t {
  shutdown_start = now;
  force_flush_on_destruction = true;
  working = false;
}
