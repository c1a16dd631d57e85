-- ===== src/Transport/Endpoints.antt =====
-- HttpEndpoint and HttpEndpoints of prod/native/libcommon/code/transport/HttpEndpoint{,s}.h. A
-- CurlSender is its options; whether libcurl gives a handle, and std::hash, are parameters.
pub mod Laws
use opentelemetry_php_distro.Prelude.{
  ℕ, Bool, true, false, List, [], ◌∷◌, ◌++◌, Option, none, some, max, codes, lookup, assign, nat_eq,
  map, if◌then◌else◌,
}
use opentelemetry_php_distro.Transport.Url.{connection_details}

pub record SslOptions : Type 0 where
  pub insecure_skip_verify : Bool
  pub ca_info : List ℕ
  pub cert : List ℕ
  pub cert_key : List ℕ
  pub cert_key_password : List ℕ

pub record CurlSender : Type 0 where
  pub timeout : ℕ
  pub ssl_options : SslOptions

pub record HttpEndpoint : Type 0 where
  pub endpoint : List ℕ
  pub max_retries : ℕ
  pub retry_delay : ℕ
  pub connection_id : ℕ
  pub curl_headers : List (List ℕ)

pub data Error : Type 0 where
  bad_endpoint_url curl_init_failed missing_endpoint missing_connection : Error

pub data Result {ℓ} (A : Type ℓ) : Type ℓ where
  ok : A → Result A
  err : Error → Result A

abbrev header_line : List ℕ × List ℕ → List ℕ
header_line (name, value) = name ++ (codes ": " ++ value)

fill_curl_headers : List ℕ → List (List ℕ × List ℕ) → List (List ℕ)
fill_curl_headers [] headers = map header_line headers
fill_curl_headers (c ∷ content_type) headers =
    (codes "Content-Type: " ++ (c ∷ content_type)) ∷ map header_line headers

pub record Endpoints : Type 0 where
  pub endpoints : List (ℕ × HttpEndpoint)
  pub connections : List (ℕ × CurlSender)

pub record Connection : Type 0 where
  pub url : List ℕ
  pub headers : List (List ℕ)
  pub id : ℕ
  pub sender : CurlSender
  pub retries : ℕ
  pub delay : ℕ

module _ (hash : List ℕ → ℕ) where
  pub new_endpoint : List ℕ → List ℕ → List (List ℕ × List ℕ) → ℕ → ℕ → Result HttpEndpoint
  unfolding fill_curl_headers
  new_endpoint url content_type headers max_retries retry_delay = elim (connection_details url) [
    | none ↦ err bad_endpoint_url
    | some details ↦ ok (record {
      endpoint = url;
      max_retries = max_retries;
      retry_delay = retry_delay;
      connection_id = hash details;
      curl_headers = fill_curl_headers content_type headers;
    })
  ]

-- try_emplace of the connection of an endpoint: a connection that is there stays as it is.
unfoldable pub add_connection : Bool → ℕ → CurlSender → Endpoints → Result Bool × Endpoints
add_connection curl_ok id sender es = elim (lookup id es.connections) [
  | some old ↦ (ok false, es)
  | none ↦
      if curl_ok
      then (ok true, record es { connections = assign id sender es.connections })
      else (err curl_init_failed, es)
]

-- HttpEndpoints::add. An endpoint whose hash is there is not built again.
unfoldable pub add :
    Bool → ℕ → Result HttpEndpoint → CurlSender → Endpoints → Result Bool × Endpoints
unfolding add_connection
add curl_ok endpoint_hash built sender es = elim (lookup endpoint_hash es.endpoints) [
  | some old ↦ add_connection curl_ok old.connection_id sender es
  | none ↦ elim built [
    | err e ↦ (err e, es)
    | ok new ↦
        add_connection curl_ok new.connection_id sender
          (record es { endpoints = assign endpoint_hash new es.endpoints })
  ]
]

unfoldable pub get_connection : ℕ → Endpoints → Result Connection
get_connection endpoint_hash es = elim (lookup endpoint_hash es.endpoints) [
  | none ↦ err missing_endpoint
  | some e ↦ elim (lookup e.connection_id es.connections) [
    | none ↦ err missing_connection
    | some c ↦ ok (record {
      url = e.endpoint;
      headers = e.curl_headers;
      id = e.connection_id;
      sender = c;
      retries = max 1 e.max_retries;
      delay = e.retry_delay;
    })
  ]
]

pub update_retry_delay : ℕ → ℕ → Endpoints → Result (Unit {0}) × Endpoints
update_retry_delay endpoint_hash delay es = elim (lookup endpoint_hash es.endpoints) [
  | none ↦ (err missing_endpoint, es)
  | some e ↦ (
    ok tt,
    record es { endpoints = assign endpoint_hash (record e { retry_delay = delay }) es.endpoints },
  )
]
