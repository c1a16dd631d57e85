-- ===== src/Transport/Endpoints/Laws.antt =====
-- Endpoints and their connections: what can be added can be used.
use opentelemetry_php_distro.Prelude.{
  ℕ, ◌≡◌, refl, ◌≢◌, ◌≤◌, Bool, false, List, [], ◌∷◌, Option-cases, none, some, max, lookup, assign,
  nat_eq, lookup-assign, arith, Bool-cases, inl, inr, ◌⊎◌, ◌==◌, if◌then◌else◌, AllValues,
  assign-AllValues, lookup-AllValues,
}
use opentelemetry_php_distro.Transport.Endpoints.{
  CurlSender, HttpEndpoint, curl_init_failed, missing_endpoint, Result, ok, err, Endpoints,
  Connection, add_connection, add, get_connection, update_retry_delay,
}

-- Every endpoint has its connection.
abbrev pub AreConnected : Endpoints → Type 0
AreConnected es =
    AllValues (λ (e : HttpEndpoint). lookup e.connection_id es.connections ≢ none) es.endpoints

abbrev Has : ℕ → List (ℕ × CurlSender) → Type 0
Has id cs = lookup id cs ≢ none

Has-assign :
    (id j : ℕ) (c : CurlSender) (cs : List (ℕ × CurlSender)) → Has j cs → Has j (assign id c cs)
Has-assign id j c cs h e = ground (arith, lookup-assign id j c cs, h)

AllValues-mono :
    (id : ℕ) (c : CurlSender) (cs : List (ℕ × CurlSender)) (es : List (ℕ × HttpEndpoint))
    → AllValues (λ (e : HttpEndpoint). Has e.connection_id cs) es
    → AllValues (λ (e : HttpEndpoint). Has e.connection_id (assign id c cs)) es
AllValues-mono id c cs [] a = tt
AllValues-mono id c cs ((k, e) ∷ es) a =
    (Has-assign id e.connection_id c cs a.0, AllValues-mono id c cs es a.1)

-- Adding a connection and an endpoint that refers to it.
connect-AreConnected :
    (curl_ok : Bool) (id : ℕ) (s : CurlSender) (es : Endpoints) (k : ℕ) (e : HttpEndpoint)
    → e.connection_id ≡ id
    → AreConnected es
    → let r = add_connection curl_ok id s (record es { endpoints = assign k e es.endpoints }) in
      r.0 ≢ err curl_init_failed → AreConnected r.1
unfolding add_connection
connect-AreConnected curl_ok id s es k e h a ne = elim (Option-cases (lookup id es.connections)) [
  | inr (old, q) ↦
      rw (q, add_connection)
        (assign-AllValues (λ (x : HttpEndpoint). Has x.connection_id es.connections) k e
          es.endpoints (rw (h, q) (λ n. cc)) a)
  | inl q ↦ elim (Bool-cases curl_ok) [
    | inr f ↦ absurd (ne (rw (q, add_connection, f) refl))
    | inl t ↦
        let cs = assign id s es.connections in
        rw (q, add_connection, t)
          (assign-AllValues (λ (x : HttpEndpoint). Has x.connection_id cs) k e es.endpoints
            (λ n. ground (arith, lookup-assign id e.connection_id s es.connections))
            (AllValues-mono id s es.connections es.endpoints a))
  ]
]

known_connection :
    (curl_ok : Bool) (id : ℕ) (s : CurlSender) (es : Endpoints)
    → Has id es.connections
    → add_connection curl_ok id s es ≡ (ok false, es)
unfolding add_connection
known_connection curl_ok id s es h = elim (Option-cases (lookup id es.connections)) [
  | inl q ↦ absurd (h q)
  | inr (c, q) ↦ rw (q, add_connection)
]

-- Unless libcurl fails, a call of `add`, also one that is refused, keeps every endpoint connected.
pub add-AreConnected :
    (curl_ok : Bool) (hash : ℕ) (built : Result HttpEndpoint) (s : CurlSender) (es : Endpoints)
    → AreConnected es
    → (add curl_ok hash built s es).0 ≢ err curl_init_failed
    → AreConnected (add curl_ok hash built s es).1
unfolding add
add-AreConnected curl_ok hash built s es a ne = elim (Option-cases (lookup hash es.endpoints)) [
  | inl q ↦ go built q ne
  | inr (old, q) ↦
      let known = known_connection curl_ok old.connection_id s es (
        lookup-AllValues (λ (x : HttpEndpoint). Has x.connection_id es.connections) hash
          es.endpoints old a q) in
      rw (q, add, known) a
]
  where
    go :
        (b : Result HttpEndpoint)
        → lookup hash es.endpoints ≡ none
        → (add curl_ok hash b s es).0 ≢ err curl_init_failed
        → AreConnected (add curl_ok hash b s es).1
    go (err x) q n = rw (q, add) a
    go (ok e) q n =
        rw (q, add)
          (connect-AreConnected curl_ok e.connection_id s es hash e refl a (λ z. n (rw (q, add) z)))

-- In connected endpoints the only failure of `get_connection` is an unknown endpoint; otherwise it
-- gives a connection with one try at least.
pub get_connection_total :
    (hash : ℕ) (es : Endpoints)
    → AreConnected es
    → ((get_connection hash es ≡ err missing_endpoint) × (lookup hash es.endpoints ≡ none))
      ⊎ ((c : Connection) × (get_connection hash es ≡ ok c) × (1 ≤ c.retries))
unfolding get_connection
get_connection_total hash es a = elim (Option-cases (lookup hash es.endpoints)) [
  | inl q ↦ inl (rw (q, get_connection), q)
  | inr (e, q) ↦ elim (Option-cases (lookup e.connection_id es.connections)) [
    | inl r ↦ absurd (
        lookup-AllValues (λ (x : HttpEndpoint). Has x.connection_id es.connections) hash
          es.endpoints e a q r)
    | inr (c, r) ↦ inr (
      record {
        url = e.endpoint;
        headers = e.curl_headers;
        id = e.connection_id;
        sender = c;
        retries = max 1 e.max_retries;
        delay = e.retry_delay;
      },
      rw (q, get_connection, r),
      omega arith,
    )
  ]
]

-- A new retry delay is what later connections to that endpoint use, and nothing else changes.
pub get_connection-update :
    (hash j delay : ℕ) (es : Endpoints)
    → get_connection j (update_retry_delay hash delay es).1 ≡ (
        if hash == j
        then (elim (get_connection j es) as (λ _. Result Connection) [
          | ok c ↦ ok (record c { delay = delay })
          | err e ↦ err e
        ])
        else get_connection j es)
unfolding get_connection update_retry_delay
get_connection-update hash j delay es = elim (Option-cases (lookup hash es.endpoints)) [
  | inl q ↦ ground (arith, q)
  | inr (e, q) ↦
      ground (arith, q, lookup-assign hash j (record e { retry_delay = delay }) es.endpoints)
]

-- The first options given for a host are those that stay: an endpoint that is added later for the
-- same scheme, host and port gets the connection that is there, whatever its own options.
pub add_shares_connection :
    (curl_ok : Bool) (hash : ℕ) (e : HttpEndpoint) (s old : CurlSender) (es : Endpoints)
    → lookup hash es.endpoints ≡ none
    → lookup e.connection_id es.connections ≡ some old
    → (c : Connection) × ((add curl_ok hash (ok e) s es).0 ≡ ok false)
      × (get_connection hash (add curl_ok hash (ok e) s es).1 ≡ ok c)
      × (c.sender ≡ old)
      × (c.url ≡ e.endpoint)
unfolding add add_connection get_connection
add_shares_connection curl_ok hash e s old es n o = (
  record {
    url = e.endpoint;
    headers = e.curl_headers;
    id = e.connection_id;
    sender = old;
    retries = max 1 e.max_retries;
    delay = e.retry_delay;
  },
  ground (arith, n, o),
  ground (arith, n, o, lookup-assign hash hash e es.endpoints),
  refl,
  refl,
)
