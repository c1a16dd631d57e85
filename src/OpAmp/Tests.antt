-- ===== src/OpAmp/Tests.antt =====
-- A client with two configurations of a server.
use opentelemetry_php_distro.Prelude.{
  ℕ, ◌<◌, ◌≡◌, signed_leb, refl, true, List, [], ◌∷◌, Option, none, some, codes, leb, map, All,
  arith, if◌then◌else◌,
}
use opentelemetry_php_distro.OpAmp.{
  ServerToAgent, OpAmp, handle_server_to_agent, Deadlines, deadline, wait_until, heartbeat_round,
  endpoint_url, assign_files,
}
use opentelemetry_php_distro.OpAmp.Laws.{
  Files, handle_messages, last_hash, changes, updates, IsOf, config_in, handle_messages-config,
  heartbeat_round_lem, handle_server_to_agent-busy,
}

abbrev client : OpAmp
client = record {
  agent_uid = [];
  endpoint_hash = 1;
  heartbeat_interval = 30000;
  polling_interval = 30000;
  current_config_hash = [];
  config_files = [];
}

abbrev files : Files
files = (codes "name", codes "body") ∷ []

-- The empty configuration has the empty hash.
abbrev content : List ℕ → Files
content [] = []
content (c ∷ s) = files

abbrev configured : ServerToAgent
configured = record {
  new_instance_uid = none;
  heartbeat_interval_seconds = some 0;
  remote_config = some (codes "hash", files);
  error_response = none;
}

abbrev messages : List (Option ServerToAgent)
messages = some configured ∷ none ∷ some configured ∷ []

messages-IsOf : All (λ msg. IsOf content (config_in msg)) messages
unfolding assign_files
messages-IsOf = (refl, (tt, (refl, tt)))

handle_messages-config_example :
    let r = handle_messages messages client in
    (r.0.config_files ≡ content r.0.current_config_hash)
    × (r.0.current_config_hash ≡ last_hash [] messages)
    × (updates r.1 ≡ map content (changes [] messages))
handle_messages-config_example = handle_messages-config content messages client messages-IsOf refl

handle_messages_runs : updates (handle_messages messages client).1 ≡ files ∷ []
unfolding handle_messages
handle_messages_runs = refl

abbrev deadlines : Deadlines
deadlines = record { next_heartbeat = 5; next_poll = 7 }

heartbeat_round_lem_example :
    let r = heartbeat_round 6 client deadlines in
    (r.0 ≡ leb (wait_until deadlines) 6)
    × (6 < wait_until r.1)
    × ((if leb (wait_until deadlines) 6 then deadlines else r.1) ≡ deadlines)
heartbeat_round_lem_example =
    heartbeat_round_lem 6 client deadlines (omega arith, omega arith) (omega arith, omega arith)
      (omega arith) (omega arith)

five_passed : signed_leb 5 6 ≡ true
unfolding signed_leb
five_passed = refl

handle_server_to_agent-busy_example :
    let o' = (handle_server_to_agent (some configured) client).0 in
    let r = heartbeat_round 6 o' deadlines in (r.0 ≡ true) × (signed_leb (wait_until r.1) 6 ≡ true)
handle_server_to_agent-busy_example =
    handle_server_to_agent-busy configured client 6 deadlines refl five_passed

-- An interval that overflows the clock gives a deadline that has passed.
overflow : signed_leb (deadline 6 10000000000000) 6 ≡ true
unfolding signed_leb deadline
overflow = refl

endpoint_url_runs : endpoint_url (codes "https://host:4320") ≡ codes "https://host:4320/v1/opamp"
unfolding endpoint_url
endpoint_url_runs = refl

endpoint_url_slash : endpoint_url (codes "http://host.name/") ≡ codes "http://host.name/v1/opamp"
unfolding endpoint_url
endpoint_url_slash = refl

endpoint_url_path : endpoint_url (codes "http://host/own") ≡ codes "http://host/own"
unfolding endpoint_url
endpoint_url_path = refl
