-- ===== src/OpAmp.antt =====
-- The OpAMP client: prod/native/libcommon/code/transport/OpAmp.{h,cpp} and parseUrl of
-- CommonUtils.cpp. The encoding of the messages of the protocol is a parameter. The numbers of
-- std::chrono are int64_t; where the source overflows them, they wrap around here.
pub mod Laws
pub mod Tests
use opentelemetry_php_distro.Prelude.{
  ℕ, zero, suc, ◌+◌, ◌-◌, ◌*◌, ◌/◌, ◌≤◌, Bool, true, false, not, ◌&&◌, ◌||◌, List, [], ◌∷◌, ◌++◌,
  Option, none, some, ltb, leb, ◌==◌, length, take, drop, codes, bytes_beq, assign, bytes_eq,
  add_word, mul_word, sign, signed_leb, signed_div, if◌then◌else◌,
}
use opentelemetry_php_distro.Transport.Url.{strip_prefix, span, is_digit}

-- ParsedURL
pub record ParsedUrl : Type 0 where
  pub protocol : List ℕ
  pub host : List ℕ
  pub port : Option (List ℕ)
  pub query : Option (List ℕ)

-- [\w.-]
abbrev pub is_host_char : ℕ → Bool
is_host_char c =
    ((leb b'a' c && leb c b'z') || (leb b'A' c && leb c b'Z'))
    || ((leb b'0' c && leb c b'9') || (c == b'_' || (c == b'.' || c == b'-')))

-- A character that the dot of a regular expression matches.
abbrev pub is_dot : ℕ → Bool
is_dot c = not (c == 0x0A || c == 0x0D)

-- (?:/(.*))? up to the end of the text; the outer none is no match.
unfoldable pub match_query : List ℕ → Option (Option (List ℕ))
unfolding span
match_query [] = some none
match_query (c ∷ s) = elim (span is_dot s).1 [
  | [] ↦ if c == b'/' then some (some s) else none
  | d ∷ ds ↦ none
]

-- (?::(\d+))? with what follows; a colon without digits is no port.
unfoldable pub match_port : List ℕ → Option (List ℕ) × List ℕ
unfolding span
match_port [] = (none, [])
match_port (c ∷ s) = elim (span is_digit s).0 [
  | [] ↦ (none, c ∷ s)
  | d ∷ ds ↦ if c == b':' then (some (d ∷ ds), (span is_digit s).1) else (none, c ∷ s)
]

-- What follows the scheme.
unfoldable pub match_host : List ℕ → List ℕ → Option ParsedUrl
unfolding span match_port match_query
match_host protocol s = elim (span is_host_char s).0 [
  | [] ↦ none
  | h ∷ hs ↦
      let after = match_port (span is_host_char s).1 in
      elim (match_query after.1) as (λ _. Option ParsedUrl) [
        | none ↦ none
        | some query ↦
            some (record { protocol = protocol; host = h ∷ hs; port = after.0; query = query })
      ]
]

-- parseUrl: each part of (http|https)://([\w.-]+)(?::(\d+))?(?:/(.*))? ends where the next begins.
unfoldable pub parse_url : List ℕ → Option ParsedUrl
unfolding strip_prefix match_host
parse_url url = elim (strip_prefix (codes "https://") url) [
  | some s ↦ match_host (codes "https") s
  | none ↦ elim (strip_prefix (codes "http://") url) [
    | some s ↦ match_host (codes "http") s
    | none ↦ none
  ]
]

-- std::string::ends_with
unfoldable pub ends_with : List ℕ → List ℕ → Bool
ends_with s suffix =
    leb (length suffix) (length s) && bytes_beq (drop (length s - length suffix) s) suffix

-- The endpoint of startCommunication: the path of the protocol, unless the URL has one.
unfoldable pub path_for : List ℕ → Option (List ℕ) → List ℕ
path_for url none = url ++ codes "/v1/opamp"
path_for url (some []) = url ++ codes "v1/opamp"
path_for url (some (c ∷ s)) = if bytes_beq (c ∷ s) (codes "/") then url ++ codes "v1/opamp" else url

unfoldable pub endpoint_url : List ℕ → List ℕ
unfolding parse_url path_for ends_with
endpoint_url url = elim (parse_url url) [
  | some parsed ↦ path_for url parsed.query
  | none ↦ if ends_with url (codes "/v1/opamp") then url else url ++ codes "/v1/opamp"
]

-- What is read of ServerToAgent, each part if the message has it. The configuration is its hash and
-- its files; an error says whether the server is unavailable, and when to try again.
pub record ServerToAgent : Type 0 where
  pub new_instance_uid : Option (List ℕ)
  pub heartbeat_interval_seconds : Option ℕ
  pub remote_config : Option (List ℕ × List (List ℕ × List ℕ))
  pub error_response : Option (Bool × Option ℕ)

-- Intervals are in milliseconds, as int64_t.
pub record OpAmp : Type 0 where
  pub agent_uid : List ℕ
  pub endpoint_hash : ℕ
  pub heartbeat_interval : ℕ
  pub polling_interval : ℕ
  pub current_config_hash : List ℕ
  pub config_files : List (List ℕ × List ℕ)

-- What the client asks of others: a call of the watchers, and of the transport.
pub data Effect : Type 0 where
  config_updated : List (List ℕ × List ℕ) → Effect
  update_retry_delay : ℕ → ℕ → Effect

-- The copy of 16 bytes at most into zeros.
unfoldable pub to_uid : ℕ → List ℕ → List ℕ
to_uid zero s = []
to_uid (suc n) [] = 0 ∷ to_uid n []
to_uid (suc n) (c ∷ s) = c ∷ to_uid n s

unfoldable pub set_identification : Option (List ℕ) → OpAmp → OpAmp
unfolding to_uid
set_identification none o = o
set_identification (some id) o = record o { agent_uid = to_uid 16 id }

unfoldable pub set_heartbeat_interval : Option ℕ → OpAmp → OpAmp
set_heartbeat_interval none o = o
set_heartbeat_interval (some seconds) o = record o { heartbeat_interval = mul_word seconds 1000 }

unfoldable pub assign_files :
    List (List ℕ × List ℕ) → List (List ℕ × List ℕ) → List (List ℕ × List ℕ)
assign_files [] files = files
assign_files ((name, body) ∷ items) files = assign_files items (assign name body files)

unfoldable pub set_remote_config :
    Option (List ℕ × List (List ℕ × List ℕ)) → OpAmp → OpAmp × List Effect
unfolding assign_files
set_remote_config none o = (o, [])
set_remote_config (some (hash, items)) o =
    let files = assign_files items [] in
    if bytes_beq o.current_config_hash hash
    then (o, [])
    else (record o { current_config_hash = hash; config_files = files }, config_updated files ∷ [])

-- Nanoseconds to milliseconds
unfoldable pub set_retry_delay : Option (Bool × Option ℕ) → OpAmp → List Effect
set_retry_delay none o = []
set_retry_delay (some (unavailable, none)) o = []
set_retry_delay (some (unavailable, some nanoseconds)) o =
    if unavailable
    then update_retry_delay o.endpoint_hash (signed_div nanoseconds 1000000) ∷ []
    else []

-- handleServerToAgent of a message that is parsed, or not.
unfoldable pub handle_server_to_agent : Option ServerToAgent → OpAmp → OpAmp × List Effect
unfolding set_identification set_heartbeat_interval set_remote_config set_retry_delay
handle_server_to_agent none o = (o, [])
handle_server_to_agent (some msg) o =
    let identified = set_identification msg.new_instance_uid o in
    let timed = set_heartbeat_interval msg.heartbeat_interval_seconds identified in
    let configured = set_remote_config msg.remote_config timed in
    (configured.0, configured.1 ++ set_retry_delay msg.error_response configured.0)

-- What is set of AgentToServer in a heartbeat: the id, and the hash of the applied configuration.
unfoldable pub heartbeat : OpAmp → List ℕ × Option (List ℕ)
heartbeat o = (o.agent_uid, elim o.current_config_hash [ [] ↦ none | c ∷ s ↦ some (c ∷ s) ])

abbrev pub is_positive : ℕ → Bool
is_positive interval = ltb 0 interval && ltb interval sign

-- updateHeartbeatInterval and updatePollingInterval
unfoldable pub update_heartbeat_interval : ℕ → OpAmp → OpAmp
update_heartbeat_interval interval o =
    if is_positive interval then record o { heartbeat_interval = interval } else o

unfoldable pub update_polling_interval : ℕ → OpAmp → OpAmp
update_polling_interval interval o =
    if is_positive interval then record o { polling_interval = interval } else o

-- The deadlines of opAmpHeartbeatTask, in nanoseconds of the steady clock, as int64_t.
pub record Deadlines : Type 0 where
  pub next_heartbeat : ℕ
  pub next_poll : ℕ

-- now and an interval in milliseconds
unfoldable pub deadline : ℕ → ℕ → ℕ
deadline now interval = add_word now (mul_word interval 1000000)

unfoldable pub first_deadlines : ℕ → OpAmp → Deadlines
unfolding deadline
first_deadlines now o = record {
  next_heartbeat = deadline now o.heartbeat_interval;
  next_poll = deadline now o.polling_interval;
}

unfoldable pub wait_until : Deadlines → ℕ
wait_until d = if signed_leb d.next_heartbeat d.next_poll then d.next_heartbeat else d.next_poll

-- One round of the loop that goes on: the deadlines, and whether a heartbeat is sent.
unfoldable pub heartbeat_round : ℕ → OpAmp → Deadlines → Bool × Deadlines
unfolding deadline
heartbeat_round now o d = (
  signed_leb d.next_heartbeat now || signed_leb d.next_poll now,
  record {
    next_heartbeat =
        if signed_leb d.next_heartbeat now
        then deadline now o.heartbeat_interval
        else d.next_heartbeat;
    next_poll = if signed_leb d.next_poll now then deadline now o.polling_interval else d.next_poll;
  },
)
