-- ===== src/OpAmp/Laws.antt =====
-- Histories of server messages, and the rounds of the heartbeat loop.
use opentelemetry_php_distro.Prelude.{
  ℕ, ◌+◌, ◌*◌, ◌%◌, ◌<◌, word_mod, sign, signed_leb, mul_word, ◌≡◌, refl, ap, sym, ◌∙◌, Bool, true,
  false, List, [], ◌∷◌, ◌++◌, Option, none, some, ◌||◌, leb, bytes_beq, bytes_beq_iff, bytes_eq,
  map, All, arith, append-nil, Bool-cases, inl, inr, if◌then◌else◌,
}
use opentelemetry_php_distro.OpAmp.{
  ServerToAgent, OpAmp, Effect, config_updated, update_retry_delay, assign_files,
  set_identification, set_heartbeat_interval, set_remote_config, set_retry_delay,
  handle_server_to_agent, Deadlines, deadline, wait_until, heartbeat_round,
}

abbrev pub Files : Type 0
Files = List (List ℕ × List ℕ)

unfoldable pub handle_messages : List (Option ServerToAgent) → OpAmp → OpAmp × List Effect
unfolding handle_server_to_agent
handle_messages [] o = (o, [])
handle_messages (msg ∷ msgs) o =
    let first = handle_server_to_agent msg o in
    let rest = handle_messages msgs first.0 in (rest.0, first.1 ++ rest.1)

-- The configuration that a message has.
abbrev pub config_in : Option ServerToAgent → Option (List ℕ × Files)
config_in none = none
config_in (some msg) = msg.remote_config

-- The hash after messages, and the hashes among theirs that differ from the one before.
abbrev pub hash_after : Option (List ℕ × Files) → List ℕ → List ℕ
hash_after none current = current
hash_after (some (hash, items)) current = hash

abbrev pub new_hash : Option (List ℕ × Files) → List ℕ → List (List ℕ)
new_hash none current = []
new_hash (some (hash, items)) current = if bytes_beq current hash then [] else hash ∷ []

abbrev pub last_hash : List ℕ → List (Option ServerToAgent) → List ℕ
last_hash current [] = current
last_hash current (msg ∷ msgs) = last_hash (hash_after (config_in msg) current) msgs

abbrev pub changes : List ℕ → List (Option ServerToAgent) → List (List ℕ)
changes current [] = []
changes current (msg ∷ msgs) =
    new_hash (config_in msg) current ++ changes (hash_after (config_in msg) current) msgs

-- What the watchers are given.
abbrev pub updates : List Effect → List Files
updates [] = []
updates (config_updated files ∷ es) = files ∷ updates es
updates (update_retry_delay hash ms ∷ es) = updates es

updates-append : (es fs : List Effect) → updates (es ++ fs) ≡ updates es ++ updates fs
updates-append [] fs = refl
updates-append (config_updated files ∷ es) fs = ap (◌∷◌ files) (updates-append es fs)
updates-append (update_retry_delay hash ms ∷ es) fs = updates-append es fs

map-append : (f : List ℕ → Files) (xs ys : List (List ℕ)) → map f (xs ++ ys) ≡ map f xs ++ map f ys
map-append f [] ys = refl
map-append f (x ∷ xs) ys = ap (◌∷◌ (f x)) (map-append f xs ys)

-- The files of a message are those that its hash stands for.
abbrev pub IsOf : (List ℕ → Files) → Option (List ℕ × Files) → Type 0
IsOf content none = Unit
IsOf content (some (hash, items)) = assign_files items [] ≡ content hash

module _ (content : List ℕ → Files) where
  -- After a message: the files are those of the hash, the hash is the message's, and the watchers
  -- were given the files of a new hash.
  abbrev pub IsUpdated : Option (List ℕ × Files) → OpAmp → OpAmp × List Effect → Type 0
  IsUpdated config o r =
      (r.0.config_files ≡ content r.0.current_config_hash)
      × (r.0.current_config_hash ≡ hash_after config o.current_config_hash)
      × (updates r.1 ≡ map content (new_hash config o.current_config_hash))

  set_remote_config-IsUpdated :
      (config : Option (List ℕ × Files)) (o : OpAmp)
      → IsOf content config
      → o.config_files ≡ content o.current_config_hash
      → IsUpdated config o (set_remote_config config o)
  unfolding set_remote_config
  set_remote_config-IsUpdated none o i h = (h, refl, refl)
  set_remote_config-IsUpdated (some (hash, items)) o i h =
      elim (Bool-cases (bytes_beq o.current_config_hash hash)) [
        | inl same ↦ rw same (h, (bytes_beq_iff o.current_config_hash hash).0 same, refl)
        | inr new ↦ rw new (i, refl, ap (λ f. f ∷ []) i)
      ]

  set_retry_delay-updates :
      (e : Option (Bool × Option ℕ)) (o : OpAmp) → updates (set_retry_delay e o) ≡ []
  unfolding set_retry_delay
  set_retry_delay-updates none o = refl
  set_retry_delay-updates (some (b, none)) o = refl
  set_retry_delay-updates (some (true, some n)) o = refl
  set_retry_delay-updates (some (false, some n)) o = refl

  set_identification-config :
      (id : Option (List ℕ)) (o : OpAmp)
      → ((set_identification id o).config_files ≡ o.config_files)
        × ((set_identification id o).current_config_hash ≡ o.current_config_hash)
  unfolding set_identification
  set_identification-config none o = (refl, refl)
  set_identification-config (some uid) o = (refl, refl)

  set_heartbeat_interval-config :
      (seconds : Option ℕ) (o : OpAmp)
      → ((set_heartbeat_interval seconds o).config_files ≡ o.config_files)
        × ((set_heartbeat_interval seconds o).current_config_hash ≡ o.current_config_hash)
  unfolding set_heartbeat_interval
  set_heartbeat_interval-config none o = (refl, refl)
  set_heartbeat_interval-config (some seconds) o = (refl, refl)

  handle_server_to_agent-IsUpdated :
      (msg : Option ServerToAgent) (o : OpAmp)
      → IsOf content (config_in msg)
      → o.config_files ≡ content o.current_config_hash
      → IsUpdated (config_in msg) o (handle_server_to_agent msg o)
  unfolding handle_server_to_agent
  handle_server_to_agent-IsUpdated none o i h = (h, refl, refl)
  handle_server_to_agent-IsUpdated (some msg) o i h =
      let identified = set_identification msg.new_instance_uid o in
      let timed = set_heartbeat_interval msg.heartbeat_interval_seconds identified in
      let a = set_identification-config msg.new_instance_uid o in
      let b = set_heartbeat_interval-config msg.heartbeat_interval_seconds identified in
      let hash : timed.current_config_hash ≡ o.current_config_hash = b.1 ∙ a.1 in
      let before : timed.config_files ≡ content timed.current_config_hash =
        b.0 ∙ (a.0 ∙ (h ∙ ap content (sym hash))) in
      let configured = set_remote_config msg.remote_config timed in
      let r = set_remote_config-IsUpdated msg.remote_config timed i before in
      (
        r.0,
        r.1 ∙ ap (hash_after msg.remote_config) hash,
        updates-append configured.1 (set_retry_delay msg.error_response configured.0)
            ∙ (ap (λ fs. updates configured.1 ++ fs)
                  (set_retry_delay-updates msg.error_response configured.0)
                ∙ (append-nil (updates configured.1)
                    ∙ (r.2 ∙ ap (λ h. map content (new_hash msg.remote_config h)) hash))),
      )

  -- If the files of every configuration that the server sends are those that its hash stands for, and
  -- those at the start are, too, then after any history of messages, also such as are not parsed, the
  -- client has the hash of the last configuration and its files, and the watchers were given the
  -- files of each hash that differed from the one before, in order, and nothing else.
  pub handle_messages-config :
      (msgs : List (Option ServerToAgent)) (o : OpAmp)
      → All (λ msg. IsOf content (config_in msg)) msgs
      → o.config_files ≡ content o.current_config_hash
      → (let r = handle_messages msgs o in
          (r.0.config_files ≡ content r.0.current_config_hash)
          × (r.0.current_config_hash ≡ last_hash o.current_config_hash msgs)
          × (updates r.1 ≡ map content (changes o.current_config_hash msgs)))
  unfolding handle_messages
  handle_messages-config [] o i h = (h, refl, refl)
  handle_messages-config (msg ∷ msgs) o i h =
      let first = handle_server_to_agent msg o in
      let a = handle_server_to_agent-IsUpdated msg o i.0 h in
      let b = handle_messages-config msgs first.0 i.1 a.0 in
      (
        b.0,
        b.1 ∙ ap (λ hash. last_hash hash msgs) a.1,
        updates-append first.1 (handle_messages msgs first.0).1
            ∙ (ap (λ fs. fs ++ updates (handle_messages msgs first.0).1) a.2
                ∙ (ap (λ fs. map content (new_hash (config_in msg) o.current_config_hash) ++ fs)
                      (b.2 ∙ ap (λ hash. map content (changes hash msgs)) a.1)
                    ∙ sym (
                        map-append content (new_hash (config_in msg) o.current_config_hash)
                          (changes (hash_after (config_in msg) o.current_config_hash) msgs)))),
      )

-- A deadline that the clock of 64 bits reaches.
abbrev pub IsReached : ℕ → ℕ → Type 0
IsReached now interval = (0 < interval) × (now + interval * 1000000 < sign)

deadline_lem :
    (now interval : ℕ) → IsReached now interval → deadline now interval ≡ now + interval * 1000000
unfolding deadline
deadline_lem now interval h = omega arith

signed_leb_lem : (a b : ℕ) → a < sign → b < sign → signed_leb a b ≡ leb a b
unfolding signed_leb
signed_leb_lem a b h i =
    let x : (a + sign) % word_mod ≡ a + sign = omega arith in
    let y : (b + sign) % word_mod ≡ b + sign = omega arith in ground arith

wait_until_lem :
    (d : Deadlines)
    → d.next_heartbeat < sign
    → d.next_poll < sign
    → wait_until d ≡ (if leb d.next_heartbeat d.next_poll then d.next_heartbeat else d.next_poll)
unfolding wait_until
wait_until_lem d i j = rw (signed_leb_lem d.next_heartbeat d.next_poll i j) refl

-- The next deadline of one of the two.
abbrev next_deadline : ℕ → ℕ → ℕ → ℕ
next_deadline now interval next = if leb next now then now + interval * 1000000 else next

next_deadline_later :
    (now interval next : ℕ)
    → IsReached now interval
    → next < sign
    → (now < next_deadline now interval next) × (next_deadline now interval next < sign)
next_deadline_later now interval next h i = (ground arith, ground arith)

heartbeat_round_next :
    (now : ℕ) (o : OpAmp) (d : Deadlines)
    → IsReached now o.heartbeat_interval
    → IsReached now o.polling_interval
    → d.next_heartbeat < sign
    → d.next_poll < sign
    → heartbeat_round now o d ≡ (
      leb d.next_heartbeat now || leb d.next_poll now,
      record {
        next_heartbeat = next_deadline now o.heartbeat_interval d.next_heartbeat;
        next_poll = next_deadline now o.polling_interval d.next_poll;
      },
    )
unfolding heartbeat_round
heartbeat_round_next now o d h p i j =
    let now_fits : now < sign = omega arith in
    rw
      (
        deadline_lem now o.heartbeat_interval h,
        deadline_lem now o.polling_interval p,
        signed_leb_lem d.next_heartbeat now i now_fits,
        signed_leb_lem d.next_poll now j now_fits,
      )
      refl

-- A round before the deadlines sends nothing and keeps them; a round at one of them or later sends a
-- heartbeat, and the loop then waits for a later time; if both intervals are positive, and neither
-- the deadlines nor the new ones are beyond the 63 bits of the clock.
pub heartbeat_round_lem :
    (now : ℕ) (o : OpAmp) (d : Deadlines)
    → IsReached now o.heartbeat_interval
    → IsReached now o.polling_interval
    → d.next_heartbeat < sign
    → d.next_poll < sign
    → (let r = heartbeat_round now o d in
        (r.0 ≡ leb (wait_until d) now)
        × (now < wait_until r.1)
        × ((if leb (wait_until d) now then d else r.1) ≡ d))
heartbeat_round_lem now o d h p i j =
    let a = next_deadline_later now o.heartbeat_interval d.next_heartbeat h i in
    let b = next_deadline_later now o.polling_interval d.next_poll p j in
    let next : Deadlines = record {
      next_heartbeat = next_deadline now o.heartbeat_interval d.next_heartbeat;
      next_poll = next_deadline now o.polling_interval d.next_poll;
    } in
    rw (heartbeat_round_next now o d h p i j, wait_until_lem d i j, wait_until_lem next a.1 b.1)
      (ground arith, ground arith, ground arith)

set_remote_config-interval :
    (config : Option (List ℕ × Files)) (o : OpAmp)
    → (set_remote_config config o).0.heartbeat_interval ≡ o.heartbeat_interval
unfolding set_remote_config
set_remote_config-interval none o = refl
set_remote_config-interval (some (hash, items)) o =
    elim (Bool-cases (bytes_beq o.current_config_hash hash)) [
      | inl same ↦ rw same
      | inr new ↦ rw new
    ]

set_heartbeat_interval-seconds :
    (seconds : Option ℕ) (n : ℕ) (o : OpAmp)
    → seconds ≡ some n
    → (set_heartbeat_interval seconds o).heartbeat_interval ≡ mul_word n 1000
unfolding set_heartbeat_interval
set_heartbeat_interval-seconds none n o h = absurd (cc)
set_heartbeat_interval-seconds (some m) n o h = ground arith

deadline_zero : (now : ℕ) → signed_leb (deadline now 0) now ≡ true
unfolding signed_leb deadline
deadline_zero now =
    let same : ((now + 0 * 1000000 % word_mod) % word_mod + sign) % word_mod
        ≡ (now + sign) % word_mod =
      omega arith in
    rw same (ground arith)

wait_until_leb :
    (d : Deadlines) (now : ℕ)
    → signed_leb d.next_heartbeat now ≡ true
    → signed_leb (wait_until d) now ≡ true
unfolding signed_leb wait_until
wait_until_leb d now h = elim (Bool-cases (signed_leb d.next_heartbeat d.next_poll)) [
  | inl heartbeat ↦ rw heartbeat h
  | inr poll ↦ rw poll (ground arith)
]

heartbeat_round_busy :
    (now : ℕ) (o : OpAmp) (d : Deadlines)
    → o.heartbeat_interval ≡ 0
    → signed_leb d.next_heartbeat now ≡ true
    → (let r = heartbeat_round now o d in (r.0 ≡ true) × (signed_leb (wait_until r.1) now ≡ true))
unfolding heartbeat_round
heartbeat_round_busy now o d z h =
    let at_once : signed_leb (heartbeat_round now o d).1.next_heartbeat now ≡ true =
      rw (heartbeat_round, h, z) (deadline_zero now) in
    (rw (heartbeat_round, h) refl, wait_until_leb (heartbeat_round now o d).1 now at_once)

-- After a message of the server with the heartbeat interval 0, a round at the deadline of the
-- heartbeat or later sends a heartbeat and leaves a deadline that has passed already.
pub handle_server_to_agent-busy :
    (msg : ServerToAgent) (o : OpAmp) (now : ℕ) (d : Deadlines)
    → msg.heartbeat_interval_seconds ≡ some 0
    → signed_leb d.next_heartbeat now ≡ true
    → (let o' = (handle_server_to_agent (some msg) o).0 in
        let r = heartbeat_round now o' d in (r.0 ≡ true) × (signed_leb (wait_until r.1) now ≡ true))
unfolding handle_server_to_agent
handle_server_to_agent-busy msg o now d z h =
    let timed =
      set_heartbeat_interval msg.heartbeat_interval_seconds
        (set_identification msg.new_instance_uid o) in
    let zero_interval : (set_remote_config msg.remote_config timed).0.heartbeat_interval ≡ 0 =
      set_remote_config-interval msg.remote_config timed
      ∙ set_heartbeat_interval-seconds msg.heartbeat_interval_seconds 0
          (set_identification msg.new_instance_uid o) z in
    heartbeat_round_busy now (handle_server_to_agent (some msg) o).0 d zero_interval h
