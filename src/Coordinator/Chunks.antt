-- ===== src/Coordinator/Chunks.antt =====
-- ChunkedMessage and ChunkedMessageProcessor of
-- prod/native/libcommon/code/coordinator/ChunkedMessageProcessor.{h,cpp}, and the payload of
-- CoordinatorSharedDataQueue.h. A `Chunk` is a CoordinatorPayload of which only the bytes that were
-- enqueued are kept; the clock reading of an operation is its argument `now`.
pub mod Assembly
pub mod Sending
pub mod Delivery
pub mod Invariant
pub mod Cleanup
pub mod Tests
use opentelemetry_php_distro.Prelude.{
  ℕ, zero, suc, ◌+◌, ◌-◌, ◌<◌, Bool, true, false, not, List, [], ◌∷◌, ◌++◌, Option, none, some, ltb,
  ◌==◌, min, length, take, drop, lookup, assign, emplace, erase, nat_eq, word_mod, add_word,
  sub_word, if◌then◌else◌,
}

pub record Chunk : Type 0 where
  pub sender_process_id : ℕ
  pub msg_id : ℕ
  pub payload_total_size : ℕ
  pub payload_offset : ℕ
  pub payload : List ℕ

-- sizeof(CoordinatorPayload::payload) and offsetof(CoordinatorPayload, payload)
abbrev pub data_payload_size : ℕ
data_payload_size = 4064

abbrev pub payload_start : ℕ
payload_start = 32

pub record ChunkedMessage : Type 0 where
  pub total_size : ℕ
  pub contents : List ℕ
  pub last_updated : ℕ

-- A new message has the clock's epoch as its time.
abbrev pub new_message : ℕ → ChunkedMessage
new_message total = record { total_size = total; contents = []; last_updated = 0 }

-- `none` is the exception; the Boolean says whether the message is complete.
pub add_next_chunk : ℕ → List ℕ → ChunkedMessage → Option (Bool × ChunkedMessage)
add_next_chunk now chunk_data m =
    if ltb m.total_size (add_word (length m.contents) (length chunk_data))
    then none
    else some (
      length (m.contents ++ chunk_data) == m.total_size,
      record m { contents = m.contents ++ chunk_data; last_updated = now },
    )

pub record Processor : Type 0 where
  pub received : List (ℕ × List (ℕ × ChunkedMessage))
  pub msg_id : ℕ

-- What a received chunk leads to; the last three are the exceptions.
pub data Outcome : Type 0 where
  incomplete : Outcome
  delivered : List ℕ → Outcome
  unexpected_offset exceeds_total exceeds_message : Outcome

-- recievedMessages_[pid]
abbrev pub messages_for : ℕ → List (ℕ × List (ℕ × ChunkedMessage)) → List (ℕ × ChunkedMessage)
messages_for pid r = elim (lookup pid r) [ none ↦ [] | some ms ↦ ms ]

abbrev pub message_or_new : Chunk → List (ℕ × ChunkedMessage) → ChunkedMessage
message_or_new c ms = elim (lookup c.msg_id ms) [
  | none ↦ new_message c.payload_total_size
  | some m ↦ m
]

-- The messages of a sender are dropped with the last one.
abbrev pub close_message :
    Chunk
    → List (ℕ × ChunkedMessage)
    → List (ℕ × List (ℕ × ChunkedMessage))
    → List (ℕ × List (ℕ × ChunkedMessage))
close_message c ms r = elim (erase c.msg_id ms) [
  | [] ↦ erase c.sender_process_id r
  | x ∷ rest ↦ assign c.sender_process_id (x ∷ rest) r
]

finish_chunk :
    Chunk
    → List (ℕ × ChunkedMessage)
    → Processor
    → Option (Bool × ChunkedMessage)
    → Outcome × Processor
finish_chunk c ms opened none = (exceeds_message, opened)
finish_chunk c ms opened (some (true, m)) =
    (delivered m.contents, record opened { received = close_message c ms opened.received })
finish_chunk c ms opened (some (false, m)) = (
  incomplete,
  record opened { received = assign c.sender_process_id (assign c.msg_id m ms) opened.received },
)

pub process_received_chunk : ℕ → Chunk → ℕ → Processor → Outcome × Processor
process_received_chunk now c chunk_size p =
    let found = messages_for c.sender_process_id p.received in
    let message = message_or_new c found in
    let ms = emplace c.msg_id message found in
    let opened = record p { received = assign c.sender_process_id ms p.received } in
    let payload_size = sub_word chunk_size payload_start in
    let chunk_data = take payload_size c.payload in
    if not (length message.contents == c.payload_offset)
    then (unexpected_offset, opened)
    else if ltb c.payload_total_size (add_word c.payload_offset payload_size)
    then (exceeds_total, opened)
    else finish_chunk c ms opened (add_next_chunk now chunk_data message)

-- CoordinatorSharedDataQueue over a queue that is not part of the source. `try_send` of
-- boost::interprocess::message_queue may put the message in, find the queue full, or throw.
pub data Sent {ℓ} (Q : Type ℓ) : Type ℓ where
  sent : Q → Sent Q
  full failed : Sent Q

-- The result of `try_send` is dropped: a full queue counts as success.
pub enqueue_message {ℓ} : {Q : Type ℓ} → (Q → Chunk → Sent Q) → Q → Chunk → Bool × Q
enqueue_message try_send q c = elim (try_send q c) [
  | sent q' ↦ (true, q')
  | full ↦ (true, q)
  | failed ↦ (false, q)
]

-- The chunk of sendPayload at an offset.
abbrev pub chunk_at : ℕ → ℕ → List ℕ → ℕ → Chunk
chunk_at pid msg_id payload offset = record {
  sender_process_id = pid;
  msg_id = msg_id;
  payload_total_size = length payload;
  payload_offset = offset;
  payload = take (min data_payload_size (length payload - offset)) (drop offset payload);
}

module _ {ℓ} {Q : Type ℓ} (enqueue : Q → Chunk → Bool × Q) where
  -- The loop. Each round advances the offset, so a fuel above the length is enough.
  unfoldable pub send_loop : ℕ → ℕ → ℕ → List ℕ → ℕ → Q → Bool × Q
  send_loop zero pid msg_id payload offset q = (false, q)
  send_loop (suc fuel) pid msg_id payload offset q = elim (ltb offset (length payload)) [
    | false ↦ (true, q)
    | true ↦
        let (accepted, q') = enqueue q (chunk_at pid msg_id payload offset) in
        elim accepted [
          | false ↦ (false, q')
          | true ↦
              send_loop fuel pid msg_id payload
                (offset + min data_payload_size (length payload - offset)) q'
        ]
  ]

  unfoldable pub send_payload : ℕ → List ℕ → Processor → Q → Bool × Processor × Q
  unfolding send_loop
  send_payload pid payload p q =
      let id = add_word p.msg_id 1 in
      let (result, q') = send_loop (suc (length payload)) pid id payload 0 q in
      (result, record p { msg_id = id }, q')

-- timed_receive: `none` is a timeout or an exception.
pub try_receive_message {ℓ} :
    {Q : Type ℓ} → (Q → Option (Chunk × Q)) → ℕ → Processor → Q → Bool × Outcome × Processor × Q
try_receive_message receive now p q = elim (receive q) [
  | none ↦ (false, incomplete, p, q)
  | some (c, q') ↦
      let (o, p') = process_received_chunk now c (payload_start + length c.payload) p in
      (true, o, p', q')
]

-- The signed difference of the source: a message updated after `now` is not old.
abbrev pub is_abandoned : ℕ → ℕ → ChunkedMessage → Bool
is_abandoned now max_age m = ltb max_age (now - m.last_updated)

pub cleanup_sender : ℕ → ℕ → List (ℕ × ChunkedMessage) → List (ℕ × ChunkedMessage)
cleanup_sender now max_age [] = []
cleanup_sender now max_age ((id, m) ∷ ms) =
    if is_abandoned now max_age m
    then cleanup_sender now max_age ms
    else (id, m) ∷ cleanup_sender now max_age ms

abbrev keep_sender :
    ℕ
    → List (ℕ × ChunkedMessage)
    → List (ℕ × List (ℕ × ChunkedMessage))
    → List (ℕ × List (ℕ × ChunkedMessage))
keep_sender pid [] rest = rest
keep_sender pid (x ∷ ms) rest = (pid, x ∷ ms) ∷ rest

pub cleanup_senders :
    ℕ → ℕ → List (ℕ × List (ℕ × ChunkedMessage)) → List (ℕ × List (ℕ × ChunkedMessage))
cleanup_senders now max_age [] = []
cleanup_senders now max_age ((pid, ms) ∷ rest) =
    keep_sender pid (cleanup_sender now max_age ms) (cleanup_senders now max_age rest)

pub cleanup_abandoned_messages : ℕ → ℕ → Processor → Processor
cleanup_abandoned_messages now max_age p = record p {
  received = cleanup_senders now max_age p.received;
}
