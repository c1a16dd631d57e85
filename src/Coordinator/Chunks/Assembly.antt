-- ===== src/Coordinator/Chunks/Assembly.antt =====
-- Received chunks, seen one message at a time: the processor is a product of independent
-- automata, one for each pair of a sender and a message id.
use opentelemetry_php_distro.Prelude.{
  ℕ, ◌≡◌, refl, ap, Bool, true, false, not, ◌&&◌, List, [], ◌∷◌, Option, none, some, ltb, ◌==◌,
  length, take, lookup, assign, emplace, erase, nat_eq, add_word, sub_word, arith, lookup-assign,
  lookup-erase, lookup-emplace, if◌then◌else◌,
}
use opentelemetry_php_distro.Coordinator.Chunks.{
  Chunk, ChunkedMessage, Processor, Outcome, incomplete, delivered, unexpected_offset,
  exceeds_total, exceeds_message, new_message, add_next_chunk, messages_for, message_or_new,
  close_message, finish_chunk, process_received_chunk, payload_start,
}

-- What the processor holds of one message.
abbrev pub entry : Processor → ℕ → ℕ → Option ChunkedMessage
entry p pid id = lookup id (messages_for pid p.received)

abbrev pub held_or_new : ℕ → Option ChunkedMessage → ChunkedMessage
held_or_new total none = new_message total
held_or_new total (some m) = m

abbrev pub settle :
    ChunkedMessage → Option (Bool × ChunkedMessage) → Outcome × Option ChunkedMessage
settle m none = (exceeds_message, some m)
settle m (some (true, m')) = (delivered m'.contents, none)
settle m (some (false, m')) = (incomplete, some m')

-- One message by itself: the outcome of a chunk and what is held afterwards.
unfoldable pub assemble : ℕ → Chunk → ℕ → Option ChunkedMessage → Outcome × Option ChunkedMessage
assemble now c chunk_size held =
    let m = held_or_new c.payload_total_size held in
    let payload_size = sub_word chunk_size payload_start in
    if not (length m.contents == c.payload_offset)
    then (unexpected_offset, some m)
    else if ltb c.payload_total_size (add_word c.payload_offset payload_size)
    then (exceeds_total, some m)
    else settle m (add_next_chunk now (take payload_size c.payload) m)

abbrev pub Messages : Type 0
Messages = List (ℕ × ChunkedMessage)

held-assign :
    (pid j id : ℕ) (ms : Messages) (r : List (ℕ × Messages))
    → lookup id (messages_for j (assign pid ms r))
      ≡ (if pid == j then lookup id ms else lookup id (messages_for j r))
held-assign pid j id ms r = ground (arith, lookup-assign pid j ms r)

-- Dropping an empty map of a sender is not seen by a look-up.
held-close :
    (c : Chunk) (j id : ℕ) (ms : Messages) (r : List (ℕ × Messages))
    → lookup id (messages_for j (close_message c ms r)) ≡ (
        if c.sender_process_id == j
        then (if c.msg_id == id then none else lookup id ms)
        else lookup id (messages_for j r))
held-close c j id ms r = go (erase c.msg_id ms) refl
  where
    go :
        (es : Messages)
        → erase c.msg_id ms ≡ es
        → lookup id (messages_for j (close_message c ms r)) ≡ (
            if c.sender_process_id == j
            then (if c.msg_id == id then none else lookup id ms)
            else lookup id (messages_for j r))
    go [] e =
        ground (
          arith,
          lookup-erase c.sender_process_id j r,
          lookup-erase c.msg_id id ms,
          ap (lookup id) e,
        )
    go (x ∷ es) e = ground (
      arith,
      lookup-assign c.sender_process_id j (x ∷ es) r,
      lookup-erase c.msg_id id ms,
      ap (lookup id) e,
    )

message_or_new_held :
    (c : Chunk) (p : Processor)
    → message_or_new c (messages_for c.sender_process_id p.received)
      ≡ held_or_new c.payload_total_size (entry p c.sender_process_id c.msg_id)
message_or_new_held c p = ground arith

-- Opening the message of a chunk.
opened-entry :
    (c : Chunk) (m : ChunkedMessage) (p : Processor) (pid id : ℕ)
    → let ms = emplace c.msg_id m (messages_for c.sender_process_id p.received) in
      m ≡ held_or_new c.payload_total_size (entry p c.sender_process_id c.msg_id)
      → entry (record p { received = assign c.sender_process_id ms p.received }) pid id
        ≡ (if (c.sender_process_id == pid) && (c.msg_id == id) then some m else entry p pid id)
opened-entry c m p pid id h =
    let found : Messages = messages_for c.sender_process_id p.received in
    let ms : Messages = emplace c.msg_id m found in
    ground (
      arith,
      held-assign c.sender_process_id pid id ms p.received,
      lookup-emplace c.msg_id id m found,
    )

-- Whatever stands in the maps, the state after `finish_chunk` differs at one message only.
finish-entry :
    (c : Chunk) (m : ChunkedMessage) (p : Processor) (r : Option (Bool × ChunkedMessage))
    (pid id : ℕ)
    → let ms = emplace c.msg_id m (messages_for c.sender_process_id p.received) in
      let opened = record p { received = assign c.sender_process_id ms p.received } in
      m ≡ held_or_new c.payload_total_size (entry p c.sender_process_id c.msg_id)
      → ((finish_chunk c ms opened r).0 ≡ (settle m r).0)
        × (entry (finish_chunk c ms opened r).1 pid id ≡ (
            if (c.sender_process_id == pid) && (c.msg_id == id)
            then (settle m r).1
            else entry p pid id))
unfolding finish_chunk
finish-entry c m p none pid id h = (refl, opened-entry c m p pid id h)
finish-entry c m p (some (true, m')) pid id h =
    let found : Messages = messages_for c.sender_process_id p.received in
    let ms : Messages = emplace c.msg_id m found in
    (
      refl,
      ground (
        arith,
        held-assign c.sender_process_id pid id ms p.received,
        lookup-emplace c.msg_id id m found,
        held-close c pid id ms (assign c.sender_process_id ms p.received),
      ),
    )
finish-entry c m p (some (false, m')) pid id h =
    let found : Messages = messages_for c.sender_process_id p.received in
    let ms : Messages = emplace c.msg_id m found in
    let ms' : Messages = assign c.msg_id m' ms in
    (
      refl,
      ground (
        arith,
        held-assign c.sender_process_id pid id ms p.received,
        lookup-emplace c.msg_id id m found,
        held-assign c.sender_process_id pid id ms' (assign c.sender_process_id ms p.received),
        lookup-assign c.msg_id id m' ms,
      ),
    )

-- The outcome of a chunk is that of its own message, and no other message is touched.
pub process-assemble :
    (now : ℕ) (c : Chunk) (chunk_size : ℕ) (p : Processor) (pid id : ℕ)
    → ((process_received_chunk now c chunk_size p).0
        ≡ (assemble now c chunk_size (entry p c.sender_process_id c.msg_id)).0)
      × (entry (process_received_chunk now c chunk_size p).1 pid id ≡ (
          if (c.sender_process_id == pid) && (c.msg_id == id)
          then (assemble now c chunk_size (entry p c.sender_process_id c.msg_id)).1
          else entry p pid id))
unfolding process_received_chunk assemble
process-assemble now c chunk_size p pid id =
    let m : ChunkedMessage = message_or_new c (messages_for c.sender_process_id p.received) in
    let h = message_or_new_held c p in
    let f =
      finish-entry c m p (add_next_chunk now (take (sub_word chunk_size payload_start) c.payload) m)
        pid id h in
    let o = opened-entry c m p pid id h in (ground (arith, h, f.0), ground (arith, h, f.1, o))
