-- ===== src/Coordinator/Chunks/Delivery.antt =====
-- From sendPayload to processMessage_: what one processor cuts, another puts together again, also
-- between the chunks of other messages and other senders.
use opentelemetry_php_distro.Prelude.{
  ℕ, ◌+◌, ◌<◌, ◌≤◌, ◌≡◌, refl, sym, ap, subst, ◌∙◌, Bool, true, false, ◌&&◌, List, [], ◌∷◌, ◌++◌,
  map, ◌≢◌, append_assoc, append-nil, Option, none, some, ◌==◌, length, length-append, take_all,
  sub_word, add_word, word_mod, arith, Bool-cases, inl, inr, if◌then◌else◌,
}
use opentelemetry_php_distro.Coordinator.Chunks.{
  Chunk, ChunkedMessage, Processor, Outcome, incomplete, delivered, payload_start,
  process_received_chunk, send_payload, add_next_chunk, new_message,
}
use opentelemetry_php_distro.Coordinator.Chunks.Assembly.{
  entry, assemble, held_or_new, process-assemble,
}
use opentelemetry_php_distro.Coordinator.Chunks.Sending.{
  record_chunk, chunks_of, payloads, AreConsecutive, chunks_of-split, send_payload-record,
}

-- A chunk as it comes from the queue, with the time of its receipt.
abbrev pub Receipt : Type 0
Receipt = ℕ × Chunk

abbrev pub receive : Receipt → Processor → Outcome × Processor
receive (now, c) p = process_received_chunk now c (payload_start + length c.payload) p

abbrev pub receive_all : List Receipt → Processor → Processor
receive_all [] p = p
receive_all (r ∷ rs) p = receive_all rs (receive r p).1

abbrev pub has_key : ℕ → ℕ → Receipt → Bool
has_key pid id (now, c) = (c.sender_process_id == pid) && (c.msg_id == id)

-- The chunks of one message among all that are received, and the outcomes of these.
abbrev pub receipts_of : ℕ → ℕ → List Receipt → List Receipt
receipts_of pid id [] = []
receipts_of pid id (r ∷ rs) =
    if has_key pid id r then r ∷ receipts_of pid id rs else receipts_of pid id rs

abbrev pub outcomes_of : ℕ → ℕ → List Receipt → Processor → List Outcome
outcomes_of pid id [] p = []
outcomes_of pid id (r ∷ rs) p =
    let rest = outcomes_of pid id rs (receive r p).1 in
    if has_key pid id r then (receive r p).0 ∷ rest else rest

-- One message by itself.
abbrev pub assemble_receipt : Receipt → Option ChunkedMessage → Outcome × Option ChunkedMessage
assemble_receipt (now, c) o = assemble now c (payload_start + length c.payload) o

abbrev pub assemble_outcomes : List Receipt → Option ChunkedMessage → List Outcome
assemble_outcomes [] o = []
assemble_outcomes (r ∷ rs) o =
    (assemble_receipt r o).0 ∷ assemble_outcomes rs (assemble_receipt r o).1

abbrev pub assemble_all : List Receipt → Option ChunkedMessage → Option ChunkedMessage
assemble_all [] o = o
assemble_all (r ∷ rs) o = assemble_all rs (assemble_receipt r o).1

-- The processor refines the independent automata: in any history the outcomes of a message, and
-- what is held of it at the end, are those of the chunks of that message alone.
pub outcomes_of-assemble :
    (pid id : ℕ) (rs : List Receipt) (p : Processor)
    → (outcomes_of pid id rs p ≡ assemble_outcomes (receipts_of pid id rs) (entry p pid id))
      × (entry (receive_all rs p) pid id ≡ assemble_all (receipts_of pid id rs) (entry p pid id))
outcomes_of-assemble pid id [] p = (refl, refl)
outcomes_of-assemble pid id ((now, c) ∷ rs) p =
    let ih = outcomes_of-assemble pid id rs (receive (now, c) p).1 in
    let step = process-assemble now c (payload_start + length c.payload) p pid id in
    elim (Bool-cases (has_key pid id (now, c))) [
      | inl same ↦
          let s : c.sender_process_id ≡ pid = ground arith in
          let m : c.msg_id ≡ id = ground arith in
          rw (same, ih.0, ih.1, step.1, same, step.0, s, m) (refl, refl)
      | inr other ↦ rw (other, ih.0, ih.1, step.1, other) (refl, refl)
    ]

-- Every chunk but the last leaves the message incomplete, and the last delivers it.
abbrev pub completes : List Receipt → List ℕ → List Outcome
completes [] payload = []
completes (r ∷ []) payload = delivered payload ∷ []
completes (r ∷ r' ∷ rs) payload = incomplete ∷ completes (r' ∷ rs) payload

abbrev pub chunk_of : Receipt → Chunk
chunk_of (now, c) = c

-- A chunk at the right offset that leaves room for more, or that is the last.
assemble_next :
    (now : ℕ) (c : Chunk) (held : Option ChunkedMessage) (m : ChunkedMessage)
    → held_or_new c.payload_total_size held ≡ m
    → c.payload_offset ≡ length m.contents
    → m.total_size ≡ c.payload_total_size
    → length m.contents + length c.payload ≤ c.payload_total_size
    → c.payload_total_size + payload_start < word_mod
    → assemble now c (payload_start + length c.payload) held ≡ (
        if length m.contents + length c.payload == c.payload_total_size
        then (delivered (m.contents ++ c.payload), none)
        else (
          incomplete,
          some (record m { contents = m.contents ++ c.payload; last_updated = now }),
        ))
unfolding assemble add_next_chunk
assemble_next now c held m hm ho ht hl hw =
    let size : sub_word (payload_start + length c.payload) payload_start ≡ length c.payload =
      omega arith in
    rw (hm, size, take_all (length c.payload) c.payload (omega arith))
      (ground (arith, length-append m.contents c.payload))

assemble-completes :
    (pid id total offset : ℕ) (rs : List Receipt) (r : Receipt) (held : Option ChunkedMessage)
    (m : ChunkedMessage)
    → AreConsecutive pid id total offset (map chunk_of (r ∷ rs))
    → held_or_new total held ≡ m
    → length m.contents ≡ offset
    → m.total_size ≡ total
    → total ≡ offset + length (payloads (map chunk_of (r ∷ rs)))
    → total + payload_start < word_mod
    → (assemble_outcomes (r ∷ rs) held
        ≡ completes (r ∷ rs) (m.contents ++ payloads (map chunk_of (r ∷ rs))))
      × (assemble_all (r ∷ rs) held ≡ none)
assemble-completes pid id total offset [] (now, c) held m a hm hl ht hs hw =
    let la = length-append c.payload [] in
    let t : c.payload_total_size ≡ total = a.2 in
    let full : (length m.contents + length c.payload == c.payload_total_size) ≡ true =
      ground arith in
    let step =
      assemble_next now c held m (rw t hm) (a.3 ∙ sym hl) (ht ∙ sym t) (omega arith)
        (omega arith) in
    let s2 : assemble now c (payload_start + length c.payload) held
        ≡ (delivered (m.contents ++ c.payload), none) =
      step ∙ rw full refl in
    subst
      (λ (x : Outcome × Option ChunkedMessage).
        (x.0 ∷ [] ≡ delivered (m.contents ++ (c.payload ++ [])) ∷ []) × (x.1 ≡ none))
      (sym s2) (rw append-nil refl, refl)
assemble-completes pid id total offset (r' ∷ rs) (now, c) held m a hm hl ht hs hw =
    let rest = payloads (map chunk_of (r' ∷ rs)) in
    let la = length-append c.payload rest in
    let la' = length-append (chunk_of r').payload (payloads (map chunk_of rs)) in
    let ln = length-append m.contents c.payload in
    let t : c.payload_total_size ≡ total = a.2 in
    let b : 1 ≤ length (chunk_of r').payload = a.6.4 in
    let more : (length m.contents + length c.payload == c.payload_total_size) ≡ false =
      ground arith in
    let step =
      assemble_next now c held m (rw t hm) (a.3 ∙ sym hl) (ht ∙ sym t) (omega arith)
        (omega arith) in
    let m' : ChunkedMessage = record m { contents = m.contents ++ c.payload; last_updated = now } in
    let ih =
      assemble-completes pid id total (offset + length c.payload) rs r' (some m') m' a.6 refl
        (omega arith) ht (omega arith) hw in
    let s2 : assemble now c (payload_start + length c.payload) held ≡ (incomplete, some m') =
      step ∙ rw more refl in
    subst
      (λ (x : Outcome × Option ChunkedMessage).
        (x.0 ∷ assemble_outcomes (r' ∷ rs) x.1
          ≡ incomplete ∷ completes (r' ∷ rs) (m.contents ++ (c.payload ++ rest)))
        × (assemble_all (r' ∷ rs) x.1 ≡ none))
      (sym s2)
      (
        ap (◌∷◌ incomplete)
            (ih.0 ∙ ap (completes (r' ∷ rs)) (append_assoc m.contents c.payload rest)),
        ih.1,
      )

-- Send a payload that is not empty and fits a word with the head of a chunk: in whatever order its chunks and those of other messages are
-- received, as long as its own come in order and nothing is held of its number before, its chunks
-- are incomplete but for the last, the last delivers exactly the payload, and nothing is held of
-- the message afterwards.
pub send-receive :
    (pid : ℕ) (payload : List ℕ) (sender receiver : Processor) (rs : List Receipt)
    → let id = add_word sender.msg_id 1 in
      payload ≢ []
      → length payload + payload_start < word_mod
      → entry receiver pid id ≡ none
      → map chunk_of (receipts_of pid id rs) ≡ (send_payload record_chunk pid payload sender []).2
      → (outcomes_of pid id rs receiver ≡ completes (receipts_of pid id rs) payload)
        × (entry (receive_all rs receiver) pid id ≡ none)
send-receive pid payload sender receiver rs ne hw he hr =
    rw (r.0, r.1, he) (go (receipts_of pid id rs) (hr ∙ send_payload-record pid payload sender))
  where
    id : ℕ
    id = add_word sender.msg_id 1

    r :
        (outcomes_of pid id rs receiver
          ≡ assemble_outcomes (receipts_of pid id rs) (entry receiver pid id))
        × (entry (receive_all rs receiver) pid id
            ≡ assemble_all (receipts_of pid id rs) (entry receiver pid id))
    r = outcomes_of-assemble pid id rs receiver

    go :
        (own : List Receipt)
        → map chunk_of own ≡ chunks_of pid id payload
        → (assemble_outcomes own none ≡ completes own payload) × (assemble_all own none ≡ none)
    go [] e = absurd (ne (sym (chunks_of-split pid id payload).1 ∙ ap payloads (sym e)))
    go (x ∷ xs) e =
        let split = chunks_of-split pid id payload in
        let whole : payloads (map chunk_of (x ∷ xs)) ≡ payload = ap payloads e ∙ split.1 in
        let result =
          assemble-completes pid id (length payload) 0 xs x none (new_message (length payload))
            (subst (AreConsecutive pid id (length payload) 0) (sym e) split.0) refl refl refl
            (omega (arith, ap length whole)) hw in
        (result.0 ∙ ap (completes (x ∷ xs)) whole, result.1)
