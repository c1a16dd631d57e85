-- ===== src/Coordinator/Chunks/Tests.antt =====
-- Runs of the chunk processor, and its theorems at concrete messages.
use opentelemetry_php_distro.Prelude.{◌≡◌, refl, true, List, [], ◌∷◌, none, arith}
use opentelemetry_php_distro.Coordinator.Chunks.{
  Chunk, Processor, incomplete, delivered, unexpected_offset, add_next_chunk, finish_chunk,
  process_received_chunk, send_loop, send_payload, chunk_at, cleanup_sender, cleanup_senders,
  cleanup_abandoned_messages, enqueue_message, Sent, full, sent,
}
use opentelemetry_php_distro.Coordinator.Chunks.Assembly.{entry}
use opentelemetry_php_distro.Coordinator.Chunks.Sending.{
  record_chunk, payloads, AreConsecutive, send_payload-split, send_payload_full,
}
use opentelemetry_php_distro.Coordinator.Chunks.Delivery.{
  Receipt, receive_all, outcomes_of, assemble_outcomes, assemble_all, outcomes_of-assemble,
  send-receive,
}

abbrev idle : Processor
idle = record { received = []; msg_id = 6 }

abbrev first_half : Chunk
first_half = record {
  sender_process_id = 10;
  msg_id = 7;
  payload_total_size = 3;
  payload_offset = 0;
  payload = 1 ∷ 2 ∷ [];
}

abbrev second_half : Chunk
second_half = record {
  sender_process_id = 10;
  msg_id = 7;
  payload_total_size = 3;
  payload_offset = 2;
  payload = 3 ∷ [];
}

abbrev other_chunk : Chunk
other_chunk = record {
  sender_process_id = 11;
  msg_id = 7;
  payload_total_size = 9;
  payload_offset = 0;
  payload = 8 ∷ [];
}

abbrev receipts : List Receipt
receipts = (1, first_half) ∷ (2, other_chunk) ∷ (3, second_half) ∷ []

two_halves : outcomes_of 10 7 receipts idle ≡ incomplete ∷ delivered (1 ∷ 2 ∷ 3 ∷ []) ∷ []
unfolding process_received_chunk finish_chunk add_next_chunk
two_halves = refl

out_of_order :
    outcomes_of 10 7 ((1, second_half) ∷ (2, first_half) ∷ []) idle
    ≡ unexpected_offset ∷ incomplete ∷ []
unfolding process_received_chunk finish_chunk add_next_chunk
out_of_order = refl

abbrev waiting : Processor
waiting = record {
  received = (10, (7, record { total_size = 3; contents = 1 ∷ []; last_updated = 5 }) ∷ []) ∷ [];
  msg_id = 0;
}

nothing_left : (cleanup_abandoned_messages 16 10 waiting).received ≡ []
unfolding cleanup_abandoned_messages cleanup_senders cleanup_sender
nothing_left = refl

outcomes_of-assemble_example :
    (outcomes_of 10 7 receipts idle
      ≡ assemble_outcomes ((1, first_half) ∷ (3, second_half) ∷ []) none)
    × (entry (receive_all receipts idle) 10 7
        ≡ assemble_all ((1, first_half) ∷ (3, second_half) ∷ []) none)
outcomes_of-assemble_example = outcomes_of-assemble 10 7 receipts idle

abbrev whole_chunk : Chunk
whole_chunk = chunk_at 10 7 (1 ∷ 2 ∷ 3 ∷ []) 0

abbrev sent_receipts : List Receipt
sent_receipts = (1, other_chunk) ∷ (2, whole_chunk) ∷ []

send-receive_example :
    (outcomes_of 10 7 sent_receipts idle ≡ delivered (1 ∷ 2 ∷ 3 ∷ []) ∷ [])
    × (entry (receive_all sent_receipts idle) 10 7 ≡ none)
unfolding send_payload send_loop
send-receive_example =
    send-receive 10 (1 ∷ 2 ∷ 3 ∷ []) idle idle sent_receipts (λ e. cc) (omega arith) refl refl

send_payload-split_example :
    let r = send_payload record_chunk 10 (4 ∷ 5 ∷ []) idle [] in
    (r.0 ≡ true) × AreConsecutive 10 7 2 0 r.2 × (payloads r.2 ≡ 4 ∷ 5 ∷ [])
send_payload-split_example = send_payload-split 10 (4 ∷ 5 ∷ []) idle

-- A queue of one place.
abbrev try_send_one : List Chunk → Chunk → Sent (List Chunk)
try_send_one [] c = sent (c ∷ [])
try_send_one (x ∷ q) c = full

send_payload_full_example :
    send_payload (enqueue_message try_send_one) 10 (4 ∷ []) idle (first_half ∷ [])
    ≡ (true, record idle { msg_id = 7 }, first_half ∷ [])
send_payload_full_example =
    send_payload_full try_send_one 10 (4 ∷ []) idle (first_half ∷ []) (λ c. refl)
