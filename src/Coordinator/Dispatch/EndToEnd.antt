-- ===== src/Coordinator/Dispatch/EndToEnd.antt =====
-- From a worker's command to the coordinator's state.
use opentelemetry_php_distro.Prelude.{
  ℕ, ◌≡◌, ◌≢◌, ◌<◌, ◌+◌, ◌∙◌, refl, sym, ap, Bool, List, [], ◌∷◌, map, Option, none, some, length,
  add_word, word_mod,
}
use opentelemetry_php_distro.Coordinator.Chunks.{
  Chunk, Processor, Outcome, payload_start, send_payload,
}
use opentelemetry_php_distro.Coordinator.Chunks.Assembly.{entry}
use opentelemetry_php_distro.Coordinator.Chunks.Sending.{
  record_chunk, chunks_of, payloads, chunks_of-split, send_payload-record,
}
use opentelemetry_php_distro.Coordinator.Chunks.Delivery.{
  Receipt, receipts_of, chunk_of, outcomes_of, completes, send-receive,
}
use opentelemetry_php_distro.Coordinator.Dispatch.{
  Command, send_command, Receiver, Services, dispatch_command, process_received_message,
  dispatch_outcomes,
}

dispatch-completes :
    (v : Services) (r : Receipt) (rs : List Receipt) (message : List ℕ) (s : Receiver)
    → dispatch_outcomes v (completes (r ∷ rs) message) s ≡ process_received_message v message s
unfolding dispatch_outcomes
dispatch-completes v r [] message s = refl
dispatch-completes v r (r' ∷ rs) message s = dispatch-completes v r' rs message s

-- sendPayload of a worker's processor into a queue that records its chunks.
abbrev pub record_payload : ℕ → Processor → List ℕ → List Chunk → Bool × List Chunk
record_payload pid sender text q = let r = send_payload record_chunk pid text sender q in (r.0, r.2)

-- A command that a worker serializes and sends: in whatever order its chunks arrive among those of
-- other messages and other workers, in order themselves, the coordinator carries it out exactly
-- once. The parser has to read back what the worker serialized, which is not empty; nothing is held
-- of the number of the message before.
pub send_command-dispatch :
    (v : Services) (c : Command) (text : List ℕ) (pid : ℕ) (sender receiver : Processor)
    (rs : List Receipt) (s : Receiver) (serialize : Command → Option (List ℕ))
    → let id = add_word sender.msg_id 1 in
      serialize c ≡ some text
      → v.parse text ≡ some c
      → text ≢ []
      → length text + payload_start < word_mod
      → entry receiver pid id ≡ none
      → map chunk_of (receipts_of pid id rs)
        ≡ send_command serialize (record_payload pid sender) c []
      → dispatch_outcomes v (outcomes_of pid id rs receiver) s ≡ dispatch_command v c s
unfolding process_received_message send_command
send_command-dispatch v c text pid sender receiver rs s serialize sc pc ne hw he hr =
    ap (λ (os : List Outcome). dispatch_outcomes v os s)
      (send-receive pid text sender receiver rs ne hw he sends).0
    ∙ go (receipts_of pid id rs) (sends ∙ send_payload-record pid text sender)
  where
    id : ℕ
    id = add_word sender.msg_id 1

    sends : map chunk_of (receipts_of pid id rs) ≡ (send_payload record_chunk pid text sender []).2
    sends = hr ∙ rw (sc, send_command) refl

    go :
        (own : List Receipt)
        → map chunk_of own ≡ chunks_of pid id text
        → dispatch_outcomes v (completes own text) s ≡ dispatch_command v c s
    go [] e = absurd (ne (sym (chunks_of-split pid id text).1 ∙ ap payloads (sym e)))
    go (x ∷ xs) e = dispatch-completes v x xs text s ∙ rw (pc, process_received_message) refl
