-- ===== src/Coordinator/Chunks/Invariant.antt =====
-- The invariant of the processor's maps, and that a received chunk keeps it on every path.
use opentelemetry_php_distro.Prelude.{
  ◌+◌, ◌<◌, ◌≤◌, [], ◌≢◌, length, word_mod, nat_eq, Distinct, AllValues,
}
use opentelemetry_php_distro.Coordinator.Chunks.{
  Chunk, ChunkedMessage, Processor, data_payload_size,
}
use opentelemetry_php_distro.Coordinator.Chunks.Assembly.{Messages}

-- A message holds no more than it announced, and leaves room for one more chunk in a word.
abbrev pub FitsMessage : ChunkedMessage → Type 0
FitsMessage m = (length m.contents ≤ m.total_size) × (m.total_size + data_payload_size < word_mod)

-- A sender has at least one message, and each of its message ids stands once.
abbrev pub IsSender : Messages → Type 0
IsSender ms = (ms ≢ []) × Distinct ms × AllValues FitsMessage ms

pub record IsProcessor (p : Processor) : Type 0 where
  pub senders : Distinct p.received
  pub messages : AllValues IsSender p.received

-- What a chunk from the queue satisfies.
abbrev pub IsChunk : Chunk → Type 0
IsChunk c =
    (length c.payload ≤ data_payload_size) × (c.payload_total_size + data_payload_size < word_mod)
