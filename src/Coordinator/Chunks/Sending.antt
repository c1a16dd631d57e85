-- ===== src/Coordinator/Chunks/Sending.antt =====
-- sendPayload cuts a payload into chunks: consecutive, in order, none empty, none too large.
use opentelemetry_php_distro.Prelude.{
  inl, inr, ℕ, zero, suc, ◌+◌, ◌-◌, ◌<◌, ◌≤◌, ◌≡◌, refl, sym, ◌∙◌, Bool, true, false, List, [], ◌∷◌,
  ◌++◌, append_assoc, append-nil, drop_all, ltb, min, length, take, drop, length-take, length-drop,
  take-append-drop, add_word, arith, Bool-cases,
}
use opentelemetry_php_distro.Coordinator.Chunks.{
  Chunk, Processor, data_payload_size, chunk_at, send_loop, send_payload, Sent, full,
  enqueue_message,
}

-- The chunks of a payload from an offset on.
pub chunks_from : ℕ → ℕ → ℕ → List ℕ → ℕ → List Chunk
chunks_from zero pid id payload offset = []
chunks_from (suc fuel) pid id payload offset = elim (ltb offset (length payload)) [
  | false ↦ []
  | true ↦
      chunk_at pid id payload offset
      ∷ chunks_from fuel pid id payload (offset + min data_payload_size (length payload - offset))
]

-- Offering chunks one by one, up to the first refusal.
pub offer_all {ℓ} : {Q : Type ℓ} → (Q → Chunk → Bool × Q) → List Chunk → Q → Bool × Q
offer_all enqueue [] q = (true, q)
offer_all enqueue (c ∷ cs) q =
    let (accepted, q') = enqueue q c in
    elim accepted [ false ↦ (false, q') | true ↦ offer_all enqueue cs q' ]

loop-offer {ℓ} :
    {Q : Type ℓ} (enqueue : Q → Chunk → Bool × Q) (fuel pid id : ℕ) (payload : List ℕ) (offset : ℕ)
    (q : Q)
    → length payload - offset < fuel
    → send_loop enqueue fuel pid id payload offset q
      ≡ offer_all enqueue (chunks_from fuel pid id payload offset) q
unfolding send_loop chunks_from offer_all
loop-offer enqueue zero pid id payload offset q h = absurd (omega arith)
loop-offer enqueue (suc fuel) pid id payload offset q h = ground (
  arith,
  loop-offer enqueue fuel pid id payload (offset + min data_payload_size (length payload - offset))
      ((enqueue q (chunk_at pid id payload offset)).1),
)

-- A queue that takes every chunk and lists them.
abbrev pub record_chunk : List Chunk → Chunk → Bool × List Chunk
record_chunk q c = (true, q ++ c ∷ [])

offer_all-record : (cs q : List Chunk) → offer_all record_chunk cs q ≡ (true, q ++ cs)
unfolding offer_all
offer_all-record [] q = rw append-nil
offer_all-record (c ∷ cs) q = offer_all-record cs (q ++ c ∷ []) ∙ rw append_assoc refl

-- The chunks of one call of sendPayload, when nothing is refused.
abbrev pub chunks_of : ℕ → ℕ → List ℕ → List Chunk
chunks_of pid id payload = chunks_from (suc (length payload)) pid id payload 0

-- sendPayload offers the chunks of the payload, numbered by the next message id, in order up to
-- the first refusal, and returns whether all were taken.
pub send_payload-offer_all {ℓ} :
    {Q : Type ℓ} (enqueue : Q → Chunk → Bool × Q) (pid : ℕ) (payload : List ℕ) (p : Processor)
    (q : Q)
    → let r = offer_all enqueue (chunks_of pid (add_word p.msg_id 1) payload) q in
      send_payload enqueue pid payload p q ≡ (r.0, record p { msg_id = add_word p.msg_id 1 }, r.1)
unfolding send_payload
send_payload-offer_all enqueue pid payload p q =
    rw (
      loop-offer enqueue (suc (length payload)) pid (add_word p.msg_id 1) payload 0 q (omega arith))

pub send_payload-record :
    (pid : ℕ) (payload : List ℕ) (p : Processor)
    → (send_payload record_chunk pid payload p []).2 ≡ chunks_of pid (add_word p.msg_id 1) payload
send_payload-record pid payload p = rw (
  send_payload-offer_all record_chunk pid payload p [],
  offer_all-record (chunks_of pid (add_word p.msg_id 1) payload) [],
)

abbrev pub payloads : List Chunk → List ℕ
payloads [] = []
payloads (c ∷ cs) = c.payload ++ payloads cs

-- Consecutive chunks of one message, from an offset on.
abbrev pub AreConsecutive : ℕ → ℕ → ℕ → ℕ → List Chunk → Type 0
AreConsecutive pid id total offset [] = Unit {0}
AreConsecutive pid id total offset (c ∷ cs) =
    (c.sender_process_id ≡ pid)
    × (c.msg_id ≡ id)
    × (c.payload_total_size ≡ total)
    × (c.payload_offset ≡ offset)
    × (1 ≤ length c.payload)
    × (length c.payload ≤ data_payload_size)
    × AreConsecutive pid id total (offset + length c.payload) cs

length-chunk_at :
    (pid id : ℕ) (payload : List ℕ) (offset : ℕ)
    → length (chunk_at pid id payload offset).payload
      ≡ min data_payload_size (length payload - offset)
length-chunk_at pid id payload offset = omega (
  arith,
  length-take (min data_payload_size (length payload - offset)) (drop offset payload),
  length-drop offset payload,
)

chunks_from-AreConsecutive :
    (fuel pid id : ℕ) (payload : List ℕ) (offset : ℕ)
    → AreConsecutive pid id (length payload) offset (chunks_from fuel pid id payload offset)
unfolding chunks_from
chunks_from-AreConsecutive zero pid id payload offset = tt
chunks_from-AreConsecutive (suc fuel) pid id payload offset =
    elim (Bool-cases (ltb offset (length payload))) [
      | inr done ↦ rw (done, chunks_from) tt
      | inl more ↦
          let n = length-chunk_at pid id payload offset in
          rw (more, chunks_from)
            (
              refl,
              refl,
              refl,
              refl,
              ground arith,
              omega arith,
              rw n (
                  chunks_from-AreConsecutive fuel pid id payload
                    (offset + min data_payload_size (length payload - offset))),
            )
    ]

take_nil {ℓ} : {A : Type ℓ} (k : ℕ) → ◌≡◌ {A = List A} (take k [] ++ []) []
take_nil zero = refl
take_nil (suc k) = refl

take-drop-add {ℓ} :
    {A : Type ℓ} (n k : ℕ) (xs : List A) → take k (drop n xs) ++ drop (n + k) xs ≡ drop n xs
take-drop-add zero k xs = let e : 0 + k ≡ k = omega arith in rw e (take-append-drop k xs)
take-drop-add (suc n) k [] = let e : suc n + k ≡ suc (n + k) = omega arith in rw e (take_nil k)
take-drop-add (suc n) k (x ∷ xs) =
    let e : suc n + k ≡ suc (n + k) = omega arith in rw e (take-drop-add n k xs)

chunks_from-payloads :
    (fuel pid id : ℕ) (payload : List ℕ) (offset : ℕ)
    → length payload - offset < fuel
    → payloads (chunks_from fuel pid id payload offset) ≡ drop offset payload
unfolding chunks_from
chunks_from-payloads zero pid id payload offset h = absurd (omega arith)
chunks_from-payloads (suc fuel) pid id payload offset h =
    elim (Bool-cases (ltb offset (length payload))) [
      | inr done ↦ rw (done, chunks_from) (sym (drop_all offset payload (ground arith)))
      | inl more ↦
          rw
            (
              more,
              chunks_from,
              chunks_from-payloads fuel pid id payload
                  (offset + min data_payload_size (length payload - offset)) (ground arith),
            )
            (take-drop-add offset (min data_payload_size (length payload - offset)) payload)
    ]

-- The chunks of a payload are consecutive, and together they are the payload.
pub chunks_of-split :
    (pid id : ℕ) (payload : List ℕ)
    → AreConsecutive pid id (length payload) 0 (chunks_of pid id payload)
      × (payloads (chunks_of pid id payload) ≡ payload)
chunks_of-split pid id payload = (
  chunks_from-AreConsecutive (suc (length payload)) pid id payload 0,
  chunks_from-payloads (suc (length payload)) pid id payload 0 (omega arith),
)

-- Into a queue that takes everything, sendPayload puts chunks with the next message id, consecutive
-- from offset 0, each of 1 to 4064 bytes, which together are the payload; and it returns true.
pub send_payload-split :
    (pid : ℕ) (payload : List ℕ) (p : Processor)
    → (let r = send_payload record_chunk pid payload p [] in
        (r.0 ≡ true)
        × AreConsecutive pid (add_word p.msg_id 1) (length payload) 0 r.2
        × (payloads r.2 ≡ payload))
send_payload-split pid payload p =
    let split = chunks_of-split pid (add_word p.msg_id 1) payload in
    rw
      (
        send_payload-offer_all record_chunk pid payload p [],
        offer_all-record (chunks_of pid (add_word p.msg_id 1) payload) [],
      )
      (refl, split.0, split.1)

enqueue_message_full {ℓ} :
    {Q : Type ℓ} (try_send : Q → Chunk → Sent Q) (q : Q) (c : Chunk)
    → try_send q c ≡ full
    → enqueue_message try_send q c ≡ (true, q)
unfolding enqueue_message
enqueue_message_full try_send q c h = rw (h, enqueue_message)

offer_full {ℓ} :
    {Q : Type ℓ} (try_send : Q → Chunk → Sent Q) (q : Q) (cs : List Chunk)
    → ((c : Chunk) → try_send q c ≡ full)
    → offer_all (enqueue_message try_send) cs q ≡ (true, q)
unfolding offer_all
offer_full try_send q [] h = refl
offer_full try_send q (c ∷ cs) h =
    ground (arith, enqueue_message_full try_send q c (h c), offer_full try_send q cs h)

-- Into a queue that is full for every chunk, sendPayload puts nothing, and yet it returns true: the
-- payload is lost, and the message id is used up.
pub send_payload_full {ℓ} :
    {Q : Type ℓ} (try_send : Q → Chunk → Sent Q) (pid : ℕ) (payload : List ℕ) (p : Processor)
    (q : Q)
    → ((c : Chunk) → try_send q c ≡ full)
    → send_payload (enqueue_message try_send) pid payload p q
      ≡ (true, record p { msg_id = add_word p.msg_id 1 }, q)
send_payload_full try_send pid payload p q h =
    let o = offer_full try_send q (chunks_of pid (add_word p.msg_id 1) payload) h in
    send_payload-offer_all (enqueue_message try_send) pid payload p q ∙ rw o refl
