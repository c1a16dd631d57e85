-- ===== src/Transport/Async/Counter.antt =====
-- The byte counter of the send queue: what each operation does to it, up to the join of a fork.
use opentelemetry_php_distro.Prelude.{
  ℕ, ◌+◌, ◌≤◌, ◌<◌, ◌≡◌, refl, ap, Bool, true, false, not, List, [], ◌∷◌, ◌++◌, suc, ◌&&◌, ◌||◌,
  inl, inr, Bool-cases, length, word_mod, arith,
}
use opentelemetry_php_distro.Transport.Async.{
  Payload, Transport, enqueue, prefork, World, after_transmit, send_queue, send, times_out, wake,
  joined, Effect, after_join, join_thread, shutdown_thread, has_payloads,
}

abbrev pub queue_bytes : List Payload → ℕ
queue_bytes [] = 0
queue_bytes (p ∷ ps) = length p.bytes + queue_bytes ps

pub queue_bytes-append :
    (ps qs : List Payload) → queue_bytes (ps ++ qs) ≡ queue_bytes ps + queue_bytes qs
queue_bytes-append [] qs = omega arith
queue_bytes-append (p ∷ ps) qs = omega (arith, queue_bytes-append ps qs)

-- The counter is the number of queued bytes and an excess, and stays within the limit.
pub record IsCounted (limit excess : ℕ) (t : Transport) : Type 0 where
  pub counted : t.payloads_byte_usage ≡ excess + queue_bytes t.payloads_to_send
  pub bounded : t.payloads_byte_usage ≤ limit

pub enqueue-IsCounted :
    (limit excess : ℕ) (p : Payload) (t : Transport)
    → length p.bytes + limit < word_mod
    → IsCounted limit excess t
    → IsCounted limit excess (enqueue limit p t)
unfolding enqueue
enqueue-IsCounted limit excess p t h c =
    ground (arith, queue_bytes-append t.payloads_to_send (p ∷ []))

pub pop-IsCounted :
    (limit excess : ℕ) (w : World) (p : Payload) (ps : List Payload) (t : Transport)
    → limit < word_mod
    → t.payloads_to_send ≡ p ∷ ps
    → IsCounted limit excess t
    → IsCounted limit excess (after_transmit w p ps t)
pop-IsCounted limit excess w p ps t h e c =
    let b : queue_bytes t.payloads_to_send ≡ length p.bytes + queue_bytes ps = ap queue_bytes e in
    record { counted = omega arith; bounded = omega arith }

send_queue-IsCounted :
    (limit excess timeout : ℕ) (worlds : ℕ → World) (clock : ℕ → ℕ) (n : ℕ) (ps : List Payload)
    (t : Transport)
    → limit < word_mod
    → t.payloads_to_send ≡ ps
    → IsCounted limit excess t
    → IsCounted limit excess (send_queue timeout worlds clock n ps t).1
unfolding send_queue
send_queue-IsCounted limit excess timeout worlds clock n [] t h e c = c
send_queue-IsCounted limit excess timeout worlds clock n (p ∷ ps) t h e c =
    let t' = after_transmit (worlds n) p ps t in
    let c' = pop-IsCounted limit excess (worlds n) p ps t h e c in
    elim (Bool-cases (times_out timeout (clock n) t')) [
      | inl stop ↦ rw stop c'
      | inr go ↦
          rw go (send_queue-IsCounted limit excess timeout worlds clock (suc n) ps t' h refl c')
    ]

module _ (limit excess timeout : ℕ) (worlds : ℕ → World) (h : limit < word_mod) where
  send-IsCounted :
      (clock : ℕ → ℕ) (t : Transport)
      → IsCounted limit excess t
      → IsCounted limit excess (send timeout worlds clock t).1
  unfolding send
  send-IsCounted clock t c =
      send_queue-IsCounted limit excess timeout worlds clock 0 t.payloads_to_send t h refl c

  wake-IsCounted :
      (clock : ℕ → ℕ) (t : Transport)
      → IsCounted limit excess t
      → IsCounted limit excess (joined (wake timeout worlds clock t) t).1
  unfolding wake
  wake-IsCounted clock t c = elim (Bool-cases (not (has_payloads t || not t.working))) [
    | inl idle ↦ rw (wake, idle) c
    | inr woken ↦ elim (Bool-cases (not t.working && not t.force_flush_on_destruction)) [
      | inl left ↦ rw (wake, woken, left) c
      | inr stays ↦ rw (wake, woken, stays) (send-IsCounted clock t c)
    ]
  ]

  join_thread-IsCounted :
      (transmitting : Bool) (clock : ℕ → ℕ) (t : Transport)
      → IsCounted limit excess t
      → IsCounted limit excess (join_thread transmitting timeout worlds clock t).1
  unfolding join_thread
  join_thread-IsCounted false clock t c = wake-IsCounted clock t c
  join_thread-IsCounted true clock t c = elim (Bool-cases (times_out timeout (clock 0) t)) [
    | inl stop ↦ rw stop c
    | inr go ↦ rw go (send-IsCounted (λ n. clock (suc n)) t c)
  ]

  pub prefork-IsCounted :
      (transmitting : Bool) (clock : ℕ → ℕ) (t : Transport)
      → IsCounted limit excess t
      → IsCounted limit excess (prefork transmitting timeout worlds clock t).1
  unfolding shutdown_thread
  prefork-IsCounted transmitting clock t c =
      let stopped = record t { working = false } in
      let before : IsCounted limit excess stopped = record {
        counted = c.counted;
        bounded = c.bounded;
      } in
      let after = join_thread-IsCounted transmitting clock stopped before in
      joined_counts t.thread (join_thread transmitting timeout worlds clock stopped) stopped after
        before
    where
      joined_counts :
          (thread : Bool) (r : List Effect × Transport) (stopped : Transport)
          → IsCounted limit excess r.1
          → IsCounted limit excess stopped
          → IsCounted limit excess (after_join thread r stopped).1
      joined_counts true r stopped after before = record {
        counted = after.counted;
        bounded = after.bounded;
      }
      joined_counts false r stopped after before = before
