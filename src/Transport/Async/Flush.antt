-- ===== src/Transport/Async/Flush.antt =====
-- What the sender thread does with the queue when it is woken, and at the destructor.
use opentelemetry_php_distro.Prelude.{
  ℕ, suc, ◌+◌, ◌-◌, ◌≤◌, ◌≡◌, refl, ap, ◌∙◌, true, false, List, [], ◌∷◌, ◌++◌, length, ◌⊎◌, inl,
  inr, arith, Bool, Bool-cases, if◌then◌else◌, append-nil, take, drop, take_all, drop_all,
}
use opentelemetry_php_distro.Transport.Endpoints.{Endpoints}
use opentelemetry_php_distro.Transport.Async.{
  Payload, Transport, World, Effect, transmit, times_out, after_transmit, send_queue, send, wake,
  leaves, sends, shutdown_thread, join_thread, joined, after_join, prefork, postfork,
  begin_destruction,
}
use opentelemetry_php_distro.Transport.Async.Usage.{child_queue}

-- The effects of sending the first payloads of a queue, one after the other.
abbrev pub all_effects : (ℕ → World) → ℕ → List Payload → Endpoints → List Effect
all_effects worlds n [] es = []
all_effects worlds n (p ∷ ps) es =
    (transmit (worlds n) p es).0 ++ all_effects worlds (suc n) ps (transmit (worlds n) p es).1

-- `send` in terms of the queue: k payloads are sent in order, the others stay, and some stay only
-- when the destructor's timeout has passed after the k-th.
pub send_queue_prefix :
    (timeout : ℕ) (worlds : ℕ → World) (clock : ℕ → ℕ) (n : ℕ) (ps : List Payload) (t : Transport)
    → t.payloads_to_send ≡ ps
    → let r = send_queue timeout worlds clock n ps t in
      (k : ℕ) × (r.0 ≡ all_effects worlds n (take k ps) t.endpoints)
      × (r.1.payloads_to_send ≡ drop k ps)
      × ((k ≡ length ps)
          ⊎ ((1 ≤ k)
              × (t.force_flush_on_destruction ≡ true)
              × (1 ≤ timeout)
              × (timeout ≤ clock (n + k - 1) - t.shutdown_start)))
unfolding send_queue
send_queue_prefix timeout worlds clock n [] t e = (0, refl, e, inl refl)
send_queue_prefix timeout worlds clock n (p ∷ ps) t e =
    let t' = after_transmit (worlds n) p ps t in
    elim (Bool-cases (times_out timeout (clock n) t')) [
      | inl stop ↦ (
        1,
        rw (stop, append-nil),
        rw stop refl,
        let z : n + 1 - 1 ≡ n = omega arith in
            inr (omega arith, ground arith, ground arith, rw z (ground arith)),
      )
      | inr go ↦
          let (k, fx, q, r) = send_queue_prefix timeout worlds clock (suc n) ps t' refl in
          (suc k, rw (go, fx) refl, rw (go, q) refl, later k r)
    ]
  where
    later :
        (k : ℕ)
        → (k ≡ length ps)
          ⊎ ((1 ≤ k)
              × (t.force_flush_on_destruction ≡ true)
              × (1 ≤ timeout)
              × (timeout ≤ clock (suc n + k - 1) - t.shutdown_start))
        → (suc k ≡ suc (length ps))
          ⊎ ((1 ≤ suc k)
              × (t.force_flush_on_destruction ≡ true)
              × (1 ≤ timeout)
              × (timeout ≤ clock (n + suc k - 1) - t.shutdown_start))
    later k (inl e) = inl (omega arith)
    later k (inr (a, f, b, c)) =
        let z : n + suc k - 1 ≡ suc n + k - 1 = omega arith in inr (omega arith, f, b, rw z c)

take_whole : (ps : List Payload) → take (length ps) ps ≡ ps
take_whole ps = take_all (length ps) ps (omega arith)

drop_whole : (ps : List Payload) → drop (length ps) ps ≡ []
drop_whole ps = drop_all (length ps) ps (omega arith)

-- With no timeout configured, `send` sends the whole queue, in order, and leaves it empty.
send_whole :
    (worlds : ℕ → World) (clock : ℕ → ℕ) (t : Transport)
    → ((send 0 worlds clock t).0 ≡ all_effects worlds 0 t.payloads_to_send t.endpoints)
      × ((send 0 worlds clock t).1.payloads_to_send ≡ [])
unfolding send
send_whole worlds clock t =
    let ps = t.payloads_to_send in
    let (k, fx, q, r) = send_queue_prefix 0 worlds clock 0 ps t refl in
    let e : k ≡ length ps = omega arith in
    (
      fx ∙ ap (λ (x : List Payload). all_effects worlds 0 x t.endpoints) (rw e (take_whole ps)),
      q ∙ rw e (drop_whole ps),
    )

-- With no timeout configured, the destructor makes a waiting sender thread send all that is queued,
-- in order, and leaves the queue empty.
pub destruction_flushes :
    (worlds : ℕ → World) (clock : ℕ → ℕ) (now : ℕ) (t : Transport)
    → (t' : Transport) × (wake 0 worlds clock (begin_destruction now t)
        ≡ sends (all_effects worlds 0 t.payloads_to_send t.endpoints) t')
      × (t'.payloads_to_send ≡ [])
unfolding wake begin_destruction
destruction_flushes worlds clock now t =
    let d = begin_destruction now t in
    let w = send_whole worlds clock d in ((send 0 worlds clock d).1, (ground (arith, w.0)), w.1)

-- Without a forced flush, `send` sends the whole queue, whatever the timeout.
send_unforced :
    (timeout : ℕ) (worlds : ℕ → World) (clock : ℕ → ℕ) (t : Transport)
    → t.force_flush_on_destruction ≡ false
    → ((send timeout worlds clock t).0 ≡ all_effects worlds 0 t.payloads_to_send t.endpoints)
      × ((send timeout worlds clock t).1.payloads_to_send ≡ [])
unfolding send
send_unforced timeout worlds clock t f =
    let ps = t.payloads_to_send in
    let (k, fx, q, r) = send_queue_prefix timeout worlds clock 0 ps t refl in
    let e : k ≡ length ps = ground arith in
    (
      fx ∙ ap (λ (x : List Payload). all_effects worlds 0 x t.endpoints) (rw e (take_whole ps)),
      q ∙ rw e (drop_whole ps),
    )

after_join_idle :
    (thread : Bool) (r : List Effect × Transport) (stopped : Transport)
    → r ≡ ([], stopped)
    → ((after_join thread r stopped).0 ≡ [])
      × ((after_join thread r stopped).1.payloads_to_send ≡ stopped.payloads_to_send)
after_join_idle true r stopped e = (ap (λ x. x.0) e, ap (λ x. x.1.payloads_to_send) e)
after_join_idle false r stopped e = (refl, refl)

after_join_thread :
    (thread : Bool) (r : List Effect × Transport) (stopped : Transport)
    → thread ≡ true
    → ((after_join thread r stopped).0 ≡ r.0)
      × ((after_join thread r stopped).1.payloads_to_send ≡ r.1.payloads_to_send)
after_join_thread true r stopped e = (refl, refl)
after_join_thread false r stopped e = absurd (cc)

-- The thread that prefork joins, and what it leaves of the queue.
prefork_waiting :
    (timeout : ℕ) (worlds : ℕ → World) (clock : ℕ → ℕ) (t : Transport)
    → t.force_flush_on_destruction ≡ false
    → (let r = prefork false timeout worlds clock t in
        (r.0 ≡ []) × (r.1.payloads_to_send ≡ t.payloads_to_send))
unfolding shutdown_thread join_thread wake
prefork_waiting timeout worlds clock t f =
    let stopped = record t { working = false } in
    let left : wake timeout worlds clock stopped ≡ leaves = ground arith in
    after_join_idle t.thread (join_thread false timeout worlds clock stopped) stopped
      (ap (λ w. joined w stopped) left)

prefork_transmitting :
    (timeout : ℕ) (worlds : ℕ → World) (clock : ℕ → ℕ) (t : Transport)
    → t.force_flush_on_destruction ≡ false
    → t.thread ≡ true
    → (let r = prefork true timeout worlds clock t in
        (r.0 ≡ all_effects worlds 0 t.payloads_to_send t.endpoints) × (r.1.payloads_to_send ≡ []))
unfolding shutdown_thread join_thread
prefork_transmitting timeout worlds clock t f thread =
    let stopped = record t { working = false } in
    let goes_on : times_out timeout (clock 0) stopped ≡ false = ground arith in
    let sent = send timeout worlds (λ n. clock (suc n)) stopped in
    let r = join_thread true timeout worlds clock stopped in
    let same : r ≡ sent = rw (join_thread, goes_on) refl in
    let whole = send_unforced timeout worlds (λ n. clock (suc n)) stopped f in
    let left = after_join_thread t.thread r stopped thread in
    (
      left.0 ∙ (ap (λ x. x.0) same ∙ whole.0),
      left.1 ∙ (ap (λ x. x.1.payloads_to_send) same ∙ whole.1),
    )

-- If no flush is forced: before a fork, a waiting sender thread leaves without sending, and the queue
-- stays; a thread that is transmitting first sends all that is queued, in order, and nothing stays.
-- After the fork the parent has what stayed, and the child an empty queue, so that no payload is
-- lost or sent twice; both work again and have a thread.
pub fork_keeps_queue :
    (timeout : ℕ) (worlds : ℕ → World) (clock : ℕ → ℕ) (t : Transport)
    → t.force_flush_on_destruction ≡ false
    → t.thread ≡ true
    → (let idle = prefork false timeout worlds clock t in
        let busy = prefork true timeout worlds clock t in
        (idle.0 ≡ [])
        × ((postfork false idle.1).payloads_to_send ≡ t.payloads_to_send)
        × (busy.0 ≡ all_effects worlds 0 t.payloads_to_send t.endpoints)
        × ((postfork false busy.1).payloads_to_send ≡ [])
        × ((child transmitting : Bool)
            → let after = postfork child (prefork transmitting timeout worlds clock t).1 in
              ((if child then after.payloads_to_send else []) ≡ [])
              × (after.working ≡ true)
              × (after.thread ≡ true)))
unfolding postfork
fork_keeps_queue timeout worlds clock t f thread =
    let idle = prefork_waiting timeout worlds clock t f in
    let busy = prefork_transmitting timeout worlds clock t f thread in
    (idle.0, idle.1, busy.0, busy.1, forked)
  where
    forked :
        (child transmitting : Bool)
        → let after = postfork child (prefork transmitting timeout worlds clock t).1 in
          ((if child then after.payloads_to_send else []) ≡ [])
          × (after.working ≡ true)
          × (after.thread ≡ true)
    forked false transmitting = (refl, refl, refl)
    forked true transmitting =
        let at_fork = (prefork transmitting timeout worlds clock t).1 in
        (child_queue at_fork at_fork.payloads_to_send refl, refl, refl)
