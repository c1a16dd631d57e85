-- ===== src/Transport/Async/Usage.antt =====
-- The byte counter of the send queue, and the order of the queue.
use opentelemetry_php_distro.Prelude.{
  ℕ, ◌+◌, ◌<◌, ◌≡◌, refl, sym, ap, ◌∙◌, Bool, true, false, not, List, [], ◌∷◌, ◌++◌, none, some,
  ltb, append_assoc, append-nil, length, add_word, word_mod, arith, if◌then◌else◌,
}
use opentelemetry_php_distro.Transport.Async.{
  Payload, Transport, enqueue, pop, prefork, postfork, World, after_transmit,
}
use opentelemetry_php_distro.Transport.Async.Counter.{
  queue_bytes, IsCounted, enqueue-IsCounted, pop-IsCounted, prefork-IsCounted,
}

-- What other threads see between the operations: each takes the mutex for its step.
pub data Step (limit : ℕ) : Transport → Transport → Type 0 where
  enqueues :
      (p : Payload) (t : Transport)
      → length p.bytes + limit < word_mod
      → Step limit t (enqueue limit p t)
  sends :
      (w : World) (p : Payload) (ps : List Payload) (t : Transport)
      → t.payloads_to_send ≡ p ∷ ps
      → Step limit t (after_transmit w p ps t)
  forks :
      (transmitting : Bool) (timeout : ℕ) (worlds : ℕ → World) (clock : ℕ → ℕ) (t : Transport)
      → Step limit t (postfork false (prefork transmitting timeout worlds clock t).1)

pub data Steps (limit : ℕ) (t : Transport) : Transport → Type 0 where
  here : Steps limit t t
  next : {u v : Transport} → Steps limit t u → Step limit u v → Steps limit t v

Step-IsCounted :
    (limit excess : ℕ) {t u : Transport}
    → limit < word_mod
    → Step limit t u
    → IsCounted limit excess t
    → IsCounted limit excess u
unfolding postfork
Step-IsCounted limit excess h (enqueues p t k) c = enqueue-IsCounted limit excess p t k c
Step-IsCounted limit excess h (sends w p ps t e) c = pop-IsCounted limit excess w p ps t h e c
Step-IsCounted limit excess h (forks transmitting timeout worlds clock t) c =
    let d = prefork-IsCounted limit excess timeout worlds h transmitting clock t c in
    record { counted = d.counted; bounded = d.bounded }

-- In every interleaving of `enqueue`, of the sender thread's pops and of forks seen by the parent,
-- the byte counter stays the number of queued bytes plus what it was in excess at the start, and
-- within the limit, as long as no payload is so long that the sum wraps around.
pub Steps-IsCounted :
    (limit excess : ℕ) {t u : Transport}
    → limit < word_mod
    → Steps limit t u
    → IsCounted limit excess t
    → IsCounted limit excess u
Steps-IsCounted limit excess h here c = c
Steps-IsCounted limit excess h (next s st) c =
    Step-IsCounted limit excess h st (Steps-IsCounted limit excess h s c)

pub child_queue :
    (t : Transport) (ps : List Payload)
    → t.payloads_to_send ≡ ps
    → (postfork true t).payloads_to_send ≡ []
unfolding postfork
child_queue t [] e = ground arith
child_queue t (p ∷ ps) e = ground arith

-- A child of a fork empties the queue and keeps the counter: what was queued at the fork, after
-- prefork, counts as excess from then on.
pub child-IsCounted :
    (limit : ℕ) (t : Transport)
    → IsCounted limit 0 t
    → ((postfork true t).payloads_to_send ≡ [])
      × IsCounted limit (queue_bytes t.payloads_to_send) (postfork true t)
unfolding postfork
child-IsCounted limit t c =
    let q = child_queue t t.payloads_to_send refl in
    let none_left : queue_bytes (postfork true t).payloads_to_send ≡ 0 = ap queue_bytes q in
    (q, record { counted = omega arith; bounded = omega arith })

-- So in a child that was forked with bytes in the queue, as prefork leaves it, a payload that fits the
-- limit by itself is refused for good once it does not fit beside those bytes: in every later state
-- of the child, with the queue empty too.
pub child_drops :
    (limit : ℕ) (transmitting : Bool) (timeout : ℕ) (worlds : ℕ → World) (clock : ℕ → ℕ)
    (t : Transport) (p : Payload) {u : Transport}
    → limit < word_mod
    → length p.bytes + limit < word_mod
    → IsCounted limit 0 t
    → limit
      < queue_bytes (prefork transmitting timeout worlds clock t).1.payloads_to_send
        + length p.bytes
    → Steps limit (postfork true (prefork transmitting timeout worlds clock t).1) u
    → enqueue limit p u ≡ u
unfolding enqueue
child_drops limit transmitting timeout worlds clock t p {u} h k c l s =
    let forked = (prefork transmitting timeout worlds clock t).1 in
    let d = prefork-IsCounted limit 0 timeout worlds h transmitting clock t c in
    let cu =
      Steps-IsCounted limit (queue_bytes forked.payloads_to_send) h s
        (child-IsCounted limit forked d).1 in
    ground (arith, cu)

-- The payloads taken by an enqueue.
abbrev pub is_taken : ℕ → Payload → Transport → Bool
is_taken limit p t = not (ltb limit (add_word t.payloads_byte_usage (length p.bytes)))

-- A history of calls: an attempt to enqueue, or a pop by the sender thread.
pub data Call : Type 0 where
  enqueue_call : Payload → Call
  pop_call : Call

abbrev step_call : ℕ → Call → Transport → Transport
step_call limit (enqueue_call p) t = enqueue limit p t
step_call limit pop_call t = elim (pop t) [ none ↦ t | some (p, t') ↦ t' ]

abbrev pub run_calls : ℕ → List Call → Transport → Transport
run_calls limit [] t = t
run_calls limit (c ∷ cs) t = run_calls limit cs (step_call limit c t)

abbrev taken_by : ℕ → Call → Transport → List Payload
taken_by limit (enqueue_call p) t = if is_taken limit p t then p ∷ [] else []
taken_by limit pop_call t = []

abbrev popped_by : Call → Transport → List Payload
popped_by (enqueue_call p) t = []
popped_by pop_call t = elim (pop t) [ none ↦ [] | some (p, t') ↦ p ∷ [] ]

abbrev pub taken : ℕ → List Call → Transport → List Payload
taken limit [] t = []
taken limit (c ∷ cs) t = taken_by limit c t ++ taken limit cs (step_call limit c t)

abbrev pub popped : ℕ → List Call → Transport → List Payload
popped limit [] t = []
popped limit (c ∷ cs) t = popped_by c t ++ popped limit cs (step_call limit c t)

fifo_pop :
    (t : Transport) (ps : List Payload)
    → t.payloads_to_send ≡ ps
    → t.payloads_to_send ++ [] ≡ popped_by pop_call t ++ (step_call 0 pop_call t).payloads_to_send
unfolding pop
fifo_pop t [] e = ground (arith, append-nil t.payloads_to_send)
fifo_pop t (p ∷ ps) e = ground (arith, append-nil t.payloads_to_send)

step_fifo :
    (limit : ℕ) (c : Call) (t : Transport)
    → t.payloads_to_send ++ taken_by limit c t
      ≡ popped_by c t ++ (step_call limit c t).payloads_to_send
unfolding enqueue pop
step_fifo limit (enqueue_call p) t = ground (arith, append-nil t.payloads_to_send)
step_fifo limit pop_call t = fifo_pop t t.payloads_to_send refl

-- First in, first out: what was queued and what is taken is what is popped, in that order, and what
-- is left. Nothing is lost, repeated or overtaken.
pub run_calls_fifo :
    (limit : ℕ) (cs : List Call) (t : Transport)
    → t.payloads_to_send ++ taken limit cs t
      ≡ popped limit cs t ++ (run_calls limit cs t).payloads_to_send
run_calls_fifo limit [] t = append-nil t.payloads_to_send
run_calls_fifo limit (c ∷ cs) t =
    sym
      (append_assoc t.payloads_to_send (taken_by limit c t) (taken limit cs (step_call limit c t)))
    ∙ ap (λ (x : List Payload). x ++ taken limit cs (step_call limit c t)) (step_fifo limit c t)
    ∙ append_assoc (popped_by c t) (step_call limit c t).payloads_to_send
        (taken limit cs (step_call limit c t))
    ∙ ap (◌++◌ (popped_by c t)) (run_calls_fifo limit cs (step_call limit c t))
    ∙ sym (
        append_assoc (popped_by c t) (popped limit cs (step_call limit c t))
          (run_calls limit cs (step_call limit c t)).payloads_to_send)
