-- ===== src/Request/InferredSpans.antt =====
-- InferredSpans of prod/native/libcommon/code/InferredSpans.h: the timer thread asks for an
-- interrupt, the PHP thread answers it by attaching a backtrace. The PHP thread's call is two steps,
-- because the attachment runs PHP code between them, in which the same function can be called again.
use opentelemetry_php_distro.Prelude.{
  ℕ, suc, ◌+◌, ◌≡◌, Bool, true, false, List, [], ◌∷◌, ltb, arith, if◌then◌else◌,
}

pub record InferredSpans : Type 0 where
  pub interrupted_requested : Bool
  pub sampling_interval : ℕ
  pub last_interrupt_request_tick : ℕ
  pub php_side_backtrace_pending : Bool

-- tryRequestInterrupt: whether the interrupt is set, and the new state.
unfoldable pub try_request_interrupt : ℕ → InferredSpans → Bool × InferredSpans
try_request_interrupt now s =
    if s.interrupted_requested
    then (false, s)
    else if ltb (s.last_interrupt_request_tick + s.sampling_interval) now
    then (true, record s { last_interrupt_request_tick = now; interrupted_requested = true })
    else (false, s)

-- attachBacktraceIfInterrupted up to the attachment: whether it attaches, the time of the request.
unfoldable pub begin_attach : InferredSpans → Bool × ℕ × InferredSpans
begin_attach s =
    if s.php_side_backtrace_pending
    then (false, s.last_interrupt_request_tick, s)
    else if s.interrupted_requested
    then (
      true,
      s.last_interrupt_request_tick,
      record s { interrupted_requested = false; php_side_backtrace_pending = true },
    )
    else (false, s.last_interrupt_request_tick, s)

abbrev pub end_attach : InferredSpans → InferredSpans
end_attach s = record s { php_side_backtrace_pending = false }

abbrev pub set_interval : ℕ → InferredSpans → InferredSpans
set_interval interval s = record s { sampling_interval = interval }

abbrev pub reset : ℕ → InferredSpans → InferredSpans
reset now s = record s { last_interrupt_request_tick = now }

-- The steps of the threads. The counts are of interrupts requested, of backtraces begun, and of
-- backtraces ended.
pub data Event : Type 0 where
  timer : ℕ → Event
  php_call php_return : Event
  new_request : ℕ → ℕ → Event

pub record Run : Type 0 where
  pub spans : InferredSpans
  pub requested : ℕ
  pub begun : ℕ
  pub ended : ℕ

abbrev one : Bool → ℕ
one true = 1
one false = 0

-- A return happens only where an attachment runs.
unfoldable pub run_event : Event → Run → Run
run_event (timer now) r =
    let (set, s) = try_request_interrupt now r.spans in
    record r { spans = s; requested = one set + r.requested }
run_event php_call r =
    let (attached, tick, s) = begin_attach r.spans in
    record r { spans = s; begun = one attached + r.begun }
run_event php_return r =
    if ltb r.ended r.begun then record r { spans = end_attach r.spans; ended = suc r.ended } else r
run_event (new_request interval now) r = record r {
  spans = reset now (set_interval interval r.spans);
}

unfoldable pub run_events : List Event → Run → Run
run_events [] r = r
run_events (e ∷ es) r = run_events es (run_event e r)

-- Every interrupt is answered by one backtrace or still asked for, and no two backtraces run at a
-- time.
pub record IsAnswered (r : Run) : Type 0 where
  pub answered : r.requested ≡ r.begun + one r.spans.interrupted_requested
  pub single : r.begun ≡ r.ended + one r.spans.php_side_backtrace_pending

event-IsAnswered : (e : Event) (r : Run) → IsAnswered r → IsAnswered (run_event e r)
unfolding run_event try_request_interrupt begin_attach
event-IsAnswered (timer now) r a = record {
  answered = ground (arith, a);
  single = ground (arith, a);
}
event-IsAnswered php_call r a = record { answered = ground (arith, a); single = ground (arith, a) }
event-IsAnswered php_return r a = record {
  answered = ground (arith, a);
  single = ground (arith, a);
}
event-IsAnswered (new_request interval now) r a = record {
  answered = a.answered;
  single = a.single;
}

-- In every interleaving of the timer's requests, the calls and returns on the PHP thread and the
-- starts of requests: each interrupt is answered by exactly one backtrace or still asked for, and at
-- most one backtrace runs at a time.
pub run_events-IsAnswered :
    (es : List Event) (r : Run) → IsAnswered r → IsAnswered (run_events es r)
unfolding run_events
run_events-IsAnswered [] r a = a
run_events-IsAnswered (e ∷ es) r a =
    run_events-IsAnswered es (run_event e r) (event-IsAnswered e r a)
