-- ===== src/Transport/Async/Retry.antt =====
-- How often a payload is sent, and when its callback is called.
use opentelemetry_php_distro.Prelude.{
  ℕ, zero, suc, ◌+◌, ◌<◌, ◌≡◌, refl, Bool, true, false, not, ◌&&◌, List, [], ◌∷◌, ◌++◌, ◌⊎◌, inl,
  inr, arith, Bool-cases, nat_eq, if◌then◌else◌,
}
use opentelemetry_php_distro.Transport.Endpoints.{Endpoints, ok, Connection, get_connection}
use opentelemetry_php_distro.Transport.Async.{
  Payload, World, Reply, curl_error, reply, Effect, posted, slept, is_success, is_permanent,
  send_rounds, transmit, handle_headers, answer,
}

-- A reply after which the loop goes on.
abbrev pub is_retried : Reply → Bool
is_retried curl_error = false
is_retried (reply code body headers) = not (is_success code) && not (is_permanent code)

-- The answer that a final reply gives the callback: none for a failed connection.
abbrev pub final_answer : Bool → Reply → List Effect
final_answer callback curl_error = []
final_answer callback (reply code body headers) = answer callback code body

-- k rounds that are retried, each followed by the delay.
abbrev pub retried_rounds : List ℕ → List ℕ → ℕ → ℕ → List Effect
retried_rounds url bytes delay zero = []
retried_rounds url bytes delay (suc k) =
    posted url bytes ∷ slept delay ∷ retried_rounds url bytes delay k

-- The two ways in which a payload's rounds can end after k retried replies.
abbrev pub Ends : World → Payload → List ℕ → ℕ → ℕ → ℕ → ℕ → List Effect → Type 0
Ends w p url delay left n k fx =
    ((k ≡ left) × (fx ≡ retried_rounds url p.bytes delay k))
    ⊎ ((k < left)
        × (is_retried (w.server (n + k)) ≡ false)
        × (fx
            ≡ retried_rounds url p.bytes delay k
              ++ posted url p.bytes ∷ final_answer p.has_callback (w.server (n + k))))

-- All replies before the k-th were retried.
abbrev pub AllRetried : World → ℕ → ℕ → Type 0
AllRetried w n zero = Unit {0}
AllRetried w n (suc k) = (is_retried (w.server n) ≡ true) × AllRetried w (suc n) k

round_final :
    (w : World) (p : Payload) (url : List ℕ) (delay left n : ℕ) (es : Endpoints) (r : Reply)
    → w.server n ≡ r
    → is_retried r ≡ false
    → (send_rounds w p url delay (suc left) n es).0
      ≡ posted url p.bytes ∷ final_answer p.has_callback r
unfolding send_rounds
round_final w p url delay left n es curl_error e f = rw (e, send_rounds)
round_final w p url delay left n es (reply code body headers) e f = ground (arith, e)

round_retried :
    (w : World) (p : Payload) (url : List ℕ) (delay left n : ℕ) (es : Endpoints) (r : Reply)
    → w.server n ≡ r
    → is_retried r ≡ true
    → (es' : Endpoints) × ((send_rounds w p url delay (suc left) n es).0
        ≡ posted url p.bytes ∷ slept delay ∷ (send_rounds w p url delay left (suc n) es').0)
unfolding send_rounds
round_retried w p url delay left n es curl_error e f = absurd (cc)
round_retried w p url delay left n es (reply code body headers) e f =
    (if p.has_callback then handle_headers w p.endpoint_hash headers es else es, ground (arith, e))

extend_Ends :
    (w : World) (p : Payload) (url : List ℕ) (delay left n k : ℕ) (fx fx' : List Effect)
    → fx ≡ posted url p.bytes ∷ slept delay ∷ fx'
    → Ends w p url delay left (suc n) k fx'
    → Ends w p url delay (suc left) n (suc k) fx
extend_Ends w p url delay left n k fx fx' e (inl (a, b)) = inl (omega arith, rw (e, b) refl)
extend_Ends w p url delay left n k fx fx' e (inr (a, f, b)) =
    let s : n + suc k ≡ suc n + k = omega arith in inr (omega arith, rw s f, rw (e, b, s) refl)

rounds_end :
    (w : World) (p : Payload) (url : List ℕ) (delay left n : ℕ) (es : Endpoints)
    → (k : ℕ) × AllRetried w n k
      × Ends w p url delay left n k (send_rounds w p url delay left n es).0
unfolding send_rounds
rounds_end w p url delay zero n es = (0, tt, inl (refl, refl))
rounds_end w p url delay (suc left) n es = elim (Bool-cases (is_retried (w.server n))) [
  | inr final ↦
      let z : n + 0 ≡ n = omega arith in
      (
        0,
        tt,
        inr (
          omega arith,
          rw z final,
          rw z (round_final w p url delay left n es (w.server n) refl final),
        ),
      )
  | inl again ↦
      let (es', e) = round_retried w p url delay left n es (w.server n) refl again in
      let (k, a, ends) = rounds_end w p url delay left (suc n) es' in
      (suc k, (again, a), extend_Ends w p url delay left n k _ _ e ends)
]

-- A payload whose endpoint is known is posted again after each reply that is neither a success nor a
-- permanent failure, with the delay read before the first round in between, until another reply or
-- a failed connection ends it, or the retries are used up, which are one at least. The callback is
-- called once, with the reply that ended it; not for a failed connection, and not when the retries
-- are used up.
pub transmit_retries :
    (w : World) (p : Payload) (es : Endpoints) (c : Connection)
    → get_connection p.endpoint_hash es ≡ ok c
    → (k : ℕ) × AllRetried w 0 k × Ends w p c.url c.delay c.retries 0 k (transmit w p es).0
unfolding transmit
transmit_retries w p es c h = rw (h, transmit) (rounds_end w p c.url c.delay c.retries 0 es)
