-- ===== src/Coordinator/Chunks/Cleanup.antt =====
-- What every operation keeps of the processor's maps, and what cleanupAbandonedMessages drops.
use opentelemetry_php_distro.Prelude.{
  ℕ, ◌≡◌, refl, false, List, [], ◌∷◌, Option, none, some, ◌==◌, arith, if◌then◌else◌, lookup,
  nat_eq, Distinct, AllValues,
}
use opentelemetry_php_distro.Coordinator.Chunks.{
  ChunkedMessage, Processor, is_abandoned, cleanup_sender, keep_sender, cleanup_senders,
  cleanup_abandoned_messages, messages_for,
}
use opentelemetry_php_distro.Coordinator.Chunks.Assembly.{entry, Messages}
use opentelemetry_php_distro.Coordinator.Chunks.Invariant.{FitsMessage, IsSender, IsProcessor}

-- The lookup in a filtered map of distinct keys.
cleanup-lookup-none :
    (now max_age id : ℕ) (ms : Messages)
    → lookup id ms ≡ none
    → lookup id (cleanup_sender now max_age ms) ≡ none
unfolding cleanup_sender
cleanup-lookup-none now max_age id [] h = refl
cleanup-lookup-none now max_age id ((j, m) ∷ ms) h =
    ground (arith, cleanup-lookup-none now max_age id ms)

abbrev pub unless_abandoned : ℕ → ℕ → Option ChunkedMessage → Option ChunkedMessage
unless_abandoned now max_age none = none
unless_abandoned now max_age (some m) = if is_abandoned now max_age m then none else some m

cleanup-lookup :
    (now max_age id : ℕ) (ms : Messages)
    → Distinct ms
    → lookup id (cleanup_sender now max_age ms) ≡ unless_abandoned now max_age (lookup id ms)
unfolding cleanup_sender
cleanup-lookup now max_age id [] d = refl
cleanup-lookup now max_age id ((j, m) ∷ ms) d =
    ground (arith, cleanup-lookup now max_age id ms d.1, cleanup-lookup-none now max_age id ms)

messages_for-keep :
    (pid j : ℕ) (ms : Messages) (r : List (ℕ × Messages))
    → lookup j r ≡ none
    → messages_for pid (keep_sender j ms r) ≡ (if j == pid then ms else messages_for pid r)
messages_for-keep pid j [] r h = ground arith
messages_for-keep pid j (x ∷ ms) r h = ground arith

lookup-keep :
    (pid j : ℕ) (ms : Messages) (r : List (ℕ × Messages))
    → (j == pid) ≡ false
    → lookup pid (keep_sender j ms r) ≡ lookup pid r
lookup-keep pid j [] r h = refl
lookup-keep pid j (x ∷ ms) r h = rw h

senders-lookup-none :
    (now max_age pid : ℕ) (r : List (ℕ × Messages))
    → lookup pid r ≡ none
    → lookup pid (cleanup_senders now max_age r) ≡ none
unfolding cleanup_senders
senders-lookup-none now max_age pid [] h = refl
senders-lookup-none now max_age pid ((j, ms) ∷ r) h = ground (
  arith,
  senders-lookup-none now max_age pid r,
  lookup-keep pid j (cleanup_sender now max_age ms) (cleanup_senders now max_age r),
)

senders-lookup :
    (now max_age pid id : ℕ) (r : List (ℕ × Messages))
    → Distinct r
    → AllValues IsSender r
    → lookup id (messages_for pid (cleanup_senders now max_age r))
      ≡ unless_abandoned now max_age (lookup id (messages_for pid r))
unfolding cleanup_senders
senders-lookup now max_age pid id [] d a = refl
senders-lookup now max_age pid id ((j, ms) ∷ r) d a =
    let k =
      messages_for-keep pid j (cleanup_sender now max_age ms) (cleanup_senders now max_age r)
        (senders-lookup-none now max_age j r d.0) in
    ground (
      arith,
      k,
      cleanup-lookup now max_age id ms a.0.1,
      senders-lookup now max_age pid id r d.1 a.1,
    )

-- The cleanup drops exactly the messages that no chunk has reached for longer than the age.
pub cleanup-entry :
    (now max_age : ℕ) (p : Processor) (pid id : ℕ)
    → IsProcessor p
    → entry (cleanup_abandoned_messages now max_age p) pid id
      ≡ unless_abandoned now max_age (entry p pid id)
unfolding cleanup_abandoned_messages
cleanup-entry now max_age p pid id v =
    senders-lookup now max_age pid id p.received v.senders v.messages

-- What the cleanup keeps of the maps.
cleanup-Distinct :
    (now max_age : ℕ) (ms : Messages) → Distinct ms → Distinct (cleanup_sender now max_age ms)
unfolding cleanup_sender
cleanup-Distinct now max_age [] d = tt
cleanup-Distinct now max_age ((j, m) ∷ ms) d =
    ground (arith, cleanup-lookup-none now max_age j ms, cleanup-Distinct now max_age ms d.1)

cleanup-AllValues :
    (P : ChunkedMessage → Type 0) (now max_age : ℕ) (ms : Messages)
    → AllValues P ms
    → AllValues P (cleanup_sender now max_age ms)
unfolding cleanup_sender
cleanup-AllValues P now max_age [] a = tt
cleanup-AllValues P now max_age ((j, m) ∷ ms) a =
    ground (arith, cleanup-AllValues P now max_age ms a.1)

keep-Distinct :
    (j : ℕ) (ms : Messages) (r : List (ℕ × Messages))
    → lookup j r ≡ none
    → Distinct r
    → Distinct (keep_sender j ms r)
keep-Distinct j [] r h d = d
keep-Distinct j (x ∷ ms) r h d = (h, d)

keep-AllValues :
    (j : ℕ) (ms : Messages) (r : List (ℕ × Messages))
    → Distinct ms
    → AllValues FitsMessage ms
    → AllValues IsSender r
    → AllValues IsSender (keep_sender j ms r)
keep-AllValues j [] r d f a = a
keep-AllValues j (x ∷ ms) r d f a = (((λ e. cc), d, f), a)

senders-Distinct :
    (now max_age : ℕ) (r : List (ℕ × Messages))
    → Distinct r
    → Distinct (cleanup_senders now max_age r)
unfolding cleanup_senders
senders-Distinct now max_age [] d = tt
senders-Distinct now max_age ((j, ms) ∷ r) d =
    keep-Distinct j (cleanup_sender now max_age ms) (cleanup_senders now max_age r)
      (senders-lookup-none now max_age j r d.0) (senders-Distinct now max_age r d.1)

senders-AllValues :
    (now max_age : ℕ) (r : List (ℕ × Messages))
    → AllValues IsSender r
    → AllValues IsSender (cleanup_senders now max_age r)
unfolding cleanup_senders
senders-AllValues now max_age [] a = tt
senders-AllValues now max_age ((j, ms) ∷ r) a =
    keep-AllValues j (cleanup_sender now max_age ms) (cleanup_senders now max_age r)
      (cleanup-Distinct now max_age ms a.0.1) (cleanup-AllValues FitsMessage now max_age ms a.0.2)
      (senders-AllValues now max_age r a.1)

-- The cleanup keeps the invariant; in particular it leaves no sender without messages.
pub cleanup-IsProcessor :
    (now max_age : ℕ) (p : Processor)
    → IsProcessor p
    → IsProcessor (cleanup_abandoned_messages now max_age p)
unfolding cleanup_abandoned_messages
cleanup-IsProcessor now max_age p v = record {
  senders = senders-Distinct now max_age p.received v.senders;
  messages = senders-AllValues now max_age p.received v.messages;
}
