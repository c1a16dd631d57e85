-- ===== src/Instrumentation/Observers/Registration/Laws.antt =====
-- Which functions are observed, in terms of the hooks that there were before.
use opentelemetry_php_distro.Prelude.{
  ℕ, ◌≡◌, refl, ap, sym, ◌∙◌, false, ◌||◌, List, [], ◌∷◌, ◌++◌, Option, none, some, ◌==◌, codes,
  lookup, assign, nat_eq, inl, inr, lookup-assign, beq_refl, append-nil, append_assoc, Option-cases,
  Bool-cases, if◌then◌else◌,
}
use opentelemetry_php_distro.Instrumentation.Storages.{
  Callbacks, store_hooks, store_front, found_or_empty,
}
use opentelemetry_php_distro.Instrumentation.Observers.Registration.{
  Candidate, Settings, Registry, store_all, find_in_interfaces, find_callbacks, debug_applies,
  debug_hook, add_debug_hook, add_attribute, any_pre, any_post, register_observer_handlers,
}

store_all-found :
    (hash : ℕ) (callbacks : Callbacks) (hooks : List (ℕ × Callbacks))
    → found_or_empty (lookup hash (store_all hash callbacks hooks))
      ≡ found_or_empty (lookup hash hooks) ++ callbacks
unfolding store_all store_hooks
store_all-found hash [] hooks = sym (append-nil (found_or_empty (lookup hash hooks)))
store_all-found hash ((pre, post) ∷ callbacks) hooks =
    let old = found_or_empty (lookup hash hooks) in
    let new : Callbacks = old ++ ((pre, post) ∷ []) in
    let stored : lookup hash (assign hash new hooks) ≡ some new =
      rw (lookup-assign hash hash new hooks, beq_refl hash) in
    store_all-found hash callbacks (assign hash new hooks)
    ∙ (ap (λ o. found_or_empty o ++ callbacks) stored
        ∙ append_assoc old ((pre, post) ∷ []) callbacks)

find_in_interfaces-found :
    (hash : ℕ) (interfaces : List ℕ) (hooks : List (ℕ × Callbacks))
    → lookup hash hooks ≡ none
    → found_or_empty (lookup hash (find_in_interfaces hash interfaces hooks).1)
      ≡ found_or_empty (find_in_interfaces hash interfaces hooks).0
unfolding find_in_interfaces
find_in_interfaces-found hash [] hooks h = rw h
find_in_interfaces-found hash (i ∷ interfaces) hooks h = elim (Option-cases (lookup i hooks)) [
  | inl missing ↦
      rw (find_in_interfaces, missing) (find_in_interfaces-found hash interfaces hooks h)
  | inr (callbacks, present) ↦
      rw (find_in_interfaces, present) (store_all-found hash callbacks hooks ∙ rw h)
]

find_callbacks-found :
    (c : Candidate) (hooks : List (ℕ × Callbacks))
    → found_or_empty (lookup c.hash (find_callbacks c hooks).1)
      ≡ found_or_empty (find_callbacks c hooks).0
unfolding find_callbacks
find_callbacks-found c hooks = elim (Option-cases (lookup c.hash hooks)) [
  | inl missing ↦
      rw (find_callbacks, missing)
        (find_in_interfaces-found c.hash c.interface_hashes hooks missing)
  | inr (callbacks, present) ↦ rw (find_callbacks, present, present)
]

add_debug_hook-found :
    (set : Settings) (c : Candidate) (found : Option Callbacks × List (ℕ × Callbacks))
    → found_or_empty (lookup c.hash found.1) ≡ found_or_empty found.0
    → found_or_empty (lookup c.hash (add_debug_hook set c found).1)
      ≡ found_or_empty (add_debug_hook set c found).0
unfolding add_debug_hook
add_debug_hook-found set c found h = elim (Bool-cases (debug_applies set c)) [
  | inl debug ↦ rw (add_debug_hook, debug)
  | inr plain ↦ rw (add_debug_hook, plain) h
]

-- The hooks of the first interface that has some.
abbrev pub inherited : List ℕ → List (ℕ × Callbacks) → Callbacks
inherited [] hooks = []
inherited (i ∷ interfaces) hooks = elim (lookup i hooks) [
  | some callbacks ↦ callbacks
  | none ↦ inherited interfaces hooks
]

-- The hooks of a function before: its own, or else those of an interface.
abbrev pub hooks_for : Candidate → List (ℕ × Callbacks) → Callbacks
hooks_for c hooks = elim (lookup c.hash hooks) [
  | some callbacks ↦ callbacks
  | none ↦ inherited c.interface_hashes hooks
]

-- In front of them the hooks of the debug mode, where it applies.
abbrev pub all_hooks : Settings → Candidate → List (ℕ × Callbacks) → Callbacks
all_hooks set c hooks =
    if debug_applies set c
    then (debug_hook set (codes "debugPreHook"), debug_hook set (codes "debugPostHook"))
      ∷ hooks_for c hooks
    else hooks_for c hooks

find_in_interfaces-inherited :
    (hash : ℕ) (interfaces : List ℕ) (hooks : List (ℕ × Callbacks))
    → found_or_empty (find_in_interfaces hash interfaces hooks).0 ≡ inherited interfaces hooks
unfolding find_in_interfaces
find_in_interfaces-inherited hash [] hooks = refl
find_in_interfaces-inherited hash (i ∷ interfaces) hooks = elim (Option-cases (lookup i hooks)) [
  | inl missing ↦
      rw (find_in_interfaces, inherited, missing)
        (find_in_interfaces-inherited hash interfaces hooks)
  | inr (callbacks, present) ↦ rw (find_in_interfaces, inherited, present)
]

find_callbacks-hooks_for :
    (c : Candidate) (hooks : List (ℕ × Callbacks))
    → found_or_empty (find_callbacks c hooks).0 ≡ hooks_for c hooks
unfolding find_callbacks
find_callbacks-hooks_for c hooks = elim (Option-cases (lookup c.hash hooks)) [
  | inl missing ↦
      rw (find_callbacks, hooks_for, missing)
        (find_in_interfaces-inherited c.hash c.interface_hashes hooks)
  | inr (callbacks, present) ↦ rw (find_callbacks, hooks_for, present)
]

add_debug_hook-all_hooks :
    (set : Settings) (c : Candidate) (hooks : List (ℕ × Callbacks))
    → found_or_empty (add_debug_hook set c (find_callbacks c hooks)).0 ≡ all_hooks set c hooks
unfolding add_debug_hook store_front
add_debug_hook-all_hooks set c hooks =
    let before = find_callbacks-found c hooks ∙ find_callbacks-hooks_for c hooks in
    let stored = (find_callbacks c hooks).1 in
    let pre = debug_hook set (codes "debugPreHook") in
    let post = debug_hook set (codes "debugPostHook") in
    let new : Callbacks = (pre, post) ∷ found_or_empty (lookup c.hash stored) in
    elim (Bool-cases (debug_applies set c)) [
      | inl debug ↦
          rw (add_debug_hook, debug, lookup-assign c.hash c.hash new stored, beq_refl c.hash)
            (ap (◌∷◌ (pre, post)) before)
      | inr plain ↦ rw (add_debug_hook, plain) (find_callbacks-hooks_for c hooks)
    ]

-- A user function with a hash is observed at its begin exactly if it is registered with an attribute
-- or has a hook on entry that is not null, and at its end alike, for the hooks on exit. Its hooks
-- are those that were stored for it, or, if there were none, those of the first interface that had
-- some; where the debug mode applies, its hook stands in front of them. These are what the storage
-- has for the function afterwards. Nothing is registered or stored for any other function.
pub register_observer_handlers_lem :
    (set : Settings) (c : Candidate) (r : Registry)
    → (let result = register_observer_handlers set c r in
        let callbacks = all_hooks set c r.hooks in
        let attribute = (add_attribute set c r.metadata).0 in
        let passed_over = c.is_internal || c.hash == 0 in
        (result.0.begins ≡ (if passed_over then false else attribute || any_pre callbacks))
        × (result.0.ends ≡ (if passed_over then false else attribute || any_post callbacks))
        × ((if passed_over then callbacks else found_or_empty (lookup c.hash result.1.hooks))
            ≡ callbacks)
        × ((if passed_over then r else result.1) ≡ result.1))
unfolding register_observer_handlers
register_observer_handlers_lem set c r =
    let same =
      add_debug_hook-found set c (find_callbacks c r.hooks) (find_callbacks-found c r.hooks) in
    let expected = add_debug_hook-all_hooks set c r.hooks in
    elim (Bool-cases (c.is_internal || c.hash == 0)) [
      | inl passed_over ↦ rw passed_over (refl, refl, refl, refl)
      | inr observed ↦ rw (observed, same, expected) (refl, refl, refl, refl)
    ]
