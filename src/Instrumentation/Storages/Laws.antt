-- ===== src/Instrumentation/Storages/Laws.antt =====
-- A history of instrumentFunction calls: the hooks that are kept, and the handlers.
use opentelemetry_php_distro.Prelude.{
  ℕ, ◌≡◌, refl, ap, sym, subst, ◌∙◌, Bool, true, false, List, [], ◌∷◌, ◌++◌, Option, none, some,
  ◌==◌, lookup, assign, nat_eq, lookup-assign, lookup-emplace, ==_iff, ◌⊎◌, inl, inr, arith,
  append-nil, append_assoc, if◌then◌else◌, Option-cases, Bool-cases,
}
use opentelemetry_php_distro.Otlp.Zval.{Zval}
use opentelemetry_php_distro.Instrumentation.Storages.{
  Callbacks, found_or_empty, store_hooks, Handler, internal_function_handler, native,
  store_original, Function, Storages, Tables, lowercase, patch, patch_found, instrument_function,
}

-- A call: class, function, hook on entry, hook on exit.
pub record Call : Type 0 where
  pub class_name : List ℕ
  pub function_name : List ℕ
  pub on_entry : Zval
  pub on_exit : Zval

unfoldable pub instrument_functions : Tables → List Call → Storages → Storages
unfolding instrument_function
instrument_functions t [] s = s
instrument_functions t (c ∷ calls) s =
    instrument_functions t calls
      (instrument_function t c.class_name c.function_name c.on_entry c.on_exit s)

-- The key under which a call stores its hooks.
abbrev pub key_for : Tables → Call → ℕ
key_for t c = t.hash (lowercase c.class_name) (lowercase c.function_name)

-- The hooks of the calls for one key, in their order.
unfoldable pub registered : Tables → ℕ → List Call → Callbacks
registered t key [] = []
registered t key (c ∷ calls) =
    let rest = registered t key calls in
    if key_for t c == key then (c.on_entry, c.on_exit) ∷ rest else rest

-- A function is as it was and no handler is kept for it, or it was an internal function, has the
-- handler of the extension, and the one that it had is kept.
abbrev pub IsKept : Option Function → Option Function → Option Handler → Type 0
IsKept before after kept =
    ((after ≡ before) × (kept ≡ none))
    ⊎ ((n : ℕ) × (before ≡ some (record { is_internal = true; handler = native n }))
        × (after ≡ some (record { is_internal = true; handler = internal_function_handler }))
        × (kept ≡ some (native n)))

patch-hooks :
    (key place : ℕ) (b : Bool) (h : Handler) (s : Storages)
    → (patch key place b h s).hooks ≡ s.hooks
unfolding patch
patch-hooks key place false h s = refl
patch-hooks key place true internal_function_handler s = refl
patch-hooks key place true (native n) s = refl

patch_found-hooks : (key : ℕ) (o : Option ℕ) (s : Storages) → (patch_found key o s).hooks ≡ s.hooks
unfolding patch_found
patch_found-hooks key none s = refl
patch_found-hooks key (some place) s = go (lookup place s.functions)
  where
    go :
        (o : Option Function)
        → (elim o as (λ _. Storages) [
          | none ↦ s
          | some func ↦ patch key place func.is_internal func.handler s
        ]).hooks
          ≡ s.hooks
    go none = refl
    go (some func) = patch-hooks key place func.is_internal func.handler s

absent_or_there :
    (h : Handler) (o : Option Handler) (same : Bool)
    → same ≡ false
    → elim o as (λ _. Option Handler) [ none ↦ if same then some h else none | some w ↦ some w ] ≡ o
absent_or_there h none same e = rw e
absent_or_there h (some w) same e = refl

module _ (t : Tables) (key_of : ℕ → ℕ) (key_of_inj : (p q : ℕ) → key_of p ≡ key_of q → p ≡ q)
    (one_key : (c f : List ℕ) (p : ℕ) → t.find c f ≡ some p → t.hash c f ≡ key_of p)
    (before : List (ℕ × Function)) where
  AreKept : Storages → Type 0
  AreKept s =
      (p : ℕ) → IsKept (lookup p before) (lookup p s.functions) (lookup (key_of p) s.originals)

  patch-AreKept :
      (place : ℕ) (b : Bool) (h : Handler) (s : Storages)
      → AreKept s
      → lookup place s.functions ≡ some (record { is_internal = b; handler = h })
      → AreKept (patch (key_of place) place b h s)
  unfolding patch AreKept store_original
  patch-AreKept place false h s k e = k
  patch-AreKept place true internal_function_handler s k e = k
  patch-AreKept place true (native n) s k e = λ p.
      let patched : Function = record { is_internal = true; handler = internal_function_handler } in
      let after = lookup-assign place p patched s.functions in
      let kept = lookup-emplace (key_of place) (key_of p) (native n) s.originals in
      elim (Bool-cases (place == p)) [
        | inl hit ↦
            let same : place ≡ p = (==_iff place p).0 hit in
            elim (k p) [
              | inl old ↦ inr (
                n,
                sym old.0 ∙ (ap (λ q. lookup q s.functions) (sym same) ∙ e),
                after ∙ rw hit,
                kept ∙ rw (old.1) (ground (arith, ==_iff (key_of place) (key_of p))),
              )
              | inr (m, b, instrumented, q) ↦ absurd (
                  let clash = sym instrumented ∙ (ap (λ q. lookup q s.functions) (sym same) ∙ e) in
                  cc)
            ]
        | inr miss ↦
            let other : (key_of place == key_of p) ≡ false =
              ground
                (arith, ==_iff (key_of place) (key_of p), key_of_inj place p, ==_iff place p) in
            let old = lookup (key_of p) s.originals in
            let unchanged : lookup (key_of p) (store_original (key_of place) (native n) s.originals)
                ≡ old =
              kept ∙ absent_or_there (native n) old (key_of place == key_of p) other in
            subst
              (λ o.
                IsKept (lookup p before) o
                  (lookup (key_of p) (store_original (key_of place) (native n) s.originals)))
              (sym (after ∙ rw miss))
              (subst (IsKept (lookup p before) (lookup p s.functions)) (sym unchanged) (k p))
      ]

  patch_found-AreKept :
      (key : ℕ) (o : Option ℕ) (s : Storages)
      → ((p : ℕ) → o ≡ some p → key ≡ key_of p)
      → AreKept s
      → AreKept (patch_found key o s)
  unfolding patch_found
  patch_found-AreKept key none s h k = k
  patch_found-AreKept key (some place) s h k = elim (Option-cases (lookup place s.functions)) [
    | inl missing ↦ rw (patch_found, missing) k
    | inr (func, there) ↦
        rw (patch_found, there, h place refl)
          (patch-AreKept place func.is_internal func.handler s k there)
  ]

  instrument_function-AreKept :
      (c f : List ℕ) (on_entry on_exit : Zval) (s : Storages)
      → AreKept s
      → AreKept (instrument_function t c f on_entry on_exit s)
  unfolding instrument_function AreKept
  instrument_function-AreKept c f on_entry on_exit s k =
      patch_found-AreKept (t.hash (lowercase c) (lowercase f)) (t.find (lowercase c) (lowercase f))
        (record s {
          hooks = store_hooks (t.hash (lowercase c) (lowercase f)) on_entry on_exit s.hooks;
        })
        (one_key (lowercase c) (lowercase f)) k

  instrument_functions-AreKept :
      (calls : List Call) (s : Storages) → AreKept s → AreKept (instrument_functions t calls s)
  unfolding instrument_functions
  instrument_functions-AreKept [] s k = k
  instrument_functions-AreKept (c ∷ calls) s k =
      instrument_functions-AreKept calls
        (instrument_function t c.class_name c.function_name c.on_entry c.on_exit s)
        (instrument_function-AreKept c.class_name c.function_name c.on_entry c.on_exit s k)

store_hooks-found :
    (k key : ℕ) (on_entry on_exit : Zval) (hooks : List (ℕ × Callbacks)) (rest : Callbacks)
    → found_or_empty (lookup key (store_hooks k on_entry on_exit hooks)) ++ rest
      ≡ found_or_empty (lookup key hooks) ++ (if k == key then (on_entry, on_exit) ∷ rest else rest)
unfolding store_hooks
store_hooks-found k key on_entry on_exit hooks rest =
    let old = found_or_empty (lookup k hooks) in
    let new : Callbacks = old ++ ((on_entry, on_exit) ∷ []) in
    let after = lookup-assign k key new hooks in
    elim (Bool-cases (k == key)) [
      | inl hit ↦
          let same : k ≡ key = (==_iff k key).0 hit in
          let stored : lookup key (assign k new hooks) ≡ some new = rw (after, hit) in
          ap (λ o. found_or_empty o ++ rest) stored
          ∙ (append_assoc old ((on_entry, on_exit) ∷ []) rest
              ∙ rw hit
                  (ap (λ q. found_or_empty (lookup q hooks) ++ ((on_entry, on_exit) ∷ rest)) same))
      | inr miss ↦
          let kept : lookup key (assign k new hooks) ≡ lookup key hooks = rw (after, miss) in
          ap (λ o. found_or_empty o ++ rest) kept ∙ rw miss
    ]

instrument_functions-hooks :
    (t : Tables) (calls : List Call) (s : Storages) (key : ℕ)
    → found_or_empty (lookup key (instrument_functions t calls s).hooks)
      ≡ found_or_empty (lookup key s.hooks) ++ registered t key calls
unfolding instrument_functions instrument_function registered store_hooks
instrument_functions-hooks t [] s key = sym (append-nil (found_or_empty (lookup key s.hooks)))
instrument_functions-hooks t (c ∷ calls) s key =
    let k = key_for t c in
    instrument_functions-hooks t calls
      (instrument_function t c.class_name c.function_name c.on_entry c.on_exit s) key
    ∙ (ap (λ hooks. found_or_empty (lookup key hooks) ++ registered t key calls)
          (patch_found-hooks k (t.find (lowercase c.class_name) (lowercase c.function_name))
            (record s { hooks = store_hooks k c.on_entry c.on_exit s.hooks }))
        ∙ store_hooks-found k key c.on_entry c.on_exit s.hooks (registered t key calls))

-- After any history of instrumentFunction, also one that names a function again and again, every
-- function is as it was before, or was an internal one, now has the handler of the extension, and its
-- own handler is what is kept under its key; and the hooks under a key are those of the calls for it,
-- in their order. The hash has to give every function one key and no two the same.
pub instrument_functions_lem :
    (t : Tables) (key_of : ℕ → ℕ) (calls : List Call) (functions : List (ℕ × Function))
    → ((p q : ℕ) → key_of p ≡ key_of q → p ≡ q)
    → ((c f : List ℕ) (p : ℕ) → t.find c f ≡ some p → t.hash c f ≡ key_of p)
    → (let s =
          instrument_functions t calls
            (record { functions = functions; hooks = []; originals = [] }) in
        ((p : ℕ)
          → IsKept (lookup p functions) (lookup p s.functions) (lookup (key_of p) s.originals))
        × ((key : ℕ) → found_or_empty (lookup key s.hooks) ≡ registered t key calls))
unfolding AreKept
instrument_functions_lem t key_of calls functions inj one_key =
    let start : Storages = record { functions = functions; hooks = []; originals = [] } in
    (
      instrument_functions-AreKept t key_of inj one_key functions calls start
          (λ p. inl (refl, refl)),
      instrument_functions-hooks t calls start,
    )
