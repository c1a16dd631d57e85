-- ===== src/Config/Manager/Laws.antt =====
-- What `update` makes of the options, each by itself.
use opentelemetry_php_distro.Prelude.{
  ℕ, ◌≡◌, ◌≢◌, refl, sym, ap, ◌∙◌, Bool, true, false, not, ◌&&◌, List, [], ◌∷◌, Option, none, some,
  ◌==◌, lookup, assign, nat_eq, lookup-assign, arith, ◌⊎◌, inl, inr, Option-cases, All,
}
use opentelemetry_php_distro.Config.Units.{Parse, parsed, invalid_argument, out_of_range, Float}
use opentelemetry_php_distro.Config.Options.{OptionMetadata, Value, options, new_snapshot}
use opentelemetry_php_distro.Config.Provider.{Files, Provider, fetch_string_value}
use opentelemetry_php_distro.Config.Manager.{
  Manager, convert, update_option, update_options, update, next_revision,
}

abbrev pub Entry : Type 0
Entry = List ℕ × OptionMetadata

-- The text and the parse of one option.
abbrev pub parse_of : Float → Provider → Entry → Option (Parse Value)
parse_of f p (name, md) = elim (fetch_string_value p name md.otel_native_option) [
  | none ↦ none
  | some text ↦ some (convert f md.type text)
]

-- The value of a member: the parse of the text if there is one, else the default.
abbrev pub expected : Option (Parse Value) → Option Value → Option Value
expected none default = default
expected (some (parsed v)) default = some v
expected (some invalid_argument) default = default
expected (some out_of_range) default = default

abbrev Frame : ℕ → List (ℕ × Value) → List (ℕ × Value) → Type 0
Frame offset before after = (j : ℕ) → j ≢ offset → lookup j after ≡ lookup j before

abbrev OptionOutcome : Float → Provider → Entry → List (ℕ × Value) → Type 0
OptionOutcome f p (name, md) members =
    ((parse_of f p (name, md) ≡ some out_of_range) × (update_option f p name md members ≡ none))
    ⊎ ((members' : List (ℕ × Value)) × (update_option f p name md members ≡ some members')
        × (lookup md.offset members'
            ≡ expected (parse_of f p (name, md)) (lookup md.offset members))
        × Frame md.offset members members')

update_option-OptionOutcome :
    (f : Float) (p : Provider) (q : Entry) (members : List (ℕ × Value))
    → OptionOutcome f p q members
unfolding update_option
update_option-OptionOutcome f p (name, md) members =
    elim (Option-cases (fetch_string_value p name md.otel_native_option)) [
      | inl e ↦ inr (members, rw (e, update_option), rw (e, parse_of), λ j ne. refl)
      | inr (text, e) ↦ go text e (convert f md.type text) refl
    ]
  where
    go :
        (text : List ℕ)
        → fetch_string_value p name md.otel_native_option ≡ some text
        → (r : Parse Value) → convert f md.type text ≡ r
        → OptionOutcome f p (name, md) members
    go text e (parsed v) c =
        let pe : parse_of f p (name, md) ≡ some (parsed v) = rw (e, parse_of, c) in
        inr (
          assign md.offset v members,
          rw (e, update_option, c),
          (rw pe (ground (arith, lookup-assign md.offset md.offset v members))),
          λ j ne. ground (arith, lookup-assign md.offset j v members),
        )
    go text e invalid_argument c =
        inr (members, rw (e, update_option, c), rw (e, parse_of, c), λ j ne. refl)
    go text e out_of_range c = inl (rw (e, parse_of, c), rw (e, update_option, c))

-- Members of different options are different.
abbrev Apart : ℕ → List Entry → Type 0
Apart offset os = All (λ (q : Entry). offset ≢ q.1.offset) os

abbrev pub OwnMembers : List Entry → Type 0
OwnMembers [] = Unit {0}
OwnMembers ((name, md) ∷ os) = Apart md.offset os × OwnMembers os

abbrev pub SomeOutOfRange : Float → Provider → List Entry → Type 0
SomeOutOfRange f p [] = ⊥
SomeOutOfRange f p (q ∷ os) = (parse_of f p q ≡ some out_of_range) ⊎ SomeOutOfRange f p os

-- Every option's member is as expected from what the member was.
abbrev pub AreExpected :
    Float → Provider → List (ℕ × Value) → List (ℕ × Value) → List Entry → Type 0
AreExpected f p before after os =
    All
      (λ (q : Entry).
        lookup q.1.offset after ≡ expected (parse_of f p q) (lookup q.1.offset before))
      os

abbrev Outcome : Float → Provider → List Entry → List (ℕ × Value) → Type 0
Outcome f p os members =
    ((update_options f p os members ≡ none) × SomeOutOfRange f p os)
    ⊎ ((members' : List (ℕ × Value)) × (update_options f p os members ≡ some members')
        × AreExpected f p members members' os
        × ((j : ℕ) → Apart j os → lookup j members' ≡ lookup j members))

move_expected :
    (f : Float) (p : Provider) (a b c : List (ℕ × Value)) (offset : ℕ) (os : List Entry)
    → Frame offset a b
    → Apart offset os
    → AreExpected f p b c os
    → AreExpected f p a c os
move_expected f p a b c offset [] fr ap' e = tt
move_expected f p a b c offset (q ∷ os) fr ap' e = (
  e.0 ∙ ap (expected (parse_of f p q)) (fr q.1.offset (λ z. ap'.0 (sym z))),
  move_expected f p a b c offset os fr ap'.1 e.1,
)

options_outcome :
    (f : Float) (p : Provider) (os : List Entry) (members : List (ℕ × Value))
    → OwnMembers os
    → Outcome f p os members
unfolding update_options
options_outcome f p [] members own = inr (members, refl, tt, λ j ne. refl)
options_outcome f p ((name, md) ∷ os) members own =
    elim (update_option-OptionOutcome f p (name, md) members) [
      | inl (out, e) ↦ inl (rw (e, update_options), inl out)
      | inr (ms, e, here, frame) ↦ elim (options_outcome f p os ms own.1) [
        | inl (e', out) ↦ inl (rw (e, update_options, e'), inr out)
        | inr (ms', e', rest, far) ↦ inr (
          ms',
          rw (e, update_options, e'),
          (
            far md.offset own.0 ∙ here,
            move_expected f p members ms ms' md.offset os frame own.0 rest,
          ),
          λ j ne. far j ne.1 ∙ frame j ne.0,
        )
      ]
    ]

-- The options of the source have members of their own.
is_apart : ℕ → List Entry → Bool
is_apart offset [] = true
is_apart offset ((name, md) ∷ os) = not (offset == md.offset) && is_apart offset os

are_apart : List Entry → Bool
are_apart [] = true
are_apart ((name, md) ∷ os) = is_apart md.offset os && are_apart os

is_apart_sound : (offset : ℕ) (os : List Entry) → is_apart offset os ≡ true → Apart offset os
unfolding is_apart
is_apart_sound offset [] h = tt
is_apart_sound offset ((name, md) ∷ os) h =
    ((λ e. ground arith), is_apart_sound offset os (ground arith))

are_apart_sound : (os : List Entry) → are_apart os ≡ true → OwnMembers os
unfolding are_apart
are_apart_sound [] h = tt
are_apart_sound ((name, md) ∷ os) h =
    (is_apart_sound md.offset os (ground arith), are_apart_sound os (ground arith))

options-OwnMembers : OwnMembers options
unfolding options are_apart is_apart
options-OwnMembers = are_apart_sound options refl

-- `update` leaves by an exception exactly when it says so, and then the snapshot in use stays what it
-- was: this happens only when the text of some option is a number out of range. Otherwise the new
-- snapshot has the next revision and the files given, and each option of the table has the parse of
-- its text, or its default where there is no text or the text is invalid.
pub update_lem :
    (f : Float) (refresh : Files → Provider → Provider) (files : Files) (m : Manager)
    → let r = update f refresh files m in
      let p = refresh files m.option_value_provider in
      ((r.0 ≡ false) × (r.1.current ≡ m.current) × SomeOutOfRange f p options)
      ⊎ ((r.0 ≡ true)
          × (r.1.current.revision ≡ next_revision m)
          × (r.1.current.remote_config_files ≡ files)
          × AreExpected f p new_snapshot.members r.1.current.members options)
unfolding update
update_lem f refresh files m =
    elim (options_outcome f (refresh files m.option_value_provider) options new_snapshot.members
      options-OwnMembers) [
        | inl (e, out) ↦ inl (rw (e, update), rw (e, update), out)
        | inr (ms, e, a, far) ↦
            inr (rw (e, update), rw (e, update), rw (e, update), rw (e, update) a)
      ]
