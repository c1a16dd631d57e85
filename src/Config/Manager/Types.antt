-- ===== src/Config/Manager/Types.antt =====
-- The types of the members of a snapshot. The source writes a member through its offset with the type
-- of the option, so a member keeps its type only if the metadata has the type of the member.
use opentelemetry_php_distro.Prelude.{
  ℕ, ◌≡◌, refl, ap, sym, ◌∙◌, Bool, true, false, List, [], ◌∷◌, Option, none, some, lookup, assign,
  all, All, nat_eq, bytes_eq, lookup-assign, ==_iff, ◌==◌, arith, Bool-cases, Option-cases, inl,
  inr,
}
use opentelemetry_php_distro.Config.Units.{
  Parse, parsed, invalid_argument, out_of_range, Float, convert_duration_with_unit,
  parse_byte_units,
}
use opentelemetry_php_distro.Config.Level.{LogLevel, parse_log_level}
use opentelemetry_php_distro.Config.Options.{
  OptionType, boolean, string, duration, loglevel, bytes, OptionMetadata, Value, duration_value,
  loglevel_value, bytes_value, options, default_members,
}
use opentelemetry_php_distro.Config.Provider.{Files, Provider, fetch_string_value}
use opentelemetry_php_distro.Config.Manager.Printing.{type_of}
use opentelemetry_php_distro.Config.Manager.{
  Manager, convert, update_option, update_options, update,
}

abbrev pub same_type : OptionType → OptionType → Bool
same_type boolean boolean = true
same_type string string = true
same_type duration duration = true
same_type loglevel loglevel = true
same_type bytes bytes = true
same_type _ _ = false

same_type-eq : (s t : OptionType) → same_type s t ≡ true → s ≡ t
same_type-eq boolean boolean h = refl
same_type-eq string string h = refl
same_type-eq duration duration h = refl
same_type-eq loglevel loglevel h = refl
same_type-eq bytes bytes h = refl
same_type-eq boolean _ h = absurd (cc)
same_type-eq string _ h = absurd (cc)
same_type-eq duration _ h = absurd (cc)
same_type-eq loglevel _ h = absurd (cc)
same_type-eq bytes _ h = absurd (cc)

abbrev pub type_in : Option Value → Option OptionType
type_in none = none
type_in (some v) = some (type_of v)

-- The types of the members, by their offsets.
abbrev pub typed : List (ℕ × Value) → ℕ → Option OptionType
typed members offset = type_in (lookup offset members)

-- The type that the declaration of the snapshot gives the member at an offset.
abbrev pub declared : ℕ → Option OptionType
declared offset = typed default_members offset

duration_type :
    (r : Parse ℕ) {v : Value}
    → elim r as (λ _. Parse Value) [
      | parsed ms ↦ parsed (duration_value ms)
      | invalid_argument ↦ invalid_argument
      | out_of_range ↦ out_of_range
    ]
      ≡ parsed v
    → type_of v ≡ duration
duration_type (parsed ms) h = ground arith
duration_type invalid_argument h = absurd (cc)
duration_type out_of_range h = absurd (cc)

bytes_type :
    (r : Parse ℕ) {v : Value}
    → elim r as (λ _. Parse Value) [
      | parsed n ↦ parsed (bytes_value n)
      | invalid_argument ↦ invalid_argument
      | out_of_range ↦ out_of_range
    ]
      ≡ parsed v
    → type_of v ≡ bytes
bytes_type (parsed ms) h = ground arith
bytes_type invalid_argument h = absurd (cc)
bytes_type out_of_range h = absurd (cc)

loglevel_type :
    (r : Option LogLevel) {v : Value}
    → elim r as (λ _. Parse Value) [
      | some level ↦ parsed (loglevel_value level)
      | none ↦ invalid_argument
    ]
      ≡ parsed v
    → type_of v ≡ loglevel
loglevel_type (some level) h = value_type h
  where
    value_type : {v : Value} → parsed (loglevel_value level) ≡ parsed v → type_of v ≡ loglevel
    value_type {v} h = sym (
        ap
          (λ r. elim r as (λ _. OptionType) [
            | parsed w ↦ type_of w
            | invalid_argument ↦ loglevel
            | out_of_range ↦ loglevel
          ])
          h)
loglevel_type none h = absurd (cc)

convert-type :
    (f : Float) (type : OptionType) (text : List ℕ) {v : Value}
    → convert f type text ≡ parsed v
    → type_of v ≡ type
unfolding convert
convert-type f string text h = ground arith
convert-type f boolean text h = ground arith
convert-type f duration text h = duration_type (convert_duration_with_unit f text) h
convert-type f loglevel text h = loglevel_type (parse_log_level text) h
convert-type f bytes text h = bytes_type (parse_byte_units text) h

-- A member that gets a value of its type keeps it.
assign-typed :
    (o : ℕ) (v : Value) (members : List (ℕ × Value)) (offset : ℕ)
    → typed members o ≡ some (type_of v)
    → typed (assign o v members) offset ≡ typed members offset
assign-typed o v members offset t = elim (Bool-cases (o == offset)) [
  | inl hit ↦
      let same : o ≡ offset = (==_iff o offset).0 hit in
      let stored : lookup offset (assign o v members) ≡ some v =
        rw (lookup-assign o offset v members, hit) in
      ap type_in stored ∙ (sym t ∙ ap (typed members) same)
  | inr miss ↦
      let kept : lookup offset (assign o v members) ≡ lookup offset members =
        rw (lookup-assign o offset v members, miss) in
      ap type_in kept
]

update_option-typed :
    (f : Float) (p : Provider) (name : List ℕ) (md : OptionMetadata)
    (members after : List (ℕ × Value))
    → typed members md.offset ≡ some md.type
    → update_option f p name md members ≡ some after
    → (offset : ℕ) → typed after offset ≡ typed members offset
unfolding update_option
update_option-typed f p name md members after t h offset =
    elim (Option-cases (fetch_string_value p name md.otel_native_option)) [
      | inl missing ↦ let same = rw (update_option, missing) at h in kept (same)
      | inr (text, found) ↦ converted text found (convert f md.type text) refl
    ]
  where
    kept : some members ≡ some after → typed after offset ≡ typed members offset
    kept same = let e : members ≡ after = cc in ap (λ m. typed m offset) (sym e)

    converted :
        (text : List ℕ)
        → fetch_string_value p name md.otel_native_option ≡ some text
        → (r : Parse Value) → convert f md.type text ≡ r
        → typed after offset ≡ typed members offset
    converted text found (parsed v) e =
        let same = rw (update_option, found, e) at h in
        let assigned : assign md.offset v members ≡ after = cc in
        ap (λ m. typed m offset) (sym assigned)
        ∙ assign-typed md.offset v members offset
            (t ∙ ap some (sym (convert-type f md.type text e)))
    converted text found invalid_argument e = kept (rw (update_option, found, e) at h)
    converted text found out_of_range e =
        absurd (let impossible = rw (update_option, found, e) at h in cc)

update_options-typed :
    (f : Float) (p : Provider) (entries : List (List ℕ × OptionMetadata))
    (members after : List (ℕ × Value))
    → All (λ entry. typed members entry.1.offset ≡ some entry.1.type) entries
    → update_options f p entries members ≡ some after
    → (offset : ℕ) → typed after offset ≡ typed members offset
unfolding update_options
update_options-typed f p [] members after t h offset =
    let e : members ≡ after = cc in ap (λ m. typed m offset) (sym e)
update_options-typed f p ((name, md) ∷ entries) members after t h offset =
    elim (Option-cases (update_option f p name md members)) [
      | inl thrown ↦ absurd (let impossible = rw (update_options, thrown) at h in cc)
      | inr (members', updated) ↦
          let kept = update_option-typed f p name md members members' t.0 updated in
          update_options-typed f p entries members' after
            (All-transport members members' kept entries t.1) (rw (update_options, updated) at h)
            offset
          ∙ kept offset
    ]
  where
    All-transport :
        (m m' : List (ℕ × Value))
        → ((o : ℕ) → typed m' o ≡ typed m o)
        → (es : List (List ℕ × OptionMetadata))
        → All (λ entry. typed m entry.1.offset ≡ some entry.1.type) es
        → All (λ entry. typed m' entry.1.offset ≡ some entry.1.type) es
    All-transport m m' k [] a = tt
    All-transport m m' k (e ∷ es) a = (k e.1.offset ∙ a.0, All-transport m m' k es a.1)

-- The metadata of every option has the type of its member.
abbrev pub is_declared : List ℕ × OptionMetadata → Bool
is_declared entry = elim (declared entry.1.offset) as (λ _. Bool) [
  | none ↦ false
  | some type ↦ same_type type entry.1.type
]

options_declared : all is_declared options ≡ true
unfolding options default_members
options_declared = refl

declared_all :
    (entries : List (List ℕ × OptionMetadata))
    → all is_declared entries ≡ true
    → All (λ entry. typed default_members entry.1.offset ≡ some entry.1.type) entries
declared_all [] h = tt
declared_all (e ∷ es) h =
    let both : (is_declared e ≡ true) × (all is_declared es ≡ true) = ground arith in
    (one e both.0, declared_all es both.1)
  where
    one :
        (entry : List ℕ × OptionMetadata)
        → is_declared entry ≡ true
        → declared entry.1.offset ≡ some entry.1.type
    one entry h = go (declared entry.1.offset) h
      where
        go :
            (o : Option OptionType)
            → elim o as (λ _. Bool) [ none ↦ false | some type ↦ same_type type entry.1.type ]
              ≡ true
            → o ≡ some entry.1.type
        go none h = absurd (cc)
        go (some type) h = ap some (same_type-eq type entry.1.type h)

-- After an update that succeeds, every member of the snapshot, whatever was configured, holds a value
-- of the type that its declaration gives it; the source relies on this where it reads and writes
-- members through their offsets.
pub update-typed :
    (f : Float) (refresh : Files → Provider → Provider) (config_files : Files) (m m' : Manager)
    → update f refresh config_files m ≡ (true, m')
    → (offset : ℕ) → typed m'.current.members offset ≡ declared offset
unfolding update
update-typed f refresh config_files m m' h offset =
    let p = refresh config_files m.option_value_provider in
    elim (Option-cases (update_options f p options default_members)) [
      | inl thrown ↦ absurd (
          let impossible = rw (update, thrown) at h in
          let first : false ≡ true = ap (λ r. r.0) impossible in cc)
      | inr (members, updated) ↦
          let same = rw (update, updated) at h in
          let stored : m'.current.members ≡ members = sym (ap (λ r. r.1.current.members) same) in
          ap (λ l. typed l offset) stored
          ∙ update_options-typed f p options default_members members
              (declared_all options options_declared) updated offset
    ]
