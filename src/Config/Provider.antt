-- ===== src/Config/Provider.antt =====
-- OptionValueProviderInterface, OptionValueProvider and PrioritizedOptionValueProviderChain of
-- prod/native/libcommon/code/config, and the names under which ConfigurationManager asks them. How
-- a vendor's provider takes up config files is the parameter `refresh`; the order that std::sort
-- gives the providers is the order of the list.
use opentelemetry_php_distro.Prelude.{
  ℕ, ◌≡◌, ◌∙◌, ◌≤◌, refl, Bool, true, false, List, [], ◌∷◌, ◌++◌, map, Option, none, some, codes,
  arith, ◌⊎◌, inl, inr, Option-cases, All,
}
use opentelemetry_php_distro.Text.Chars.{to_upper}

abbrev pub Files : Type 0
Files = List (List ℕ × List ℕ)

pub record Provider : Type 0 where
  pub get_environment_option_value : List ℕ → Option (List ℕ)
  pub get_ini_option_value : List ℕ → Option (List ℕ)
  pub get_dynamic_option_value : List ℕ → Option (List ℕ)

-- OptionValueProvider, over std::getenv and the reader of ini values
abbrev pub option_value_provider :
    (List ℕ → Option (List ℕ)) → (List ℕ → Option (List ℕ)) → Provider
option_value_provider getenv read_ini_value = record {
  get_environment_option_value = getenv;
  get_ini_option_value = read_ini_value;
  get_dynamic_option_value = λ name. none;
}

-- The first provider of a chain that has a value.
unfoldable pub first_value :
    (Provider → List ℕ → Option (List ℕ)) → List (ℕ × Provider) → List ℕ → Option (List ℕ)
first_value get [] name = none
first_value get ((priority, p) ∷ ps) name = elim (get p name) [
  | some value ↦ some value
  | none ↦ first_value get ps name
]

abbrev env_of : Provider → List ℕ → Option (List ℕ)
env_of p = p.get_environment_option_value

abbrev ini_of : Provider → List ℕ → Option (List ℕ)
ini_of p = p.get_ini_option_value

abbrev dynamic_of : Provider → List ℕ → Option (List ℕ)
dynamic_of p = p.get_dynamic_option_value

-- The chain is a provider itself.
unfoldable pub provider_chain : List (ℕ × Provider) → Provider
provider_chain ps = record {
  get_environment_option_value = first_value env_of ps;
  get_ini_option_value = first_value ini_of ps;
  get_dynamic_option_value = first_value dynamic_of ps;
}

unfoldable pub get_ini_name : List ℕ → List ℕ
get_ini_name option_name = codes "opentelemetry_distro." ++ option_name

unfoldable pub get_env_name : List ℕ → List ℕ
get_env_name option_name = codes "OTEL_PHP_" ++ map to_upper option_name

-- fetchStringValue
unfoldable pub fetch_string_value : Provider → List ℕ → Bool → Option (List ℕ)
fetch_string_value p name is_otel_native_option = elim (p.get_dynamic_option_value name) [
  | some value ↦ some value
  | none ↦
      let ini_name = elim is_otel_native_option as (λ _. List ℕ) [
        | true ↦ name
        | false ↦ get_ini_name name
      ] in
      elim (p.get_ini_option_value ini_name) [
        | some value ↦ some value
        | none ↦ p.get_environment_option_value (elim is_otel_native_option as (λ _. List ℕ) [
          | true ↦ name
          | false ↦ get_env_name name
        ])
      ]
]

-- Every priority is at most a bound; and the chain's order, as its constructor leaves it.
abbrev AtMost : ℕ → List (ℕ × Provider) → Type 0
AtMost bound ps = All (λ (q : ℕ × Provider). q.0 ≤ bound) ps

abbrev pub AreSorted : List (ℕ × Provider) → Type 0
AreSorted [] = Unit {0}
AreSorted ((priority, p) ∷ ps) = AtMost priority ps × AreSorted ps

-- Providers of a chain that are asked before the one that answers have no value.
abbrev pub Silent :
    (Provider → List ℕ → Option (List ℕ)) → List ℕ → ℕ → List (ℕ × Provider) → Type 0
Silent get name priority [] = Unit {0}
Silent get name priority ((q, p) ∷ ps) =
    ((q ≤ priority) ⊎ (get p name ≡ none)) × Silent get name priority ps

-- The provider with a priority that has a value stands in the chain.
abbrev pub Answers :
    (Provider → List ℕ → Option (List ℕ)) → List ℕ → List ℕ → ℕ → List (ℕ × Provider) → Type 0
Answers get name value priority [] = ⊥
Answers get name value priority ((q, p) ∷ ps) =
    ((q ≡ priority) × (get p name ≡ some value)) ⊎ Answers get name value priority ps

below-Silent :
    (get : Provider → List ℕ → Option (List ℕ)) (name : List ℕ) (bound : ℕ)
    (ps : List (ℕ × Provider))
    → AtMost bound ps
    → Silent get name bound ps
below-Silent get name bound [] a = tt
below-Silent get name bound (q ∷ ps) a = (inl a.0, below-Silent get name bound ps a.1)

-- In a sorted chain, the value found is one that a provider of the chain has, and no provider with
-- a higher priority has any.
pub first_value_lem :
    (get : Provider → List ℕ → Option (List ℕ)) (ps : List (ℕ × Provider)) (name value : List ℕ)
    → AreSorted ps
    → first_value get ps name ≡ some value
    → (priority : ℕ) × Answers get name value priority ps × Silent get name priority ps
unfolding first_value
first_value_lem get [] name value s h = absurd (cc)
first_value_lem get ((q, p) ∷ ps) name value s h = elim (Option-cases (get p name)) [
  | inr (v, e) ↦
      (q, inl (refl, e ∙ answer v e), (inl (omega arith), below-Silent get name q ps s.0))
  | inl e ↦
      let (priority, a, b) = first_value_lem get ps name value s.1 (rw (e, first_value) at h) in
      (priority, inr a, (inr e, b))
]
  where
    answer : (v : List ℕ) → get p name ≡ some v → some v ≡ some value
    answer v e = ground (arith, e, h)
