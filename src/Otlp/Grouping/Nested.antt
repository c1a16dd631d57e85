-- ===== src/Otlp/Grouping/Nested.antt =====
-- The nested dictionaries that the loop of the converters implements: resources by their ids, in each
-- the scopes by their ids, without pointers and composite keys.
use opentelemetry_php_distro.Prelude.{
  ℕ, ◌≡◌, refl, List, [], ◌∷◌, ◌++◌, Option, none, some, lookup, assign, bytes_eq,
}
use opentelemetry_php_distro.Otlp.Zval.{Zval, Result, ok, error, ◌>>=◌}
use opentelemetry_php_distro.Otlp.Grouping.{
  Located, ScopeGroup, ResourceGroup, Converter, Pending, composite_key,
}
use opentelemetry_php_distro.Otlp.Grouping.Dictionaries.{position, map_values}

-- Resources by their ids, in each the scopes by their ids, in each the items.
abbrev pub Scopes : Type 0 → Type 0 → Type 0
Scopes S I = List (List ℕ × (S × List I))

abbrev pub Groups : Type 0 → Type 0 → Type 0 → Type 0
Groups R S I = List (List ℕ × (R × Scopes S I))

abbrev pub scope_group : {S I : Type 0} → S × List I → ScopeGroup S I
scope_group entry = record { scope = entry.0; items = entry.1 }

abbrev pub resource_group : {R S I : Type 0} → R × Scopes S I → ResourceGroup R S I
resource_group entry = record { resource = entry.0; scopes = map_values scope_group entry.1 }

module _ {R S I : Type 0} where
  -- What stands under an id, or a new group with nothing in it.
  abbrev pub resource_or_new :
      Converter R S I → Located → Option (R × Scopes S I) → Result (R × Scopes S I)
  resource_or_new c at (some group) = ok group
  resource_or_new c at none = do r ← c.convert_resource at.resource; ok (r, [])

  abbrev pub scope_or_new : Converter R S I → Located → Option (S × List I) → Result (S × List I)
  scope_or_new c at (some group) = ok group
  scope_or_new c at none = do s ← c.convert_scope at.scope; ok (s, [])

  unfoldable pub group_next : Converter R S I → Zval → Groups R S I → Result (Groups R S I)
  group_next c item groups = do
    at ← c.locate item
    resource ← resource_or_new c at (lookup at.resource_id groups)
    scope ← scope_or_new c at (lookup at.scope_id resource.1)
    x ← c.convert_item item
    ok (
        assign at.resource_id
          (resource.0, assign at.scope_id (scope.0, scope.1 ++ (x ∷ [])) resource.1) groups)

  unfoldable pub group_items : Converter R S I → List Zval → Groups R S I → Result (Groups R S I)
  unfolding group_next
  group_items c [] groups = ok groups
  group_items c (item ∷ items) groups = do
    groups' ← group_next c item groups
    group_items c items groups'

-- Where a scope stands, in the i-th resource.
abbrev pub inside : {S I : Type 0} → ℕ → List ℕ → Scopes S I → Option (ℕ × ℕ)
inside i s ss = elim (position s ss) [ none ↦ none | some j ↦ some (i, j) ]

abbrev pub place_in :
    {R S I : Type 0} → Option ℕ → Option (R × Scopes S I) → List ℕ → Option (ℕ × ℕ)
place_in none group s = none
place_in (some i) none s = none
place_in (some i) (some group) s = inside i s group.1

-- Where a scope stands in the message.
abbrev pub place : {R S I : Type 0} → List ℕ → List ℕ → Groups R S I → Option (ℕ × ℕ)
place r s groups = place_in (position r groups) (lookup r groups) s

-- No id of a resource, with the separator, begins another.
abbrev pub ArePrefixFree : (List ℕ → Type 0) → Type 0
ArePrefixFree IsId =
    (a b s t : List ℕ) → IsId a → IsId b → composite_key a s ≡ composite_key b t → a ≡ b

module _ {R S I : Type 0} (IsId : List ℕ → Type 0) where
  -- The message is that of the dictionaries, and the maps point to their entries.
  abbrev pub Implements : Pending R S I → Groups R S I → Type 0
  Implements st groups =
      (st.request ≡ map_values resource_group groups)
      × ((r : List ℕ) → lookup r st.resource_map ≡ position r groups)
      × ((r s : List ℕ)
          → IsId r
          → lookup (composite_key r s) st.scope_map ≡ place {R = R} {S = S} {I = I} r s groups)

-- Two results that are both errors, the same, or both values in a relation.
abbrev pub Matches : {A B : Type 0} → (A → B → Type 0) → Result A → Result B → Type 0
Matches P (ok a) (ok b) = P a b
Matches P (error e) (error e') = e ≡ e'
Matches P (ok a) (error e) = ⊥
Matches P (error e) (ok b) = ⊥

pub Matches->>= :
    {A B A' B' : Type 0} (P : A → B → Type 0) (Q : A' → B' → Type 0) (m : Result A) (n : Result B)
    (f : A → Result A') (g : B → Result B')
    → Matches P m n
    → ((a : A) (b : B) → P a b → Matches Q (f a) (g b))
    → Matches Q (m >>= f) (n >>= g)
Matches->>= P Q (ok a) (ok b) f g h k = k a b h
Matches->>= P Q (error e) (error e') f g h k = h
Matches->>= P Q (ok a) (error e) f g h k = absurd h
Matches->>= P Q (error e) (ok b) f g h k = absurd h

pub same_value : {A : Type 0} (m : Result A) → Matches (λ a b. (a ≡ b) × (m ≡ ok a)) m m
same_value (ok a) = (refl, refl)
same_value (error e) = refl

pub same_result : {A : Type 0} (m : Result A) → Matches ◌≡◌ m m
same_result (ok a) = refl
same_result (error e) = refl
