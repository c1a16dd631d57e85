-- ===== src/Otlp/Grouping.antt =====
-- The loop that SpanConverter, LogsConverter and MetricConverter of
-- prod/native/libphpbridge/code/OtlpExporter share: the items of a batch are put under their resource
-- and, in it, under their instrumentation scope. The maps of the loop hold pointers into the message
-- that is being built: here a resource's position in it, and a scope's position in the resource.
pub mod Dictionaries
pub mod Nested
pub mod Places
pub mod Refinement
pub mod Errors
pub mod Laws
use opentelemetry_php_distro.Prelude.{
  ℕ, zero, suc, List, [], ◌∷◌, ◌++◌, Option, none, some, length, lookup, assign, bytes_eq, codes,
}
use opentelemetry_php_distro.Otlp.Zval.{
  Zval, Result, ok, error, invalid_iterable, ◌>>=◌, array, values,
}

-- What the loop asks of an item: its resource and scope with their ids.
pub record Located : Type 0 where
  pub resource : Zval
  pub scope : Zval
  pub resource_id : List ℕ
  pub scope_id : List ℕ

pub record ScopeGroup (S I : Type 0) : Type 0 where
  pub scope : S
  pub items : List I

pub record ResourceGroup (R S I : Type 0) : Type 0 where
  pub resource : R
  pub scopes : List (ScopeGroup S I)

-- The parts in which the three converters differ.
pub record Converter (R S I : Type 0) : Type 0 where
  pub locate : Zval → Result Located
  pub convert_resource : Zval → Result R
  pub convert_scope : Zval → Result S
  pub convert_item : Zval → Result I

-- The request, resourceSpansMap and scopeSpansMap.
pub record Pending (R S I : Type 0) : Type 0 where
  pub request : List (ResourceGroup R S I)
  pub resource_map : List (List ℕ × ℕ)
  pub scope_map : List (List ℕ × (ℕ × ℕ))

abbrev pub composite_key : List ℕ → List ℕ → List ℕ
composite_key resource_id scope_id = resource_id ++ (b'|' ∷ scope_id)

-- A change through a pointer.
abbrev pub modify {ℓ} : {A : Type ℓ} → ℕ → (A → A) → List A → List A
modify i f [] = []
modify zero f (x ∷ xs) = f x ∷ xs
modify (suc i) f (x ∷ xs) = x ∷ modify i f xs

abbrev pub add_item : {S I : Type 0} → I → ScopeGroup S I → ScopeGroup S I
add_item x group = record group { items = group.items ++ (x ∷ []) }

module _ {R S I : Type 0} where
  abbrev pub add_scope : S → ResourceGroup R S I → ResourceGroup R S I
  add_scope s group = record group {
    scopes = group.scopes ++ (record { scope = s; items = [] } ∷ []);
  }

  -- The number of scopes under a resource.
  abbrev pub count_scopes : ℕ → List (ResourceGroup R S I) → ℕ
  count_scopes i [] = 0
  count_scopes zero (group ∷ groups) = length group.scopes
  count_scopes (suc i) (group ∷ groups) = count_scopes i groups

  abbrev pub add_item_at : ℕ → I → ResourceGroup R S I → ResourceGroup R S I
  add_item_at j x group = record group { scopes = modify j (add_item x) group.scopes }

  -- The first lookup of the loop body: the resource, added if its id is new.
  unfoldable pub find_or_add_resource :
      Converter R S I → Located → Pending R S I → Result (ℕ × Pending R S I)
  find_or_add_resource c at st = elim (lookup at.resource_id st.resource_map) [
    | some i ↦ ok (i, st)
    | none ↦ do
      r ← c.convert_resource at.resource
      ok (
        length st.request,
        record st {
          request = st.request ++ (record { resource = r; scopes = [] } ∷ []);
          resource_map = assign at.resource_id (length st.request) st.resource_map;
        },
      )
  ]

  -- The second lookup: the scope, added to the resource if the composite key is new.
  unfoldable pub find_or_add_scope :
      Converter R S I → Located → ℕ → Pending R S I → Result ((ℕ × ℕ) × Pending R S I)
  find_or_add_scope c at i st =
      elim (lookup (composite_key at.resource_id at.scope_id) st.scope_map) [
        | some p ↦ ok (p, st)
        | none ↦ do
          s ← c.convert_scope at.scope
          ok (
            (i, count_scopes i st.request),
            record st {
              request = modify i (add_scope s) st.request;
              scope_map =
                  assign (composite_key at.resource_id at.scope_id) (i, count_scopes i st.request)
                    st.scope_map;
            },
          )
      ]

  -- The body of the loop
  unfoldable pub convert_next : Converter R S I → Zval → Pending R S I → Result (Pending R S I)
  unfolding find_or_add_resource find_or_add_scope
  convert_next c item st = do
    at ← c.locate item
    found ← find_or_add_resource c at st
    place ← find_or_add_scope c at found.0 found.1
    x ← c.convert_item item
    ok (record place.1 { request = modify place.0.0 (add_item_at place.0.1 x) place.1.request })

  unfoldable pub convert_items :
      Converter R S I → List Zval → Pending R S I → Result (Pending R S I)
  unfolding convert_next
  convert_items c [] st = ok st
  convert_items c (item ∷ items) st = do st' ← convert_next c item st; convert_items c items st'

  abbrev pub nothing_pending : Pending R S I
  nothing_pending = record { request = []; resource_map = []; scope_map = [] }

  -- convert, of a batch that has to be an array.
  unfoldable pub convert_batch : Converter R S I → Zval → Result (List (ResourceGroup R S I))
  unfolding convert_items values
  convert_batch c (array next es) = do
    st ← convert_items c (values es) nothing_pending
    ok st.request
  convert_batch c _ = error invalid_iterable
