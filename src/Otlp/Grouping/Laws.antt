-- ===== src/Otlp/Grouping/Laws.antt =====
-- What the converters' loop makes of a batch.
use opentelemetry_php_distro.Prelude.{
  ℕ, ◌≡◌, refl, ap, sym, subst, ◌∙◌, true, false, ◌&&◌, List, [], ◌∷◌, ◌++◌, Option, none, some,
  lookup, assign, bytes_eq, bytes_beq, bytes_beq_iff, lookup-assign, arith, inl, inr, All, ◌≢◌,
  Bool-cases, if◌then◌else◌, append-nil, append_assoc, Distinct, AllValues, assign-Distinct,
  assign-AllValues, lookup-AllValues,
}
use opentelemetry_php_distro.Otlp.Zval.{Zval, Elements, Result, ok, error, ◌>>=◌, array, values}
use opentelemetry_php_distro.Otlp.Grouping.{Located, ResourceGroup, Converter, convert_batch}
use opentelemetry_php_distro.Otlp.Grouping.Dictionaries.{map_values}
use opentelemetry_php_distro.Otlp.Grouping.Nested.{
  Scopes, Groups, resource_group, resource_or_new, scope_or_new, group_next, group_items,
  ArePrefixFree,
}
use opentelemetry_php_distro.Otlp.Grouping.Refinement.{convert_batch-group_items}

module _ {R S I : Type 0} where
  -- The items under a resource and a scope.
  abbrev pub items_in : List ℕ → Option (R × Scopes S I) → List I
  items_in s none = []
  items_in s (some group) = elim (lookup s group.1) [ none ↦ [] | some scope ↦ scope.1 ]

  abbrev pub items_under : List ℕ → List ℕ → Groups R S I → List I
  items_under r s groups = items_in s (lookup r groups)

  -- The converted items of a batch that have the two ids, in the order of the batch.
  unfoldable pub items_with : Converter R S I → List ℕ → List ℕ → List Zval → List I
  items_with c r s [] = []
  items_with c r s (item ∷ items) = elim (c.locate item) [
    | error e ↦ items_with c r s items
    | ok at ↦ elim (bytes_beq at.resource_id r && bytes_beq at.scope_id s) [
      | false ↦ items_with c r s items
      | true ↦ elim (c.convert_item item) [
        | error e ↦ items_with c r s items
        | ok x ↦ x ∷ items_with c r s items
      ]
    ]
  ]

  -- Each id stands once, and nothing is empty.
  abbrev pub AreScopes : R × Scopes S I → Type 0
  AreScopes group = (group.1 ≢ []) × Distinct group.1 × AllValues (λ scope. scope.1 ≢ []) group.1

  abbrev pub AreGroups : Groups R S I → Type 0
  AreGroups groups = Distinct groups × AllValues AreScopes groups

bind_ok :
    {A B : Type 0} {result : B} (call : Result A) (next : A → Result B)
    → (call >>= next) ≡ ok result
    → (value : A) × (call ≡ ok value) × (next value ≡ ok result)
bind_ok (error e) next done = absurd (cc)
bind_ok (ok value) next done = (value, refl, done)

append_occupied : {A : Type 0} (xs : List A) (x : A) → xs ++ (x ∷ []) ≢ []
append_occupied [] x h = cc
append_occupied (y ∷ xs) x h = cc

assign_occupied : {V : Type 0} (k : List ℕ) (v : V) (m : List (List ℕ × V)) → assign k v m ≢ []
assign_occupied k v [] h = cc
assign_occupied k v ((j, w) ∷ m) h = ground (arith)

ok_injective : {A : Type 0} {a b : A} → ok a ≡ ok b → a ≡ b
ok_injective h = cc

module _ {R S I : Type 0} (c : Converter R S I) where
  resource_or_new-items :
      (at : Located) (o : Option (R × Scopes S I)) (group : R × Scopes S I) (s : List ℕ)
      → resource_or_new c at o ≡ ok group
      → items_in s o ≡ items_in s (some group)
  resource_or_new-items at (some g) group s h = ap (λ g. items_in s (some g)) (ok_injective h)
  resource_or_new-items at none group s h =
      let r = bind_ok (c.convert_resource at.resource) _ h in
      ap (λ g. items_in s (some g)) (ok_injective r.2)

  scope_or_new-items :
      (at : Located) (o : Option (S × List I)) (scope : S × List I)
      → scope_or_new c at o ≡ ok scope
      → elim o [ none ↦ [] | some scope ↦ scope.1 ] ≡ scope.1
  scope_or_new-items at (some g) scope h = ap (λ g. g.1) (ok_injective h)
  scope_or_new-items at none scope h =
      let n = bind_ok (c.convert_scope at.scope) _ h in ap (λ g. g.1) (ok_injective n.2)

  resource_or_new-AreScopes :
      (at : Located) (o : Option (R × Scopes S I)) (group : R × Scopes S I)
      → ((g : R × Scopes S I) → o ≡ some g → AreScopes g)
      → resource_or_new c at o ≡ ok group
      → Distinct group.1 × AllValues (λ scope. scope.1 ≢ []) group.1
  resource_or_new-AreScopes at (some g) group w h =
      subst (λ g. Distinct g.1 × AllValues (λ scope. scope.1 ≢ []) g.1) (ok_injective h)
        (let d = w g refl in (d.1, d.2))
  resource_or_new-AreScopes at none group w h =
      let r = bind_ok (c.convert_resource at.resource) _ h in
      subst (λ g. Distinct g.1 × AllValues (λ scope. scope.1 ≢ []) g.1) (ok_injective r.2) (tt, tt)

-- An item that is put under its two ids, in groups that may have them.
module _ {R S I : Type 0} where
  abbrev pub with_item : Located → R × Scopes S I → S × List I → I → Groups R S I → Groups R S I
  with_item at group scope x groups =
      assign at.resource_id (group.0, assign at.scope_id (scope.0, scope.1 ++ (x ∷ [])) group.1)
        groups

  with_item-AreGroups :
      (at : Located) (group : R × Scopes S I) (scope : S × List I) (x : I) (groups : Groups R S I)
      → Distinct group.1 × AllValues (λ scope. scope.1 ≢ []) group.1
      → AreGroups groups
      → AreGroups (with_item at group scope x groups)
  with_item-AreGroups at group scope x groups w h =
      let added : S × List I = (scope.0, scope.1 ++ (x ∷ [])) in
      (
        assign-Distinct at.resource_id (group.0, assign at.scope_id added group.1) groups h.0,
        assign-AllValues AreScopes at.resource_id (group.0, assign at.scope_id added group.1) groups
            (
              assign_occupied at.scope_id added group.1,
              assign-Distinct at.scope_id added group.1 w.0,
              assign-AllValues (λ scope. scope.1 ≢ []) at.scope_id added group.1
                  (append_occupied scope.1 x) w.1,
            )
            h.1,
      )

  with_item-items :
      (at : Located) (group : R × Scopes S I) (scope : S × List I) (x : I) (groups : Groups R S I)
      (r s : List ℕ)
      → items_under at.resource_id s groups ≡ items_in s (some group)
      → items_in at.scope_id (some group) ≡ scope.1
      → items_under r s (with_item at group scope x groups) ≡ (
          if bytes_beq at.resource_id r && bytes_beq at.scope_id s
          then items_under r s groups ++ (x ∷ [])
          else items_under r s groups)
  with_item-items at group scope x groups r s e q =
      let added : S × List I = (scope.0, scope.1 ++ (x ∷ [])) in
      ground (
        arith,
        lookup-assign at.resource_id r (group.0, assign at.scope_id added group.1) groups,
        lookup-assign at.scope_id s added group.1,
        bytes_beq_iff at.resource_id r,
        bytes_beq_iff at.scope_id s,
      )

module _ {R S I : Type 0} (c : Converter R S I) where
  items_with-cons :
      (item : Zval) (at : Located) (x : I)
      → c.locate item ≡ ok at
      → c.convert_item item ≡ ok x
      → (r s : List ℕ) (items : List Zval) (under under' : List I)
      → under' ≡ (
          if bytes_beq at.resource_id r && bytes_beq at.scope_id s
          then under ++ (x ∷ [])
          else under)
      → under' ++ items_with c r s items ≡ under ++ items_with c r s (item ∷ items)
  unfolding items_with
  items_with-cons item at x l k r s items under under' h =
      rw (h, items_with, l)
        (elim (Bool-cases (bytes_beq at.resource_id r && bytes_beq at.scope_id s)) [
          | inl hit ↦ rw (hit, k, append_assoc under (x ∷ []) (items_with c r s items))
          | inr miss ↦ rw miss
        ])

  group_next_lem :
      (item : Zval) (groups groups' : Groups R S I)
      → AreGroups groups
      → group_next c item groups ≡ ok groups'
      → AreGroups groups'
        × ((r s : List ℕ) (items : List Zval)
            → items_under r s groups' ++ items_with c r s items
              ≡ items_under r s groups ++ items_with c r s (item ∷ items))
  unfolding group_next items_with
  group_next_lem item groups groups' w h =
      let at = bind_ok (c.locate item) _ h in
      let group = bind_ok (resource_or_new c at.0 (lookup at.0.resource_id groups)) _ at.2 in
      let scope = bind_ok (scope_or_new c at.0 (lookup at.0.scope_id group.0.1)) _ group.2 in
      let x = bind_ok (c.convert_item item) _ scope.2 in
      let put : with_item at.0 group.0 scope.0 x.0 groups ≡ groups' = ok_injective x.2 in
      let old =
        resource_or_new-AreScopes c at.0 (lookup at.0.resource_id groups) group.0
          (λ g e. lookup-AllValues AreScopes at.0.resource_id groups g w.1 e) group.1 in
      (
        subst AreGroups put (with_item-AreGroups at.0 group.0 scope.0 x.0 groups old w),
        λ r s items.
            let added =
              with_item-items at.0 group.0 scope.0 x.0 groups r s
                (resource_or_new-items c at.0 (lookup at.0.resource_id groups) group.0 s group.1)
                (scope_or_new-items c at.0 (lookup at.0.scope_id group.0.1) scope.0 scope.1) in
            items_with-cons item at.0 x.0 at.1 x.1 r s items (items_under r s groups)
              (items_under r s groups') (ap (items_under r s) (sym put) ∙ added),
      )

  group_items_lem :
      (items : List Zval) (groups groups' : Groups R S I)
      → AreGroups groups
      → group_items c items groups ≡ ok groups'
      → AreGroups groups'
        × ((r s : List ℕ)
            → items_under r s groups' ≡ items_under r s groups ++ items_with c r s items)
  unfolding group_items items_with
  group_items_lem [] groups groups' w h =
      let same : groups ≡ groups' = ok_injective h in
      rw (sym same) (w, λ r s. sym (append-nil (items_under r s groups)))
  group_items_lem (item ∷ items) groups groups' w h =
      let one = bind_ok (group_next c item groups) _ h in
      let now = group_next_lem item groups one.0 w one.1 in
      let later = group_items_lem items one.0 groups' now.0 one.2 in
      (later.0, λ r s. later.1 r s ∙ now.1 r s items)

  -- A batch that is converted becomes a list of resources, in each a list of scopes, in each a list
  -- of items, such that there are ids of the resources and of the scopes in each resource, all
  -- different, under which exactly the items with these ids stand, in the order of the batch, and
  -- nothing is empty; if no resource id with the separator begins another.
  pub convert_batch-AreGroups :
      (IsId : List ℕ → Type 0)
      → ArePrefixFree IsId
      → (next : ℕ) (es : Elements) (request : List (ResourceGroup R S I))
      → All (λ item. (at : Located) → c.locate item ≡ ok at → IsId at.resource_id) (values es)
      → convert_batch c (array next es) ≡ ok request
      → (groups : Groups R S I) × (request ≡ map_values resource_group groups)
        × AreGroups groups
        × ((r s : List ℕ) → items_under r s groups ≡ items_with c r s (values es))
  convert_batch-AreGroups IsId free next es request ids h =
      let grouped = sym (convert_batch-group_items IsId free c next es ids) ∙ h in
      let groups = bind_ok (group_items c (values es) []) _ grouped in
      let sound = group_items_lem (values es) [] groups.0 (tt, tt) groups.1 in
      (groups.0, sym (ok_injective groups.2), sound.0, sound.1)
