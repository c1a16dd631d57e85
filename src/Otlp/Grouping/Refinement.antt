-- ===== src/Otlp/Grouping/Refinement.antt =====
-- The loop of the converters against nested dictionaries.
use opentelemetry_php_distro.Prelude.{
  ℕ, ◌≡◌, refl, ap, sym, subst, ◌∙◌, List, [], ◌∷◌, ◌++◌, Option, none, some, lookup, assign,
  bytes_eq, lookup-assign, beq_refl, Option-cases, inl, inr, All,
}
use opentelemetry_php_distro.Otlp.Zval.{Zval, Result, ok, error, ◌>>=◌, array, values, Elements}
use opentelemetry_php_distro.Otlp.Grouping.{
  Located, Converter, Pending, composite_key, modify, add_item_at, find_or_add_resource,
  find_or_add_scope, convert_next, convert_items, nothing_pending, convert_batch,
}
use opentelemetry_php_distro.Otlp.Grouping.Dictionaries.{
  position, position_absent, position_present, position-assign, position_kept, map_values,
  assign_same, assign-assign,
}
use opentelemetry_php_distro.Otlp.Grouping.Nested.{
  Scopes, Groups, resource_group, resource_or_new, scope_or_new, group_next, group_items, inside,
  place, ArePrefixFree, Implements, Matches, Matches->>=, same_value, same_result,
}
use opentelemetry_php_distro.Otlp.Grouping.Places.{
  add_resource-Implements, add_scope-Implements, add_item-Implements,
}

-- What the two lookups of the loop body find, against the dictionaries.
module _ {R S I : Type 0} (IsId : List ℕ → Type 0) where
  abbrev pub IsFound : Located → Groups R S I → ℕ × Pending R S I → R × Scopes S I → Type 0
  IsFound at groups found group =
      Implements IsId found.1 (assign at.resource_id group groups)
      × (position at.resource_id (assign at.resource_id group groups) ≡ some found.0)

  abbrev pub IsPlaced :
      Located → ℕ → Groups R S I → R × Scopes S I → (ℕ × ℕ) × Pending R S I → S × List I → Type 0
  IsPlaced at i groups group placed scope =
      Implements IsId placed.1
        (assign at.resource_id (group.0, assign at.scope_id scope group.1) groups)
      × (placed.0.0 ≡ i)
      × (position at.scope_id (assign at.scope_id scope group.1) ≡ some placed.0.1)

module _ {R S I : Type 0} (IsId : List ℕ → Type 0) (free : ArePrefixFree IsId)
    (c : Converter R S I) where
  find_or_add_resource-Implements :
      (at : Located) (st : Pending R S I) (groups : Groups R S I)
      → Implements IsId st groups
      → Matches
          (IsFound IsId at groups)
          (find_or_add_resource c at st)
          (resource_or_new c at (lookup at.resource_id groups))
  unfolding find_or_add_resource
  find_or_add_resource-Implements at st groups h =
      elim (Option-cases (lookup at.resource_id groups)) [
        | inl absent ↦
            let missing : lookup at.resource_id st.resource_map ≡ none =
              h.1 at.resource_id ∙ position_absent at.resource_id groups absent in
            rw (find_or_add_resource, missing, absent)
              (Matches->>= ◌≡◌ _ _ _ _ _ (same_result (c.convert_resource at.resource)) (λ m m' e.
                rw (sym e) (add_resource-Implements IsId at.resource_id m st groups h absent)))
        | inr (group, present) ↦
            let p = position_present at.resource_id groups present in
            let hit : lookup at.resource_id st.resource_map ≡ some p.0 = h.1 at.resource_id ∙ p.1 in
            rw (find_or_add_resource, hit, present)
              (rw (assign_same at.resource_id group groups present) (h, p.1))
      ]

  find_or_add_scope-Implements :
      (at : Located) (i : ℕ) (st : Pending R S I) (groups : Groups R S I) (group : R × Scopes S I)
      → IsId at.resource_id
      → Implements IsId st groups
      → position at.resource_id groups ≡ some i
      → lookup at.resource_id groups ≡ some group
      → Matches
          (IsPlaced IsId at i groups group)
          (find_or_add_scope c at i st)
          (scope_or_new c at (lookup at.scope_id group.1))
  unfolding find_or_add_scope
  find_or_add_scope-Implements at i st groups group id h p l =
      let r = at.resource_id in
      let s = at.scope_id in
      let here : lookup (composite_key r s) st.scope_map ≡ inside i s group.1 =
        rw (h.2 r s id, p, l) in
      elim (Option-cases (lookup s group.1)) [
        | inl absent ↦
            let missing : lookup (composite_key r s) st.scope_map ≡ none =
              here
              ∙ ap (λ o. elim o as (λ _. Option (ℕ × ℕ)) [ none ↦ none | some j ↦ some (i, j) ])
                  (position_absent s group.1 absent) in
            rw (find_or_add_scope, missing, absent)
              (Matches->>= ◌≡◌ _ _ _ _ _ (same_result (c.convert_scope at.scope)) (λ n n' e.
                rw (sym e) (
                  let added =
                    add_scope-Implements IsId free r s group.0 group.1 n i st groups id h p l
                      absent in
                  (
                    added.0,
                    refl,
                    rw (
                      position-assign s s (n, []) group.1,
                      position_absent s group.1 absent,
                      beq_refl s,
                      added.1,
                    ),
                  ))))
        | inr (scope, present) ↦
            let q = position_present s group.1 present in
            let hit : lookup (composite_key r s) st.scope_map ≡ some (i, q.0) =
              here
              ∙ ap (λ o. elim o as (λ _. Option (ℕ × ℕ)) [ none ↦ none | some j ↦ some (i, j) ])
                  q.1 in
            rw (find_or_add_scope, hit, present)
              (rw (assign_same s scope group.1 present, assign_same r group groups l)
                (h, refl, q.1))
      ]

  add_item_again-Implements :
      (at : Located) (group : R × Scopes S I) (scope : S × List I) (x : I) (place : ℕ × ℕ) (i : ℕ)
      (st : Pending R S I) (groups : Groups R S I)
      → (let groups' = assign at.resource_id group groups in
          (position at.resource_id groups' ≡ some i)
          × Implements IsId st
              (assign at.resource_id (group.0, assign at.scope_id scope group.1) groups'))
      → place.0 ≡ i
      → position at.scope_id (assign at.scope_id scope group.1) ≡ some place.1
      → Implements IsId
          (record st { request = modify place.0 (add_item_at place.1 x) st.request })
          (assign at.resource_id
            (group.0, assign at.scope_id (scope.0, scope.1 ++ (x ∷ [])) group.1)
            groups)
  add_item_again-Implements at group scope x place i st groups h e q =
      let r = at.resource_id in
      let s = at.scope_id in
      let scope' : S × List I = (scope.0, scope.1 ++ (x ∷ [])) in
      let groups' = assign r group groups in
      let ss : Scopes S I = assign s scope group.1 in
      let present : lookup r groups' ≡ some group =
        rw (lookup-assign r r group groups, beq_refl r) in
      let kept : position r (assign r (group.0, ss) groups') ≡ some place.0 =
        rw (position_kept r r (group.0, ss) groups' present, h.0, e) in
      let collapsed : assign r (group.0, assign s scope' ss) (assign r (group.0, ss) groups')
          ≡ assign r (group.0, assign s scope' group.1) groups =
        rw (
          assign-assign s scope' scope group.1,
          assign-assign r (group.0, assign s scope' group.1) (group.0, ss) groups',
          assign-assign r (group.0, assign s scope' group.1) group groups,
        ) in
      subst
        (Implements IsId
          (record st { request = modify place.0 (add_item_at place.1 x) st.request }))
        collapsed
        (add_item-Implements IsId r s group.0 ss scope.0 scope.1 x place.0 place.1 st
          (assign r (group.0, ss) groups') h.1 kept
          (rw (lookup-assign r r (group.0, ss) groups', beq_refl r)) q
          (rw (lookup-assign s s scope group.1, beq_refl s)))

  convert_next-Implements :
      (item : Zval) (st : Pending R S I) (groups : Groups R S I)
      → ((at : Located) → c.locate item ≡ ok at → IsId at.resource_id)
      → Implements IsId st groups
      → Matches (Implements IsId) (convert_next c item st) (group_next c item groups)
  unfolding convert_next group_next
  convert_next-Implements item st groups ids h =
      Matches->>= (λ a b. (a ≡ b) × (c.locate item ≡ ok a)) _ _ _ _ _ (same_value (c.locate item))
        (λ at at' known. rw (sym known.0) (
          Matches->>= (IsFound IsId at groups) _ _ _ _ _
            (find_or_add_resource-Implements at st groups h)
            (λ found group step.
              let present : lookup at.resource_id (assign at.resource_id group groups)
                  ≡ some group =
                rw (
                  lookup-assign at.resource_id at.resource_id group groups,
                  beq_refl at.resource_id,
                ) in
              Matches->>= (IsPlaced IsId at found.0 (assign at.resource_id group groups) group) _ _
                _ _ _
                (find_or_add_scope-Implements at found.0 found.1
                  (assign at.resource_id group groups) group (ids at known.1) step.0 step.1 present)
                (λ placed scope put.
                  Matches->>= ◌≡◌ _ _ _ _ _ (same_result (c.convert_item item)) (λ x x' e.
                    rw (sym e) (
                      add_item_again-Implements at group scope x placed.0 found.0 placed.1 groups
                        (step.1, put.0) put.1 put.2))))))

  convert_items-Implements :
      (items : List Zval) (st : Pending R S I) (groups : Groups R S I)
      → All (λ item. (at : Located) → c.locate item ≡ ok at → IsId at.resource_id) items
      → Implements IsId st groups
      → Matches (Implements IsId) (convert_items c items st) (group_items c items groups)
  unfolding convert_items group_items
  convert_items-Implements [] st groups ids h = h
  convert_items-Implements (item ∷ items) st groups ids h =
      Matches->>= (Implements IsId) (Implements IsId) _ _ _ _
        (convert_next-Implements item st groups ids.0 h)
        (λ st' groups' h'. convert_items-Implements items st' groups' ids.1 h')

  -- If no resource id with the separator begins another, the conversion of an array is that of its
  -- items one by one into nested dictionaries, with the same error if there is one.
  pub convert_batch-group_items :
      (next : ℕ) (es : Elements)
      → All (λ item. (at : Located) → c.locate item ≡ ok at → IsId at.resource_id) (values es)
      → convert_batch c (array next es)
        ≡ (group_items c (values es) [] >>= λ groups. ok (map_values resource_group groups))
  unfolding convert_batch
  convert_batch-group_items next es ids =
      go (convert_items c (values es) nothing_pending) (group_items c (values es) []) (
        convert_items-Implements (values es) nothing_pending [] ids
          (refl, λ r. refl, λ r s i. refl))
    where
      go :
          (m : Result (Pending R S I)) (n : Result (Groups R S I))
          → Matches (Implements IsId) m n
          → (m >>= λ st. ok st.request) ≡ (n >>= λ groups. ok (map_values resource_group groups))
      go (ok st) (ok groups) h = ap ok h.0
      go (error e) (error e') h = ap error h
      go (ok st) (error e) h = absurd h
      go (error e) (ok groups) h = absurd h
