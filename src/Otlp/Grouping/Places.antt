-- ===== src/Otlp/Grouping/Places.antt =====
-- The pointers of the loop of the converters, and what each of its changes does to them.
use opentelemetry_php_distro.Prelude.{
  ℕ, zero, suc, ◌≡◌, refl, sym, subst, false, ◌&&◌, List, [], ◌∷◌, ◌++◌, Option, none, some, length,
  lookup, assign, bytes_eq, bytes_beq, bytes_beq_iff, lookup-assign, arith, beq_refl, if◌then◌else◌,
  Bool-cases, inl, inr,
}
use opentelemetry_php_distro.Otlp.Grouping.{
  Pending, composite_key, modify, add_scope, count_scopes, add_item, add_item_at,
}
use opentelemetry_php_distro.Otlp.Grouping.Dictionaries.{
  position, position_or, position_absent, position-assign, position_kept, map_values,
  length-map_values, map_values-assign, modify-map_values,
}
use opentelemetry_php_distro.Otlp.Grouping.Nested.{
  Scopes, Groups, scope_group, resource_group, inside, place, ArePrefixFree, Implements,
}

pub composite_key-injective :
    (IsId : List ℕ → Type 0)
    → ArePrefixFree IsId
    → (r r' s s' : List ℕ) → IsId r
    → IsId r'
    → composite_key r s ≡ composite_key r' s'
    → (r ≡ r') × (s ≡ s')
composite_key-injective IsId free r r' s s' i i' h =
    let same = free r r' s s' i i' h in (same, rest r s s' (rw (sym same) at h))
  where
    rest : (a s t : List ℕ) → composite_key a s ≡ composite_key a t → s ≡ t
    rest [] s t h = cc
    rest (x ∷ a) s t h = rest a s t (cc)

pub composite_key_beq :
    (IsId : List ℕ → Type 0)
    → ArePrefixFree IsId
    → (r r' s s' : List ℕ) → IsId r
    → IsId r'
    → bytes_beq (composite_key r s) (composite_key r' s') ≡ (bytes_beq r r' && bytes_beq s s')
composite_key_beq IsId free r r' s s' i i' =
    let injective = composite_key-injective IsId free r r' s s' i i' in
    let whole = bytes_beq_iff (composite_key r s) (composite_key r' s') in
    ground (arith, injective, whole, bytes_beq_iff r r', bytes_beq_iff s s')

pub position_or-false : (o : Option ℕ) (n : ℕ) → position_or o false n ≡ o
position_or-false none n = refl
position_or-false (some i) n = refl

pub place-assign_same :
    {R S I : Type 0} (r s : List ℕ) (m : R) (ss : Scopes S I) (groups : Groups R S I) (i : ℕ)
    → position r (assign r (m, ss) groups) ≡ some i
    → place r s (assign r (m, ss) groups) ≡ inside i s ss
place-assign_same r s m ss groups i p = rw (p, lookup-assign r r (m, ss) groups, beq_refl r)

pub place-assign :
    {R S I : Type 0} (r s r' : List ℕ) (m : R) (ss : Scopes S I) (groups : Groups R S I) (i : ℕ)
    → position r (assign r (m, ss) groups) ≡ some i
    → place r' s (assign r (m, ss) groups)
      ≡ (if bytes_beq r r' then inside i s ss else place r' s groups)
place-assign r s r' m ss groups i p = elim (Bool-cases (bytes_beq r r')) [
  | inl hit ↦
      let same : r ≡ r' = (bytes_beq_iff r r').0 hit in
      rw hit (
        subst (λ q. place q s (assign r (m, ss) groups) ≡ inside i s ss) same
          (place-assign_same r s m ss groups i p))
  | inr miss ↦ rw (
    miss,
    position-assign r r' (m, ss) groups,
    lookup-assign r r' (m, ss) groups,
    miss,
    position_or-false (position r' groups) (length groups),
  )
]

module _ {R S I : Type 0} (IsId : List ℕ → Type 0) where
  pub add_resource-Implements :
      (r : List ℕ) (m : R) (st : Pending R S I) (groups : Groups R S I)
      → Implements IsId st groups
      → lookup r groups ≡ none
      → Implements IsId
          (record st {
            request = st.request ++ (record { resource = m; scopes = [] } ∷ []);
            resource_map = assign r (length st.request) st.resource_map;
          })
          (assign r (m, []) groups)
        × (position r (assign r (m, []) groups) ≡ some (length st.request))
  add_resource-Implements r m st groups h absent =
      let count : length st.request ≡ length groups =
        rw h.0 (length-map_values resource_group groups) in
      let found : position r (assign r (m, []) groups) ≡ some (length st.request) =
        ground (
          arith,
          position-assign r r (m, []) groups,
          position_absent r groups,
          bytes_beq_iff r r,
        ) in
      (
        (
          rw (h.0, map_values-assign resource_group r (m, []) groups absent),
          λ r'. ground (
            arith,
            h.1 r',
            lookup-assign r r' (length st.request) st.resource_map,
            position-assign r r' (m, []) groups,
            position_absent r groups,
            bytes_beq_iff r r',
          ),
          λ r' s i. ground (
            arith,
            h.2 r' s i,
            place-assign r s r' m [] groups (length st.request) found,
            bytes_beq_iff r r',
            position_absent r groups,
          ),
        ),
        found,
      )

pub count_scopes-map_values :
    {R S I : Type 0} (r : List ℕ) (groups : Groups R S I) (i : ℕ) (m : R) (ss : Scopes S I)
    → position r groups ≡ some i
    → lookup r groups ≡ some (m, ss)
    → count_scopes i (map_values resource_group groups) ≡ length ss
count_scopes-map_values r [] i m ss p l = cc
count_scopes-map_values r ((k, v) ∷ groups) zero m ss p l = ground (
  arith,
  position_absent r groups,
  length-map_values scope_group v.1,
  length-map_values scope_group ss,
)
count_scopes-map_values r ((k, v) ∷ groups) (suc i) m ss p l =
    ground (arith, count_scopes-map_values r groups i m ss)

module _ {R S I : Type 0} (IsId : List ℕ → Type 0) (free : ArePrefixFree IsId) where
  pub add_scope-Implements :
      (r s : List ℕ) (m : R) (ss : Scopes S I) (n : S) (i : ℕ) (st : Pending R S I)
      (groups : Groups R S I)
      → IsId r
      → Implements IsId st groups
      → position r groups ≡ some i
      → lookup r groups ≡ some (m, ss)
      → lookup s ss ≡ none
      → Implements IsId
          (record st {
            request = modify i (add_scope n) st.request;
            scope_map = assign (composite_key r s) (i, count_scopes i st.request) st.scope_map;
          })
          (assign r (m, assign s (n, []) ss) groups)
        × (count_scopes i st.request ≡ length ss)
  add_scope-Implements r s m ss n i st groups id h p l absent =
      let count : count_scopes i st.request ≡ length ss =
        rw h.0 (count_scopes-map_values r groups i m ss p l) in
      let kept : position r (assign r (m, assign s (n, []) ss) groups) ≡ some i =
        rw (position-assign r r (m, assign s (n, []) ss) groups, p) in
      let added = map_values-assign scope_group s (n, []) ss absent in
      (
        (
          rw h.0 (modify-map_values resource_group r groups i (add_scope n) p l (rw added)),
          λ r'. rw (position_kept r r' (m, assign s (n, []) ss) groups l) (h.1 r'),
          λ r' s' i'. ground (
            arith,
            h.2 r' s' i',
            lookup-assign (composite_key r s) (composite_key r' s') (i, count_scopes i st.request)
                st.scope_map,
            composite_key_beq IsId free r r' s s' id i',
            place-assign r s' r' m (assign s (n, []) ss) groups i kept,
            position-assign s s' (n, []) ss,
            position_absent s ss absent,
            bytes_beq_iff r r',
            bytes_beq_iff s s',
          ),
        ),
        count,
      )

module _ {R S I : Type 0} (IsId : List ℕ → Type 0) where
  pub add_item-Implements :
      (r s : List ℕ) (m : R) (ss : Scopes S I) (n : S) (xs : List I) (x : I) (i j : ℕ)
      (st : Pending R S I) (groups : Groups R S I)
      → Implements IsId st groups
      → position r groups ≡ some i
      → lookup r groups ≡ some (m, ss)
      → position s ss ≡ some j
      → lookup s ss ≡ some (n, xs)
      → Implements IsId
          (record st { request = modify i (add_item_at j x) st.request })
          (assign r (m, assign s (n, xs ++ (x ∷ [])) ss) groups)
  add_item-Implements r s m ss n xs x i j st groups h p l q k =
      let ss' = assign s (n, xs ++ (x ∷ [])) ss in
      let kept : position r (assign r (m, ss') groups) ≡ some i =
        rw (position-assign r r (m, ss') groups, p) in
      let changed : modify j (add_item x) (map_values scope_group ss) ≡ map_values scope_group ss' =
        modify-map_values scope_group s ss j (add_item x) q k refl in
      (
        rw h.0 (modify-map_values resource_group r groups i (add_item_at j x) p l (rw changed)),
        λ r'. rw (position_kept r r' (m, ss') groups l) (h.1 r'),
        λ r' s' i'. ground (
          arith,
          h.2 r' s' i',
          place-assign r s' r' m ss' groups i kept,
          position_kept s s' (n, xs ++ (x ∷ [])) ss k,
          bytes_beq_iff r r',
        ),
      )
