-- ===== src/Otlp/Grouping/Errors.antt =====
-- The exceptions that leave the converters' loop.
use opentelemetry_php_distro.Prelude.{
  ℕ, ◌≡◌, refl, List, [], ◌∷◌, lookup, bytes_eq, ◌⊎◌, inl, inr, Option-cases,
}
use opentelemetry_php_distro.Otlp.Zval.{
  Zval, Elements, Error, Result, ok, error, ◌>>=◌, array, values,
}
use opentelemetry_php_distro.Otlp.Grouping.{
  Located, Converter, composite_key, find_or_add_resource, find_or_add_scope, convert_next,
  convert_items, convert_batch, nothing_pending, Pending,
}

bind_error :
    {A B : Type 0} {e : Error} (call : Result A) (next : A → Result B)
    → (call >>= next) ≡ error e
    → (call ≡ error e) ⊎ ((value : A) × (call ≡ ok value) × (next value ≡ error e))
bind_error (error e) next thrown = inl cc
bind_error (ok value) next thrown = inr (value, refl, thrown)

module _ {R S I : Type 0} (c : Converter R S I) where
  -- What is thrown for one item: where it is located, or by a conversion.
  abbrev pub Raises : Error → Zval → Type 0
  Raises e item =
      (c.locate item ≡ error e)
      ⊎ ((at : Located) × (c.locate item ≡ ok at)
          × ((c.convert_resource at.resource ≡ error e)
              ⊎ (c.convert_scope at.scope ≡ error e)
              ⊎ (c.convert_item item ≡ error e)))

  abbrev pub SomeRaises : Error → List Zval → Type 0
  SomeRaises e [] = ⊥
  SomeRaises e (item ∷ items) = Raises e item ⊎ SomeRaises e items

  find_or_add_resource_error :
      (at : Located) (st : Pending R S I) (e : Error)
      → find_or_add_resource c at st ≡ error e
      → c.convert_resource at.resource ≡ error e
  unfolding find_or_add_resource
  find_or_add_resource_error at st e h =
      elim (Option-cases (lookup at.resource_id st.resource_map)) [
        | inl missing ↦
            elim (bind_error (c.convert_resource at.resource) _
              (rw (find_or_add_resource, missing) at h)) [
                | inl thrown ↦ thrown
                | inr (r, _, impossible) ↦ absurd (cc)
              ]
        | inr (i, hit) ↦ absurd (let impossible = rw (find_or_add_resource, hit) at h in cc)
      ]

  find_or_add_scope_error :
      (at : Located) (i : ℕ) (st : Pending R S I) (e : Error)
      → find_or_add_scope c at i st ≡ error e
      → c.convert_scope at.scope ≡ error e
  unfolding find_or_add_scope
  find_or_add_scope_error at i st e h =
      elim (Option-cases (lookup (composite_key at.resource_id at.scope_id) st.scope_map)) [
        | inl missing ↦
            elim (bind_error (c.convert_scope at.scope) _ (rw (find_or_add_scope, missing) at h)) [
              | inl thrown ↦ thrown
              | inr (r, _, impossible) ↦ absurd (cc)
            ]
        | inr (i, hit) ↦ absurd (let impossible = rw (find_or_add_scope, hit) at h in cc)
      ]

  convert_next_error :
      (item : Zval) (st : Pending R S I) (e : Error)
      → convert_next c item st ≡ error e
      → Raises e item
  unfolding convert_next
  convert_next_error item st e h = elim (bind_error (c.locate item) _ h) [
    | inl thrown ↦ inl thrown
    | inr (at, located, h') ↦ inr (
      at,
      located,
      elim (bind_error (find_or_add_resource c at st) _ h') [
        | inl thrown ↦ inl (find_or_add_resource_error at st e thrown)
        | inr (found, _, h2) ↦
            inr (elim (bind_error (find_or_add_scope c at found.0 found.1) _ h2) [
              | inl thrown ↦ inl (find_or_add_scope_error at found.0 found.1 e thrown)
              | inr (placed, _, h3) ↦ inr (elim (bind_error (c.convert_item item) _ h3) [
                | inl thrown ↦ thrown
                | inr (x, _, impossible) ↦ absurd (cc)
              ])
            ])
      ],
    )
  ]

  convert_items_error :
      (items : List Zval) (st : Pending R S I) (e : Error)
      → convert_items c items st ≡ error e
      → SomeRaises e items
  unfolding convert_items
  convert_items_error [] st e h = absurd (cc)
  convert_items_error (item ∷ items) st e h = elim (bind_error (convert_next c item st) _ h) [
    | inl thrown ↦ inl (convert_next_error item st e thrown)
    | inr (st', _, h') ↦ inr (convert_items_error items st' e h')
  ]

  -- The conversion of an array throws only what is thrown for one of its items: where the item is
  -- located, or by the conversion of the item, of its resource or of its scope. A batch for whose
  -- items nothing is thrown is converted.
  pub convert_batch_error :
      (next : ℕ) (es : Elements) (e : Error)
      → convert_batch c (array next es) ≡ error e
      → SomeRaises e (values es)
  unfolding convert_batch
  convert_batch_error next es e h =
      elim (bind_error (convert_items c (values es) nothing_pending) _ h) [
        | inl thrown ↦ convert_items_error (values es) nothing_pending e thrown
        | inr (st, _, impossible) ↦ absurd (cc)
      ]
