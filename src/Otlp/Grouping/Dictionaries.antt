-- ===== src/Otlp/Grouping/Dictionaries.antt =====
-- Positions of keys in a dictionary whose entries stand in the order of insertion, and changes
-- through them.
use opentelemetry_php_distro.Prelude.{
  ℕ, zero, suc, ◌≡◌, refl, ap, Bool, true, false, List, [], ◌∷◌, ◌++◌, Option, none, some, length,
  lookup, assign, Eq, bytes_eq, bytes_beq_iff, arith, if◌then◌else◌, Bool-cases, inl, inr,
}
use opentelemetry_php_distro.Otlp.Grouping.{modify}

abbrev pub position_or : Option ℕ → Bool → ℕ → Option ℕ
position_or (some i) same n = some i
position_or none true n = some n
position_or none false n = none

module _ {ℓ κ} {K : Type κ} {V : Type ℓ} ⦃e : Eq K⦄ where
  abbrev pub position : K → List (K × V) → Option ℕ
  position k [] = none
  position k ((j, v) ∷ m) =
      if e.beq j k then some 0 else elim (position k m) [ none ↦ none | some i ↦ some (suc i) ]

module _ {ℓ κ} {K : Type κ} {V : Type ℓ} ⦃e : Eq K⦄ where
  pub position_absent : (k : K) (m : List (K × V)) → lookup k m ≡ none → position k m ≡ none
  position_absent k [] h = refl
  position_absent k ((j, v) ∷ m) h = ground (arith, position_absent k m)

  pub position_present :
      (k : K) (m : List (K × V)) {v : V} → lookup k m ≡ some v → (i : ℕ) × (position k m ≡ some i)
  position_present k [] h = absurd (cc)
  position_present k ((j, w) ∷ m) h = elim (Bool-cases (e.beq j k)) [
    | inl hit ↦ (0, ground arith)
    | inr miss ↦
        let found = position_present k m (rw miss at h) in (suc found.0, ground (arith, found.1))
  ]

  pub position-assign :
      (k j : K) (v : V) (m : List (K × V))
      → position j (assign k v m) ≡ position_or (position j m) (e.beq k j) (length m)
  position-assign k j v [] = ground (arith, e.beq_iff k j)
  position-assign k j v ((i, w) ∷ m) =
      ground (arith, e.beq_iff k j, e.beq_iff i k, e.beq_iff i j, position-assign k j v m)

  pub position_kept :
      (k j : K) (v : V) (m : List (K × V)) {w : V}
      → lookup k m ≡ some w
      → position j (assign k v m) ≡ position j m
  position_kept k j v [] h = absurd (cc)
  position_kept k j v ((i, u) ∷ m) {w = w} h =
      ground (arith, e.beq_iff k j, e.beq_iff i k, e.beq_iff i j, position_kept k j v m {w = w})

module _ {ℓ κ μ} {K : Type κ} {V : Type ℓ} {W : Type μ} (h : V → W) where
  -- The values in their order.
  abbrev pub map_values : List (K × V) → List W
  map_values [] = []
  map_values ((k, v) ∷ m) = h v ∷ map_values m

module _ {ℓ κ μ} {K : Type κ} {V : Type ℓ} {W : Type μ} ⦃e : Eq K⦄ (h : V → W) where
  pub length-map_values : (m : List (K × V)) → length (map_values h m) ≡ length m
  length-map_values [] = refl
  length-map_values ((k, v) ∷ m) = ap suc (length-map_values m)

  pub map_values-assign :
      (k : K) (v : V) (m : List (K × V))
      → lookup k m ≡ none
      → map_values h (assign k v m) ≡ map_values h m ++ (h v ∷ [])
  map_values-assign k v [] n = refl
  map_values-assign k v ((j, w) ∷ m) n = ground (arith, map_values-assign k v m)

  pub modify-map_values :
      (k : K) (m : List (K × V)) (i : ℕ) {v v' : V} (f : W → W)
      → position k m ≡ some i
      → lookup k m ≡ some v
      → f (h v) ≡ h v'
      → modify i f (map_values h m) ≡ map_values h (assign k v' m)
  modify-map_values k [] i f p l q = absurd (cc)
  modify-map_values k ((j, w) ∷ m) zero f p l q = ground (arith, position_absent k m)
  modify-map_values k ((j, w) ∷ m) (suc i) {v = v} {v' = v'} f p l q =
      ground (arith, modify-map_values k m i {v = v} {v' = v'} f)

pub assign_same {ℓ} :
    {V : Type ℓ} (k : List ℕ) (v : V) (m : List (List ℕ × V))
    → lookup k m ≡ some v
    → assign k v m ≡ m
assign_same k v [] h = cc
assign_same k v ((j, w) ∷ m) h = ground (arith, bytes_beq_iff j k, assign_same k v m)

pub assign-assign {ℓ} :
    {V : Type ℓ} (k : List ℕ) (v w : V) (m : List (List ℕ × V))
    → assign k v (assign k w m) ≡ assign k v m
assign-assign k v w [] = ground (arith, bytes_beq_iff k k)
assign-assign k v w ((j, u) ∷ m) =
    ground (arith, bytes_beq_iff k k, bytes_beq_iff j k, assign-assign k v w m)
